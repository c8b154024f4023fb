-- ===== src/MediaName.antt =====
-- internal/medianame/model.go: the semantic components of one media name, as its consumers see
-- them. The parser that fills them (regular expressions) is not modelled.
use aninode.Prelude.{Bool, false, List, [], ℤ, pos, Text, text_eq, codes, ◌||◌}

pub record Components : Type 0 where
  pub title : Text
  pub year : ℤ
  pub season : ℤ
  pub season_explicit : Bool
  pub episode_start : ℤ
  pub episode_end : ℤ
  pub version : ℤ
  pub release_group : Text
  pub metadata : List Text
  pub resolution : Text
  pub subtitle : Text
  pub extension : Text
  pub episode_evidence : Text

-- ReliableEpisodeEvidence
unfoldable pub reliable_episode_evidence : Components → Bool
unfolding text_eq
reliable_episode_evidence c =
    text_eq c.episode_evidence (codes "explicit")
    || text_eq c.episode_evidence (codes "publication")
    || text_eq c.episode_evidence (codes "differential")

abbrev pub no_components : Components
no_components = record {
  title = [];
  year = pos 0;
  season = pos 0;
  season_explicit = false;
  episode_start = pos 0;
  episode_end = pos 0;
  version = pos 0;
  release_group = [];
  metadata = [];
  resolution = [];
  subtitle = [];
  extension = [];
  episode_evidence = [];
}
