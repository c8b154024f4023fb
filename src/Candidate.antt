-- ===== src/Candidate.antt =====
-- internal/candidate/plan.go: download candidates of one planning pass, and the choice among them.
-- The messages in Reason are constructors.
pub mod Order
pub mod Schedule
pub mod Select
pub mod Evaluate
pub mod Score
pub mod Build
pub mod Bound
use aninode.Prelude.{
  ℕ, zero, suc, Bool, true, false, if◌then◌else◌, Text, text_eq, codes, ℤ, pos, List, [], ◌∷◌,
  Option, none, some,
}
use aninode.MediaName.{no_components}
use aninode.Episode.{Key}
use aninode.Release.{Release}
use aninode.ReleaseFilter.{Dimension}

pub data Decision : Type 0 where
  selected filtered duplicate invalid superseded : Decision

pub data Reason : Type 0 where
  empty : Reason
  filtered_by : Dimension → Reason
  duplicate_release : Reason
  no_episode_identity : Reason
  unmapped_season : Reason
  crosses_season : Reason
  no_acquisition_identity : Reason
  wrong_media_type : Reason
  best_for_movie : Reason
  superseded_by : Text → Reason
  best_release_set : Reason
  overlap_superseded_by : Text → Reason
  superseded_by_better_set : Reason

-- internal/acquisition: Identity
pub record Identity : Type 0 where
  pub id : Text
  pub kind : Text
  pub canonical : Text

pub record Candidate : Type 0 where
  pub media_type : Text
  pub entry_key : Text
  pub source_id : Text
  pub release : Release
  pub source_episode : Key
  pub episode : Key
  pub acquisition : Identity
  pub decision : Decision
  pub reason : Reason
  pub source_folder : Text

abbrev pub media_movie : Text
media_movie = codes "movie"

unfoldable pub is_movie : Candidate → Bool
is_movie c = text_eq c.media_type media_movie

unfoldable pub is_selected : Candidate → Bool
is_selected c = elim c.decision [ selected ↦ true | _ ↦ false ]

-- The zero value of the struct.
abbrev pub no_key : Key
no_key = record {
  entry_key = [];
  season = pos 0;
  episode_start = pos 0;
  episode_end = pos 0;
  revision = pos 0;
  special = false;
}

abbrev pub no_candidate : Candidate
no_candidate = record {
  media_type = [];
  entry_key = [];
  source_id = [];
  release = record {
    media_type = [];
    provider = [];
    title = [];
    normalized_title = [];
    media_name = [];
    name_source = [];
    info_hash = [];
    components = no_components;
    guid = [];
    page_url = [];
    download_url = [];
    published_at = record { instant = pos 0; location = 0 };
    group = [];
    episode = [];
    resolution = [];
    subtitle = [];
  };
  source_episode = no_key;
  episode = no_key;
  acquisition = record { id = []; kind = []; canonical = [] };
  decision = invalid;
  reason = empty;
  source_folder = [];
}

-- p.Candidates[i]. The indices of the package come from a `range` loop over the same slice; out of
-- range, where Go panics, this is the zero value.
unfoldable pub at : List Candidate → ℕ → Candidate
at [] i = no_candidate
at (c ∷ cs) zero = c
at (c ∷ cs) (suc i) = at cs i

-- p.Candidates[i].Decision, p.Candidates[i].Reason = …
unfoldable pub update : List Candidate → ℕ → (Candidate → Candidate) → List Candidate
update [] i f = []
update (c ∷ cs) zero f = f c ∷ cs
update (c ∷ cs) (suc i) f = c ∷ update cs i f
