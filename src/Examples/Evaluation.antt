-- ===== src/Examples/Evaluation.antt =====
-- A release with an absolute episode number, and what it becomes: internal/catalog, internal/candidate.
use aninode.Prelude.{
  ◌↔◌, ◌<ℤ◌, ℕ, ◌≡◌, refl, ◌⊎◌, true, false, Text, text_eq, codes, pos, negsuc, ◌+ℤ◌, List, [], ◌∷◌,
  Option, none, some,
}
use aninode.MediaName.{no_components}
use aninode.Release.{Release}
use aninode.ReleaseFilter.{reject_reason, allows, same, comparable, trim_space, trim_left, is_space}
use aninode.Catalog.{
  Entry, Evidence, project, sole, containing, nearest, nearer, unambiguous, project_seasonless,
}
use aninode.Catalog.Projection.{IsProjected, project_iff}
use aninode.Catalog.Stable.{
  comparable_key, stable_group, stable_observed_group, stable_observed_group_any,
}
use aninode.Candidate.{Candidate, Identity, no_candidate, is_selected, media_movie}
use aninode.Candidate.Evaluate.{
  evaluate, evaluate_series, evaluate_last, start_candidate, crosses, with_keys, finish,
}
use aninode.Candidate.Evaluate.Verdict.{IsEligible, SpansTargets, evaluate_lem}
use aninode.Candidate.Score.{TechnicalTraits, continued_group, continues_group}

abbrev pub entry : Entry
entry = record {
  key = codes "show";
  media_type = codes "series";
  title = codes "show";
  year = pos 0;
  seasons = pos 1 ∷ pos 2 ∷ [];
  enabled = true;
  sources = [];
  filters = record { groups = []; resolutions = []; subtitles = [] };
}

-- The folder of season 2 holds the episodes 41 to 43, which are its first three.
abbrev pub season_two : Evidence
season_two = record {
  folder = codes "two";
  target_season = pos 2;
  episode_offset = negsuc 39;
  source_season = pos 0;
  source_season_known = false;
  min_episode = pos 41;
  max_episode = pos 43;
  episode_count = pos 3;
  observed_groups = [];
  observed_resolutions = [];
  observed_subtitles = [];
  stable_group = codes "Abc";
  stable_group_n = pos 3;
  stable_resolution = [];
  stable_subtitle = [];
  stable_source = [];
  stable_source_kind = [];
  stable_video_codec = [];
  stable_bit_depth = [];
  stable_audio_codec = [];
}

abbrev pub evidence : List Evidence
evidence = season_two ∷ []

abbrev pub episode_45 : Release
episode_45 = record no_candidate.release {
  group = codes "ABC";
  components = record no_components { episode_start = pos 45 };
}

abbrev pub same_letters : ℕ → ℕ
same_letters c = c

abbrev any_identity : Release → Option Identity
any_identity r = some (record { id = codes "x"; kind = codes "guid"; canonical = codes "x" })

project_test :
    project entry evidence (pos 0) false (pos 45)
    ≡ some (record { season = pos 2; episode = pos 5; folder = codes "two" })
unfolding project project_seasonless containing sole nearest nearer unambiguous ◌+ℤ◌
project_test = refl

project_iff_example :
    (project entry evidence (pos 0) false (pos 45)
      ≡ some (record { season = pos 2; episode = pos 5; folder = codes "two" }))
    ↔ ((pos 0 <ℤ pos 45)
        × IsProjected entry evidence
            (pos 0)
            false
            (pos 45)
            (record { season = pos 2; episode = pos 5; folder = codes "two" }))
project_iff_example =
    project_iff entry evidence (pos 0) false (pos 45)
      (record { season = pos 2; episode = pos 5; folder = codes "two" })

evaluate_test :
    is_selected (evaluate same_letters any_identity entry (codes "feed") episode_45 evidence) ≡ true
unfolding is_selected evaluate evaluate_series evaluate_last start_candidate crosses with_keys
    finish reject_reason allows project project_seasonless containing sole nearest nearer
    unambiguous ◌+ℤ◌ text_eq
evaluate_test = refl

evaluate_lem_example :
    (reject_reason same_letters entry.filters (codes "ABC") [] [] ≡ none)
    × IsEligible entry episode_45
        (evaluate same_letters any_identity entry (codes "feed") episode_45 evidence)
        (any_identity episode_45)
    × ((text_eq (codes "series") media_movie ≡ true)
        ⊎ SpansTargets entry episode_45 evidence
            (evaluate same_letters any_identity entry (codes "feed") episode_45 evidence))
evaluate_lem_example =
    evaluate_lem same_letters any_identity entry (codes "feed") episode_45 evidence evaluate_test

stable_test : stable_observed_group evidence (pos 2) ≡ (codes "Abc", true)
unfolding stable_observed_group stable_group comparable_key text_eq ◌+ℤ◌
stable_test = refl

-- One candidate of the stable group, and one of another.
abbrev by_group : Text → Candidate
by_group group = record no_candidate {
  release = record episode_45 { group = group };
  episode = record no_candidate.episode { season = pos 2 };
}

abbrev pub no_technical : Text → TechnicalTraits
no_technical name = record {
  source = [];
  source_kind = [];
  video_codec = [];
  bit_depth = [];
  audio_codec = [];
}

groups_test :
    (continues_group same_letters evidence (by_group (codes "Abc")) ≡ true)
    × (continues_group same_letters evidence (by_group (codes "xyz")) ≡ false)
unfolding continues_group continued_group stable_observed_group stable_observed_group_any
    stable_group comparable_key text_eq ◌+ℤ◌ same comparable trim_space trim_left is_space
groups_test = (refl, refl)
