-- ===== src/Examples/Plans.antt =====
-- A pass over one feed with two releases: BuildObserved in internal/candidate.
use aninode.Prelude.{
  ◌≡◌, refl, Bool, true, false, Text, codes, pos, List, [], ◌∷◌, Option, some, arith, text_eq,
  text_lt, sort_stable, insert_stable, ◌+ℤ◌, ◌-ℤ◌,
}
use aninode.Release.{Release}
use aninode.Candidate.Select.{
  group_key, same_key, add_to_group, group_candidates, contains_index, mark_chosen, conflicts_of,
  supersede, supersede_rest, select_season, supersede_all, select_sorted, select_movie,
  select_group, select_groups, select_best,
}
use aninode.Candidate.Schedule.{
  previous_selection, latest, better_selection, next_selection, schedule, ends_before,
  best_selection,
}
use aninode.Candidate.Order.{
  priority_of, better_by_order, better, ranked_before, first_difference, better_ranked,
}
use aninode.Candidate.Evaluate.{
  crosses, with_keys, start_candidate, finish, evaluate_last, evaluate_series, evaluate_movie,
  evaluate,
}
use aninode.Candidate.Build.{
  seen_before, without_repeats, sources_for_entry, sorted_entries, find_source, add_candidate,
  concerns, add_releases, add_sources, add_entries, observed_candidates, build_observed,
}
use aninode.Candidate.Score.{
  continued_group, resolution_points, kind_points, points_if, switch_points, trait_points,
  continues_group, trait_score, continuity_score,
}
use aninode.Candidate.{is_movie, is_selected, at, update, Identity}
use aninode.Catalog.{
  sole, of_source_season, containing, nearer, nearest, unambiguous, project_without_range,
  project_seasonless, project, Entry,
}
use aninode.Catalog.Stable.{
  comparable_key, stable_group, stable_observed_group, stable_observed_group_any, merge_trait,
  merge_evidence, collect, stable_traits, effective_sources,
}
use aninode.ReleaseFilter.{
  reject_reason, allows, holds, same, comparable, trim_space, trim_left, is_space,
}
use aninode.Episode.{end_of, overlaps, same_slot, width}
use aninode.Release.{time_eq, after}
use aninode.MediaName.{reliable_episode_evidence}
use aninode.Candidate.Build.Plan.{build_observed-no_overlap}
use aninode.Examples.Evaluation.{entry, evidence, episode_45, same_letters, no_technical}
use aninode.Examples.Candidates.{sources}

abbrev pub by_guid : Release → Option Identity
by_guid r = some (record { id = r.guid; kind = codes "guid"; canonical = r.guid })

abbrev every_title : Entry → Release → Bool
every_title w r = true

-- The episodes 45 and 46, in a feed that every source serves.
abbrev pub feed : Text → List Release
feed id =
    record episode_45 { guid = codes "a" }
    ∷ record episode_45 {
      guid = codes "b";
      components = record episode_45.components { episode_start = pos 46 };
    }
    ∷ []

abbrev enabled : List Text
enabled = codes "feed" ∷ []

plan_test :
    (is_selected (
        at
          (build_observed same_letters by_guid no_technical every_title sources enabled feed
            (λ k. evidence)
            (entry ∷ []))
          0)
      ≡ true)
    × (is_selected (
          at
            (build_observed same_letters by_guid no_technical every_title sources enabled feed
              (λ k. evidence)
              (entry ∷ []))
            1)
        ≡ true)
    × (is_movie (
          at
            (observed_candidates same_letters by_guid no_technical every_title sources enabled feed
              (λ k. evidence)
              (entry ∷ []))
            0)
        ≡ false)
    × (is_movie (
          at
            (observed_candidates same_letters by_guid no_technical every_title sources enabled feed
              (λ k. evidence)
              (entry ∷ []))
            1)
        ≡ false)
unfolding text_eq text_lt sort_stable insert_stable ◌+ℤ◌ ◌-ℤ◌ group_key same_key add_to_group
    group_candidates contains_index mark_chosen conflicts_of supersede supersede_rest select_season
    supersede_all select_sorted select_movie select_group select_groups select_best
    previous_selection latest better_selection next_selection schedule ends_before best_selection
    priority_of better_by_order better ranked_before first_difference better_ranked crosses
    with_keys start_candidate finish evaluate_last evaluate_series evaluate_movie evaluate
    seen_before without_repeats sources_for_entry sorted_entries find_source add_candidate concerns
    add_releases add_sources add_entries observed_candidates build_observed continued_group
    resolution_points kind_points points_if switch_points trait_points continues_group trait_score
    continuity_score is_movie is_selected at update sole of_source_season containing nearer nearest
    unambiguous project_without_range project_seasonless project comparable_key stable_group
    stable_observed_group stable_observed_group_any merge_trait merge_evidence collect stable_traits
    effective_sources reject_reason allows holds same comparable trim_space trim_left is_space
    end_of overlaps same_slot width time_eq after reliable_episode_evidence
plan_test = (refl, refl, refl, refl)

build_observed-no_overlap_example :
    overlaps
      (at
        (observed_candidates same_letters by_guid no_technical every_title sources enabled feed
          (λ k. evidence)
          (entry ∷ []))
        0).episode
      (at
        (observed_candidates same_letters by_guid no_technical every_title sources enabled feed
          (λ k. evidence)
          (entry ∷ []))
        1).episode
    ≡ false
build_observed-no_overlap_example =
    build_observed-no_overlap same_letters by_guid no_technical every_title sources enabled feed
      (λ k. evidence) (entry ∷ []) 0 1 plan_test.2 plan_test.3 plan_test.0 plan_test.1 (omega arith)
