-- ===== src/Examples/Searches.antt =====
-- A search of one source with two releases: buildBoundPlan in internal/candidate.
use aninode.Prelude.{
  ◌≡◌, refl, true, false, Text, codes, List, [], ◌∷◌, arith, text_eq, text_lt, sort_stable,
  insert_stable, ◌+ℤ◌, ◌-ℤ◌,
}
use aninode.Release.{Release}
use aninode.Candidate.Select.{
  group_key, same_key, add_to_group, group_candidates, contains_index, mark_chosen, conflicts_of,
  supersede, supersede_rest, select_season, supersede_all, select_sorted, select_movie,
  select_group, select_groups, select_best,
}
use aninode.Candidate.Schedule.{
  previous_selection, latest, better_selection, next_selection, schedule, ends_before,
  best_selection,
}
use aninode.Candidate.Order.{
  priority_of, better_by_order, better, ranked_before, first_difference, better_ranked,
}
use aninode.Candidate.Evaluate.{
  crosses, with_keys, start_candidate, finish, evaluate_last, evaluate_series, evaluate_movie,
  evaluate,
}
use aninode.Candidate.Build.{
  seen_before, without_repeats, sources_for_entry, sorted_entries, find_source, add_candidate,
  concerns, add_releases, add_sources, add_entries, observed_candidates, build_observed,
}
use aninode.Candidate.Score.{
  continued_group, resolution_points, kind_points, points_if, switch_points, trait_points,
  continues_group, trait_score, continuity_score,
}
use aninode.Candidate.{is_movie, is_selected, at, update}
use aninode.Catalog.{
  sole, of_source_season, containing, nearer, nearest, unambiguous, project_without_range,
  project_seasonless, project,
}
use aninode.Catalog.Stable.{
  comparable_key, stable_group, stable_observed_group, stable_observed_group_any, merge_trait,
  merge_evidence, collect, stable_traits, effective_sources,
}
use aninode.ReleaseFilter.{
  reject_reason, allows, holds, same, comparable, trim_space, trim_left, is_space,
}
use aninode.Episode.{end_of, overlaps, same_slot, width}
use aninode.Release.{time_eq, after}
use aninode.MediaName.{reliable_episode_evidence}
use aninode.Examples.Evaluation.{entry, evidence, same_letters, no_technical}
use aninode.Examples.Candidates.{sources}
use aninode.Examples.Plans.{by_guid, feed}
use aninode.Candidate.Bound.{
  BoundPlan, bound, differs, add_bound, add_bound_releases, add_bound_source, add_bound_sources,
  sorted_sources, bound_plan, select_bound, build_bound_plan,
}
use aninode.Candidate.Bound.Disjoint.{build_bound_plan-no_overlap}

abbrev found : List (Text × List Release)
found = (codes "feed", feed (codes "feed")) ∷ []

abbrev plan : BoundPlan
plan =
    add_bound_source same_letters by_guid no_technical sources entry evidence (codes "feed")
      (feed (codes "feed"))
      (record { building = record { candidates = []; seen = [] }; warned = [] })

bound_test : bound_plan same_letters by_guid no_technical sources entry evidence found ≡ bound plan
unfolding bound_plan sorted_sources add_bound_sources find_source sort_stable insert_stable text_eq
bound_test = refl

searched_test :
    (is_selected
        (at (select_bound same_letters by_guid no_technical sources entry evidence plan).0 0)
      ≡ true)
    × (is_selected
          (at (select_bound same_letters by_guid no_technical sources entry evidence plan).0 1)
        ≡ true)
    × (is_movie (at plan.building.candidates 0) ≡ false)
    × (is_movie (at plan.building.candidates 1) ≡ false)
unfolding text_eq text_lt sort_stable insert_stable ◌+ℤ◌ ◌-ℤ◌ group_key same_key add_to_group
    group_candidates contains_index mark_chosen conflicts_of supersede supersede_rest select_season
    supersede_all select_sorted select_movie select_group select_groups select_best
    previous_selection latest better_selection next_selection schedule ends_before best_selection
    priority_of better_by_order better ranked_before first_difference better_ranked crosses
    with_keys start_candidate finish evaluate_last evaluate_series evaluate_movie evaluate
    seen_before without_repeats sources_for_entry sorted_entries find_source add_candidate concerns
    add_releases add_sources add_entries observed_candidates build_observed continued_group
    resolution_points kind_points points_if switch_points trait_points continues_group trait_score
    continuity_score is_movie is_selected at update sole of_source_season containing nearer nearest
    unambiguous project_without_range project_seasonless project comparable_key stable_group
    stable_observed_group stable_observed_group_any merge_trait merge_evidence collect stable_traits
    effective_sources reject_reason allows holds same comparable trim_space trim_left is_space
    end_of overlaps same_slot width time_eq after reliable_episode_evidence select_bound differs
    add_bound add_bound_releases add_bound_source
searched_test = (refl, refl, refl, refl)

build_bound_plan-no_overlap_example :
    (build_bound_plan same_letters by_guid no_technical sources entry evidence found
      ≡ bound (select_bound same_letters by_guid no_technical sources entry evidence plan))
    × (overlaps (at plan.building.candidates 0).episode (at plan.building.candidates 1).episode
        ≡ false)
build_bound_plan-no_overlap_example =
    build_bound_plan-no_overlap same_letters by_guid no_technical sources entry evidence found plan
      0 1 bound_test searched_test.2 searched_test.3 searched_test.0 searched_test.1
      (λ e. absurd (omega arith))
