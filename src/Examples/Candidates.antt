-- ===== src/Examples/Candidates.antt =====
-- Three candidates of one season, and what the selection does with them: internal/candidate.
use aninode.Prelude.{
  ℕ, true, false, ◌≡◌, refl, inl, inr, List, [], ◌∷◌, All, In, In-All, Ordered, Text, codes, ℤ, pos,
  ◌≤ℤ◌, ◌<ℤ◌, arith, Option, some, text_eq, text_lt, sort_stable, insert_stable, ◌+ℤ◌, ◌-ℤ◌,
}
use aninode.Episode.{end_of, overlaps, same_slot, width}
use aninode.Release.{after, time_eq}
use aninode.Candidate.{Candidate, no_candidate, at, selected, is_selected, is_movie, update}
use aninode.Candidate.Order.{
  ContentSource, priority_of, better, better_by_order, better_ranked, first_difference,
  ranked_before,
}
use aninode.Candidate.Schedule.{
  episode_at, best_selection, ends_before, schedule, latest, better_selection, next_selection,
  previous_selection,
}
use aninode.Candidate.Schedule.Chains.{total_width}
use aninode.Candidate.Schedule.Subsets.{Apart}
use aninode.Candidate.Schedule.Best.{best_selection_sound, best_selection_greatest}
use aninode.Candidate.Select.{
  group_key, select_best, select_groups, group_candidates, add_to_group, same_key, select_group,
  select_season, supersede_rest, contains_index, conflicts_of, mark_chosen, select_movie,
  select_sorted, supersede, supersede_all,
}
use aninode.Candidate.Select.Shrinks.{Shrinks}
use aninode.Candidate.Select.Disjoint.{
  select_best-Shrinks, select_best-disjoint, select_best-no_overlap,
}

abbrev candidate : Text → ℤ → ℤ → ℕ → Candidate
candidate id start end location = record no_candidate {
  media_type = codes "series";
  entry_key = codes "show";
  source_id = codes "feed";
  release = record no_candidate.release {
    published_at = record { instant = pos 7; location = location };
  };
  episode = record {
    entry_key = codes "show";
    season = pos 1;
    episode_start = start;
    episode_end = end;
    revision = pos 1;
    special = false;
  };
  acquisition = record { id = id; kind = []; canonical = [] };
  decision = selected;
}

abbrev pub sources : List (Text × ContentSource)
sources =
    (codes "feed", record { id = codes "feed"; provider = []; enabled = true; priority = pos 1 })
    ∷ []

abbrev even_score : Option (Candidate → ℤ)
even_score = some (λ c. pos 0)

-- The second candidate overlaps both others.
abbrev three : List Candidate
three =
    candidate (codes "a") (pos 1) (pos 2) 0
    ∷ candidate (codes "b") (pos 2) (pos 3) 0
    ∷ candidate (codes "c") (pos 3) (pos 4) 0
    ∷ []

abbrev all_three : List ℕ
all_three = 0 ∷ 1 ∷ 2 ∷ []

abbrev outer_two : List ℕ
outer_two = 0 ∷ 2 ∷ []

All-slots :
    All
      (λ x. All (λ y. same_slot (at three x).episode (at three y).episode ≡ true) all_three)
      all_three
unfolding at same_slot text_eq
All-slots =
    ((refl, (refl, (refl, tt))), ((refl, (refl, (refl, tt))), ((refl, (refl, (refl, tt))), tt)))

one_slot :
    (x y : ℕ)
    → In x all_three
    → In y all_three
    → same_slot (at three x).episode (at three y).episode ≡ true
one_slot x y i j =
    In-All (λ b. same_slot (at three x).episode (at three b).episode ≡ true) y all_three j
      (In-All (λ a. All (λ b. same_slot (at three a).episode (at three b).episode ≡ true) all_three)
        x all_three i All-slots)

All-start : All (λ x. pos 0 <ℤ (at three x).episode.episode_start) all_three
unfolding at
All-start = (omega arith, (omega arith, (omega arith, tt)))

start_positive : (x : ℕ) → In x all_three → pos 0 <ℤ (at three x).episode.episode_start
start_positive x i =
    In-All (λ a. pos 0 <ℤ (at three a).episode.episode_start) x all_three i All-start

outer-Ordered : Ordered (Apart (episode_at sources even_score three)) outer_two
unfolding at overlaps same_slot text_eq end_of
outer-Ordered = ((refl, tt), (tt, tt))

outer_inside : All (λ x. In x all_three) outer_two
outer_inside = (inl refl, (inr (inr (inl refl)), tt))

-- The two outer candidates stay selected, and the one between them does not.
verdicts_test :
    (is_selected (at (select_best sources even_score three) 0) ≡ true)
    × (is_selected (at (select_best sources even_score three) 2) ≡ true)
    × (is_selected (at (select_best sources even_score three) 1) ≡ false)
unfolding is_selected at select_best select_groups group_candidates add_to_group same_key group_key
    is_movie text_eq select_group select_season supersede_rest sort_stable ends_before end_of
    contains_index best_selection schedule latest better better_by_order better_ranked
    first_difference priority_of ranked_before better_selection next_selection previous_selection
    conflicts_of mark_chosen select_movie select_sorted supersede supersede_all update overlaps
    same_slot width ◌+ℤ◌ ◌-ℤ◌ insert_stable text_lt after time_eq
verdicts_test = (refl, refl, refl)

-- One publication time, read from two feeds with the same offset.
tie_test :
    better sources even_score
      (candidate (codes "a") (pos 1) (pos 1) 1)
      (candidate (codes "b") (pos 1) (pos 1) 2)
    ≡ false
unfolding better better_by_order priority_of text_eq time_eq after
tie_test = refl

season_test : group_key (at three 0) ≡ group_key (at three 2)
unfolding group_key at is_movie text_eq
season_test = refl

series_test : (is_movie (at three 0) ≡ false) × (is_movie (at three 2) ≡ false)
unfolding at is_movie text_eq
series_test = (refl, refl)

entry_test :
    ((at three 0).episode.entry_key ≡ (at three 0).entry_key)
    × ((at three 2).episode.entry_key ≡ (at three 2).entry_key)
unfolding at
entry_test = (refl, refl)

best_selection_greatest_example :
    total_width (episode_at sources even_score three) outer_two
    ≤ℤ (best_selection sources even_score three all_three).coverage
best_selection_greatest_example =
    best_selection_greatest sources even_score three all_three one_slot start_positive outer_two
      outer_inside outer-Ordered

best_selection_sound_example :
    All (λ x. In x all_three) (best_selection sources even_score three all_three).indexes
    × Ordered
        (Apart (episode_at sources even_score three))
        (best_selection sources even_score three all_three).indexes
    × ((best_selection sources even_score three all_three).coverage
        ≡ total_width
            (episode_at sources even_score three)
            (best_selection sources even_score three all_three).indexes)
best_selection_sound_example = best_selection_sound sources even_score three all_three

select_best-no_overlap_example : overlaps (at three 0).episode (at three 2).episode ≡ false
select_best-no_overlap_example =
    select_best-no_overlap sources even_score three 0 2 entry_test.0 entry_test.1 series_test.0
      series_test.1 verdicts_test.0 verdicts_test.1 (omega arith)

select_best-disjoint_example :
    (is_movie (at three 0) ≡ false) × (overlaps (at three 0).episode (at three 2).episode ≡ false)
select_best-disjoint_example =
    select_best-disjoint sources even_score three 0 2 season_test verdicts_test.0 verdicts_test.1
      (omega arith)

select_best-Shrinks_example : Shrinks three (select_best sources even_score three)
select_best-Shrinks_example = select_best-Shrinks sources even_score three
