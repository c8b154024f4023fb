-- ===== src/Candidate/Select.antt =====
-- selectBestByScore: the groups of the selected candidates, and the verdict on each group. The Go map
-- of groups is a list of pairs here, in the order in which the keys were first met; its keys are the
-- parts that the Go code formats into one string, which determines them.
pub mod Shrinks
pub mod Grouping
pub mod Verdicts
pub mod Disjoint
use aninode.Prelude.{
  ℕ, zero, suc, ◌+◌, Bool, true, false, not, ◌&&◌, ◌||◌, if◌then◌else◌, ◌==◌, leb, ltb, ℤ, eqb_ℤ,
  List, [], ◌∷◌, ◌++◌, Text, text_eq, Option, length, sort_stable,
}
use aninode.Episode.{overlaps}
use aninode.Candidate.{
  Candidate, at, update, is_movie, is_selected, superseded, best_for_movie, superseded_by,
  best_release_set, overlap_superseded_by, superseded_by_better_set,
}
use aninode.Candidate.Order.{ContentSource, better}
use aninode.Candidate.Schedule.{best_selection, ends_before}

pub data GroupKey : Type 0 where
  movie : Text → GroupKey
  season : Text → ℤ → Bool → GroupKey

unfoldable pub group_key : Candidate → GroupKey
group_key c =
    if is_movie c then movie c.entry_key else season c.entry_key c.episode.season c.episode.special

unfoldable pub same_key : GroupKey → GroupKey → Bool
same_key (movie e) (movie f) = text_eq e f
same_key (movie e) (season f n b) = false
same_key (season e m a) (movie f) = false
same_key (season e m a) (season f n b) = text_eq e f && eqb_ℤ m n && (if a then b else not b)

abbrev pub Groups : Type 0
Groups = List (GroupKey × List ℕ)

-- groups[key] = append(groups[key], i)
unfoldable pub add_to_group : GroupKey → ℕ → Groups → Groups
add_to_group key i [] = (key, i ∷ []) ∷ []
add_to_group key i ((k, idx) ∷ gs) =
    let rest = add_to_group key i gs in
    if same_key k key then (k, idx ++ i ∷ []) ∷ gs else (k, idx) ∷ rest

-- The first loop; `i` is the index of the first candidate of the list.
unfoldable pub group_candidates : ℕ → List Candidate → Groups → Groups
group_candidates i [] gs = gs
group_candidates i (c ∷ cs) gs =
    group_candidates (suc i) cs (if is_selected c then add_to_group (group_key c) i gs else gs)

-- chosen[i]
unfoldable pub contains_index : List ℕ → ℕ → Bool
contains_index [] i = false
contains_index (j ∷ js) i = j == i || contains_index js i

-- The loop that gives the chosen candidates their reason.
unfoldable pub mark_chosen : List ℕ → List Candidate → List Candidate
mark_chosen [] cs = cs
mark_chosen (i ∷ is) cs = mark_chosen is (update cs i (λ c. record c { reason = best_release_set }))

module _ (sources : List (Text × ContentSource)) (score : Option (Candidate → ℤ)) where
  -- The candidates of `is` that overlap candidate `i`.
  unfoldable pub conflicts_of : List Candidate → ℕ → List ℕ → List ℕ
  conflicts_of cs i [] = []
  conflicts_of cs i (winner ∷ is) =
      let rest = conflicts_of cs i is in
      if overlaps (at cs i).episode (at cs winner).episode then winner ∷ rest else rest

  -- The body of the last loop, for a candidate that was not chosen. Go visits the set of the chosen
  -- in any order; only the id in the reason can depend on it.
  unfoldable pub supersede : List ℕ → ℕ → List Candidate → List Candidate
  supersede chosen i cs =
      let ranked =
        sort_stable (λ a bx. better sources score (at cs a) (at cs bx))
          (conflicts_of cs i chosen) in
      update cs i (λ c. record c {
        decision = superseded;
        reason = elim ranked [
          | [] ↦ superseded_by_better_set
          | j ∷ js ↦ overlap_superseded_by (at cs j).acquisition.id
        ];
      })

  -- The last loop, over the sorted group.
  unfoldable pub supersede_rest : List ℕ → List ℕ → List Candidate → List Candidate
  supersede_rest chosen [] cs = cs
  supersede_rest chosen (i ∷ is) cs =
      supersede_rest chosen is (if contains_index chosen i then cs else supersede chosen i cs)

  -- The body of the loop over the groups, for a season.
  unfoldable pub select_season : List ℕ → List Candidate → List Candidate
  select_season idx cs =
      let chosen = (best_selection sources score cs idx).indexes in
      supersede_rest chosen (sort_stable (ends_before sources score cs) idx) (mark_chosen chosen cs)

  -- The loop over idx[1:] for a movie.
  unfoldable pub supersede_all : Text → List ℕ → List Candidate → List Candidate
  supersede_all winner [] cs = cs
  supersede_all winner (i ∷ is) cs =
      supersede_all winner is
        (update cs i (λ c. record c { decision = superseded; reason = superseded_by winner }))

  -- For a movie, on the sorted group.
  unfoldable pub select_sorted : List ℕ → List Candidate → List Candidate
  select_sorted [] cs = cs
  select_sorted (winner ∷ rest) cs =
      supersede_all (at cs winner).acquisition.id rest
        (update cs winner (λ c. record c { reason = best_for_movie }))

  unfoldable pub select_movie : List ℕ → List Candidate → List Candidate
  select_movie idx cs =
      select_sorted (sort_stable (λ i j. better sources score (at cs i) (at cs j)) idx) cs

  -- The body of the loop over the groups.
  unfoldable pub select_group : List ℕ → List Candidate → List Candidate
  select_group [] cs = cs
  select_group (i ∷ []) cs = cs
  select_group (i ∷ j ∷ is) cs =
      if is_movie (at cs i) then select_movie (i ∷ j ∷ is) cs else select_season (i ∷ j ∷ is) cs

  unfoldable pub select_groups : Groups → List Candidate → List Candidate
  select_groups [] cs = cs
  select_groups ((k, idx) ∷ gs) cs = select_groups gs (select_group idx cs)

  -- selectBestByScore
  unfoldable pub select_best : List Candidate → List Candidate
  select_best cs = select_groups (group_candidates 0 cs []) cs
