-- ===== src/Candidate/Schedule/Optimal.antt =====
-- The dynamic programme chooses a set of greatest coverage from the sorted group.
use aninode.Prelude.{
  ℕ, true, false, ◌≡◌, refl, List, [], ◌∷◌, ◌++◌, ℤ, pos, ◌≤ℤ◌, ◌+ℤ◌, All-both, eqb_ℤ_iff, All,
  Ordered, Ordered-sort_stable, sort_stable, arith, Bool-cases, inl, inr, Text, Option,
}
use aninode.Episode.{Key, end_of, width}
use aninode.Candidate.{Candidate}
use aninode.Candidate.Order.{ContentSource}
use aninode.Candidate.Schedule.{
  Selection, no_selection, episode_at, better_selection, previous_selection, latest, next_selection,
  schedule, ends_before, best_selection,
}
use aninode.Candidate.Schedule.Chains.{
  EndsUpTo, EndsBefore, Best, Table, BestAmong-previous, Best-latest, Follows, included, excluded,
  stop, total_width, Pick,
}

-- The second list in reverse, in front of the first.
unfoldable pub reverse_onto : List ℕ → List ℕ → List ℕ
reverse_onto ds [] = ds
reverse_onto ds (i ∷ is) = reverse_onto (i ∷ ds) is

Best-none : (ep : ℕ → Key) → Best ep [] no_selection
unfolding Best total_width
Best-none ep = record {
  chain = [];
  picked = stop;
  fits = tt;
  indexes = refl;
  coverage = refl;
  greatest = λ c p f. none_covered c p;
}
  where
    none_covered : (c : List ℕ) → Pick (EndsBefore ep) c [] → total_width ep c ≤ℤ pos 0
    none_covered _ stop = omega arith

nothing_before : (P : ℕ → ℕ → Type 0) (is : List ℕ) → All (λ i. All (P i) []) is
nothing_before P [] = tt
nothing_before P (i ∷ is) = (tt, nothing_before P is)

module _ (sources : List (Text × ContentSource)) (score : Option (Candidate → ℤ))
    (cs : List Candidate) where
  preferred_covers :
      (a bx : Selection) → better_selection sources score cs a bx ≡ true → bx.coverage ≤ℤ a.coverage
  unfolding better_selection
  preferred_covers a bx h = ground (arith, eqb_ℤ_iff a.coverage bx.coverage)

  not_preferred_covers :
      (a bx : Selection)
      → better_selection sources score cs a bx ≡ false
      → a.coverage ≤ℤ bx.coverage
  unfolding better_selection
  not_preferred_covers a bx h = ground (arith, eqb_ℤ_iff a.coverage bx.coverage)

  next_selection-Best :
      (i : ℕ) (ds : List ℕ) (ss : List Selection)
      → Ordered (EndsUpTo (episode_at sources score cs)) ds
      → Table (episode_at sources score cs) ds ss
      → Best (episode_at sources score cs) (i ∷ ds) (next_selection sources score cs i ds ss)
  unfolding next_selection Follows
  next_selection-Best i ds ss o t =
      let ep = episode_at sources score cs in
      let previous = previous_selection ep (ep i).episode_start ds ss in
      let include : Selection = record {
        indexes = previous.indexes ++ i ∷ [];
        coverage = previous.coverage +ℤ width (ep i);
      } in
      let other = Best-latest ep ds ss t in
      let follows : Follows ep i ds previous include =
        (BestAmong-previous ep (ep i).episode_start ds ss o t, refl, refl) in
      elim (Bool-cases (better_selection sources score cs include (latest ss))) [
        | inl take ↦ rw take (
            included ep i ds previous include (latest ss) follows other
              (preferred_covers include (latest ss) take))
        | inr leave ↦ rw leave (
            excluded ep i ds previous include (latest ss) follows other
              (not_preferred_covers include (latest ss) leave))
      ]

  schedule-Best :
      (is ds : List ℕ) (ss : List Selection)
      → Ordered (EndsUpTo (episode_at sources score cs)) ds
      → Ordered (λ x y. EndsUpTo (episode_at sources score cs) y x) is
      → All (λ i. All (EndsUpTo (episode_at sources score cs) i) ds) is
      → Table (episode_at sources score cs) ds ss
      → Best (episode_at sources score cs) (reverse_onto ds is) (schedule sources score cs ds ss is)
        × Ordered (EndsUpTo (episode_at sources score cs)) (reverse_onto ds is)
  unfolding schedule reverse_onto
  schedule-Best [] ds ss o up all t = (Best-latest (episode_at sources score cs) ds ss t, o)
  schedule-Best (i ∷ is) ds ss o up all t =
      schedule-Best is (i ∷ ds) (next_selection sources score cs i ds ss ∷ ss) (all.0, o) up.1
        (All-both (λ j. EndsUpTo (episode_at sources score cs) j i) _ is up.0 all.1)
        (next_selection-Best i ds ss o t, t)

  sorted_ends :
      (idx : List ℕ)
      → Ordered
          (λ x y. EndsUpTo (episode_at sources score cs) y x)
          (sort_stable (ends_before sources score cs) idx)
  unfolding ends_before
  sorted_ends idx =
      Ordered-sort_stable (ends_before sources score cs)
        (λ x y. EndsUpTo (episode_at sources score cs) y x) (λ x y h. ends_refines x y h)
        (λ x y h. not_ends_refines x y h) (λ x y z h k. omega arith) idx
    where
      ends_refines :
          (x y : ℕ)
          → ends_before sources score cs x y ≡ true
          → EndsUpTo (episode_at sources score cs) y x
      ends_refines x y h = ground (
        arith,
        eqb_ℤ_iff (end_of (episode_at sources score cs x)) (end_of (episode_at sources score cs y)),
      )

      not_ends_refines :
          (x y : ℕ)
          → ends_before sources score cs y x ≡ false
          → EndsUpTo (episode_at sources score cs) y x
      not_ends_refines x y h = ground (
        arith,
        eqb_ℤ_iff (end_of (episode_at sources score cs y)) (end_of (episode_at sources score cs x)),
      )

  -- The sorted group, latest first.
  abbrev pub latest_first : List ℕ → List ℕ
  latest_first idx = reverse_onto [] (sort_stable (ends_before sources score cs) idx)

  pub best_selection-Best :
      (idx : List ℕ)
      → Best (episode_at sources score cs) (latest_first idx) (best_selection sources score cs idx)
        × Ordered (EndsUpTo (episode_at sources score cs)) (latest_first idx)
  unfolding best_selection Best total_width
  best_selection-Best idx =
      schedule-Best (sort_stable (ends_before sources score cs) idx) [] (no_selection ∷ []) tt
        (sorted_ends idx)
        (nothing_before (EndsUpTo (episode_at sources score cs))
          (sort_stable (ends_before sources score cs) idx))
        (Best-none (episode_at sources score cs))
