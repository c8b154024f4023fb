-- ===== src/Candidate/Schedule/Best.antt =====
-- What the choice of a season's releases promises.
use mathlib.Core.List.{reverse-append}
use aninode.Prelude.{
  ℕ, true, ◌≡◌, refl, sym, ap, ◌∙◌, List, [], ◌∷◌, ◌++◌, reverse, ℤ, pos, ◌≤ℤ◌, ◌<ℤ◌, ◌+ℤ◌, ltb_ℤ,
  ltb_ℤ→lt, ltb_ℤ→le, pos_part, neg_part, All, All-map, All-reverse, All-members, All-sort_stable,
  In, In-All, ◌⊎◌, inl, inr, In-sort_stable, Ordered, Ordered-reverse, Ordered-sort_stable,
  sort_stable, arith, int_laws, Text, Option, Bool,
}
use aninode.Episode.{Key, end_of, same_slot, width}
use aninode.Episode.Interval.{overlaps_comm, ends_before-apart}
use aninode.Candidate.{Candidate, at}
use aninode.Candidate.Order.{ContentSource}
use aninode.Candidate.Schedule.{episode_at, ends_before, best_selection}
use aninode.Candidate.Schedule.Chains.{
  EndsUpTo, EndsBefore, Pick, stop, skip, keep, Pick-All, Best, total_width, All-Anything,
}
use aninode.Candidate.Schedule.Subsets.{
  Apart, total_width-sort, Ordered-sort, chain_of_Apart, pick_members,
}
use aninode.Candidate.Schedule.Optimal.{reverse_onto, latest_first, best_selection-Best}

All-reverse_onto {ℓ} :
    (P : ℕ → Type ℓ) (ds is : List ℕ) → All P ds → All P is → All P (reverse_onto ds is)
unfolding reverse_onto
All-reverse_onto P ds [] h k = h
All-reverse_onto P ds (i ∷ is) h k = All-reverse_onto P (i ∷ ds) is (k.0, h) k.1

In-reverse_onto : (x : ℕ) (ds is : List ℕ) → (In x ds ⊎ In x is) → In x (reverse_onto ds is)
unfolding reverse_onto
In-reverse_onto x ds [] (inl i) = i
In-reverse_onto x ds [] (inr i) = elim i [ ]
In-reverse_onto x ds (j ∷ is) (inl i) = In-reverse_onto x (j ∷ ds) is (inl (inr i))
In-reverse_onto x ds (j ∷ is) (inr (inl e)) = In-reverse_onto x (j ∷ ds) is (inl (inl e))
In-reverse_onto x ds (j ∷ is) (inr (inr i)) = In-reverse_onto x (j ∷ ds) is (inr i)

module _ (ep : ℕ → Key) where
  Apart-sym : (x y : ℕ) → Apart ep x y → Apart ep y x
  Apart-sym x y h = overlaps_comm (ep y) (ep x) ∙ h

  chain-Apart : {c ds : List ℕ} → Pick (EndsBefore ep) c ds → Ordered (Apart ep) c
  chain-Apart stop = tt
  chain-Apart (skip p) = chain-Apart p
  chain-Apart (keep {d = d} {c = c} h p) = (
    All-map (EndsBefore ep d) (Apart ep d) c (λ y e. ends_before-apart (ep d) (ep y) e) h,
    chain-Apart p,
  )

  total_width-append_one :
      (xs : List ℕ) (x : ℕ) → total_width ep (xs ++ x ∷ []) ≡ total_width ep (x ∷ xs)
  unfolding total_width
  total_width-append_one [] x = refl
  total_width-append_one (y ∷ ys) x =
      let above = ap pos_part (total_width-append_one ys x) in
      let below = ap neg_part (total_width-append_one ys x) in omega int_laws

  total_width-reverse : (xs : List ℕ) → total_width ep (reverse xs) ≡ total_width ep xs
  unfolding total_width
  total_width-reverse [] = refl
  total_width-reverse (x ∷ xs) =
      rw (reverse-append (x ∷ []) xs) (
        total_width-append_one (reverse xs) x
        ∙ ap (λ t. t +ℤ width (ep x)) (total_width-reverse xs))

  -- The order in which a set of candidates becomes a chain.
  later_end : ℕ → ℕ → Bool
  later_end x y = ltb_ℤ (end_of (ep y)) (end_of (ep x))

  sorted_later : (xs : List ℕ) → Ordered (EndsUpTo ep) (sort_stable later_end xs)
  unfolding later_end
  sorted_later xs =
      Ordered-sort_stable later_end (EndsUpTo ep)
        (λ x y h. let l = ltb_ℤ→lt (end_of (ep y)) (end_of (ep x)) h in omega arith)
        (λ x y h. ltb_ℤ→le (end_of (ep x)) (end_of (ep y)) h) (λ x y z h k. omega arith) xs

module _ (sources : List (Text × ContentSource)) (score : Option (Candidate → ℤ))
    (cs : List Candidate) (idx : List ℕ) where
  members : All (λ x. In x idx) (latest_first sources score cs idx)
  members =
      All-reverse_onto (λ x. In x idx) [] (sort_stable (ends_before sources score cs) idx) tt
        (All-sort_stable (ends_before sources score cs) (λ x. In x idx) idx (All-members idx))

  -- The programme chooses candidates of the group, no two of which overlap, and its coverage is the
  -- number of episodes that they contain.
  pub best_selection_sound :
      All (λ x. In x idx) (best_selection sources score cs idx).indexes
      × Ordered (Apart (episode_at sources score cs)) (best_selection sources score cs idx).indexes
      × ((best_selection sources score cs idx).coverage
          ≡ total_width (episode_at sources score cs) (best_selection sources score cs idx).indexes)
  unfolding Best
  best_selection_sound =
      let ep = episode_at sources score cs in
      let b = (best_selection-Best sources score cs idx).0 in
      (
        rw b.indexes
            (All-reverse (λ x. In x idx) b.chain (Pick-All (λ x. In x idx) b.picked members)),
        rw b.indexes (Ordered-reverse (Apart ep) (Apart-sym ep) b.chain (chain-Apart ep b.picked)),
        b.coverage ∙ sym (rw b.indexes (total_width-reverse ep b.chain)),
      )

  -- In a group whose keys name one slot and start at positive episodes, no set of its candidates without
  -- overlaps covers more episodes than the programme's choice.
  pub best_selection_greatest :
      ((x y : ℕ) → In x idx → In y idx → same_slot (at cs x).episode (at cs y).episode ≡ true)
      → ((x : ℕ) → In x idx → pos 0 <ℤ (at cs x).episode.episode_start)
      → (c : List ℕ) → All (λ x. In x idx) c
      → Ordered (Apart (episode_at sources score cs)) c
      → total_width (episode_at sources score cs) c
        ≤ℤ (best_selection sources score cs idx).coverage
  unfolding Best
  best_selection_greatest slot start c m a =
      let ep = episode_at sources score cs in
      let c' = sort_stable (later_end ep) c in
      let inside = All-sort_stable (later_end ep) (λ x. In x idx) c m in
      let chain =
        chain_of_Apart ep c'
          (λ x y i j.
            slot x y (In-All (λ x. In x idx) x c' i inside) (In-All (λ x. In x idx) y c' j inside))
          (λ x i. start x (In-All (λ x. In x idx) x c' i inside)) (sorted_later ep c)
          (Ordered-sort ep (later_end ep) (Apart ep) (Apart-sym ep) c a) in
      let (best, ordered) = best_selection-Best sources score cs idx in
      let picked = pick_members ep (latest_first sources score cs idx) c' ordered chain (
        All-map (λ x. In x idx) (λ x. In x (latest_first sources score cs idx)) c'
          (λ x i.
            In-reverse_onto x [] (sort_stable (ends_before sources score cs) idx)
              (inr (In-sort_stable (ends_before sources score cs) x idx i)))
          inside) in
      rw (← total_width-sort ep (later_end ep) c) (best.greatest c' picked (All-Anything ep c'))
