-- ===== src/Candidate/Schedule/Subsets.antt =====
-- Sets of candidates that do not overlap are chains of the sorted group, so the programme's choice
-- covers at least as much as any of them.
use aninode.Prelude.{
  ℕ, true, false, ◌≡◌, refl, ap, ◌∙◌, All-both, All-map-In, In-tail, List, [], ◌∷◌, pos, ◌<ℤ◌, ◌+ℤ◌,
  pos_part, neg_part, All, In, In-All, All-map, Ordered, sort_stable, insert_stable,
  All-insert_stable, All-sort_stable, arith, int_laws, Bool-cases, inl, inr, Bool,
}
use native.Mathlib.Decide.{ℕ_discrete}
use aninode.Episode.{Key, end_of, overlaps, same_slot, width}
use aninode.Episode.Interval.{start-le-end_of}
use aninode.Candidate.Schedule.Chains.{EndsUpTo, EndsBefore, Pick, stop, skip, keep, total_width}

module _ (ep : ℕ → Key) where
  -- No episode belongs to both.
  abbrev pub Apart : ℕ → ℕ → Type 0
  Apart x y = overlaps (ep x) (ep y) ≡ false

  module _ (less : ℕ → ℕ → Bool) where
    total_width-insert :
        (x : ℕ) (ys : List ℕ) → total_width ep (insert_stable less x ys) ≡ total_width ep (x ∷ ys)
    unfolding total_width insert_stable
    total_width-insert x [] = refl
    total_width-insert x (y ∷ ys) = elim (Bool-cases (less y x)) [
      | inl t ↦ rw t (
          let above = ap pos_part (total_width-insert x ys) in
          let below = ap neg_part (total_width-insert x ys) in omega int_laws)
      | inr f ↦ rw f
    ]

    pub total_width-sort : (xs : List ℕ) → total_width ep (sort_stable less xs) ≡ total_width ep xs
    unfolding total_width sort_stable
    total_width-sort [] = refl
    total_width-sort (x ∷ xs) =
        total_width-insert x (sort_stable less xs)
        ∙ ap (λ t. t +ℤ width (ep x)) (total_width-sort xs)

    -- A symmetric relation between all elements does not depend on their order.
    Ordered-insert :
        (R : ℕ → ℕ → Type 0)
        → ((x y : ℕ) → R x y → R y x)
        → (x : ℕ) (ys : List ℕ) → All (R x) ys
        → Ordered R ys
        → Ordered R (insert_stable less x ys)
    unfolding insert_stable
    Ordered-insert R flip x [] h o = (tt, tt)
    Ordered-insert R flip x (y ∷ ys) h o = elim (Bool-cases (less y x)) [
      | inl t ↦
          rw t (
            All-insert_stable less (R y) x ys (flip x y h.0) o.0,
            Ordered-insert R flip x ys h.1 o.1,
          )
      | inr f ↦ rw f (h, o)
    ]

    pub Ordered-sort :
        (R : ℕ → ℕ → Type 0)
        → ((x y : ℕ) → R x y → R y x)
        → (xs : List ℕ) → Ordered R xs
        → Ordered R (sort_stable less xs)
    unfolding sort_stable
    Ordered-sort R flip [] o = tt
    Ordered-sort R flip (x ∷ xs) o =
        Ordered-insert R flip x (sort_stable less xs) (All-sort_stable less (R x) xs o.0)
          (Ordered-sort R flip xs o.1)

  -- Of two keys of one slot with positive starts, the one that does not end later ends before the other
  -- starts, if they do not overlap.
  Apart-EndsBefore :
      (x y : ℕ)
      → same_slot (ep x) (ep y) ≡ true
      → pos 0 <ℤ (ep x).episode_start
      → pos 0 <ℤ (ep y).episode_start
      → EndsUpTo ep x y
      → Apart x y
      → EndsBefore ep x y
  unfolding overlaps
  Apart-EndsBefore x y s p q e a = ground (arith, start-le-end_of (ep y))

  pub chain_of_Apart :
      (xs : List ℕ)
      → ((x y : ℕ) → In x xs → In y xs → same_slot (ep x) (ep y) ≡ true)
      → ((x : ℕ) → In x xs → pos 0 <ℤ (ep x).episode_start)
      → Ordered (EndsUpTo ep) xs
      → Ordered Apart xs
      → Ordered (EndsBefore ep) xs
  chain_of_Apart [] s p o a = tt
  chain_of_Apart (x ∷ xs) s p o a = (
    All-map-In (λ y. EndsUpTo ep x y × Apart x y) (EndsBefore ep x) xs
        (λ y i h.
          Apart-EndsBefore x y (s x y (inl refl) (inr i)) (p x (inl refl)) (p y (inr i)) h.0 h.1)
        (All-both (EndsUpTo ep x) (Apart x) xs o.0 a.0),
    chain_of_Apart xs (λ y z i j. s y z (inr i) (inr j)) (λ y i. p y (inr i)) o.1 a.1,
  )

  -- A chain of members of a sorted list is picked from it.
  pub pick_members :
      (ds xs : List ℕ)
      → Ordered (EndsUpTo ep) ds
      → Ordered (EndsBefore ep) xs
      → All (λ x. In x ds) xs
      → Pick (EndsBefore ep) xs ds
  pick_members [] [] o c m = stop
  pick_members [] (x ∷ xs) o c m = elim m.0 [ ]
  pick_members (d ∷ ds) [] o c m = skip (pick_members ds [] o.1 tt tt)
  pick_members (d ∷ ds) (x ∷ xs) o c m =
      let behind = λ (late : ¬ (end_of (ep d) <ℤ (ep x).episode_start)).
        All-map (λ y. EndsBefore ep x y × In y (d ∷ ds)) (λ y. In y ds) xs
          (λ y h. In-tail y d ds h.1 (λ e. late (rw e at h.0)))
          (All-both (EndsBefore ep x) (λ y. In y (d ∷ ds)) xs c.0 m.1) in
      elim (ℕ_discrete x d) [
        | yes e ↦ rw e (
            keep (rw e at c.0) (
              pick_members ds xs o.1 c.1
                (behind (rw e (let l = start-le-end_of (ep d) in omega arith)))))
        | no n ↦
            let inside = In-tail x d ds m.0 n in
            let later = In-All (EndsUpTo ep d) x ds inside o.0 in
            skip (
              pick_members ds (x ∷ xs) o.1 c
                (inside, behind (let l = start-le-end_of (ep x) in omega arith)))
      ]
