-- ===== src/Candidate/Select/Verdicts.antt =====
-- Which members of a group stay selected: the chosen ones of a season, and the winner for a movie.
use aninode.Prelude.{
  ℕ, true, false, ◌≡◌, sym, ◌∙◌, ◌⊎◌, inl, inr, List, [], ◌∷◌, Text, Option, ℤ, arith, Bool-cases,
  In, In-All, In-sort_stable, Ordered, sort_stable,
}
use aninode.Candidate.{Candidate, at, is_selected, superseded_by}
use aninode.Candidate.Order.{ContentSource}
use aninode.Candidate.Schedule.{best_selection, ends_before}
use aninode.Candidate.Select.{
  contains_index, mark_chosen, supersede, supersede_rest, select_season, supersede_all,
  select_sorted,
}
use aninode.Candidate.Select.Shrinks.{
  Shrinks, supersede-Shrinks, supersede_rest-Shrinks, superseded-unselected, supersede_all-Shrinks,
}

unselected_stays :
    {cs cs' : List Candidate} (i : ℕ)
    → Shrinks cs cs'
    → is_selected (at cs i) ≡ false
    → is_selected (at cs' i) ≡ false
unselected_stays {cs} {cs'} i s h = elim (Bool-cases (is_selected (at cs' i))) [
  | inl t ↦ cc (s.fewer i t)
  | inr f ↦ f
]

contains_index_sound : (is : List ℕ) (i : ℕ) → contains_index is i ≡ true → In i is
unfolding contains_index
contains_index_sound [] i h = cc
contains_index_sound (j ∷ js) i h = ground (arith, contains_index_sound js i)

pub related :
    (R : ℕ → ℕ → Type 0) (xs : List ℕ) (i j : ℕ)
    → ((x y : ℕ) → R x y → R y x)
    → Ordered R xs
    → In i xs
    → In j xs
    → (i ≡ j) ⊎ R i j
related R [] i j flip o h k = elim h [ ]
related R (x ∷ xs) i j flip o (inl e) (inl f) = inl (e ∙ sym f)
related R (x ∷ xs) i j flip o (inl e) (inr k) = inr (rw e (In-All (R x) j xs k o.0))
related R (x ∷ xs) i j flip o (inr h) (inl f) = inr (rw f (flip x i (In-All (R x) i xs h o.0)))
related R (x ∷ xs) i j flip o (inr h) (inr k) = related R xs i j flip o.1 h k

module _ (sources : List (Text × ContentSource)) (score : Option (Candidate → ℤ)) where
  supersede_rest-unselected :
      (chosen is : List ℕ) (cs : List Candidate) (i : ℕ)
      → In i is
      → contains_index chosen i ≡ false
      → is_selected (at (supersede_rest sources score chosen is cs) i) ≡ false
  unfolding supersede_rest
  supersede_rest-unselected chosen [] cs i h n = elim h [ ]
  supersede_rest-unselected chosen (j ∷ js) cs i (inl e) n = rw (← e) (
      rw n (
        unselected_stays i
          (supersede_rest-Shrinks sources score chosen js (supersede sources score chosen i cs))
          (supersede-Shrinks sources score chosen i cs).1))
  supersede_rest-unselected chosen (j ∷ js) cs i (inr h) n =
      supersede_rest-unselected chosen js _ i h n

  -- A member of a season's group that is still selected was chosen.
  pub select_season-chosen :
      (idx : List ℕ) (cs : List Candidate) (i : ℕ)
      → In i idx
      → is_selected (at (select_season sources score idx cs) i) ≡ true
      → In i (best_selection sources score cs idx).indexes
  unfolding select_season
  select_season-chosen idx cs i h s =
      let chosen = (best_selection sources score cs idx).indexes in
      elim (Bool-cases (contains_index chosen i)) [
        | inl t ↦ contains_index_sound chosen i t
        | inr f ↦ absurd (
            cc (
              s,
              supersede_rest-unselected chosen (sort_stable (ends_before sources score cs) idx)
                  (mark_chosen chosen cs) i (In-sort_stable (ends_before sources score cs) i idx h)
                  f,
            ))
      ]

  supersede_all-unselected :
      (winner : Text) (is : List ℕ) (cs : List Candidate) (i : ℕ)
      → In i is
      → is_selected (at (supersede_all sources score winner is cs) i) ≡ false
  unfolding supersede_all
  supersede_all-unselected winner [] cs i h = elim h [ ]
  supersede_all-unselected winner (j ∷ js) cs i (inl e) = rw (← e) (
      unselected_stays i (supersede_all-Shrinks sources score winner js _)
        (superseded-unselected cs i (superseded_by winner)))
  supersede_all-unselected winner (j ∷ js) cs i (inr h) = supersede_all-unselected winner js _ i h

  pub select_sorted-winner :
      (is : List ℕ) (cs : List Candidate) (i j : ℕ)
      → In i is
      → In j is
      → is_selected (at (select_sorted sources score is cs) i) ≡ true
      → is_selected (at (select_sorted sources score is cs) j) ≡ true
      → i ≡ j
  unfolding select_sorted
  select_sorted-winner [] cs i j h k s t = elim h [ ]
  select_sorted-winner (w ∷ is) cs i j (inl e) (inl f) s t = e ∙ sym f
  select_sorted-winner (w ∷ is) cs i j (inr h) k s t =
      absurd (cc (s, supersede_all-unselected _ is _ i h))
  select_sorted-winner (w ∷ is) cs i j (inl e) (inr k) s t =
      absurd (cc (t, supersede_all-unselected _ is _ j k))
