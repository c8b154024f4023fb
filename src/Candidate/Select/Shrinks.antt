-- ===== src/Candidate/Select/Shrinks.antt =====
-- The selection only takes verdicts back: it keeps every candidate but its decision and reason, and
-- selects none anew.
use aninode.Prelude.{
  ℕ, zero, suc, true, false, ◌≡◌, refl, ap, ◌∙◌, ◌⊎◌, inl, inr, List, [], ◌∷◌, Text, Option, ℤ,
  Bool-cases, length,
}
use aninode.Candidate.{
  Candidate, Reason, at, update, no_candidate, is_selected, is_movie, superseded, best_release_set,
  best_for_movie, superseded_by,
}
use aninode.Candidate.Order.{ContentSource}
use aninode.Candidate.Schedule.{best_selection}
use aninode.Candidate.Select.{
  contains_index, mark_chosen, supersede, supersede_rest, select_season, supersede_all,
  select_sorted, select_movie, select_group, select_groups, Groups,
}

-- The candidate with the decision and the reason of another.
abbrev pub with_verdict : Candidate → Candidate → Candidate
with_verdict c d = record c { decision = d.decision; reason = d.reason }

pub record Shrinks (cs cs' : List Candidate) : Type 0 where
  pub same_length : length cs' ≡ length cs
  pub kept : (i : ℕ) → at cs' i ≡ with_verdict (at cs i) (at cs' i)
  pub fewer : (i : ℕ) → is_selected (at cs' i) ≡ true → is_selected (at cs i) ≡ true

pub Shrinks-refl : (cs : List Candidate) → Shrinks cs cs
Shrinks-refl cs = record { same_length = refl; kept = λ i. refl; fewer = λ i h. h }

pub Shrinks-trans : {as' bs cs : List Candidate} → Shrinks as' bs → Shrinks bs cs → Shrinks as' cs
Shrinks-trans {as'} {bs} {cs} p q = record {
  same_length = q.same_length ∙ p.same_length;
  kept = λ i. q.kept i ∙ ap (λ c. with_verdict c (at cs i)) (p.kept i);
  fewer = λ i h. p.fewer i (q.fewer i h);
}

-- An update is seen at its index, if at all.
pub at-update :
    (cs : List Candidate) (i j : ℕ) (f : Candidate → Candidate)
    → (at (update cs i f) j ≡ at cs j) ⊎ ((i ≡ j) × (at (update cs i f) j ≡ f (at cs j)))
unfolding at update
at-update [] i j f = inl refl
at-update (c ∷ cs) zero zero f = inr (refl, refl)
at-update (c ∷ cs) zero (suc j) f = inl refl
at-update (c ∷ cs) (suc i) zero f = inl refl
at-update (c ∷ cs) (suc i) (suc j) f = elim (at-update cs i j f) [
  | inl e ↦ inl e
  | inr (e, p) ↦ inr (ap suc e, p)
]

pub length-update :
    (cs : List Candidate) (i : ℕ) (f : Candidate → Candidate) → length (update cs i f) ≡ length cs
unfolding update
length-update [] i f = refl
length-update (c ∷ cs) zero f = refl
length-update (c ∷ cs) (suc i) f = ap suc (length-update cs i f)

-- At its own index an update is seen, or the index is out of range.
pub at-update_self :
    (cs : List Candidate) (i : ℕ) (f : Candidate → Candidate)
    → (at (update cs i f) i ≡ f (at cs i)) ⊎ (at (update cs i f) i ≡ no_candidate)
unfolding at update
at-update_self [] i f = inr refl
at-update_self (c ∷ cs) zero f = inl refl
at-update_self (c ∷ cs) (suc i) f = at-update_self cs i f

pub update-Shrinks :
    (cs : List Candidate) (i : ℕ) (f : Candidate → Candidate)
    → ((c : Candidate) → f c ≡ with_verdict c (f c))
    → ((c : Candidate) → is_selected (f c) ≡ true → is_selected c ≡ true)
    → Shrinks cs (update cs i f)
update-Shrinks cs i f k s = record {
  same_length = length-update cs i f;
  kept = λ j. kept_at j (at-update cs i j f);
  fewer = λ j h. fewer_at j h (at-update cs i j f);
}
  where
    kept_at :
        (j : ℕ)
        → (at (update cs i f) j ≡ at cs j) ⊎ ((i ≡ j) × (at (update cs i f) j ≡ f (at cs j)))
        → at (update cs i f) j ≡ with_verdict (at cs j) (at (update cs i f) j)
    kept_at j (inl e) = rw e
    kept_at j (inr (_, e)) = rw e (k (at cs j))

    fewer_at :
        (j : ℕ)
        → is_selected (at (update cs i f) j) ≡ true
        → (at (update cs i f) j ≡ at cs j) ⊎ ((i ≡ j) × (at (update cs i f) j ≡ f (at cs j)))
        → is_selected (at cs j) ≡ true
    fewer_at j h (inl e) = rw e at h
    fewer_at j h (inr (_, e)) = s (at cs j) (rw e at h)

-- Setting the reason alone.
reason-Shrinks :
    (cs : List Candidate) (i : ℕ) (r : Reason)
    → Shrinks cs (update cs i (λ c. record c { reason = r }))
unfolding is_selected
reason-Shrinks cs i r = update-Shrinks cs i (λ c. record c { reason = r }) (λ c. refl) (λ c h. h)

pub superseded-Shrinks :
    (cs : List Candidate) (i : ℕ) (r : Reason)
    → Shrinks cs (update cs i (λ c. record c { decision = superseded; reason = r }))
unfolding is_selected
superseded-Shrinks cs i r =
    update-Shrinks cs i (λ c. record c { decision = superseded; reason = r }) (λ c. refl)
      (λ c h. cc)

pub superseded-unselected :
    (cs : List Candidate) (i : ℕ) (r : Reason)
    → is_selected (at (update cs i (λ c. record c { decision = superseded; reason = r })) i) ≡ false
unfolding is_selected
superseded-unselected cs i r =
    elim (at-update_self cs i (λ c. record c { decision = superseded; reason = r })) [
      | inl e ↦ rw e
      | inr e ↦ rw e
    ]

mark_chosen-Shrinks : (is : List ℕ) (cs : List Candidate) → Shrinks cs (mark_chosen is cs)
unfolding mark_chosen
mark_chosen-Shrinks [] cs = Shrinks-refl cs
mark_chosen-Shrinks (i ∷ is) cs =
    Shrinks-trans (reason-Shrinks cs i best_release_set) (mark_chosen-Shrinks is _)

module _ (sources : List (Text × ContentSource)) (score : Option (Candidate → ℤ)) where
  pub supersede-Shrinks :
      (chosen : List ℕ) (i : ℕ) (cs : List Candidate)
      → Shrinks cs (supersede sources score chosen i cs)
        × (is_selected (at (supersede sources score chosen i cs) i) ≡ false)
  unfolding supersede
  supersede-Shrinks chosen i cs = (superseded-Shrinks cs i _, superseded-unselected cs i _)

  pub supersede_rest-Shrinks :
      (chosen is : List ℕ) (cs : List Candidate)
      → Shrinks cs (supersede_rest sources score chosen is cs)
  unfolding supersede_rest
  supersede_rest-Shrinks chosen [] cs = Shrinks-refl cs
  supersede_rest-Shrinks chosen (i ∷ is) cs = elim (Bool-cases (contains_index chosen i)) [
    | inl there ↦ rw there (supersede_rest-Shrinks chosen is cs)
    | inr gone ↦ rw gone (
        Shrinks-trans (supersede-Shrinks chosen i cs).0
          (supersede_rest-Shrinks chosen is (supersede sources score chosen i cs)))
  ]

  pub supersede_all-Shrinks :
      (winner : Text) (is : List ℕ) (cs : List Candidate)
      → Shrinks cs (supersede_all sources score winner is cs)
  unfolding supersede_all
  supersede_all-Shrinks winner [] cs = Shrinks-refl cs
  supersede_all-Shrinks winner (i ∷ is) cs =
      Shrinks-trans (superseded-Shrinks cs i (superseded_by winner))
        (supersede_all-Shrinks winner is _)

  select_sorted-Shrinks :
      (is : List ℕ) (cs : List Candidate) → Shrinks cs (select_sorted sources score is cs)
  unfolding select_sorted
  select_sorted-Shrinks [] cs = Shrinks-refl cs
  select_sorted-Shrinks (w ∷ is) cs =
      Shrinks-trans (reason-Shrinks cs w best_for_movie) (supersede_all-Shrinks _ is _)

  pub select_season-Shrinks :
      (idx : List ℕ) (cs : List Candidate) → Shrinks cs (select_season sources score idx cs)
  unfolding select_season
  select_season-Shrinks idx cs =
      Shrinks-trans (mark_chosen-Shrinks (best_selection sources score cs idx).indexes cs)
        (supersede_rest-Shrinks _ _ _)

  pub select_group-Shrinks :
      (idx : List ℕ) (cs : List Candidate) → Shrinks cs (select_group sources score idx cs)
  unfolding select_group select_movie
  select_group-Shrinks [] cs = Shrinks-refl cs
  select_group-Shrinks (i ∷ []) cs = Shrinks-refl cs
  select_group-Shrinks (i ∷ j ∷ is) cs = elim (Bool-cases (is_movie (at cs i))) [
    | inl m ↦ rw m (select_sorted-Shrinks _ cs)
    | inr s ↦ rw s (select_season-Shrinks (i ∷ j ∷ is) cs)
  ]

  pub select_groups-Shrinks :
      (gs : Groups) (cs : List Candidate) → Shrinks cs (select_groups sources score gs cs)
  unfolding select_groups
  select_groups-Shrinks [] cs = Shrinks-refl cs
  select_groups-Shrinks ((k, idx) ∷ gs) cs =
      Shrinks-trans (select_group-Shrinks idx cs) (select_groups-Shrinks gs _)
