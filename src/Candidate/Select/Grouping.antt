-- ===== src/Candidate/Select/Grouping.antt =====
-- The groups of the first loop: every selected candidate is in the group of its own key.
use aninode.Prelude.{
  ℕ, zero, suc, ◌+◌, true, false, ◌≡◌, refl, ◌⊎◌, ◌↔◌, inl, inr, List, [], ◌∷◌, ◌++◌, arith,
  Bool-cases, In, text_eq_iff, eqb_ℤ_iff, if◌then◌else◌,
}
use aninode.Candidate.{Candidate, at, no_candidate, is_selected}
use aninode.Candidate.Select.{
  GroupKey, movie, season, group_key, same_key, Groups, add_to_group, group_candidates,
}

pub same_key_sound : (k j : GroupKey) → same_key k j ≡ true → k ≡ j
unfolding same_key
same_key_sound (movie e) (movie f) h = ground (arith, text_eq_iff e f)
same_key_sound (movie e) (season f n b) h = ground arith
same_key_sound (season e m a) (movie f) h = ground arith
same_key_sound (season e m a) (season f n b) h = ground (arith, text_eq_iff e f, eqb_ℤ_iff m n)

same_key_refl : (k : GroupKey) → same_key k k ≡ true
unfolding same_key
same_key_refl (movie e) = ground (arith, text_eq_iff e e)
same_key_refl (season e m a) = ground (arith, text_eq_iff e e, eqb_ℤ_iff m m)

pub same_key_iff : (k j : GroupKey) → (same_key k j ≡ true) ↔ (k ≡ j)
same_key_iff k j = (same_key_sound k j, λ e. rw e (same_key_refl j))

-- groups[key]
unfoldable pub members_of : GroupKey → Groups → List ℕ
members_of key [] = []
members_of key ((k, idx) ∷ gs) = if same_key k key then idx else members_of key gs

members_of-add :
    (key j : GroupKey) (i : ℕ) (gs : Groups)
    → members_of j (add_to_group key i gs)
      ≡ (if same_key key j then members_of j gs ++ i ∷ [] else members_of j gs)
unfolding members_of add_to_group
members_of-add key j i [] = refl
members_of-add key j i ((k, idx) ∷ gs) =
    ground
      (arith, members_of-add key j i gs, same_key_iff k key, same_key_iff k j, same_key_iff key j)

In-append_left : (x : ℕ) (xs ys : List ℕ) → In x xs → In x (xs ++ ys)
In-append_left x [] ys i = elim i [ ]
In-append_left x (y ∷ xs) ys (inl e) = inl e
In-append_left x (y ∷ xs) ys (inr i) = inr (In-append_left x xs ys i)

In-append_last : (x : ℕ) (xs : List ℕ) → In x (xs ++ x ∷ [])
In-append_last x [] = inl refl
In-append_last x (y ∷ xs) = inr (In-append_last x xs)

In-append_one : (x y : ℕ) (xs : List ℕ) → In x (xs ++ y ∷ []) → In x xs ⊎ (x ≡ y)
In-append_one x y [] (inl e) = inr e
In-append_one x y [] (inr i) = elim i [ ]
In-append_one x y (z ∷ xs) (inl e) = inl (inl e)
In-append_one x y (z ∷ xs) (inr i) = elim (In-append_one x y xs i) [
  | inl j ↦ inl (inr j)
  | inr e ↦ inr e
]

add_keeps :
    (key j : GroupKey) (i x : ℕ) (gs : Groups)
    → In x (members_of j gs)
    → In x (members_of j (add_to_group key i gs))
add_keeps key j i x gs h = elim (Bool-cases (same_key key j)) [
  | inl e ↦ rw (members_of-add key j i gs) (rw e (In-append_left x (members_of j gs) (i ∷ []) h))
  | inr n ↦ rw (members_of-add key j i gs) (rw n h)
]

add_adds : (key : GroupKey) (i : ℕ) (gs : Groups) → In i (members_of key (add_to_group key i gs))
add_adds key i gs =
    rw (members_of-add key key i gs) (rw (same_key_refl key) (In-append_last i (members_of key gs)))

add_only :
    (key j : GroupKey) (i x : ℕ) (gs : Groups)
    → In x (members_of j (add_to_group key i gs))
    → In x (members_of j gs) ⊎ ((key ≡ j) × (x ≡ i))
add_only key j i x gs h = elim (Bool-cases (same_key key j)) [
  | inl e ↦
      tag (same_key_sound key j e)
        (In-append_one x i (members_of j gs) (rw e at (rw (members_of-add key j i gs) at h)))
  | inr n ↦ inl (rw n at (rw (members_of-add key j i gs) at h))
]
  where
    tag :
        key ≡ j → In x (members_of j gs) ⊎ (x ≡ i) → In x (members_of j gs) ⊎ ((key ≡ j) × (x ≡ i))
    tag e (inl t) = inl t
    tag e (inr t) = inr (e, t)

group_keeps :
    (cs : List Candidate) (off x : ℕ) (j : GroupKey) (gs : Groups)
    → In x (members_of j gs)
    → In x (members_of j (group_candidates off cs gs))
unfolding group_candidates
group_keeps [] off x j gs h = h
group_keeps (c ∷ cs) off x j gs h = elim (Bool-cases (is_selected c)) [
  | inl s ↦ rw s (group_keeps cs (suc off) x j _ (add_keeps (group_key c) j off x gs h))
  | inr n ↦ rw n (group_keeps cs (suc off) x j gs h)
]

-- Every selected candidate is in the group of its key.
pub group_complete :
    (cs : List Candidate) (off n i : ℕ) (gs : Groups)
    → n + off ≡ i
    → is_selected (at cs n) ≡ true
    → In i (members_of (group_key (at cs n)) (group_candidates off cs gs))
unfolding group_candidates at
group_complete [] off n i gs e s = absurd (cc (nothing_selected, s))
  where
    nothing_selected : is_selected no_candidate ≡ false
    nothing_selected = unfold is_selected in refl
group_complete (c ∷ cs) off zero i gs e s =
    let e' : off ≡ i = omega arith in
    rw s (rw (← e') (group_keeps cs (suc off) off (group_key c) _ (add_adds (group_key c) off gs)))
group_complete (c ∷ cs) off (suc n) i gs e s = group_complete cs (suc off) n i _ (omega arith) s

-- Every member of a group has the key of the group.
pub group_sound :
    (cs : List Candidate) (off x : ℕ) (j : GroupKey) (gs : Groups)
    → In x (members_of j (group_candidates off cs gs))
    → In x (members_of j gs) ⊎ ((n : ℕ) × (n + off ≡ x) × (group_key (at cs n) ≡ j))
unfolding group_candidates at
group_sound [] off x j gs h = inl h
group_sound (c ∷ cs) off x j gs h = elim (Bool-cases (is_selected c)) [
  | inl s ↦
      first _ (λ m. add_only (group_key c) j off x gs m)
        (group_sound cs (suc off) x j _ (rw s at h))
  | inr n ↦ first gs (λ m. inl m) (group_sound cs (suc off) x j gs (rw n at h))
]
  where
    first :
        (gs' : Groups)
        → (In x (members_of j gs') → In x (members_of j gs) ⊎ ((group_key c ≡ j) × (x ≡ off)))
        → In x (members_of j gs') ⊎ ((n : ℕ) × (n + suc off ≡ x) × (group_key (at cs n) ≡ j))
        → In x (members_of j gs) ⊎ ((n : ℕ) × (n + off ≡ x) × (group_key (at (c ∷ cs) n) ≡ j))
    first gs' f (inl m) = here (f m)
      where
        here :
            In x (members_of j gs) ⊎ ((group_key c ≡ j) × (x ≡ off))
            → In x (members_of j gs) ⊎ ((n : ℕ) × (n + off ≡ x) × (group_key (at (c ∷ cs) n) ≡ j))
        here (inl k) = inl k
        here (inr (e, o)) = inr (0, omega arith, e)
    first gs' f (inr (n, e, k)) = inr (suc n, omega arith, k)
