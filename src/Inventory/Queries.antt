-- ===== src/Inventory/Queries.antt =====
-- The loops over an episode interval, and what the queries built on them answer.
use aninode.Prelude.{
  ℕ, zero, suc, true, false, ◌≡◌, refl, ◌↔◌, inl, inr, List, [], ◌∷◌, Text, ℤ, pos, ◌≤ℤ◌, ◌<ℤ◌,
  ◌+ℤ◌, +ℤ_parts, eqb_ℤ_iff, rounds, arith, int_laws, Bool-cases,
}
use aninode.Episode.{Key, end_of}
use aninode.Inventory.{
  Snapshot, has, season, all_present, availability, missing_from, missing, unknown, present,
}

-- A loop from `from` through `through` visits the numbers in between.
pub rounds_iff :
    (from through n : ℤ) → from ≤ℤ n → (n <ℤ from +ℤ pos (rounds from through)) ↔ (n ≤ℤ through)
unfolding rounds
rounds_iff from through n h = (λ k. omega int_laws, λ k. omega int_laws)

next_round : (r : ℕ) (from n : ℤ) → (n <ℤ from +ℤ pos 1 +ℤ pos r) ↔ (n <ℤ from +ℤ pos (suc r))
next_round r from n = (λ h. omega int_laws, λ h. omega int_laws)

missing_sound :
    (r : ℕ) (from : ℤ) (episodes : List ℤ) (n : ℤ)
    → has (missing_from r from episodes) n ≡ true
    → (from ≤ℤ n) × (n <ℤ from +ℤ pos r) × (has episodes n ≡ false)
unfolding missing_from has
missing_sound zero from episodes n h = ground arith
missing_sound (suc r) from episodes n h = ground (
  arith,
  missing_sound r (from +ℤ pos 1) episodes n,
  eqb_ℤ_iff from n,
  +ℤ_parts from (pos 1),
  +ℤ_parts (from +ℤ pos 1) (pos r),
  +ℤ_parts from (pos (suc r)),
)

missing_complete :
    (r : ℕ) (from : ℤ) (episodes : List ℤ) (n : ℤ)
    → from ≤ℤ n
    → n <ℤ from +ℤ pos r
    → has episodes n ≡ false
    → has (missing_from r from episodes) n ≡ true
unfolding missing_from has
missing_complete zero from episodes n h k e = absurd (omega int_laws)
missing_complete (suc r) from episodes n h k e = ground (
  arith,
  missing_complete r (from +ℤ pos 1) episodes n,
  eqb_ℤ_iff from n,
  +ℤ_parts from (pos 1),
  +ℤ_parts (from +ℤ pos 1) (pos r),
  +ℤ_parts from (pos (suc r)),
)

-- The loop collects exactly the numbers it visits that are not in the set.
pub has-missing_from :
    (r : ℕ) (from : ℤ) (episodes : List ℤ) (n : ℤ)
    → (has (missing_from r from episodes) n ≡ true)
      ↔ (from ≤ℤ n) × (n <ℤ from +ℤ pos r) × (has episodes n ≡ false)
has-missing_from r from episodes n =
    (missing_sound r from episodes n, λ h. missing_complete r from episodes n h.0 h.1 h.2)

-- The same for the loop of a bounded interval.
pub has-missing_between :
    (from through : ℤ) (episodes : List ℤ) (n : ℤ)
    → (has (missing_from (rounds from through) from episodes) n ≡ true)
      ↔ (from ≤ℤ n) × (n ≤ℤ through) × (has episodes n ≡ false)
has-missing_between from through episodes n = (
  λ h.
      let m = (has-missing_from (rounds from through) from episodes n).0 h in
      (m.0, (rounds_iff from through n m.0).0 m.1, m.2),
  λ h.
      (has-missing_from (rounds from through) from episodes n).1
        (h.0, (rounds_iff from through n h.0).1 h.1, h.2),
)

-- The search for a missing episode succeeds exactly when the collecting loop finds none.
pub all_present_iff :
    (r : ℕ) (from : ℤ) (episodes : List ℤ)
    → (all_present r from episodes ≡ true) ↔ (missing_from r from episodes ≡ [])
unfolding all_present missing_from
all_present_iff zero from episodes = (λ h. refl, λ h. refl)
all_present_iff (suc r) from episodes = ground (arith, all_present_iff r (from +ℤ pos 1) episodes)

no_member : (n : ℤ) (xs : List ℤ) → xs ≡ [] → has xs n ≡ true → ⊥
unfolding has
no_member n [] e h = cc
no_member n (x ∷ xs) e h = cc

eq-nil_of_none : (xs : List ℤ) → ((n : ℤ) → has xs n ≡ false) → xs ≡ []
unfolding has
eq-nil_of_none [] h = refl
eq-nil_of_none (x ∷ xs) h = ground (arith, h x, eqb_ℤ_iff x x)

not_missing :
    (from through : ℤ) (episodes : List ℤ) (n : ℤ)
    → (from ≤ℤ n → n ≤ℤ through → has episodes n ≡ true)
    → has (missing_from (rounds from through) from episodes) n ≡ false
not_missing from through episodes n f =
    elim (Bool-cases (has (missing_from (rounds from through) from episodes) n)) [
      | inl there ↦
          let m = (has-missing_between from through episodes n).0 there in cc (f m.0 m.1, m.2)
      | inr gone ↦ gone
    ]

-- Every episode of the interval is there exactly when the search finds no missing one.
pub all_present-between :
    (from through : ℤ) (episodes : List ℤ)
    → (all_present (rounds from through) from episodes ≡ true)
      ↔ ((n : ℤ) → from ≤ℤ n → n ≤ℤ through → has episodes n ≡ true)
all_present-between from through episodes = (forth, back)
  where
    gaps : List ℤ
    gaps = missing_from (rounds from through) from episodes

    forth :
        all_present (rounds from through) from episodes ≡ true
        → (n : ℤ) → from ≤ℤ n
        → n ≤ℤ through
        → has episodes n ≡ true
    forth h n lo hi = elim (Bool-cases (has episodes n)) [
      | inl there ↦ there
      | inr gone ↦ absurd (
          no_member n gaps ((all_present_iff (rounds from through) from episodes).0 h)
            ((has-missing_between from through episodes n).1 (lo, hi, gone)))
    ]

    back :
        ((n : ℤ) → from ≤ℤ n → n ≤ℤ through → has episodes n ≡ true)
        → all_present (rounds from through) from episodes ≡ true
    back f =
        (all_present_iff (rounds from through) from episodes).1
          (eq-nil_of_none gaps λ n. not_missing from through episodes n (f n))

pub availability-tests :
    (s : Snapshot) (k : Key)
    → ((availability s k ≡ present)
        ↔ ((season s k.entry_key k.season).known ≡ true)
          × (all_present
                (rounds k.episode_start (end_of k))
                k.episode_start
                (season s k.entry_key k.season).episodes
              ≡ true))
      × ((availability s k ≡ unknown) ↔ ((season s k.entry_key k.season).known ≡ false))
unfolding availability
availability-tests s k = ground arith

-- Availability answers Present exactly when the season is known and holds every episode from the
-- start of the key through its end, and Unknown exactly when the season is not known.
pub availability_iff :
    (s : Snapshot) (k : Key)
    → ((availability s k ≡ present)
        ↔ ((season s k.entry_key k.season).known ≡ true)
          × ((n : ℤ)
              → k.episode_start ≤ℤ n
              → n ≤ℤ end_of k
              → has (season s k.entry_key k.season).episodes n ≡ true))
      × ((availability s k ≡ unknown) ↔ ((season s k.entry_key k.season).known ≡ false))
availability_iff s k =
    let tests = availability-tests s k in
    let loop =
      all_present-between k.episode_start (end_of k) (season s k.entry_key k.season).episodes in
    ((λ h. ((tests.0.0 h).0, loop.0 (tests.0.0 h).1), λ h. tests.0.1 (h.0, loop.1 h.1)), tests.1)

missing-tests :
    (s : Snapshot) (entry_key : Text) (n through : ℤ)
    → (season s entry_key n).known ≡ true
    → ((missing s entry_key n through).0
        ≡ missing_from (rounds (pos 1) through) (pos 1) (season s entry_key n).episodes)
      × (((missing s entry_key n through).1 ≡ present) ↔ ((missing s entry_key n through).0 ≡ []))
unfolding missing
missing-tests s entry_key n through h = ground arith

-- Missing lists, for a known season, exactly the episodes from 1 through the bound that the season
-- does not hold, and answers Present exactly when there are none.
pub missing_iff :
    (s : Snapshot) (entry_key : Text) (n through : ℤ)
    → (season s entry_key n).known ≡ true
    → ((m : ℤ)
        → (has (missing s entry_key n through).0 m ≡ true)
          ↔ (pos 1 ≤ℤ m) × (m ≤ℤ through) × (has (season s entry_key n).episodes m ≡ false))
      × (((missing s entry_key n through).1 ≡ present) ↔ ((missing s entry_key n through).0 ≡ []))
missing_iff s entry_key n through h =
    let tests = missing-tests s entry_key n through h in
    (
      λ m. rw tests.0 (has-missing_between (pos 1) through (season s entry_key n).episodes m),
      tests.1,
    )
