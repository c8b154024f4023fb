-- ===== src/Episode/Interval.antt =====
-- The tests on two keys are the set operations on the episodes that they contain.
use aninode.Prelude.{
  true, false, ◌≡◌, ◌↔◌, ℤ, pos, pos_part, neg_part, ◌≤ℤ◌, ◌<ℤ◌, ◌+ℤ◌, leb_ℤ, arith, int_laws,
  Bool-cases, eqb_ℤ_iff, text_eq_iff, inl, inr, leb_ℤ→lt, leb_ℤ→le, ap, sym, eq_of_iff,
  if◌then◌else◌,
}
use aninode.Episode.{Key, end_of, contains, same_slot, overlaps, covers, width}

-- The end of a key is not before its start.
pub start-le-end_of : (k : Key) → k.episode_start ≤ℤ end_of k
unfolding end_of
start-le-end_of k = ground arith

abbrev pub SameSlot : Key → Key → Type 0
SameSlot k o = (k.entry_key ≡ o.entry_key) × (k.season ≡ o.season) × (k.special ≡ o.special)

pub same_slot_iff : (k o : Key) → (same_slot k o ≡ true) ↔ SameSlot k o
unfolding same_slot
same_slot_iff k o = ground (arith, text_eq_iff k.entry_key o.entry_key, eqb_ℤ_iff k.season o.season)

pub contains_iff :
    (k : Key) (n : ℤ)
    → (contains k n ≡ true) ↔ (pos 0 <ℤ k.episode_start) × (k.episode_start ≤ℤ n) × (n ≤ℤ end_of k)
unfolding contains
contains_iff k n = ground arith

-- The tests of `Overlaps`, with the ends kept.
pub overlaps_orders :
    (k o : Key)
    → (overlaps k o ≡ true)
      ↔ SameSlot k o
        × (pos 0 <ℤ k.episode_start)
        × (pos 0 <ℤ o.episode_start)
        × (k.episode_start ≤ℤ end_of o)
        × (o.episode_start ≤ℤ end_of k)
unfolding overlaps
overlaps_orders k o = ground (arith, same_slot_iff k o)

-- The later of the two starts: the first episode that both can contain.
later_start : Key → Key → ℤ
later_start k o = if leb_ℤ k.episode_start o.episode_start then o.episode_start else k.episode_start

contains-later_start :
    (k o : Key)
    → overlaps k o ≡ true
    → (contains k (later_start k o) ≡ true) × (contains o (later_start k o) ≡ true)
unfolding contains later_start
contains-later_start k o h =
    ground (arith, overlaps_orders k o, start-le-end_of k, start-le-end_of o)

overlaps_of_shared :
    (k o : Key) (n : ℤ)
    → SameSlot k o
    → contains k n ≡ true
    → contains o n ≡ true
    → overlaps k o ≡ true
overlaps_of_shared k o n s hk ho = (overlaps_orders k o).1 (
  s,
  ((contains_iff k n).0 hk).0,
  ((contains_iff o n).0 ho).0,
  omega (arith, (contains_iff k n).0 hk, (contains_iff o n).0 ho),
  omega (arith, (contains_iff k n).0 hk, (contains_iff o n).0 ho),
)

-- Overlaps answers true exactly when the two keys agree on entry, season and kind and some episode
-- number is contained in both.
pub overlaps_iff :
    (k o : Key)
    → (overlaps k o ≡ true) ↔ (n : ℤ) × SameSlot k o × (contains k n ≡ true) × (contains o n ≡ true)
overlaps_iff k o = (
  λ h. (
    later_start k o,
    ((overlaps_orders k o).0 h).0,
    (contains-later_start k o h).0,
    (contains-later_start k o h).1,
  ),
  λ h. overlaps_of_shared k o h.0 h.1 h.2 h.3,
)

covers_orders :
    (k o : Key)
    → (covers k o ≡ true)
      ↔ SameSlot k o
        × (pos 0 <ℤ o.episode_start)
        × (pos 0 <ℤ k.episode_start)
        × (k.episode_start ≤ℤ o.episode_start)
        × (end_of o ≤ℤ end_of k)
unfolding covers contains
covers_orders k o = ground (arith, same_slot_iff k o, start-le-end_of o)

covers_of_subset :
    (k o : Key)
    → SameSlot k o
    → pos 0 <ℤ o.episode_start
    → ((n : ℤ) → contains o n ≡ true → contains k n ≡ true)
    → covers k o ≡ true
covers_of_subset k o s p f = (covers_orders k o).1 (s, p, first.0, first.1, last.2)
  where
    first :
        (pos 0 <ℤ k.episode_start)
        × (k.episode_start ≤ℤ o.episode_start)
        × (o.episode_start ≤ℤ end_of k)
    first =
        (contains_iff k o.episode_start).0 (
          f o.episode_start
            ((contains_iff o o.episode_start).1 (p, omega arith, start-le-end_of o)))

    last : (pos 0 <ℤ k.episode_start) × (k.episode_start ≤ℤ end_of o) × (end_of o ≤ℤ end_of k)
    last =
        (contains_iff k (end_of o)).0
          (f (end_of o) ((contains_iff o (end_of o)).1 (p, start-le-end_of o, omega arith)))

-- Covers answers true exactly when the keys agree on entry, season and kind, the other key starts at
-- a positive episode, and every episode of the other key is contained in this one.
pub covers_iff :
    (k o : Key)
    → (covers k o ≡ true)
      ↔ SameSlot k o
        × (pos 0 <ℤ o.episode_start)
        × ((n : ℤ) → contains o n ≡ true → contains k n ≡ true)
covers_iff k o = (
  λ h. (((covers_orders k o).0 h).0, ((covers_orders k o).0 h).1, inside h),
  λ h. covers_of_subset k o h.0 h.1 h.2,
)
  where
    inside : covers k o ≡ true → (n : ℤ) → contains o n ≡ true → contains k n ≡ true
    inside h n c =
        (contains_iff k n).1 (omega (arith, (covers_orders k o).0 h, (contains_iff o n).0 c))

width_pos : (k : Key) → pos 0 <ℤ k.episode_start → k.episode_start +ℤ width k ≡ end_of k +ℤ pos 1
unfolding width
width_pos k p =
    let big : leb_ℤ k.episode_start (pos 0) ≡ false = ground arith in rw big (omega int_laws)

width_nonpos : (k : Key) → k.episode_start ≤ℤ pos 0 → width k ≡ pos 0
unfolding width
width_nonpos k p = ground arith

-- A key contains an episode exactly when the episode lies within `Width` episodes from the start;
-- so a key that starts at no positive episode, whose width is zero, contains none.
pub contains-width_iff :
    (k : Key) (n : ℤ)
    → (contains k n ≡ true) ↔ (k.episode_start ≤ℤ n) × (n <ℤ k.episode_start +ℤ width k)
contains-width_iff k n = elim (Bool-cases (leb_ℤ k.episode_start (pos 0))) [
  | inl small ↦
      let low = leb_ℤ→le k.episode_start (pos 0) small in
      let above = ap pos_part (width_nonpos k low) in
      let below = ap neg_part (width_nonpos k low) in
      (λ h. absurd (let i = (contains_iff k n).0 h in omega arith), λ h. absurd (omega int_laws))
  | inr big ↦
      let low = leb_ℤ→lt k.episode_start (pos 0) big in
      let above = ap pos_part (width_pos k low) in
      let below = ap neg_part (width_pos k low) in
      (
        λ h. let i = (contains_iff k n).0 h in (i.1, omega int_laws),
        λ h. (contains_iff k n).1 (low, h.0, omega int_laws),
      )
]

-- Overlaps does not depend on the order of the keys.
pub overlaps_comm : (k o : Key) → overlaps k o ≡ overlaps o k
overlaps_comm k o = eq_of_iff (overlaps k o) (overlaps o k) (flip k o) (flip o k)
  where
    flip : (k o : Key) → overlaps k o ≡ true → overlaps o k ≡ true
    flip k o h =
        let (s, p, q, l, r) = (overlaps_orders k o).0 h in
        (overlaps_orders o k).1 ((sym s.0, sym s.1, sym s.2), q, p, r, l)

-- A key that ends before another starts does not overlap it.
pub ends_before-apart : (k o : Key) → end_of o <ℤ k.episode_start → overlaps k o ≡ false
ends_before-apart k o h = elim (Bool-cases (overlaps k o)) [
  | inl t ↦ absurd (let (s, p, q, l, r) = (overlaps_orders k o).0 t in omega arith)
  | inr f ↦ f
]
