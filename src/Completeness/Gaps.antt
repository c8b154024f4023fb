-- ===== src/Completeness/Gaps.antt =====
-- InternalGaps finds the holes between observed episodes, whatever the order of the set.
use aninode.Prelude.{
  true, false, ◌≡◌, ◌≢◌, refl, ◌↔◌, ◌⊎◌, inl, List, [], ◌∷◌, Text, ℤ, pos, ◌≤ℤ◌, ◌<ℤ◌, eqb_ℤ_iff,
  arith, eq_of_parts,
}
use aninode.Inventory.{Snapshot, has, season}
use aninode.Inventory.Queries.{has-missing_between}
use aninode.Completeness.{Bounds, widen, observed_bounds, gaps_between, internal_gaps, incomplete}

-- What the loop over the set `eps` makes of the bounds `b`.
record Widened (b : Bounds) (eps : List ℤ) (c : Bounds) : Type 0 where
  covers :
      (m : ℤ) → has eps m ≡ true → pos 0 <ℤ m → (pos 0 <ℤ c.first) × (c.first ≤ℤ m) × (m ≤ℤ c.last)
  keeps : pos 0 <ℤ b.first → (pos 0 <ℤ c.first) × (c.first ≤ℤ b.first) × (b.last ≤ℤ c.last)
  first_from : (c.first ≡ b.first) ⊎ ((has eps c.first ≡ true) × (pos 0 <ℤ c.first))
  last_from : (c.last ≡ b.last) ⊎ ((has eps c.last ≡ true) × (pos 0 <ℤ c.last))

-- Bounds that the loop can have: none yet, or a positive interval.
abbrev IsBounds : Bounds → Type 0
IsBounds b = ((b.first ≡ pos 0) × (b.last ≡ pos 0)) ⊎ ((pos 0 <ℤ b.first) × (b.first ≤ℤ b.last))

widen-IsBounds : (b : Bounds) (ep : ℤ) → IsBounds b → IsBounds (widen b ep)
unfolding widen
widen-IsBounds b ep h = ground (arith, eqb_ℤ_iff b.first (pos 0))

widen_covers :
    (b : Bounds) (ep : ℤ)
    → IsBounds b
    → pos 0 <ℤ ep
    → (pos 0 <ℤ (widen b ep).first) × ((widen b ep).first ≤ℤ ep) × (ep ≤ℤ (widen b ep).last)
unfolding widen
widen_covers b ep h p = ground (arith, eqb_ℤ_iff b.first (pos 0))

widen_keeps :
    (b : Bounds) (ep : ℤ)
    → pos 0 <ℤ b.first
    → (pos 0 <ℤ (widen b ep).first)
      × ((widen b ep).first ≤ℤ b.first)
      × (b.last ≤ℤ (widen b ep).last)
unfolding widen
widen_keeps b ep h = ground (arith, eqb_ℤ_iff b.first (pos 0))

widen_from :
    (b : Bounds) (ep : ℤ)
    → (((widen b ep).first ≡ b.first) ⊎ (((widen b ep).first ≡ ep) × (pos 0 <ℤ ep)))
      × (((widen b ep).last ≡ b.last) ⊎ (((widen b ep).last ≡ ep) × (pos 0 <ℤ ep)))
unfolding widen
widen_from b ep = ground arith

observed_bounds-Widened :
    (b : Bounds) (eps : List ℤ) → IsBounds b → Widened b eps (observed_bounds b eps)
unfolding observed_bounds has
observed_bounds-Widened b [] h = record {
  covers = λ m e. cc;
  keeps = λ p. (p, omega arith, omega arith);
  first_from = inl refl;
  last_from = inl refl;
}
observed_bounds-Widened b (ep ∷ eps) h =
    let rest = observed_bounds-Widened (widen b ep) eps (widen-IsBounds b ep h) in
    record {
      covers =
          λ m e p. ground (arith, eqb_ℤ_iff ep m, rest.covers m, rest.keeps, widen_covers b ep);
      keeps = λ p. ground (arith, rest.keeps, widen_keeps b ep);
      first_from = ground (
        arith,
        rest.first_from,
        widen_from b ep,
        eqb_ℤ_iff ep (observed_bounds (widen b ep) eps).first,
      );
      last_from = ground (
        arith,
        rest.last_from,
        widen_from b ep,
        eqb_ℤ_iff ep (observed_bounds (widen b ep) eps).last,
      );
    }

-- An episode number that is not in the set, with observed positive ones before and behind it.
abbrev pub IsGap : List ℤ → ℤ → Type 0
IsGap eps n =
    (has eps n ≡ false)
    × ((a : ℤ) × (has eps a ≡ true) × (pos 0 <ℤ a) × (a <ℤ n))
    × ((c : ℤ) × (has eps c ≡ true) × (n <ℤ c))

no_bounds : Bounds
no_bounds = record { first = pos 0; last = pos 0 }

-- The gaps behind given bounds, when the loop is reached and when it is not.
gaps_between-loop :
    (b : Bounds) (eps : List ℤ) (n : ℤ)
    → (has (gaps_between b eps).0 n ≡ true)
      ↔ (b.first ≢ pos 0)
        × (b.first ≢ b.last)
        × (b.first ≤ℤ n)
        × (n ≤ℤ b.last)
        × (has eps n ≡ false)
unfolding gaps_between has
gaps_between-loop b eps n = ground (
  arith,
  eqb_ℤ_iff b.first (pos 0),
  eqb_ℤ_iff b.first b.last,
  has-missing_between b.first b.last eps n,
)

module _ (b : Bounds) (eps : List ℤ) (w : Widened no_bounds eps b) where
  first_observed : b.first ≢ pos 0 → (has eps b.first ≡ true) × (pos 0 <ℤ b.first)
  unfolding no_bounds
  first_observed h = ground (arith, w.first_from, h)

  last_observed : b.first ≢ pos 0 → has eps b.last ≡ true
  unfolding no_bounds
  last_observed h =
      let f = first_observed h in ground (arith, w.last_from, w.covers b.first f.0 f.1)

  IsGap-sound : (n : ℤ) → has (gaps_between b eps).0 n ≡ true → IsGap eps n
  IsGap-sound n h =
      let loop = (gaps_between-loop b eps n).0 h in
      let f = first_observed loop.0 in
      let l = last_observed loop.0 in
      (
        loop.4,
        (b.first, f.0, f.1, ground (arith, eq_of_parts b.first n, loop.2, loop.4, f.0)),
        (b.last, l, ground (arith, eq_of_parts n b.last, loop.3, loop.4, l)),
      )

  IsGap-complete : (n : ℤ) → IsGap eps n → has (gaps_between b eps).0 n ≡ true
  IsGap-complete n (e, (a, ha, pa, an), (c, hc, nc)) =
      let below = w.covers a ha pa in
      let above = w.covers c hc (omega arith) in
      (gaps_between-loop b eps n).1 (ground arith, ground arith, omega arith, omega arith, e)

judge_status :
    (b : Bounds) (eps : List ℤ)
    → ((gaps_between b eps).1 ≡ incomplete) ↔ ((gaps_between b eps).0 ≢ [])
unfolding gaps_between
judge_status b eps = ground arith

-- For a known season, InternalGaps lists exactly the episode numbers that the season does not hold and
-- that lie between two positive ones that it holds; its status is incomplete exactly when there are some.
pub internal_gaps_iff :
    (s : Snapshot) (entry_key : Text) (n : ℤ)
    → (season s entry_key n).known ≡ true
    → ((m : ℤ)
        → (has (internal_gaps s entry_key n).0 m ≡ true) ↔ IsGap (season s entry_key n).episodes m)
      × (((internal_gaps s entry_key n).1 ≡ incomplete) ↔ ((internal_gaps s entry_key n).0 ≢ []))
unfolding internal_gaps no_bounds
internal_gaps_iff s entry_key n h =
    let eps = (season s entry_key n).episodes in
    let b = observed_bounds no_bounds eps in
    let w = observed_bounds-Widened no_bounds eps (inl (refl, refl)) in
    rw h (λ m. (IsGap-sound b eps w m, IsGap-complete b eps w m), judge_status b eps)
