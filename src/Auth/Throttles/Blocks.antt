-- ===== src/Auth/Throttles/Blocks.antt =====
-- internal/server/auth.go: lemmas on the throttles.
use aninode.Prelude.{
  ℕ, ◌+◌, ◌*◌, ◌≤◌, ◌<◌, ◌≡◌, ◌≢◌, refl, ap, inl, inr, false, ltb, Text, text_eq, some-injective,
  arith, some, List, [], ◌∷◌, All, Bool-cases, Option-cases, lookup, IsMap, IsMap-assign,
  IsMap-delete, All-assign, All-delete, lookup-All, lookup-assign_same, lookup-assign_other,
  lookup-delete_other,
}
use aninode.Rss.{second}
use aninode.Auth.{LoginThrottle}
use aninode.Auth.Throttles.{
  failure_limit, or_zero, throttle_of, forget, count_failure, failed, succeeded,
}

-- What the map of the throttles is always like.
abbrev pub IsCounted : List (Text × LoginThrottle) → Type 0
IsCounted throttles = IsMap throttles × All (λ b. b.1.failures < failure_limit) throttles

All-forget :
    (P : Text × LoginThrottle → Type 0) (now : ℕ) (l : List (Text × LoginThrottle))
    → All P l
    → All P (forget now l)
unfolding forget
All-forget P now [] h = tt
All-forget P now ((key, item) ∷ l) h = elim (Bool-cases (ltb (item.last_seen + 600 * second) now)) [
  | inl t ↦ rw t (All-forget P now l h.1)
  | inr f ↦ rw f (h.0, All-forget P now l h.1)
]

pub forget-IsCounted :
    (now : ℕ) (l : List (Text × LoginThrottle)) → IsCounted l → IsCounted (forget now l)
unfolding forget
forget-IsCounted now [] h = (tt, tt)
forget-IsCounted now ((key, item) ∷ l) ((fresh, m), (few, all)) =
    let (m', all') = forget-IsCounted now l (m, all) in
    elim (Bool-cases (ltb (item.last_seen + 600 * second) now)) [
      | inl t ↦ rw t (m', all')
      | inr f ↦ rw f ((All-forget (λ b. key ≢ b.0) now l fresh, m'), (few, all'))
    ]

pub throttle_of-few :
    (source : Text) (l : List (Text × LoginThrottle))
    → IsCounted l
    → (throttle_of source l).failures < failure_limit
unfolding throttle_of or_zero
throttle_of-few source l (m, few) = elim (Option-cases (lookup source l)) [
  | inl (item, e) ↦
      rw (throttle_of, e, or_zero)
        (lookup-All (λ b. b.1.failures < failure_limit) source item l few e)
  | inr e ↦ rw (throttle_of, e) (omega arith)
]

count_failure-few :
    (now : ℕ) (item : LoginThrottle) → (count_failure now item).failures < failure_limit
unfolding count_failure
count_failure-few now item = ground arith

pub failed-IsCounted :
    (now : ℕ) (source : Text) (l : List (Text × LoginThrottle))
    → IsCounted l
    → IsCounted (failed now source l)
unfolding failed
failed-IsCounted now source l (m, few) = (
  IsMap-assign source _ l m,
  All-assign (λ b. b.1.failures < failure_limit) source _ l
      (count_failure-few now (throttle_of source l)) few,
)

pub succeeded-IsCounted :
    (source : Text) (l : List (Text × LoginThrottle)) → IsCounted l → IsCounted (succeeded source l)
unfolding succeeded
succeeded-IsCounted source l (m, few) =
    (IsMap-delete source l m, All-delete (λ b. b.1.failures < failure_limit) source l few)

-- An item that is not too old is not forgotten.
lookup-forget :
    (now : ℕ) (source : Text) (item : LoginThrottle) (l : List (Text × LoginThrottle))
    → lookup source l ≡ some item
    → now ≤ item.last_seen + 600 * second
    → lookup source (forget now l) ≡ some item
unfolding forget lookup
lookup-forget now source item [] e h = absurd (cc)
lookup-forget now source item ((key, other) ∷ l) e h = elim (Bool-cases (text_eq key source)) [
  | inl t ↦
      let same : other ≡ item = some-injective (rw t at e) in
      let fresh : ltb (other.last_seen + 600 * second) now ≡ false = rw same (ground arith) in
      rw (fresh, t, same) refl
  | inr n ↦
      let rest = lookup-forget now source item l (rw n at e) h in
      elim (Bool-cases (ltb (other.last_seen + 600 * second) now)) [
        | inl o ↦ rw (o, rest) refl
        | inr y ↦ rw (y, lookup, n, rest) refl
      ]
]

-- The item of a source, where it has been seen, is not forgotten.
pub throttle_of-forget :
    (now : ℕ) (source : Text) (l : List (Text × LoginThrottle))
    → 0 < (throttle_of source l).last_seen
    → now ≤ (throttle_of source l).last_seen + 600 * second
    → throttle_of source (forget now l) ≡ throttle_of source l
unfolding throttle_of or_zero
throttle_of-forget now source l seen h = elim (Option-cases (lookup source l)) [
  | inl (item, e) ↦
      rw (e, throttle_of, lookup-forget now source item l e (rw (e, throttle_of) at h)) refl
  | inr e ↦ absurd (omega (arith, (rw (e, throttle_of) at seen)))
]

pub throttle_of-failed_same :
    (now : ℕ) (source : Text) (l : List (Text × LoginThrottle))
    → throttle_of source (failed now source l) ≡ count_failure now (throttle_of source l)
unfolding throttle_of failed or_zero
throttle_of-failed_same now source l =
    ap or_zero (lookup-assign_same source (count_failure now (throttle_of source l)) l)

pub throttle_of-failed_other :
    (now : ℕ) (source other : Text) (l : List (Text × LoginThrottle))
    → source ≢ other
    → throttle_of source (failed now other l) ≡ throttle_of source l
unfolding throttle_of failed
throttle_of-failed_other now source other l h =
    ap or_zero (lookup-assign_other source other (count_failure now (throttle_of other l)) l h)

pub throttle_of-succeeded_other :
    (source other : Text) (l : List (Text × LoginThrottle))
    → source ≢ other
    → throttle_of source (succeeded other l) ≡ throttle_of source l
unfolding throttle_of succeeded
throttle_of-succeeded_other source other l h = ap or_zero (lookup-delete_other source other l h)
