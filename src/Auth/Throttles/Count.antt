-- ===== src/Auth/Throttles/Count.antt =====
-- internal/server/auth.go: lemmas on what the throttles say behind a sequence of attempts.
use aninode.Prelude.{
  ℕ, suc, ◌+◌, ◌-◌, ◌≤◌, ◌<◌, ◌≡◌, ◌≢◌, refl, sym, ◌⊎◌, inl, inr, leb, Text, text_eq, neq_text,
  text_eq_sound, if◌then◌else◌, arith, some, List, [], ◌∷◌, All, Bool-cases,
}
use aninode.Auth.{LoginThrottle}
use aninode.Auth.Throttles.{
  block_duration, failure_limit, throttle_of, remaining, blocked, forget, count_failure, Event,
  asks, fails, succeeds, happen, run,
}
use aninode.Auth.Throttles.Blocks.{
  IsCounted, forget-IsCounted, failed-IsCounted, succeeded-IsCounted, throttle_of-few,
  throttle_of-forget, throttle_of-failed_same, throttle_of-failed_other,
  throttle_of-succeeded_other,
}

-- The event lies in the half minute from `first` on, and is no success of the source.
unfoldable pub IsWithin : Text → ℕ → Event → Type 0
IsWithin source first (asks now other) = (first ≤ now) × (now < first + block_duration)
IsWithin source first (fails now other) = (first ≤ now) × (now < first + block_duration)
IsWithin source first (succeeds other) = source ≢ other

-- Whether the event is a failure of the source: 1 or 0.
unfoldable pub adds : Text → Event → ℕ
adds source (asks now other) = 0
adds source (succeeds other) = 0
adds source (fails now other) = if text_eq other source then 1 else 0

-- How often the source fails.
unfoldable pub failures_of : Text → List Event → ℕ
failures_of source [] = 0
failures_of source (e ∷ es) = adds source e + failures_of source es

-- Behind n failures since `first`: the source is blocked for half a minute from then on at least, or it
-- counts n of them.
Counts : ℕ → ℕ → LoginThrottle → Type 0
Counts first n item =
    ((first + block_duration ≤ item.blocked_until) × (first ≤ item.last_seen))
    ⊎ ((n ≤ item.failures) × ((n ≡ 0) ⊎ (first ≤ item.last_seen)))

count_failure-Counts :
    (first n now : ℕ) (item : LoginThrottle)
    → first ≤ now
    → Counts first n item
    → Counts first (suc n) (count_failure now item)
unfolding Counts count_failure
count_failure-Counts first n now item h c =
    elim (Bool-cases (leb failure_limit (suc item.failures))) [
      | inl t ↦ rw (count_failure, t) (inl (omega arith, h))
      | inr f ↦
          rw (count_failure, f)
            (elim c [ inl (b, seen) ↦ inl (b, h) | inr (k, seen) ↦ inr (omega arith, inr h) ])
    ]

forget-Counts :
    (first n now : ℕ) (source : Text) (l : List (Text × LoginThrottle))
    → 0 < first
    → now < first + block_duration
    → Counts first n (throttle_of source l)
    → Counts first n (throttle_of source (forget now l))
unfolding Counts
forget-Counts first n now source l p b (inr (k, inl z)) = inr (omega arith, inl z)
forget-Counts first n now source l p b (inr (k, inr seen)) =
    rw (throttle_of-forget now source l (omega arith) (omega arith)) (inr (k, inr seen))
forget-Counts first n now source l p b (inl (k, seen)) =
    rw (throttle_of-forget now source l (omega arith) (omega arith)) (inl (k, seen))

Counts-eq :
    (first m n : ℕ) (item : LoginThrottle) → m ≡ n → Counts first n item → Counts first m item
Counts-eq first m n item e c = rw e c

-- What an event makes of the count.
happen-Counts :
    (source : Text) (first n : ℕ) (e : Event) (l : List (Text × LoginThrottle))
    → 0 < first
    → IsWithin source first e
    → Counts first n (throttle_of source l)
    → Counts first (adds source e + n) (throttle_of source (happen e l))
unfolding happen adds IsWithin blocked
happen-Counts source first n (asks now other) l p (h, b) c =
    Counts-eq _ _ _ _ (omega arith) (forget-Counts first n now source l p b c)
happen-Counts source first n (succeeds other) l p h c =
    rw (throttle_of-succeeded_other source other l h) (Counts-eq _ _ _ _ (omega arith) c)
happen-Counts source first n (fails now other) l p (h, b) c =
    elim (Bool-cases (text_eq other source)) [
      | inl t ↦
          rw (t, text_eq_sound other source t, throttle_of-failed_same now source l)
            (Counts-eq _ _ _ _ (omega arith)
              (count_failure-Counts first n now (throttle_of source l) h c))
      | inr f ↦
          rw (f, throttle_of-failed_other now source other l (λ q. neq_text other source f (sym q)))
            (Counts-eq _ _ _ _ (omega arith) c)
    ]

run-Counts :
    (source : Text) (first n : ℕ) (es : List Event) (l : List (Text × LoginThrottle))
    → 0 < first
    → All (IsWithin source first) es
    → Counts first n (throttle_of source l)
    → Counts first (failures_of source es + n) (throttle_of source (run es l))
unfolding run failures_of
run-Counts source first n [] l p h c = Counts-eq _ _ _ _ (omega arith) c
run-Counts source first n (e ∷ es) l p (h, hs) c =
    let moved : (adds source e + failures_of source es) + n
        ≡ failures_of source es + (adds source e + n) =
      omega arith in
    rw moved (
      run-Counts source first (adds source e + n) es (happen e l) p hs
        (happen-Counts source first n e l p h c))

pub happen-IsCounted :
    (e : Event) (l : List (Text × LoginThrottle)) → IsCounted l → IsCounted (happen e l)
unfolding happen blocked
happen-IsCounted (asks now source) l h = forget-IsCounted now l h
happen-IsCounted (fails now source) l h = failed-IsCounted now source l h
happen-IsCounted (succeeds source) l h = succeeded-IsCounted source l h

run-IsCounted :
    (es : List Event) (l : List (Text × LoginThrottle)) → IsCounted l → IsCounted (run es l)
unfolding run
run-IsCounted [] l h = h
run-IsCounted (e ∷ es) l h = run-IsCounted es (happen e l) (happen-IsCounted e l h)

remaining-some :
    (now : ℕ) (item : LoginThrottle)
    → now < item.blocked_until
    → remaining now item ≡ some (item.blocked_until - now)
unfolding remaining
remaining-some now item h = ground arith

-- Five failures within half a minute block the source for the rest of it at least.
pub run-blocked :
    (source : Text) (first now : ℕ) (es : List Event) (l : List (Text × LoginThrottle))
    → IsCounted l
    → 0 < first
    → All (IsWithin source first) es
    → failure_limit ≤ failures_of source es
    → now < first + block_duration
    → (rest : ℕ) × (first + block_duration ≤ now + rest)
      × ((blocked now source (run es l)).0 ≡ some rest)
unfolding Counts blocked
run-blocked source first now es l h p within five soon =
    let few = throttle_of-few source (run es l) (run-IsCounted es l h) in
    elim (run-Counts source first 0 es l p within (inr (omega arith, inl refl))) [
      | inr (k, seen) ↦ absurd (omega arith)
      | inl (b, seen) ↦
          let until = (throttle_of source (run es l)).blocked_until in
          (
            until - now,
            omega arith,
            rw (throttle_of-forget now source (run es l) (omega arith) (omega arith))
                (remaining-some now (throttle_of source (run es l)) (omega arith)),
          )
    ]
