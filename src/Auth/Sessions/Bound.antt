-- ===== src/Auth/Sessions/Bound.antt =====
-- internal/server/auth.go: lemmas on how many sessions there are, and which.
use aninode.Prelude.{
  ℕ, suc, ◌+◌, ◌≤◌, ◌<◌, ◌≡◌, ◌≢◌, refl, sym, ◌⊎◌, inl, inr, ◌||◌, ltb, leb, ◌==◌, leb→le, Text,
  arith, some, none, Option, List, [], ◌∷◌, All, In, length, Bool-cases, Option-cases, lookup,
  delete, IsMap, IsMap-delete, IsMap-assign, In-lookup, length-delete, length-delete_le,
  length-assign_le,
}
use aninode.Auth.{Primitives}
use aninode.Auth.Sessions.{
  max_sessions, check_session, drop_ended, find_first_end, evict_oldest, valid_locked,
  revoke_locked, add_session,
}

-- What the map of the sessions is always like.
abbrev pub IsBounded : List (Text × ℕ) → Type 0
IsBounded sessions = IsMap sessions × (length sessions ≤ max_sessions)

pub delete-IsBounded :
    (key : Text) (sessions : List (Text × ℕ)) → IsBounded sessions → IsBounded (delete key sessions)
delete-IsBounded key sessions (m, b) =
    (IsMap-delete key sessions m, omega (arith, length-delete_le key sessions))

All-drop_ended :
    (P : Text × ℕ → Type 0) (now : ℕ) (sessions : List (Text × ℕ))
    → All P sessions
    → All P (drop_ended now sessions)
unfolding drop_ended
All-drop_ended P now [] h = tt
All-drop_ended P now ((key, expiry) ∷ sessions) h = elim (Bool-cases (ltb now expiry)) [
  | inl t ↦ rw t (h.0, All-drop_ended P now sessions h.1)
  | inr f ↦ rw f (All-drop_ended P now sessions h.1)
]

drop_ended-IsMap :
    (now : ℕ) (sessions : List (Text × ℕ)) → IsMap sessions → IsMap (drop_ended now sessions)
unfolding drop_ended
drop_ended-IsMap now [] h = tt
drop_ended-IsMap now ((key, expiry) ∷ sessions) h = elim (Bool-cases (ltb now expiry)) [
  | inl t ↦
      rw t (All-drop_ended (λ b. key ≢ b.0) now sessions h.0, drop_ended-IsMap now sessions h.1)
  | inr f ↦ rw f (drop_ended-IsMap now sessions h.1)
]

length-drop_ended_le :
    (now : ℕ) (sessions : List (Text × ℕ)) → length (drop_ended now sessions) ≤ length sessions
unfolding drop_ended
length-drop_ended_le now [] = omega arith
length-drop_ended_le now ((key, expiry) ∷ sessions) =
    ground (arith, length-drop_ended_le now sessions)

find_first_end-In :
    (oldest : Text) (expiry : ℕ) (l : List (Text × ℕ)) (r : Text)
    → find_first_end oldest expiry l ≡ r
    → (r ≡ oldest) ⊎ ((t : ℕ) × In (r, t) l)
unfolding find_first_end
find_first_end-In oldest expiry [] r h = inl (sym h)
find_first_end-In oldest expiry ((key, end) ∷ rest) r h =
    elim (Bool-cases (expiry == 0 || ltb end expiry)) [
      | inl t ↦ elim (find_first_end-In key end rest r (rw (t, find_first_end) at h)) [
        | inl e ↦ inr (end, inl (rw e refl))
        | inr (u, i) ↦ inr (u, inr i)
      ]
      | inr f ↦ elim (find_first_end-In oldest expiry rest r (rw (f, find_first_end) at h)) [
        | inl e ↦ inl e
        | inr (u, i) ↦ inr (u, inr i)
      ]
    ]

find_first_end-found :
    (sessions : List (Text × ℕ)) (n : ℕ)
    → length sessions ≡ suc n
    → (t : ℕ) × (lookup (find_first_end [] 0 sessions) sessions ≡ some t)
unfolding find_first_end
find_first_end-found [] n e = absurd (omega arith)
find_first_end-found ((key, end) ∷ rest) n e = elim (find_first_end-In key end rest _ refl) [
  | inl p ↦ In-lookup _ end ((key, end) ∷ rest) (inl (rw p refl))
  | inr (t, i) ↦ In-lookup _ t ((key, end) ∷ rest) (inr i)
]

evict_oldest_lem :
    (sessions : List (Text × ℕ))
    → IsBounded sessions
    → IsMap (evict_oldest sessions) × (length (evict_oldest sessions) < max_sessions)
unfolding evict_oldest
evict_oldest_lem sessions (m, b) = elim (Bool-cases (leb max_sessions (length sessions))) [
  | inr f ↦ rw f (m, ground arith)
  | inl l ↦
      let full : length sessions ≡ 32 = omega (arith, leb→le max_sessions (length sessions) l) in
      let (t, found) = find_first_end-found sessions 31 full in
      let oldest = find_first_end [] 0 sessions in
      let shorter = length-delete oldest t sessions m found in
      rw l (IsMap-delete oldest sessions m, omega arith)
]

module _ (p : Primitives) where
  pub revoke_locked-IsBounded :
      (cookie : Option Text) (sessions : List (Text × ℕ))
      → IsBounded sessions
      → IsBounded (revoke_locked p cookie sessions)
  unfolding revoke_locked
  revoke_locked-IsBounded none sessions h = h
  revoke_locked-IsBounded (some value) sessions h = delete-IsBounded (p.sha256 value) sessions h

  check_session-IsBounded :
      (key : Text) (now : ℕ) (sessions : List (Text × ℕ))
      → IsBounded sessions
      → IsBounded (check_session key now sessions).1
  unfolding check_session
  check_session-IsBounded key now sessions h = elim (Option-cases (lookup key sessions)) [
    | inr e ↦ rw (check_session, e) h
    | inl (expires, e) ↦ elim (Bool-cases (ltb now expires)) [
      | inl t ↦ rw (check_session, e, t) h
      | inr f ↦ rw (check_session, e, f) (delete-IsBounded key sessions h)
    ]
  ]

  pub valid_locked-IsBounded :
      (now : ℕ) (cookie : Option Text) (sessions : List (Text × ℕ))
      → IsBounded sessions
      → IsBounded (valid_locked p now cookie sessions).1
  unfolding valid_locked
  valid_locked-IsBounded now none sessions h = h
  valid_locked-IsBounded now (some value) sessions h = elim (Bool-cases (length value == 43)) [
    | inl t ↦ rw (valid_locked, t) (check_session-IsBounded (p.sha256 value) now sessions h)
    | inr f ↦ rw (valid_locked, f) h
  ]

  pub add_session-IsBounded :
      (now : ℕ) (bytes : Text) (cookie : Option Text) (sessions : List (Text × ℕ))
      → IsBounded sessions
      → IsBounded (add_session p now bytes cookie sessions)
  unfolding add_session
  add_session-IsBounded now bytes cookie sessions h =
      let (m, b) = revoke_locked-IsBounded cookie sessions h in
      let revoked = revoke_locked p cookie sessions in
      let (m', few) =
        evict_oldest_lem (drop_ended now revoked)
          (drop_ended-IsMap now revoked m, omega (arith, length-drop_ended_le now revoked)) in
      (
        IsMap-assign _ _ _ m',
        omega (
          arith,
          length-assign_le (p.sha256 (p.base64 bytes)) (now + 604800000000000)
              (evict_oldest (drop_ended now revoked)),
        ),
      )
