-- ===== src/Auth/Sessions/Cookie.antt =====
-- internal/server/auth.go: lemmas on what a cookie is worth.
use aninode.Prelude.{
  ℕ, ◌+◌, ◌≡◌, refl, sym, inl, inr, true, false, ltb, ◌==◌, ==_iff, Text, text_eq, text_eq_sound,
  none, some, Option, List, [], ◌∷◌, length, Bool-cases, lookup, delete, assign, lookup-assign_same,
  lookup-delete_same,
}
use aninode.Auth.{Primitives}
use aninode.Auth.Sessions.{
  session_lifetime, check_session, drop_ended, evict_oldest, valid_locked, revoke_locked,
  add_session,
}

check_session-found :
    (key : Text) (now expires : ℕ) (sessions : List (Text × ℕ))
    → lookup key sessions ≡ some expires
    → (check_session key now sessions).0 ≡ ltb now expires
unfolding check_session
check_session-found key now expires sessions e = elim (Bool-cases (ltb now expires)) [
  | inl t ↦ rw (check_session, e, t) refl
  | inr f ↦ rw (check_session, e, f) refl
]

pub check_session-missing :
    (key : Text) (now : ℕ) (sessions : List (Text × ℕ))
    → lookup key sessions ≡ none
    → (check_session key now sessions).0 ≡ false
unfolding check_session
check_session-missing key now sessions e = rw (check_session, e) refl

module _ (p : Primitives) where
  valid_locked-missing :
      (now : ℕ) (value : Text) (sessions : List (Text × ℕ))
      → lookup (p.sha256 value) sessions ≡ none
      → (valid_locked p now (some value) sessions).0 ≡ false
  unfolding valid_locked
  valid_locked-missing now value sessions e = elim (Bool-cases (length value == 43)) [
    | inl t ↦ rw t (check_session-missing (p.sha256 value) now sessions e)
    | inr f ↦ rw f refl
  ]

  pub valid_locked-revoke_locked :
      (now : ℕ) (value : Text) (sessions : List (Text × ℕ))
      → (valid_locked p now (some value) (revoke_locked p (some value) sessions)).0 ≡ false
  unfolding revoke_locked
  valid_locked-revoke_locked now value sessions =
      valid_locked-missing now value _ (lookup-delete_same (p.sha256 value) sessions)

  -- Where the encoding of the random bytes has 43 characters, in the sessions that sessionLocked
  -- leaves the new cookie is valid before seven days have passed and not from then on, and in those
  -- that a logout with it leaves behind that it is never valid.
  pub valid_locked-add_session :
      (now later : ℕ) (bytes : Text) (cookie : Option Text) (sessions : List (Text × ℕ))
      → length (p.base64 bytes) ≡ 43
      → let value = some (p.base64 bytes) in
        let added = add_session p now bytes cookie sessions in
        ((valid_locked p later value added).0 ≡ ltb later (now + session_lifetime))
        × ((valid_locked p later value (revoke_locked p value added)).0 ≡ false)
  unfolding valid_locked add_session
  valid_locked-add_session now later bytes cookie sessions e = (
    (rw ((==_iff _ _).1 e) (
        check_session-found (p.sha256 (p.base64 bytes)) later (now + session_lifetime) _
          (lookup-assign_same _ _ _))),
    valid_locked-revoke_locked later (p.base64 bytes) (add_session p now bytes cookie sessions),
  )

  add_session-empty :
      (now : ℕ) (bytes : Text) (cookie : Option Text)
      → add_session p now bytes cookie []
        ≡ ((p.sha256 (p.base64 bytes), now + session_lifetime) ∷ [])
  unfolding add_session revoke_locked delete assign drop_ended evict_oldest
  add_session-empty now bytes none = refl
  add_session-empty now bytes (some value) = refl

  -- A first session is the only one: another cookie opens nothing.
  pub valid_locked-only :
      (now later : ℕ) (bytes value : Text) (cookie : Option Text)
      → (valid_locked p later (some value) (add_session p now bytes cookie [])).0 ≡ true
      → p.sha256 value ≡ p.sha256 (p.base64 bytes)
  unfolding lookup
  valid_locked-only now later bytes value cookie h =
      elim (Bool-cases (text_eq (p.sha256 (p.base64 bytes)) (p.sha256 value))) [
        | inl t ↦ sym (text_eq_sound _ _ t)
        | inr f ↦
            let gone =
              valid_locked-missing later value
                ((p.sha256 (p.base64 bytes), now + session_lifetime) ∷ []) (rw f refl) in
            absurd (cc (gone, rw (add_session-empty now bytes cookie) at h))
      ]
