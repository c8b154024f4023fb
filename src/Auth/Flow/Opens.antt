-- ===== src/Auth/Flow/Opens.antt =====
-- internal/server/auth.go: lemmas on which steps change the record or add a session.
use aninode.Prelude.{
  ◌≡◌, refl, sym, ◌∙◌, ap, ◌⊎◌, inl, inr, Bool, true, false, ◌||◌, if◌then◌else◌, ℕ, ltb, length,
  Text, text_eq, neq_text, text_eq_sound, Option, none, some, List, Bool-cases, Option-cases,
  lookup, delete, lookup-delete_same, lookup-delete_other, ◌==◌,
}
use aninode.Auth.{LoginRecord, WebAuth, Primitives, same_record}
use aninode.Auth.Sessions.{valid_locked, check_session, revoke_locked}
use aninode.Auth.Flow.{
  Input, Request, Stage, started, reading, saving, unblocked, copied, hashing, mismatched, matched,
  approved, renewing, signed_in, replied, Env, is_logout, is_setup, is_login, is_password, is_set,
  with_sessions, start_check, dispatch, decode, start, copy_record, check_login, acquire, compare,
  if_same, step,
}

-- No session of `after` is missing in `before`.
abbrev pub IsWithin : List (Text × ℕ) → List (Text × ℕ) → Type 0
IsWithin after before =
    (key : Text) (t : ℕ) → lookup key after ≡ some t → lookup key before ≡ some t

delete-IsWithin : (k : Text) (sessions : List (Text × ℕ)) → IsWithin (delete k sessions) sessions
delete-IsWithin k sessions key t e = elim (Bool-cases (text_eq key k)) [
  | inl s ↦ absurd (
      cc (
        e,
        ap (λ x. lookup x (delete k sessions)) (text_eq_sound key k s),
        lookup-delete_same k sessions,
      ))
  | inr n ↦ sym (lookup-delete_other key k sessions (neq_text key k n)) ∙ e
]

is_set-none : (login : Option LoginRecord) → is_set login ≡ false → login ≡ none
unfolding is_set
is_set-none none e = refl
is_set-none (some l) e = absurd cc

module _ (p : Primitives) where
  revoke_locked-IsWithin :
      (cookie : Option Text) (sessions : List (Text × ℕ))
      → IsWithin (revoke_locked p cookie sessions) sessions
  unfolding revoke_locked
  revoke_locked-IsWithin none sessions key t e = e
  revoke_locked-IsWithin (some value) sessions key t e =
      delete-IsWithin (p.sha256 value) sessions key t e

  check_session-IsWithin :
      (key : Text) (now : ℕ) (sessions : List (Text × ℕ))
      → IsWithin (check_session key now sessions).1 sessions
  unfolding check_session
  check_session-IsWithin key now sessions k t e = elim (Option-cases (lookup key sessions)) [
    | inr n ↦ rw (check_session, n) at e
    | inl (expires, f) ↦ elim (Bool-cases (ltb now expires)) [
      | inl s ↦ rw (check_session, f, s) at e
      | inr n ↦ delete-IsWithin key sessions k t (rw (check_session, f, n) at e)
    ]
  ]

  pub valid_locked-IsWithin :
      (now : ℕ) (cookie : Option Text) (sessions : List (Text × ℕ))
      → IsWithin (valid_locked p now cookie sessions).1 sessions
  unfolding valid_locked
  valid_locked-IsWithin now none sessions key t e = e
  valid_locked-IsWithin now (some value) sessions key t e = elim (Bool-cases (length value == 43)) [
    | inl s ↦ check_session-IsWithin (p.sha256 value) now sessions key t (rw (valid_locked, s) at e)
    | inr n ↦ rw (valid_locked, n) at e
  ]

  -- The stages whose step opens a session, and what they meet.
  pub data IsOpening (r : Request) (web : WebAuth) : Stage → Type 0 where
    opens_first :
        (input : Input) (new : LoginRecord) → web.login ≡ none → IsOpening r web (saving input new)
    opens_login :
        (input : Input) (source : Text) (login : LoginRecord)
        → is_password r ≡ false
        → IsOpening r web (approved input source login)
    opens_renewed :
        (input : Input) (source : Text) (old new : LoginRecord)
        → same_record web.login old ≡ true
        → IsOpening r web (renewing input source old new)

  -- Nothing but such a step changes the record or adds a session.
  abbrev pub IsQuiet : WebAuth → WebAuth → Type 0
  IsQuiet after web = (after.login ≡ web.login) × IsWithin after.sessions web.sessions

  same-IsQuiet : (web : WebAuth) → IsQuiet web web
  same-IsQuiet web = (refl, λ key t e. e)

  if-IsQuiet :
      (web : WebAuth) (x y : Stage × WebAuth) (b : Bool)
      → IsQuiet x.1 web
      → IsQuiet y.1 web
      → IsQuiet (if b then x else y).1 web
  if-IsQuiet web x y true h k = h
  if-IsQuiet web x y false h k = k

  dispatch-IsQuiet :
      (env : Env) (r : Request) (input : Input) (web : WebAuth)
      → IsQuiet (dispatch p env r input web).1 web
  unfolding dispatch start_check
  dispatch-IsQuiet env r input web =
      if-IsQuiet web _ _ (is_setup r) (same-IsQuiet web)
        (if-IsQuiet web _ _ (is_login r || is_password r) (same-IsQuiet web) (same-IsQuiet web))

  decode-IsQuiet :
      (env : Env) (r : Request) (body : Option Input) (web : WebAuth)
      → IsQuiet (decode p env r body web).1 web
  unfolding decode
  decode-IsQuiet env r none web = same-IsQuiet web
  decode-IsQuiet env r (some input) web = dispatch-IsQuiet env r input web

  start-IsQuiet : (env : Env) (r : Request) (web : WebAuth) → IsQuiet (start p env r web).1 web
  unfolding start with_sessions
  start-IsQuiet env r web =
      if-IsQuiet web _ _ (is_logout r) (refl, revoke_locked-IsWithin r.cookie web.sessions)
        (decode-IsQuiet env r r.body web)

  check_login-IsQuiet :
      (env : Env) (r : Request) (input : Input) (source : Text) (login : Option LoginRecord)
      (web : WebAuth)
      → IsQuiet (check_login p env r input source login web).1 web
  unfolding check_login copy_record with_sessions
  check_login-IsQuiet env r input source none web = same-IsQuiet web
  check_login-IsQuiet env r input source (some login) web =
      let within = valid_locked-IsWithin env.now r.cookie web.sessions in
      if-IsQuiet web _ _ (is_password r)
        (if-IsQuiet web _ _ (valid_locked p env.now r.cookie web.sessions).0 (refl, within)
          (refl, within))
        (same-IsQuiet web)

  pub step-cases :
      (env : Env) (r : Request) (stage : Stage) (web : WebAuth)
      → IsQuiet (step p env r stage web).1 web ⊎ IsOpening r web stage
  unfolding step acquire compare if_same
  step-cases env r started web = inl (start-IsQuiet env r web)
  step-cases env r (reading input) web = inl (same-IsQuiet web)
  step-cases env r (saving input new) web = elim (Bool-cases (is_set web.login)) [
    | inl t ↦ inl (rw (step, t) (same-IsQuiet web))
    | inr f ↦ inr (opens_first input new (is_set-none web.login f))
  ]
  step-cases env r (unblocked input source) web =
      inl (check_login-IsQuiet env r input source web.login web)
  step-cases env r (copied input source login) web =
      inl (if-IsQuiet web _ _ (ltb web.hash_slots 2) (same-IsQuiet web) (same-IsQuiet web))
  step-cases env r (hashing input source login) web = inl (same-IsQuiet web)
  step-cases env r (mismatched source) web = inl (same-IsQuiet web)
  step-cases env r (matched input source login) web =
      inl (if-IsQuiet web _ _ (same_record web.login login) (same-IsQuiet web) (same-IsQuiet web))
  step-cases env r (approved input source login) web = elim (Bool-cases (is_password r)) [
    | inl t ↦ inl (rw (step, t) (same-IsQuiet web))
    | inr f ↦ inr (opens_login input source login f)
  ]
  step-cases env r (renewing input source old new) web =
      elim (Bool-cases (same_record web.login old)) [
        | inl t ↦ inr (opens_renewed input source old new t)
        | inr f ↦ inl (rw (if_same, f) (same-IsQuiet web))
      ]
  step-cases env r (signed_in source cookie) web = inl (same-IsQuiet web)
  step-cases env r (replied reply) web = inl (same-IsQuiet web)
