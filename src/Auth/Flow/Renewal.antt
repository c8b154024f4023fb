-- ===== src/Auth/Flow/Renewal.antt =====
-- internal/server/auth.go: lemmas on a change of the password.
use aninode.Prelude.{
  ◌≡◌, refl, ◌∙◌, ap, inl, inr, true, ℕ, Text, Option, none, some, [], Bool-cases,
}
use aninode.Auth.{
  LoginRecord, WebAuth, Primitives, same_record, Saved, done, exists, broken, unsynced,
}
use aninode.Auth.Sessions.{valid_locked, add_session}
use aninode.Auth.Sessions.Cookie.{valid_locked-only}
use aninode.Auth.Flow.{
  Input, Request, Cookie, Reply, Stage, renewing, signed_in, replied, Env, with_sessions,
  open_session, save_locked, if_same, save_renewed, step, session_cookie,
}

replied_neq : (reply : Reply) (source : Text) (c : Cookie) → replied reply ≡ signed_in source c → ⊥
replied_neq reply source c e = cc e

signed_in-cookie : {s t : Text} {c d : Cookie} → signed_in s c ≡ signed_in t d → c ≡ d
signed_in-cookie e = cc e

module _ (p : Primitives) where
  -- Whose cookie still opens a session: the new one's.
  abbrev IsOnly : WebAuth → Cookie → Type 0
  IsOnly web c =
      (later : ℕ) (value : Text)
      → (valid_locked p later (some value) web.sessions).0 ≡ true
      → p.sha256 value ≡ p.sha256 c.value

  open_session-IsOnly :
      (env : Env) (r : Request) (source source' : Text) (random : Option Text) (web : WebAuth)
      (c : Cookie)
      → web.sessions ≡ []
      → (open_session p env r (signed_in source) random web).0 ≡ signed_in source' c
      → IsOnly (open_session p env r (signed_in source) random web).1 c
  unfolding open_session with_sessions session_cookie
  open_session-IsOnly env r source source' none web c h e = absurd (cc e)
  open_session-IsOnly env r source source' (some bytes) web c h e = λ later value v.
      let fresh : (valid_locked p later (some value) (add_session p env.now bytes r.cookie [])).0
          ≡ true =
        rw h at v in
      valid_locked-only p env.now later bytes value r.cookie fresh
      ∙ ap (λ x. p.sha256 x.value) (signed_in-cookie e)

  pub open_session-login :
      (env : Env) (r : Request) (next : Cookie → Stage) (random : Option Text) (web : WebAuth)
      → (open_session p env r next random web).1.login ≡ web.login
  unfolding open_session with_sessions
  open_session-login env r next none web = refl
  open_session-login env r next (some bytes) web = refl

  save_renewed-IsOnly :
      (env : Env) (r : Request) (source source' : Text) (new : LoginRecord) (web : WebAuth)
      (saved : Saved) (c : Cookie)
      → (save_renewed p env r source new web saved).0 ≡ signed_in source' c
      → ((save_renewed p env r source new web saved).1.login ≡ some new)
        × IsOnly (save_renewed p env r source new web saved).1 c
  unfolding save_renewed with_sessions save_locked
  save_renewed-IsOnly env r source source' new web exists c e = absurd (cc e)
  save_renewed-IsOnly env r source source' new web broken c e = absurd (cc e)
  save_renewed-IsOnly env r source source' new web unsynced c e = absurd (cc e)
  save_renewed-IsOnly env r source source' new web done c e = (
    open_session-login env r (signed_in source) env.random _,
    open_session-IsOnly env r source source' env.random _ c refl e,
  )

  -- Where the step that changes the password opens a session, the new record is stored, and a
  -- cookie that is valid behind it, at whatever time, has the hash of the new cookie.
  pub renewed-only :
      (env : Env) (r : Request) (input : Input) (source source' : Text) (old new : LoginRecord)
      (web : WebAuth) (c : Cookie) (later : ℕ) (value : Text)
      → (step p env r (renewing input source old new) web).0 ≡ signed_in source' c
      → (valid_locked p later
          (some value)
          (step p env r (renewing input source old new) web).1.sessions).0
        ≡ true
      → ((step p env r (renewing input source old new) web).1.login ≡ some new)
        × (p.sha256 value ≡ p.sha256 c.value)
  unfolding step if_same
  renewed-only env r input source source' old new web c later value e v =
      elim (Bool-cases (same_record web.login old)) [
        | inl t ↦
            let (login, only) =
              save_renewed-IsOnly env r source source' new web env.saved c (rw (if_same, t) at e) in
            rw (if_same, t) (login, only later value (rw (if_same, t) at v))
        | inr f ↦ absurd (cc (rw (if_same, f) at e))
      ]
