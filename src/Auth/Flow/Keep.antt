-- ===== src/Auth/Flow/Keep.antt =====
-- internal/server/auth.go: lemmas on what the step from each stage keeps.
use aninode.Prelude.{
  ◌-◌, ◌≤◌, ◌≡◌, refl, sym, inl, inr, true, false, ◌||◌, ltb, Text, text_eq, arith, Option, none,
  some, some-injective, List, [], length, Bool-cases, Option-cases,
}
use aninode.Auth.{
  LoginRecord, WebAuth, Primitives, is_exposed, SetupRead, got, not_exist, refused, read_setup_code,
  private_file, remove_file, derive_record, password_record, matches_record, same_record, Saved,
  done, exists, broken, unsynced,
}
use aninode.Auth.Opening.{IsRecord, stored-IsFiled}
use mathlib.Core.List.{Memᴰ}
use aninode.Auth.Sessions.{valid_locked, revoke_locked}
use aninode.Auth.Sessions.Bound.{revoke_locked-IsBounded, valid_locked-IsBounded}
use aninode.Auth.Throttles.{blocked, failed, succeeded, forget, remaining, throttle_of}
use aninode.Auth.Throttles.Blocks.{forget-IsCounted, failed-IsCounted, succeeded-IsCounted}
use aninode.Auth.Flow.{
  Input, Request, Stage, started, reading, saving, unblocked, copied, hashing, mismatched, matched,
  approved, renewing, signed_in, replied, signed, Env, is_logout, is_setup, is_login, is_password,
  is_set, pass_throttle, password_of, with_sessions, login_source, leave_record, save_failed,
  save_locked, start_check, dispatch, decode, start, derive, check_code, set_up, save_first,
  copy_record, check_login, acquire, compare, if_same, save_renewed, step,
}
use aninode.Auth.Flow.Tasks.{Entry, IsFair, slots_of}
use aninode.Auth.Flow.Steps.{
  IsSound, IsLawful, IsDerived, IsCopied, IsJustified, Keeps, if-Keeps, stay-Keeps, sessions-Keeps,
  throttles-Keeps, open_session-Keeps,
}

derive_record-IsRecord :
    (p : Primitives) (password salt : Text) (new : LoginRecord)
    → IsLawful p
    → length salt ≡ 32
    → derive_record p password salt ≡ some new
    → IsRecord new
unfolding derive_record
derive_record-IsRecord p password salt new law n e = elim (Option-cases (p.pbkdf2 password salt)) [
  | inr f ↦ absurd (cc (rw (derive_record, f) at e))
  | inl (hash, f) ↦
      rw (sym (some-injective (rw (derive_record, f) at e))) (refl, n, law password salt hash f)
]

-- What passwordRecord returns comes from the salt that it has read.
password_record-salt :
    (p : Primitives) (password : Text) (random : Option Text) (new : LoginRecord)
    → password_record p password random ≡ some new
    → (salt : Text) × (random ≡ some salt)
      × (derive_record p password salt ≡ some new)
      × (password_record p password (some salt) ≡ some new)
unfolding password_record
password_record-salt p password none new e =
    elim (Bool-cases (ltb (p.rune_count password) 8 || ltb 1024 (length password))) [
      | inl t ↦ absurd (cc (rw (password_record, t) at e))
      | inr f ↦ absurd (cc (rw (password_record, f) at e))
    ]
password_record-salt p password (some salt) new e =
    elim (Bool-cases (ltb (p.rune_count password) 8 || ltb 1024 (length password))) [
      | inl t ↦ absurd (cc (rw (password_record, t) at e))
      | inr f ↦ (salt, refl, (rw (password_record, f) at e), e)
    ]

password_record-IsDerived :
    (p : Primitives) (input : Input) (env : Env) (new : LoginRecord)
    → IsLawful p
    → IsFair env
    → password_record p input.password env.random ≡ some new
    → IsDerived p input new
password_record-IsDerived p input env new law fair e =
    let (salt, read, derived, same) = password_record-salt p input.password env.random new e in
    (derive_record-IsRecord p input.password salt new law (fair salt read) derived, (salt, same))

module _ (p : Primitives) (law : IsLawful p) (log : List Entry) where
  derive-Keeps :
      (env : Env) (r : Request) (input : Input) (web : WebAuth) (next : LoginRecord → Stage)
      → IsSound web
      → IsFair env
      → ((new : LoginRecord)
          → IsDerived p input new
          → password_record p input.password env.random ≡ some new
          → (slots_of (next new) ≡ 0) × IsJustified p log r (next new))
      → Keeps p log r 0 web (derive p input env next, web)
  unfolding derive slots_of
  derive-Keeps env r input web next h fair j =
      elim (Option-cases (password_record p input.password env.random)) [
        | inr e ↦ rw (derive, e) (stay-Keeps p log r web _ h refl tt)
        | inl (new, e) ↦
            let (z, why) = j new (password_record-IsDerived p input env new law fair e) e in
            rw (derive, e) (stay-Keeps p log r web (next new) h z why)
      ]

  start_check-Keeps :
      (env : Env) (r : Request) (input : Input) (web : WebAuth)
      → r.body ≡ some input
      → IsSound web
      → Keeps p log r 0 web (start_check p env r input web)
  unfolding start_check blocked slots_of pass_throttle
  start_check-Keeps env r input web d h =
      let source = login_source p r in
      let kept = forget env.now web.throttles in
      let fine = forget-IsCounted env.now web.throttles h.counted in
      elim (Option-cases (remaining env.now (throttle_of source kept))) [
        | inr e ↦
            rw (e, pass_throttle)
              (throttles-Keeps p log r web (unblocked input source) kept h fine refl d)
        | inl (rest, e) ↦ rw (e, pass_throttle) (throttles-Keeps p log r web _ kept h fine refl tt)
      ]

  dispatch-Keeps :
      (env : Env) (r : Request) (input : Input) (web : WebAuth)
      → r.body ≡ some input
      → IsSound web
      → Keeps p log r 0 web (dispatch p env r input web)
  unfolding dispatch slots_of
  dispatch-Keeps env r input web d h =
      if-Keeps p log r 0 web _ _ (is_setup r)
        (λ t. elim (Bool-cases (is_set web.login)) [
          | inl s ↦ rw s (stay-Keeps p log r web _ h refl tt)
          | inr n ↦ rw n (stay-Keeps p log r web (reading input) h refl (d, t))
        ])
        (λ f.
          if-Keeps p log r 0 web _ _ (is_login r || is_password r)
            (λ t. start_check-Keeps env r input web d h) (λ n. stay-Keeps p log r web _ h refl tt))

  decode-Keeps :
      (env : Env) (r : Request) (body : Option Input) (web : WebAuth)
      → r.body ≡ body
      → IsSound web
      → Keeps p log r 0 web (decode p env r body web)
  unfolding decode slots_of
  decode-Keeps env r none web d h = stay-Keeps p log r web _ h refl tt
  decode-Keeps env r (some input) web d h = dispatch-Keeps env r input web d h

  start-Keeps :
      (env : Env) (r : Request) (web : WebAuth)
      → IsSound web
      → Keeps p log r 0 web (start p env r web)
  unfolding start slots_of
  start-Keeps env r web h =
      if-Keeps p log r 0 web _ _ (is_logout r)
        (λ t.
          sessions-Keeps p log r web _ (revoke_locked p r.cookie web.sessions) h
            (revoke_locked-IsBounded p r.cookie web.sessions h.bounded) refl tt)
        (λ f. decode-Keeps env r r.body web refl h)

  check_code-Keeps :
      (env : Env) (r : Request) (input : Input) (web : WebAuth) (read : SetupRead)
      → Memᴰ (record { env = env; request = r; stage = reading input; web = web }) log
      → read_setup_code web.setup_file ≡ read
      → is_setup r ≡ true
      → r.body ≡ some input
      → IsSound web
      → IsFair env
      → Keeps p log r 0 web (check_code p env input read, web)
  unfolding check_code slots_of
  check_code-Keeps env r input web not_exist l f s d h fair = stay-Keeps p log r web _ h refl tt
  check_code-Keeps env r input web refused l f s d h fair = stay-Keeps p log r web _ h refl tt
  check_code-Keeps env r input web (got setup) l f s d h fair =
      elim (Bool-cases (ltb env.now setup.expires_at)) [
        | inr late ↦ rw (check_code, late) (stay-Keeps p log r web _ h refl tt)
        | inl t ↦ elim (Bool-cases (text_eq (p.sha256 input.setup_code) (p.sha256 setup.code))) [
          | inr other ↦ rw (check_code, t, other) (stay-Keeps p log r web _ h refl tt)
          | inl same ↦
              rw (check_code, t, same)
                (derive-Keeps env r input web (saving input) h fair (λ new n made. (
                  refl,
                  (
                    n.0,
                    record {
                      env = env;
                      web = web;
                      setup = setup;
                      logged = l;
                      body = d;
                      path = s;
                      read = f;
                      in_time = t;
                      same = same;
                      derived = made;
                    },
                  ),
                )))
        ]
      ]

  set_up-Keeps :
      (env : Env) (r : Request) (new : LoginRecord) (web : WebAuth)
      → IsSound web
      → IsRecord new
      → Keeps p log r 0 web (set_up p env r new web)
  unfolding set_up save_locked private_file slots_of is_exposed
  set_up-Keeps env r new web h good =
      open_session-Keeps p log env r (λ c. replied (signed true (some false) (some c))) env.random
        web (record (save_locked new web) { setup_file = remove_file env.removed web.setup_file })
        (record {
          bounded = h.bounded;
          counted = h.counted;
          few_slots = h.few_slots;
          filed = (good, (new, good, (true, 384, refl, refl)));
        })
        refl (λ c. (refl, tt))

  leave_record-Keeps :
      (r : Request) (new : LoginRecord) (web : WebAuth)
      → IsSound web
      → IsRecord new
      → Keeps p log r 0 web (save_failed, leave_record new web)
  unfolding leave_record slots_of
  leave_record-Keeps r new web h good = record {
    sound = record {
      bounded = h.bounded;
      counted = h.counted;
      few_slots = h.few_slots;
      filed = stored-IsFiled web.login new web.login_file good h.filed;
    };
    slots = omega arith;
    justified = tt;
  }

  save_first-Keeps :
      (env : Env) (r : Request) (new : LoginRecord) (web : WebAuth) (saved : Saved)
      → IsSound web
      → IsRecord new
      → Keeps p log r 0 web (save_first p env r new web saved)
  unfolding save_first slots_of
  save_first-Keeps env r new web exists h good = stay-Keeps p log r web _ h refl tt
  save_first-Keeps env r new web broken h good = stay-Keeps p log r web _ h refl tt
  save_first-Keeps env r new web unsynced h good = leave_record-Keeps r new web h good
  save_first-Keeps env r new web done h good = set_up-Keeps env r new web h good

  save_renewed-Keeps :
      (env : Env) (r : Request) (source : Text) (new : LoginRecord) (web : WebAuth) (saved : Saved)
      → IsSound web
      → IsRecord new
      → Keeps p log r 0 web (save_renewed p env r source new web saved)
  unfolding save_renewed save_locked with_sessions private_file slots_of is_exposed
  save_renewed-Keeps env r source new web exists h good = stay-Keeps p log r web _ h refl tt
  save_renewed-Keeps env r source new web broken h good = stay-Keeps p log r web _ h refl tt
  save_renewed-Keeps env r source new web unsynced h good = leave_record-Keeps r new web h good
  save_renewed-Keeps env r source new web done h good =
      open_session-Keeps p log env r (signed_in source) env.random web
        (with_sessions (save_locked new web) [])
        (record {
          bounded = (tt, omega arith);
          counted = h.counted;
          few_slots = h.few_slots;
          filed = (good, (new, good, (true, 384, refl, refl)));
        })
        refl (λ c. (refl, tt))

  copy_record-IsCopied :
      (env : Env) (r : Request) (input : Input) (source : Text) (login : LoginRecord)
      (web : WebAuth)
      → Memᴰ (record { env = env; request = r; stage = unblocked input source; web = web }) log
      → web.login ≡ some login
      → r.body ≡ some input
      → (is_password r ≡ true → (valid_locked p env.now r.cookie web.sessions).0 ≡ true)
      → IsCopied p log r input login
  copy_record-IsCopied env r input source login web l e d s = record {
    env = env;
    web = web;
    source = source;
    logged = l;
    body = d;
    met = e;
    session = s;
  }

  check_login-Keeps :
      (env : Env) (r : Request) (input : Input) (source : Text) (login : Option LoginRecord)
      (web : WebAuth)
      → Memᴰ (record { env = env; request = r; stage = unblocked input source; web = web }) log
      → web.login ≡ login
      → r.body ≡ some input
      → IsSound web
      → Keeps p log r 0 web (check_login p env r input source login web)
  unfolding check_login copy_record slots_of
  check_login-Keeps env r input source none web l e d h = stay-Keeps p log r web _ h refl tt
  check_login-Keeps env r input source (some login) web l e d h =
      let b = valid_locked-IsBounded p env.now r.cookie web.sessions h.bounded in
      let sessions = (valid_locked p env.now r.cookie web.sessions).1 in
      if-Keeps p log r 0 web _ _ (is_password r)
        (λ t.
          if-Keeps p log r 0 web _ _ (valid_locked p env.now r.cookie web.sessions).0
            (λ v.
              sessions-Keeps p log r web (copied input source login) sessions h b refl
                (copy_record-IsCopied env r input source login web l e d (λ s. v)))
            (λ n. sessions-Keeps p log r web _ sessions h b refl tt))
        (λ f.
          stay-Keeps p log r web (copied input source login) h refl
            (copy_record-IsCopied env r input source login web l e d (λ s. absurd (cc (s, f)))))

  acquire-Keeps :
      (r : Request) (input : Input) (source : Text) (login : LoginRecord) (web : WebAuth)
      → IsCopied p log r input login
      → IsSound web
      → Keeps p log r 0 web (acquire input source login web)
  unfolding acquire slots_of
  acquire-Keeps r input source login web d h = elim (Bool-cases (ltb web.hash_slots 2)) [
    | inr f ↦ rw (acquire, f) (stay-Keeps p log r web _ h refl tt)
    | inl t ↦
        rw (acquire, t)
          (record {
            sound = record {
              bounded = h.bounded;
              counted = h.counted;
              few_slots = ground arith;
              filed = h.filed;
            };
            slots = omega arith;
            justified = d;
          })
  ]

  compare-Keeps :
      (r : Request) (input : Input) (source : Text) (login : LoginRecord) (web : WebAuth)
      → IsCopied p log r input login
      → IsSound web
      → 1 ≤ web.hash_slots
      → Keeps p log r 1 web (compare p r input source login web)
  unfolding compare slots_of
  compare-Keeps r input source login web d h held =
      let sound : IsSound (record web { hash_slots = web.hash_slots - 1 }) = record {
        bounded = h.bounded;
        counted = h.counted;
        few_slots = omega (arith, h.few_slots);
        filed = h.filed;
      } in
      elim (Bool-cases (matches_record p (password_of r input) login)) [
        | inl t ↦
            rw (compare, t)
              (record { sound = sound; slots = omega (arith, held); justified = (d, t) })
        | inr f ↦
            rw (compare, f) (record { sound = sound; slots = omega (arith, held); justified = tt })
      ]

  if_same-Keeps :
      (r : Request) (login : LoginRecord) (web : WebAuth) (next : Stage × WebAuth)
      → IsSound web
      → Keeps p log r 0 web next
      → Keeps p log r 0 web (if_same login web next)
  unfolding if_same slots_of
  if_same-Keeps r login web next h k =
      if-Keeps p log r 0 web _ _ (same_record web.login login) (λ t. k)
        (λ f. stay-Keeps p log r web _ h refl tt)

  current :
      (r : Request) (input : Input) (login : LoginRecord)
      → is_password r ≡ true
      → matches_record p (password_of r input) login ≡ true
      → matches_record p input.current_password login ≡ true
  unfolding password_of
  current r input login t j = rw (password_of, t) at j

  -- No step leaves the sound states.
  pub step-Keeps :
      (env : Env) (r : Request) (stage : Stage) (web : WebAuth)
      → Memᴰ (record { env = env; request = r; stage = stage; web = web }) log
      → IsSound web
      → IsFair env
      → IsJustified p log r stage
      → slots_of stage ≤ web.hash_slots
      → Keeps p log r (slots_of stage) web (step p env r stage web)
  unfolding step slots_of
  step-Keeps env r started web l h fair j s = start-Keeps env r web h
  step-Keeps env r (reading input) web l h fair j s =
      check_code-Keeps env r input web (read_setup_code web.setup_file) l refl j.1 j.0 h fair
  step-Keeps env r (saving input new) web l h fair j s =
      if-Keeps p log r 0 web _ _ (is_set web.login) (λ t. stay-Keeps p log r web _ h refl tt)
        (λ f. save_first-Keeps env r new web env.saved h j.0)
  step-Keeps env r (unblocked input source) web l h fair j s =
      check_login-Keeps env r input source web.login web l refl j h
  step-Keeps env r (copied input source login) web l h fair j s =
      acquire-Keeps r input source login web j h
  step-Keeps env r (hashing input source login) web l h fair j s =
      compare-Keeps r input source login web j h s
  step-Keeps env r (mismatched source) web l h fair j s =
      throttles-Keeps p log r web _ (failed env.now source web.throttles) h
        (failed-IsCounted env.now source web.throttles h.counted) refl tt
  step-Keeps env r (matched input source login) web l h fair j s =
      if_same-Keeps r login web (approved input source login, web) h
        (stay-Keeps p log r web (approved input source login) h refl j)
  step-Keeps env r (approved input source login) web l h fair j s =
      if-Keeps p log r 0 web _ _ (is_password r)
        (λ t.
          derive-Keeps env r input web (renewing input source login) h fair
            (λ new d made. (refl, (j.0, t, current r input login t j.1, d))))
        (λ f.
          open_session-Keeps p log env r (signed_in source) env.random web web h refl
            (λ c. (refl, tt)))
  step-Keeps env r (renewing input source login new) web l h fair j s =
      if_same-Keeps r login web (save_renewed p env r source new web env.saved) h
        (save_renewed-Keeps env r source new web env.saved h j.3.0)
  step-Keeps env r (signed_in source cookie) web l h fair j s =
      throttles-Keeps p log r web _ (succeeded source web.throttles) h
        (succeeded-IsCounted source web.throttles h.counted) refl tt
  step-Keeps env r (replied reply) web l h fair j s = stay-Keeps p log r web _ h refl tt
