-- ===== src/Auth/Flow.antt =====
-- internal/server/auth.go: the handlers, any number of them at once. authWrite takes the mutex several
-- times, and each part of it that runs under the mutex, or that uses the hash slots, is one step; a
-- stage says where a handler stands between two of them.
pub mod Tasks
pub mod Steps
pub mod Keep
pub mod Reached
pub mod Opens
pub mod Renewal
pub mod Ends
pub mod Authority
use Prim.Native.Nat.{◌/◌}
use aninode.Prelude.{
  ℕ, zero, suc, ◌+◌, ◌-◌, ◌*◌, Bool, true, false, not, ◌&&◌, ◌||◌, if◌then◌else◌, ltb, leb, ◌==◌,
  Text, codes, text_eq, Option, none, some, List, [], ◌∷◌,
}
use aninode.ReleaseFilter.{is_empty, trim_space}
use aninode.Rss.{second}
use aninode.Rss.Documents.{before_byte}
use aninode.Auth.{
  LoginRecord, SetupRecord, WebAuth, Primitives, Saved, done, exists, broken, unsynced, SetupRead,
  got, not_exist, refused, read_setup_code, private_file, remove_file, password_record,
  matches_record, same_record,
}
use aninode.Auth.Sessions.{valid_locked, revoke_locked, add_session}
use aninode.Auth.Throttles.{blocked, failed, succeeded}

-- The struct that authWrite decodes.
pub record Input : Type 0 where
  pub password : Text
  pub current_password : Text
  pub setup_code : Text

-- A request as far as the sign-in reads it: r.URL.Path, r.Cookie, the body as decodeStrict decodes it,
-- r.RemoteAddr, X-Forwarded-For, and what secureCookie asks for.
pub record Request : Type 0 where
  pub path : Text
  pub cookie : Option Text
  pub body : Option Input
  pub remote_addr : Text
  pub forwarded_for : Text
  pub has_tls : Bool
  pub origin : Text
  pub host : Text

-- setSessionCookie; MaxAge is negative where `max_age` is none.
pub record Cookie : Type 0 where
  pub value : Text
  pub secure : Bool
  pub max_age : Option ℕ

-- A reply: an error of writeAPIError by its status and code, with Retry-After where it is set, or the
-- JSON with `authenticated` and, where it is there, `setup_required`. A cookie goes with a reply of 200.
pub data Reply : Type 0 where
  api_error : (status : ℕ) (code : Text) (retry_after : Option ℕ) → Reply
  not_found : Reply
  signed : (authenticated : Bool) (setup_required : Option Bool) (cookie : Option Cookie) → Reply

-- Where a handler stands: at its start, behind the test whether there is a password, with a new record
-- to save, past the throttle, with a copy of the record, in the hash, with a wrong password, with the
-- right one, with the right one for the record of that moment, with a session, and at its end.
pub data Stage : Type 0 where
  started : Stage
  reading : Input → Stage
  saving : Input → LoginRecord → Stage
  unblocked : Input → (source : Text) → Stage
  copied : Input → (source : Text) → LoginRecord → Stage
  hashing : Input → (source : Text) → LoginRecord → Stage
  mismatched : (source : Text) → Stage
  matched : Input → (source : Text) → LoginRecord → Stage
  approved : Input → (source : Text) → LoginRecord → Stage
  renewing : Input → (source : Text) → (old new : LoginRecord) → Stage
  signed_in : (source : Text) → Cookie → Stage
  replied : Reply → Stage

-- What a step meets outside: the clock, rand.Read, the write of the record, and os.Remove.
pub record Env : Type 0 where
  pub now : ℕ
  pub random : Option Text
  pub saved : Saved
  pub removed : Bool

abbrev pub is_logout : Request → Bool
is_logout r = text_eq r.path (codes "/auth/logout")

abbrev pub is_setup : Request → Bool
is_setup r = text_eq r.path (codes "/auth/setup")

abbrev pub is_login : Request → Bool
is_login r = text_eq r.path (codes "/auth/login")

abbrev pub is_password : Request → Bool
is_password r = text_eq r.path (codes "/auth/password")

abbrev pub already_configured : Stage
already_configured = replied (api_error 409 (codes "already_configured") none)

abbrev pub credentials_changed : Stage
credentials_changed = replied (api_error 409 (codes "credentials_changed") none)

abbrev pub save_failed : Stage
save_failed = replied (api_error 500 (codes "save_failed") none)

abbrev pub session_failed : Stage
session_failed = replied (api_error 500 (codes "session_failed") none)

abbrev pub invalid_password : ℕ → Stage
invalid_password status = replied (api_error status (codes "invalid_password") none)

-- int(retry.Round(time.Second).Seconds()), at least 1; halves are rounded up.
unfoldable pub whole_seconds : ℕ → ℕ
whole_seconds retry =
    let seconds = (retry + 500000000) / second in if ltb seconds 1 then 1 else seconds

-- What the throttle says of the source.
unfoldable pub pass_throttle : Input → Text → Option ℕ → Stage
pass_throttle input source (some retry) =
    replied (api_error 429 (codes "rate_limited") (some (whole_seconds retry)))
pass_throttle input source none = unblocked input source

-- a.record != nil
unfoldable pub is_set : Option LoginRecord → Bool
is_set none = false
is_set (some r) = true

-- What readSetupCodeAt has read, up to the new record.
abbrev pub refuse_code : ℕ → Text → Stage
refuse_code status code = replied (api_error status code none)

unfoldable pub named_host : Text → Text
named_host host = if is_empty host then codes "unknown" else host

-- The password to check: the current one, for a change.
unfoldable pub password_of : Request → Input → Text
password_of r input = if is_password r then input.current_password else input.password

unfoldable pub with_sessions : WebAuth → List (Text × ℕ) → WebAuth
with_sessions web sessions = record web { sessions = sessions }

-- saveLocked
unfoldable pub save_locked : LoginRecord → WebAuth → WebAuth
save_locked new web = record web { login = some new; login_file = private_file new }

-- saveLocked, where the file is there and an error comes behind that.
unfoldable pub leave_record : LoginRecord → WebAuth → WebAuth
leave_record new web = record web { login_file = private_file new }

-- The copy of the record, behind its two tests.
unfoldable pub copy_record :
    Request → Input → Text → LoginRecord → WebAuth → Bool × List (Text × ℕ) → Stage × WebAuth
copy_record r input source login web (valid, sessions) =
    if valid
    then (copied input source login, with_sessions web sessions)
    else (refuse_code 401 (codes "unauthorized"), with_sessions web sessions)

-- acquireHashSlot
unfoldable pub acquire : Input → Text → LoginRecord → WebAuth → Stage × WebAuth
acquire input source login web =
    if ltb web.hash_slots 2
    then (hashing input source login, record web { hash_slots = suc web.hash_slots })
    else (replied (api_error 429 (codes "busy") (some 1)), web)

-- Where the record has not changed in between.
unfoldable pub if_same : LoginRecord → WebAuth → Stage × WebAuth → Stage × WebAuth
if_same login web next = if same_record web.login login then next else (credentials_changed, web)

-- The first test of authWrite.
unfoldable pub first_stage : Option WebAuth → Stage
first_stage none = refuse_code 503 (codes "unavailable")
first_stage (some web) = started

module _ (p : Primitives) where
  -- secureCookie
  unfoldable pub secure_cookie : Request → Bool
  secure_cookie r = if r.has_tls then true else elim (p.parse_origin r.origin) [
    | none ↦ false
    | some (scheme, host) ↦ text_eq scheme (codes "https") && text_eq host r.host
  ]

  unfoldable pub session_cookie : Request → Text → Cookie
  session_cookie r bytes = record {
    value = p.base64 bytes;
    secure = secure_cookie r;
    max_age = some 604800;
  }

  -- The host of the peer.
  unfoldable pub peer_host : Request → Text
  peer_host r = elim (p.split_host_port r.remote_addr) [
    | none ↦ r.remote_addr
    | some host ↦ if is_empty host then r.remote_addr else host
  ]

  -- The address that a proxy on this host has forwarded.
  unfoldable pub forwarded : Request → Option Text
  forwarded r =
      let first = trim_space (before_byte b',' r.forwarded_for) in
      elim (p.parse_ip first) [ none ↦ none | some loopback ↦ some first ]

  -- loginSource
  unfoldable pub login_source : Request → Text
  login_source r =
      let host = peer_host r in
      elim (p.parse_ip host) [
        | none ↦ named_host host
        | some loopback ↦
            if not loopback
            then named_host host
            else elim (forwarded r) [ none ↦ named_host host | some address ↦ address ]
      ]

  -- sessionLocked and the test of its error; `next` follows a session.
  unfoldable pub open_session :
      Env → Request → (Cookie → Stage) → Option Text → WebAuth → Stage × WebAuth
  open_session env r next none web = (session_failed, web)
  open_session env r next (some bytes) web = (
    next (session_cookie r bytes),
    with_sessions web (add_session p env.now bytes r.cookie web.sessions),
  )

  -- From a path that is none of the first two on, through blocked.
  unfoldable pub start_check : Env → Request → Input → WebAuth → Stage × WebAuth
  start_check env r input web =
      let source = login_source r in
      let (retry, throttles) = blocked env.now source web.throttles in
      (pass_throttle input source retry, record web { throttles = throttles })

  unfoldable pub dispatch : Env → Request → Input → WebAuth → Stage × WebAuth
  dispatch env r input web =
      if is_setup r
      then ((if is_set web.login then already_configured else reading input), web)
      else if is_login r || is_password r
      then start_check env r input web
      else (replied not_found, web)

  -- Behind decodeStrict.
  unfoldable pub decode : Env → Request → Option Input → WebAuth → Stage × WebAuth
  decode env r none web = (replied (api_error 400 (codes "invalid_request") none), web)
  decode env r (some input) web = dispatch env r input web

  -- From the start through the first critical section.
  unfoldable pub start : Env → Request → WebAuth → Stage × WebAuth
  start env r web =
      if is_logout r
      then (
        replied (
            signed false none
              (some (record { value = []; secure = secure_cookie r; max_age = none }))),
        with_sessions web (revoke_locked p r.cookie web.sessions),
      )
      else decode env r r.body web

  -- passwordRecord and the test of its error.
  unfoldable pub derive : Input → Env → (LoginRecord → Stage) → Stage
  derive input env next = elim (password_record p input.password env.random) [
    | none ↦ invalid_password 400
    | some new ↦ next new
  ]

  -- The setup code, its deadline, and the new record.
  unfoldable pub check_code : Env → Input → SetupRead → Stage
  check_code env input not_exist = refuse_code 503 (codes "setup_code_unavailable")
  check_code env input refused = refuse_code 503 (codes "setup_code_unavailable")
  check_code env input (got setup) =
      if not (ltb env.now setup.expires_at)
      then refuse_code 401 (codes "setup_code_expired")
      else if not (text_eq (p.sha256 input.setup_code) (p.sha256 setup.code))
      then refuse_code 401 (codes "invalid_setup_code")
      else derive input env (saving input)

  -- Behind a first record that is saved.
  unfoldable pub set_up : Env → Request → LoginRecord → WebAuth → Stage × WebAuth
  set_up env r new web =
      let kept = save_locked new web in
      open_session env r (λ c. replied (signed true (some false) (some c))) env.random
        (record kept { setup_file = remove_file env.removed web.setup_file })

  unfoldable pub save_first : Env → Request → LoginRecord → WebAuth → Saved → Stage × WebAuth
  save_first env r new web exists = (already_configured, web)
  save_first env r new web broken = (save_failed, web)
  save_first env r new web unsynced = (save_failed, leave_record new web)
  save_first env r new web done = set_up env r new web

  unfoldable pub check_login :
      Env → Request → Input → Text → Option LoginRecord → WebAuth → Stage × WebAuth
  check_login env r input source none web = (refuse_code 409 (codes "setup_required"), web)
  check_login env r input source (some login) web =
      if is_password r
      then copy_record r input source login web (valid_locked p env.now r.cookie web.sessions)
      else (copied input source login, web)

  -- matchesRecord and releaseHashSlot
  unfoldable pub compare : Request → Input → Text → LoginRecord → WebAuth → Stage × WebAuth
  compare r input source login web = (
    (if matches_record p (password_of r input) login
        then matched input source login
        else mismatched source),
    record web { hash_slots = web.hash_slots - 1 },
  )

  unfoldable pub save_renewed :
      Env → Request → Text → LoginRecord → WebAuth → Saved → Stage × WebAuth
  save_renewed env r source new web exists = (save_failed, web)
  save_renewed env r source new web broken = (save_failed, web)
  save_renewed env r source new web unsynced = (save_failed, leave_record new web)
  save_renewed env r source new web done =
      open_session env r (signed_in source) env.random (with_sessions (save_locked new web) [])

  -- A step of authWrite.
  unfoldable pub step : Env → Request → Stage → WebAuth → Stage × WebAuth
  step env r started web = start env r web
  step env r (reading input) web = (check_code env input (read_setup_code web.setup_file), web)
  step env r (saving input new) web =
      if is_set web.login then (already_configured, web) else save_first env r new web env.saved
  step env r (unblocked input source) web = check_login env r input source web.login web
  step env r (copied input source login) web = acquire input source login web
  step env r (hashing input source login) web = compare r input source login web
  step env r (mismatched source) web =
      (invalid_password 401, record web { throttles = failed env.now source web.throttles })
  step env r (matched input source login) web = if_same login web (approved input source login, web)
  step env r (approved input source login) web =
      if is_password r
      then (derive input env (renewing input source login), web)
      else open_session env r (signed_in source) env.random web
  step env r (renewing input source login new) web =
      if_same login web (save_renewed env r source new web env.saved)
  step env r (signed_in source cookie) web = (
    replied (signed true (some false) (some cookie)),
    record web { throttles = succeeded source web.throttles },
  )
  step env r (replied reply) web = (replied reply, web)

  -- authStatus
  unfoldable pub auth_status : ℕ → Option Text → Option WebAuth → Reply × Option WebAuth
  auth_status now cookie none = (api_error 503 (codes "unavailable") none, none)
  auth_status now cookie (some web) =
      let (valid, sessions) = valid_locked p now cookie web.sessions in
      (signed valid (some (not (is_set web.login))) none, some (with_sessions web sessions))

  -- auth: a reply, or the next handler goes on.
  unfoldable pub auth : ℕ → Option Text → Option WebAuth → Option Reply × Option WebAuth
  auth now cookie none = (some (api_error 401 (codes "unauthorized") none), none)
  auth now cookie (some web) =
      let (valid, sessions) = valid_locked p now cookie web.sessions in
      (
        (if valid then none else some (api_error 401 (codes "unauthorized") none)),
        some (with_sessions web sessions),
      )

-- browserRequests: the reply where the request does not reach the cross-origin protection; the second
-- argument is X-Aninode-Request.
unfoldable pub browser_requests : (method header : Text) → Option Reply
browser_requests method header =
    if not (text_eq method (codes "GET"))
      && not (text_eq method (codes "HEAD"))
      && not (text_eq method (codes "OPTIONS"))
      && not (text_eq header (codes "1"))
    then some (api_error 403 (codes "forbidden") none)
    else none
