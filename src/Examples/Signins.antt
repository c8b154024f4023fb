-- ===== src/Examples/Signins.antt =====
-- Auth: tests and examples of the sign-in.
use aninode.Prelude.{
  ℕ, zero, suc, ◌+◌, ◌≤◌, ◌≡◌, refl, sym, some-injective, ◌⊎◌, inl, true, false, Text, codes, arith,
  none, some, List, [], ◌∷◌, ◌++◌, length, take, length-append, length-take_le, lookup, assign,
  delete, text_eq, neq_text, ltb, All,
}
use aninode.ReleaseFilter.{is_empty}
use aninode.Auth.{
  LoginRecord, SetupRecord, missing, WebAuth, Primitives, open_web_auth, open_fresh, opened,
  private_file, ensure_setup_code, keep_setup_code, new_setup_code, write_setup_code, done, broken,
  unsynced, read_setup_code, check_setup, is_exposed, got, password_record, derive_record,
  same_record, remove_file, setup_code_lifetime,
}
use aninode.Auth.Opening.{ensure_setup_code-again}
use aninode.Auth.Sessions.{
  session_lifetime, valid_locked, check_session, add_session, revoke_locked, drop_ended,
  evict_oldest,
}
use aninode.Auth.Sessions.Cookie.{valid_locked-add_session}
use aninode.Auth.Throttles.{block_duration, Event, asks, fails, succeeds, run}
use aninode.Auth.Throttles.Count.{IsWithin, adds, failures_of}
use aninode.Auth.Flow.{
  Input, Request, Cookie, api_error, signed, Stage, started, reading, saving, approved, renewing,
  signed_in, replied, leave_record, Env, step, start, decode, dispatch, is_set, check_code, derive,
  save_first, set_up, save_locked, open_session, with_sessions, save_renewed, if_same,
  session_cookie, secure_cookie, login_source, peer_host, named_host, whole_seconds,
}
use aninode.Auth.Flow.Tasks.{
  Entry, log_move, System, IsFair, resume, Move, arrive, advance, IsReached, fresh, moved,
}
use aninode.Auth.Flow.Steps.{IsLawful}
use aninode.Auth.Flow.Reached.{IsGood, reached-IsGood}
use aninode.Auth.Flow.Renewal.{renewed-only}
use aninode.Auth.Flow.Ends.{start-rate_limited}
use aninode.Auth.Flow.Authority.{IsChange, IsAdmitted, Move-IsChange, Move-IsAdmitted}

zeros : ℕ → Text
zeros zero = []
zeros (suc n) = 0 ∷ zeros n

abbrev pad : ℕ → Text → Text
pad n t = take n (t ++ zeros n)

-- Functions of the library: texts padded to the lengths that the real ones have.
abbrev plain : Primitives
plain = record {
  pbkdf2 = λ password salt. some (pad 32 password);
  sha256 = λ t. t;
  base64 = λ bytes. pad 43 bytes;
  rune_count = λ t. length t;
  split_host_port = λ t. some t;
  parse_ip = λ t. none;
  parse_origin = λ t. none;
}

length-zeros : (n : ℕ) → length (zeros n) ≡ n
unfolding zeros
length-zeros zero = refl
length-zeros (suc n) = omega (arith, length-zeros n)

length-pad : (n : ℕ) (t : Text) → length (pad n t) ≡ n
length-pad n t =
    length-take_le n (t ++ zeros n) (omega (arith, length-append t (zeros n), length-zeros n))

plain-IsLawful : IsLawful plain
plain-IsLawful password salt hash e = rw (sym (some-injective e)) (length-pad 32 password)

-- The first password: the setup file is made at 5, and the code is used at 6.
abbrev env : ℕ → Env
env t = record { now = t; random = some (zeros 32); saved = done; removed = true }

env-IsFair : (t : ℕ) → IsFair (env t)
env-IsFair t bytes e = rw (sym (some-injective e)) (length-zeros 32)

abbrev first_setup : SetupRecord
first_setup = record { version = 1; code = pad 43 (zeros 18); expires_at = 5 + setup_code_lifetime }

abbrev first_web : WebAuth
first_web = opened none missing (private_file first_setup)

opened_test : open_web_auth plain 5 (some (zeros 18)) done true missing missing ≡ some first_web
unfolding open_web_auth open_fresh ensure_setup_code read_setup_code keep_setup_code new_setup_code
    write_setup_code
opened_test = refl

abbrev first_input : Input
first_input = record {
  password = codes "password1";
  current_password = [];
  setup_code = pad 43 (zeros 18);
}

abbrev setup_request : Request
setup_request = record {
  path = codes "/auth/setup";
  cookie = none;
  body = some first_input;
  remote_addr = codes "10.0.0.7";
  forwarded_for = [];
  has_tls = true;
  origin = [];
  host = codes "nas";
}

abbrev first_record : LoginRecord
first_record = record { version = 1; salt = zeros 32; hash = pad 32 (codes "password1") }

abbrev opened_system : System
opened_system = record { web = first_web; tasks = [] }

-- A system whose only handler stands at a stage.
abbrev alone : WebAuth → Request → Stage → System
alone web r stage = record { web = web; tasks = record { request = r; stage = stage } ∷ [] }

first_step : step plain (env 6) setup_request started first_web ≡ (reading first_input, first_web)
unfolding step start decode dispatch is_set text_eq opened
first_step = refl

second_step :
    step plain (env 6) setup_request (reading first_input) first_web
    ≡ (saving first_input first_record, first_web)
unfolding step check_code derive read_setup_code private_file is_exposed check_setup text_eq
    password_record derive_record opened zeros
second_step = refl

resumed :
    (web web' : WebAuth) (r : Request) (stage stage' : Stage) (t : ℕ)
    → step plain (env t) r stage web ≡ (stage', web')
    → Move plain (alone web r stage) (alone web' r stage')
unfolding resume
resumed web web' r stage stage' t e =
    let there : Move plain (alone web r stage) (resume r [] [] (step plain (env t) r stage web)) =
      advance (env t) [] [] r stage refl (env-IsFair t) in
    rw e at there

abbrev entry : ℕ → Request → Stage → WebAuth → Entry
entry t r stage web = record { env = env t; request = r; stage = stage; web = web }

alone_resumed :
    (web web' : WebAuth) (r : Request) (stage stage' : Stage) (t : ℕ) (log : List Entry)
    → step plain (env t) r stage web ≡ (stage', web')
    → IsReached plain log (alone web r stage)
    → IsReached plain (entry t r stage web ∷ log) (alone web' r stage')
unfolding resume log_move
alone_resumed web web' r stage stage' t log e h =
    let there : IsReached plain (entry t r stage web ∷ log)
        (resume r [] [] (step plain (env t) r stage web)) =
      moved h (advance (env t) [] [] r stage refl (env-IsFair t)) in
    rw e at there

-- The two steps in front of the save.
abbrev ready_log : List Entry
ready_log =
    entry 6 setup_request (reading first_input) first_web
    ∷ entry 6 setup_request started first_web
    ∷ []

abbrev ready_system : System
ready_system = alone first_web setup_request (saving first_input first_record)

ready_reached : IsReached plain ready_log ready_system
unfolding log_move
ready_reached =
    let init = fresh 5 (some (zeros 18)) done true missing missing first_web opened_test in
    alone_resumed first_web first_web setup_request (reading first_input)
      (saving first_input first_record) 6 (entry 6 setup_request started first_web ∷ []) second_step
      (alone_resumed first_web first_web setup_request started (reading first_input) 6 [] first_step
        (moved init (arrive setup_request)))

abbrev first_key : Text
first_key = pad 43 (zeros 32)

abbrev first_cookie : Cookie
first_cookie = record { value = first_key; secure = true; max_age = some 604800 }

abbrev signed_web : WebAuth
signed_web = record {
  login = some first_record;
  sessions = (first_key, 6 + session_lifetime) ∷ [];
  throttles = [];
  hash_slots = 0;
  login_file = private_file first_record;
  setup_file = missing;
}

abbrev set_up_reply : Stage
set_up_reply = replied (signed true (some false) (some first_cookie))

third_step :
    step plain (env 6) setup_request (saving first_input first_record) first_web
    ≡ (set_up_reply, signed_web)
unfolding step is_set save_first set_up save_locked open_session session_cookie secure_cookie
    with_sessions add_session revoke_locked drop_ended evict_oldest assign delete remove_file opened
third_step = refl

abbrev signed_system : System
signed_system = alone signed_web setup_request set_up_reply

abbrev signed_log : List Entry
signed_log = entry 6 setup_request (saving first_input first_record) first_web ∷ ready_log

signed_reached : IsReached plain signed_log signed_system
signed_reached =
    alone_resumed first_web signed_web setup_request (saving first_input first_record) set_up_reply
      6 ready_log third_step ready_reached

setup-Move : Move plain ready_system signed_system
setup-Move =
    resumed first_web signed_web setup_request (saving first_input first_record) set_up_reply 6
      third_step

reached-IsGood_example : IsGood plain signed_log signed_system
reached-IsGood_example = reached-IsGood plain plain-IsLawful signed_log signed_system signed_reached

Move-IsChange_example : IsChange plain ready_log ready_system signed_system
Move-IsChange_example =
    Move-IsChange plain ready_log ready_system signed_system plain-IsLawful ready_reached setup-Move

first_found : lookup first_key signed_web.sessions ≡ some (6 + session_lifetime)
unfolding lookup text_eq zeros
first_found = refl

Move-IsAdmitted_example :
    (lookup first_key [] ≡ some (6 + session_lifetime))
    ⊎ IsAdmitted plain ready_log ready_system signed_system
unfolding opened
Move-IsAdmitted_example =
    Move-IsAdmitted plain ready_log ready_system signed_system first_key (6 + session_lifetime)
      plain-IsLawful ready_reached setup-Move first_found

valid_locked-add_session_example :
    let value = some (pad 43 (zeros 32)) in
    let added = add_session plain 7 (zeros 32) none ((codes "k", 50) ∷ []) in
    ((valid_locked plain 100 value added).0 ≡ ltb 100 (7 + session_lifetime))
    × ((valid_locked plain 100 value (revoke_locked plain value added)).0 ≡ false)
valid_locked-add_session_example =
    valid_locked-add_session plain 7 100 (zeros 32) none ((codes "k", 50) ∷ [])
      (length-pad 43 (zeros 32))

-- A change of the password, with a session of another browser.
abbrev changed_input : Input
changed_input = record {
  password = codes "password2";
  current_password = codes "password1";
  setup_code = [];
}

abbrev change_request : Request
change_request = record {
  path = codes "/auth/password";
  cookie = some first_key;
  body = some changed_input;
  remote_addr = codes "10.0.0.7";
  forwarded_for = [];
  has_tls = true;
  origin = [];
  host = codes "nas";
}

abbrev second_record : LoginRecord
second_record = record { version = 1; salt = zeros 32; hash = pad 32 (codes "password2") }

abbrev two_browsers : WebAuth
two_browsers = record signed_web {
  sessions = (codes "other", 900) ∷ (first_key, 6 + session_lifetime) ∷ [];
}

renewing_test :
    (step plain
      (env 9)
      change_request
      (renewing changed_input (codes "10.0.0.7") first_record second_record)
      two_browsers).0
    ≡ signed_in (codes "10.0.0.7") first_cookie
unfolding step if_same same_record text_eq zeros save_renewed save_locked open_session
    session_cookie secure_cookie
renewing_test = refl

only_test :
    (valid_locked plain 50
      (some first_key)
      (step plain
        (env 9)
        change_request
        (renewing changed_input (codes "10.0.0.7") first_record second_record)
        two_browsers).1.sessions).0
    ≡ true
unfolding step if_same same_record text_eq zeros save_renewed save_locked open_session
    session_cookie with_sessions add_session revoke_locked drop_ended evict_oldest assign delete
    valid_locked check_session lookup
only_test = refl

renewed-only_example :
    ((step plain
        (env 9)
        change_request
        (renewing changed_input (codes "10.0.0.7") first_record second_record)
        two_browsers).1.login
      ≡ some second_record)
    × (first_key ≡ first_key)
renewed-only_example =
    renewed-only plain (env 9) change_request changed_input (codes "10.0.0.7") (codes "10.0.0.7")
      first_record second_record two_browsers first_cookie 50 first_key renewing_test only_test

-- A login that was approved before the change opens its session behind it, for the old password.
stale_login_test :
    (step plain
      (env 10)
      (record change_request { path = codes "/auth/login"; cookie = none })
      (approved
        (record changed_input { password = codes "password1" })
        (codes "10.0.0.9")
        first_record)
      (record signed_web { login = some second_record })).0
    ≡ signed_in (codes "10.0.0.9") first_cookie
unfolding step text_eq open_session session_cookie secure_cookie
stale_login_test = refl

abbrev guesses : List Event
guesses =
    fails 1 (codes "10.0.0.7")
    ∷ fails 2 (codes "10.0.0.7")
    ∷ succeeds (codes "10.0.0.8")
    ∷ fails 3 (codes "10.0.0.7")
    ∷ asks 4 (codes "10.0.0.7")
    ∷ fails 4 (codes "10.0.0.7")
    ∷ fails 5 (codes "10.0.0.7")
    ∷ []

guesses_test : failures_of (codes "10.0.0.7") guesses ≡ 5
unfolding failures_of adds text_eq
guesses_test = refl

sources_test : text_eq (codes "10.0.0.7") (codes "10.0.0.8") ≡ false
unfolding text_eq
sources_test = refl

guesses-IsWithin : All (IsWithin (codes "10.0.0.7") 1) guesses
unfolding IsWithin
guesses-IsWithin = (
  (omega arith, omega arith),
  (
    (omega arith, omega arith),
    (
      neq_text (codes "10.0.0.7") (codes "10.0.0.8") sources_test,
      (
        (omega arith, omega arith),
        (
          (omega arith, omega arith),
          ((omega arith, omega arith), ((omega arith, omega arith), tt)),
        ),
      ),
    ),
  ),
)

abbrev login_request : Request
login_request = record change_request { path = codes "/auth/login" }

login_source_test : login_source plain login_request ≡ codes "10.0.0.7"
unfolding login_source peer_host named_host
login_source_test = refl

start-rate_limited_example :
    (rest : ℕ) × (1 + block_duration ≤ 6 + rest)
    × ((step plain
          (env 6)
          login_request
          started
          (record signed_web { throttles = run guesses [] })).0
        ≡ replied (api_error 429 (codes "rate_limited") (some (whole_seconds rest))))
start-rate_limited_example =
    start-rate_limited plain (env 6) login_request changed_input
      (record signed_web { throttles = run guesses [] }) (codes "10.0.0.7") 1 [] guesses (inl refl)
      refl login_source_test (tt, tt) refl (omega arith) guesses-IsWithin
      (omega (arith, guesses_test)) (omega arith)

-- A first record whose save comes to an error behind the link: the file has it, and memory does not.
unsynced_test :
    (step plain
      (record (env 6) { saved = unsynced })
      setup_request
      (saving first_input first_record)
      first_web).1
    ≡ record first_web { login_file = private_file first_record }
unfolding step is_set save_first leave_record opened
unsynced_test = refl

pad_some : (bytes : Text) → length bytes ≡ 18 → is_empty (pad 43 bytes) ≡ false
unfolding zeros
pad_some [] e = refl
pad_some (b ∷ bytes) e = refl

setup_bytes : (bytes : Text) → some (zeros 18) ≡ some bytes → length bytes ≡ 18
setup_bytes bytes e = rw (sym (some-injective e)) (length-zeros 18)

setup_file_test :
    ensure_setup_code plain 5 false (some (zeros 18)) done missing
    ≡ (some first_setup, private_file first_setup)
unfolding ensure_setup_code read_setup_code keep_setup_code new_setup_code write_setup_code
setup_file_test = refl

ensure_setup_code-again_example :
    (read_setup_code (private_file first_setup) ≡ got first_setup)
    × (ensure_setup_code plain 7 false none broken (private_file first_setup)
        ≡ (some first_setup, private_file first_setup))
ensure_setup_code-again_example =
    ensure_setup_code-again plain 5 7 (some (zeros 18)) none done broken missing
      (private_file first_setup) first_setup pad_some setup_bytes setup_file_test (omega arith)
