-- ===== src/Auth/Flow/Steps.antt =====
-- internal/server/auth.go: lemmas on what a step of a handler keeps.
use aninode.Prelude.{
  ℕ, ltb, text_eq, ◌∷◌, ◌+◌, ◌≤◌, ◌≡◌, refl, Bool, true, false, if◌then◌else◌, Text, arith, Option,
  none, some, List, length,
}
use aninode.Auth.{
  LoginRecord, SetupRecord, WebAuth, LoginThrottle, Primitives, password_record, matches_record,
  read_setup_code, got,
}
use aninode.Auth.Opening.{IsRecord, IsFiled}
use aninode.Auth.Sessions.{add_session, valid_locked}
use mathlib.Core.List.{Memᴰ}
use aninode.Auth.Sessions.Bound.{IsBounded, add_session-IsBounded}
use aninode.Auth.Throttles.Blocks.{IsCounted}
use aninode.Auth.Flow.{
  Input, Request, Cookie, Stage, started, reading, saving, unblocked, copied, hashing, mismatched,
  matched, approved, renewing, signed_in, replied, Env, is_password, is_setup, session_cookie,
  password_of, with_sessions, open_session,
}
use aninode.Auth.Flow.Tasks.{Entry, slots_of}

-- What every state of a WebAuth is like.
pub record IsSound (web : WebAuth) : Type 0 where
  pub bounded : IsBounded web.sessions
  pub counted : IsCounted web.throttles
  pub few_slots : web.hash_slots ≤ 2
  pub filed : IsFiled web.login web.login_file

-- The functions of the library as far as a stored record depends on them: pbkdf2.Key fills the 32 bytes
-- that it is asked for.
abbrev pub IsLawful : Primitives → Type 0
IsLawful p = (password salt hash : Text) → p.pbkdf2 password salt ≡ some hash → length hash ≡ 32

module _ (p : Primitives) where
  -- A step of the request has read an unexpired setup code, which is the one in the body, and has made
  -- the record from the password in the body.
  pub record IsShown (log : List Entry) (r : Request) (input : Input) (new : LoginRecord)
      : Type 0 where
    pub env : Env
    pub web : WebAuth
    pub setup : SetupRecord
    pub logged : Memᴰ (record { env = env; request = r; stage = reading input; web = web }) log
    pub body : r.body ≡ some input
    pub path : is_setup r ≡ true
    pub read : read_setup_code web.setup_file ≡ got setup
    pub in_time : ltb env.now setup.expires_at ≡ true
    pub same : text_eq (p.sha256 input.setup_code) (p.sha256 setup.code) ≡ true
    pub derived : password_record p input.password env.random ≡ some new

  -- A step of the request has met this record, and for a change of the password a session.
  pub record IsCopied (log : List Entry) (r : Request) (input : Input) (login : LoginRecord)
      : Type 0 where
    pub env : Env
    pub web : WebAuth
    pub source : Text
    pub logged :
        Memᴰ (record { env = env; request = r; stage = unblocked input source; web = web }) log
    pub body : r.body ≡ some input
    pub met : web.login ≡ some login
    pub session : is_password r ≡ true → (valid_locked p env.now r.cookie web.sessions).0 ≡ true

  -- The new record comes from the password of the request, by a salt of this process.
  abbrev pub IsDerived : Input → LoginRecord → Type 0
  IsDerived input new =
      IsRecord new × ((salt : Text) × (password_record p input.password (some salt) ≡ some new))

  -- What the handler has seen by the time it stands at a stage.
  abbrev pub IsJustified : List Entry → Request → Stage → Type 0
  IsJustified log r started = Unit
  IsJustified log r (reading input) = (r.body ≡ some input) × (is_setup r ≡ true)
  IsJustified log r (saving input new) = IsRecord new × IsShown log r input new
  IsJustified log r (unblocked input source) = r.body ≡ some input
  IsJustified log r (copied input source login) = IsCopied log r input login
  IsJustified log r (hashing input source login) = IsCopied log r input login
  IsJustified log r (mismatched source) = Unit
  IsJustified log r (matched input source login) =
      IsCopied log r input login × (matches_record p (password_of r input) login ≡ true)
  IsJustified log r (approved input source login) =
      IsCopied log r input login × (matches_record p (password_of r input) login ≡ true)
  IsJustified log r (renewing input source old new) =
      IsCopied log r input old
      × (is_password r ≡ true)
      × (matches_record p input.current_password old ≡ true)
      × IsDerived input new
  IsJustified log r (signed_in source cookie) = Unit
  IsJustified log r (replied reply) = Unit

  later-IsShown :
      (log : List Entry) (e : Entry) (r : Request) (input : Input) (new : LoginRecord)
      → IsShown log r input new
      → IsShown (e ∷ log) r input new
  later-IsShown log e r input new h = record {
    env = h.env;
    web = h.web;
    setup = h.setup;
    logged = Memᴰ.tail h.logged;
    body = h.body;
    path = h.path;
    read = h.read;
    in_time = h.in_time;
    same = h.same;
    derived = h.derived;
  }

  later-IsCopied :
      (log : List Entry) (e : Entry) (r : Request) (input : Input) (login : LoginRecord)
      → IsCopied log r input login
      → IsCopied (e ∷ log) r input login
  later-IsCopied log e r input login h = record {
    env = h.env;
    web = h.web;
    source = h.source;
    logged = Memᴰ.tail h.logged;
    body = h.body;
    met = h.met;
    session = h.session;
  }

  -- A longer log takes nothing away.
  pub later-IsJustified :
      (log : List Entry) (e : Entry) (r : Request) (stage : Stage)
      → IsJustified log r stage
      → IsJustified (e ∷ log) r stage
  later-IsJustified log e r started h = tt
  later-IsJustified log e r (reading input) h = h
  later-IsJustified log e r (saving input new) h = (h.0, later-IsShown log e r input new h.1)
  later-IsJustified log e r (unblocked input source) h = h
  later-IsJustified log e r (copied input source login) h = later-IsCopied log e r input login h
  later-IsJustified log e r (hashing input source login) h = later-IsCopied log e r input login h
  later-IsJustified log e r (mismatched source) h = tt
  later-IsJustified log e r (matched input source login) h =
      (later-IsCopied log e r input login h.0, h.1)
  later-IsJustified log e r (approved input source login) h =
      (later-IsCopied log e r input login h.0, h.1)
  later-IsJustified log e r (renewing input source old new) h =
      (later-IsCopied log e r input old h.0, h.1, h.2, h.3)
  later-IsJustified log e r (signed_in source cookie) h = tt
  later-IsJustified log e r (replied reply) h = tt

  -- What a step keeps, from a stage with n hash slots: the state is sound, no slot is lost, and the
  -- next stage is justified.
  pub record Keeps (log : List Entry) (r : Request) (n : ℕ) (web : WebAuth)
      (result : Stage × WebAuth) : Type 0 where
    pub sound : IsSound result.1
    pub slots : result.1.hash_slots + n ≡ web.hash_slots + slots_of result.0
    pub justified : IsJustified log r result.0

  pub if-Keeps :
      (log : List Entry) (r : Request) (n : ℕ) (web : WebAuth) (x y : Stage × WebAuth) (b : Bool)
      → (b ≡ true → Keeps log r n web x)
      → (b ≡ false → Keeps log r n web y)
      → Keeps log r n web (if b then x else y)
  if-Keeps log r n web x y true f g = f refl
  if-Keeps log r n web x y false f g = g refl

  pub stay-Keeps :
      (log : List Entry) (r : Request) (web : WebAuth) (stage : Stage)
      → IsSound web
      → slots_of stage ≡ 0
      → IsJustified log r stage
      → Keeps log r 0 web (stage, web)
  stay-Keeps log r web stage h z j = record { sound = h; slots = omega (arith, z); justified = j }

  pub sessions-Keeps :
      (log : List Entry) (r : Request) (web : WebAuth) (stage : Stage) (sessions : List (Text × ℕ))
      → IsSound web
      → IsBounded sessions
      → slots_of stage ≡ 0
      → IsJustified log r stage
      → Keeps log r 0 web (stage, with_sessions web sessions)
  unfolding with_sessions
  sessions-Keeps log r web stage sessions h b z j = record {
    sound = record { bounded = b; counted = h.counted; few_slots = h.few_slots; filed = h.filed };
    slots = omega (arith, z);
    justified = j;
  }

  pub throttles-Keeps :
      (log : List Entry) (r : Request) (web : WebAuth) (stage : Stage)
      (throttles : List (Text × LoginThrottle))
      → IsSound web
      → IsCounted throttles
      → slots_of stage ≡ 0
      → IsJustified log r stage
      → Keeps log r 0 web (stage, record web { throttles = throttles })
  throttles-Keeps log r web stage throttles h c z j = record {
    sound = record { bounded = h.bounded; counted = c; few_slots = h.few_slots; filed = h.filed };
    slots = omega (arith, z);
    justified = j;
  }

  -- The WebAuth with a session more.
  pub open_session-Keeps :
      (log : List Entry) (env : Env) (r : Request) (next : Cookie → Stage) (random : Option Text)
      (old web : WebAuth)
      → IsSound web
      → old.hash_slots ≡ web.hash_slots
      → ((c : Cookie) → (slots_of (next c) ≡ 0) × IsJustified log r (next c))
      → Keeps log r 0 old (open_session p env r next random web)
  unfolding open_session slots_of
  open_session-Keeps log env r next none old web h e j = record {
    sound = h;
    slots = omega (arith, e);
    justified = tt;
  }
  open_session-Keeps log env r next (some bytes) old web h e j =
      let (z, why) = j (session_cookie p r bytes) in
      let b = add_session-IsBounded p env.now bytes r.cookie web.sessions h.bounded in
      let k =
        sessions-Keeps log r web (next (session_cookie p r bytes))
          (add_session p env.now bytes r.cookie web.sessions) h b z why in
      record { sound = k.sound; slots = omega (arith, z, e); justified = why }
