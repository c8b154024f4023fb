-- ===== src/Auth/Flow/Tasks.antt =====
-- internal/server/auth.go: the handlers that run at once, and the states that they can reach.
use aninode.Prelude.{ℕ, ◌+◌, ◌≡◌, Bool, Text, Option, some, List, [], ◌∷◌, ◌++◌, length}
use aninode.Auth.{LoginRecord, SetupRecord, File, WebAuth, Primitives, Saved, open_web_auth}
use aninode.Auth.Flow.{
  Request, Stage, started, reading, saving, unblocked, copied, hashing, mismatched, matched,
  approved, renewing, signed_in, replied, Env, step, auth,
}

pub record Task : Type 0 where
  pub request : Request
  pub stage : Stage

pub record System : Type 0 where
  pub web : WebAuth
  pub tasks : List Task

-- rand.Read fills the 32 bytes that it is given.
abbrev pub IsFair : Env → Type 0
IsFair env = (bytes : Text) → env.random ≡ some bytes → length bytes ≡ 32

-- A step that a handler has made: what it met outside, whose it was, and the shared state in front of it.
pub record Entry : Type 0 where
  pub env : Env
  pub request : Request
  pub stage : Stage
  pub web : WebAuth

-- What became of a task and of the shared state.
unfoldable pub resume : Request → List Task → List Task → Stage × WebAuth → System
resume r before behind (stage, web) = record {
  web = web;
  tasks = before ++ (record { request = r; stage = stage } ∷ behind);
}

module _ (p : Primitives) where
  -- A request comes in, a handler goes on by a step, or the middleware looks at a cookie.
  pub data Move (s : System) : System → Type 0 where
    arrive :
        (r : Request)
        → Move s (record s { tasks = record { request = r; stage = started } ∷ s.tasks })
    advance :
        (env : Env) (before behind : List Task) (r : Request) (stage : Stage)
        → s.tasks ≡ before ++ (record { request = r; stage = stage } ∷ behind)
        → IsFair env
        → Move s (resume r before behind (step p env r stage s.web))
    guard :
        (now : ℕ) (cookie : Option Text) (web : WebAuth)
        → (auth p now cookie (some s.web)).1 ≡ some web
        → Move s (record s { web = web })

  -- The steps of the handlers, the last one first.
  unfoldable pub log_move : (s t : System) → Move s t → List Entry → List Entry
  log_move s _ (arrive r) log = log
  log_move s _ (advance env before behind r stage e fair) log =
      record { env = env; request = r; stage = stage; web = s.web } ∷ log
  log_move s _ (guard now cookie web e) log = log

  -- What is reached from a process that has just opened its files, by the steps of a log.
  pub data IsReached : List Entry → System → Type 0 where
    fresh :
        (now : ℕ) (random : Option Text) (written : Saved) (removed : Bool)
        (login_file : File LoginRecord) (setup_file : File SetupRecord) (web : WebAuth)
        → open_web_auth p now random written removed login_file setup_file ≡ some web
        → IsReached [] (record { web = web; tasks = [] })
    moved :
        {s t : System} {log : List Entry}
        → IsReached log s
        → (m : Move s t) → IsReached (log_move s t m log) t

-- 1 for a handler that holds a hash slot.
unfoldable pub slots_of : Stage → ℕ
slots_of started = 0
slots_of (reading input) = 0
slots_of (saving input new) = 0
slots_of (unblocked input source) = 0
slots_of (copied input source login) = 0
slots_of (hashing input source login) = 1
slots_of (mismatched source) = 0
slots_of (matched input source login) = 0
slots_of (approved input source login) = 0
slots_of (renewing input source old new) = 0
slots_of (signed_in source cookie) = 0
slots_of (replied reply) = 0

unfoldable pub held : List Task → ℕ
held [] = 0
held (t ∷ tasks) = slots_of t.stage + held tasks
