-- ===== src/Auth/Flow/Reached.antt =====
-- internal/server/auth.go: lemmas on the states that are reached.
use aninode.Prelude.{
  ℕ, ◌+◌, ◌≡◌, refl, sym, ◌∙◌, ap, Bool, Text, arith, Option, some, some-injective, List, [], ◌∷◌,
  ◌++◌, All, All-append, All-left, All-right,
}
use aninode.Auth.{LoginRecord, SetupRecord, File, WebAuth, Primitives, Saved, open_web_auth, opened}
use aninode.Auth.Opening.{open_web_auth-IsOpened}
use mathlib.Core.List.{Memᴰ}
use aninode.Auth.Sessions.Bound.{valid_locked-IsBounded}
use aninode.Auth.Flow.{Request, Stage, Env, step, auth, with_sessions}
use aninode.Auth.Flow.Tasks.{
  Task, Entry, log_move, System, IsFair, resume, Move, arrive, advance, guard, IsReached, fresh,
  moved, slots_of, held,
}
use aninode.Auth.Flow.Steps.{IsSound, IsLawful, IsJustified, later-IsJustified, Keeps}
use aninode.Auth.Flow.Keep.{step-Keeps}

held-append : (xs ys : List Task) → held (xs ++ ys) ≡ held xs + held ys
unfolding held
held-append [] ys = omega arith
held-append (x ∷ xs) ys = omega (arith, held-append xs ys)

-- The state is sound, the slots that are taken are those that handlers hold, and each handler has seen
-- what its stage says.
pub record IsGood (p : Primitives) (log : List Entry) (s : System) : Type 0 where
  pub sound : IsSound s.web
  pub slots : held s.tasks ≡ s.web.hash_slots
  pub justified : All (λ t. IsJustified p log t.request t.stage) s.tasks

module _ (p : Primitives) (law : IsLawful p) where
  resume-IsGood :
      (log : List Entry) (r : Request) (stage : Stage) (web : WebAuth) (before behind : List Task)
      (result : Stage × WebAuth)
      → held before + (slots_of stage + held behind) ≡ web.hash_slots
      → All (λ t. IsJustified p log t.request t.stage) before
      → All (λ t. IsJustified p log t.request t.stage) behind
      → Keeps p log r (slots_of stage) web result
      → IsGood p log (resume r before behind result)
  unfolding resume held
  resume-IsGood log r stage web before behind (next, after) e b a k =
      let t : Task = record { request = r; stage = next } in
      record {
        sound = k.sound;
        slots = omega (arith, held-append before (t ∷ behind), k.slots);
        justified =
            All-append (λ t. IsJustified p log t.request t.stage) before (t ∷ behind) b
              (k.justified, a);
      }

  later-All :
      (log : List Entry) (e : Entry) (tasks : List Task)
      → All (λ t. IsJustified p log t.request t.stage) tasks
      → All (λ t. IsJustified p (e ∷ log) t.request t.stage) tasks
  later-All log e [] h = tt
  later-All log e (t ∷ tasks) h =
      (later-IsJustified p log e t.request t.stage h.0, later-All log e tasks h.1)

  advance-IsGood :
      (log : List Entry) (s : System) (env : Env) (before behind : List Task) (r : Request)
      (stage : Stage)
      → IsGood p log s
      → s.tasks ≡ before ++ (record { request = r; stage = stage } ∷ behind)
      → IsFair env
      → IsGood p
          (record { env = env; request = r; stage = stage; web = s.web } ∷ log)
          (resume r before behind (step p env r stage s.web))
  unfolding held
  advance-IsGood log s env before behind r stage h e fair =
      let t : Task = record { request = r; stage = stage } in
      let entry : Entry = record { env = env; request = r; stage = stage; web = s.web } in
      let P : Task → Type 0 = λ t. IsJustified p (entry ∷ log) t.request t.stage in
      let all : All P (before ++ (t ∷ behind)) =
        rw (sym e) (later-All log entry s.tasks h.justified) in
      let taken : held before + (slots_of stage + held behind) ≡ s.web.hash_slots =
        sym (held-append before (t ∷ behind)) ∙ ap held (sym e) ∙ h.slots in
      let mine = All-right P before (t ∷ behind) all in
      resume-IsGood (entry ∷ log) r stage s.web before behind (step p env r stage s.web) taken
        (All-left P before (t ∷ behind) all) mine.1
        (step-Keeps p law (entry ∷ log) env r stage s.web (Memᴰ.head refl) h.sound fair mine.0
          (omega (arith, taken)))

  guard-IsSound :
      (now : ℕ) (cookie : Option Text) (web after : WebAuth)
      → IsSound web
      → (auth p now cookie (some web)).1 ≡ some after
      → IsSound after × (after.hash_slots ≡ web.hash_slots)
  unfolding auth with_sessions
  guard-IsSound now cookie web after h e = rw (sym (some-injective e)) (
    record {
      bounded = valid_locked-IsBounded p now cookie web.sessions h.bounded;
      counted = h.counted;
      few_slots = h.few_slots;
      filed = h.filed;
    },
    refl,
  )

  Move-IsGood :
      (log : List Entry) (s t : System)
      → IsGood p log s
      → (m : Move p s t) → IsGood p (log_move p s t m log) t
  unfolding held slots_of log_move
  Move-IsGood log s _ h (arrive r) = record {
    sound = h.sound;
    slots = omega (arith, h.slots);
    justified = (tt, h.justified);
  }
  Move-IsGood log s _ h (advance env before behind r stage e fair) =
      advance-IsGood log s env before behind r stage h e fair
  Move-IsGood log s _ h (guard now cookie web e) =
      let (sound, same) = guard-IsSound now cookie s.web web h.sound e in
      record { sound = sound; slots = omega (arith, same, h.slots); justified = h.justified }

  opened-IsGood :
      (now : ℕ) (random : Option Text) (written : Saved) (removed : Bool)
      (login_file : File LoginRecord) (setup_file : File SetupRecord) (web : WebAuth)
      → open_web_auth p now random written removed login_file setup_file ≡ some web
      → IsGood p [] (record { web = web; tasks = [] })
  unfolding held opened
  opened-IsGood now random written removed login_file setup_file web e =
      let (l, file, setup, filed, same) =
        open_web_auth-IsOpened p now random written removed login_file setup_file web e in
      rw same (record {
        sound = record {
          bounded = (tt, omega arith);
          counted = (tt, tt);
          few_slots = omega arith;
          filed = filed;
        };
        slots = refl;
        justified = tt;
      })

  -- In every state that any interleaving of the handlers of the sign-in reaches from OpenWebAuth,
  -- where pbkdf2.Key and rand.Read fill the bytes that they are asked for, there are at most 32
  -- sessions with distinct keys, no throttle counts five failures, at most two hash slots are taken
  -- and just those that handlers hold, a login file that is there is private and has a record that
  -- OpenWebAuth accepts, and it is there where a record is in memory.
  pub reached-IsGood : (log : List Entry) (s : System) → IsReached p log s → IsGood p log s
  reached-IsGood _ _ (fresh now random written removed login_file setup_file web e) =
      opened-IsGood now random written removed login_file setup_file web e
  reached-IsGood _ _ (moved {s} {t} {log} h m) = Move-IsGood log s t (reached-IsGood log s h) m
