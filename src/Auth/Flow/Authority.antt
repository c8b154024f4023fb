-- ===== src/Auth/Flow/Authority.antt =====
-- internal/server/auth.go: lemmas on who changes the password and who opens a session.
use aninode.Prelude.{
  ◌≡◌, refl, sym, ◌∙◌, ap, ◌⊎◌, inl, inr, true, false, ℕ, Text, Option, none, some, some-injective,
  List, ◌∷◌, ◌++◌, All, All-right, lookup,
}
use aninode.Auth.{
  LoginRecord, WebAuth, Primitives, matches_record, same_record, Saved, done, exists, broken,
  unsynced,
}
use aninode.Auth.Flow.{
  Input, Request, Stage, saving, approved, renewing, signed_in, Env, is_password, is_set,
  password_of, with_sessions, open_session, leave_record, save_locked, set_up, save_first, if_same,
  save_renewed, step, auth,
}
use aninode.Auth.Flow.Tasks.{Task, Entry, System, resume, Move, arrive, advance, guard, IsReached}
use aninode.Auth.Flow.Steps.{IsLawful, IsShown, IsCopied, IsDerived, IsJustified}
use aninode.Auth.Flow.Renewal.{open_session-login}
use aninode.Auth.Flow.Reached.{IsGood, reached-IsGood}
use aninode.Auth.Flow.Opens.{
  IsOpening, opens_first, opens_login, opens_renewed, IsQuiet, step-cases, valid_locked-IsWithin,
}

module _ (p : Primitives) where
  -- The handler of this request goes on from this stage.
  pub record IsMoved (s t : System) (r : Request) (stage : Stage) : Type 0 where
    pub before : List Task
    pub behind : List Task
    pub next : Stage
    pub from : s.tasks ≡ before ++ (record { request = r; stage = stage } ∷ behind)
    pub to : t.tasks ≡ before ++ (record { request = r; stage = next } ∷ behind)

  -- Whose request it is that does the following between two states: it has shown the setup code while
  -- there is no record; it has shown the password of a record that was stored at its check; or it has
  -- shown the current password, with a session, for a change.
  pub record BySetup (log : List Entry) (s t : System) (new : LoginRecord) : Type 0 where
    pub request : Request
    pub input : Input
    pub mover : IsMoved s t request (saving input new)
    pub empty : s.web.login ≡ none
    pub shown : IsShown p log request input new

  pub record ByLogin (log : List Entry) (s t : System) : Type 0 where
    pub request : Request
    pub input : Input
    pub source : Text
    pub old : LoginRecord
    pub path : is_password request ≡ false
    pub mover : IsMoved s t request (approved input source old)
    pub copied : IsCopied p log request input old
    pub right : matches_record p (password_of request input) old ≡ true

  pub record ByChange (log : List Entry) (s t : System) (new : LoginRecord) : Type 0 where
    pub request : Request
    pub input : Input
    pub source : Text
    pub old : LoginRecord
    pub mover : IsMoved s t request (renewing input source old new)
    pub path : is_password request ≡ true
    pub copied : IsCopied p log request input old
    pub same : same_record s.web.login old ≡ true
    pub right : matches_record p input.current_password old ≡ true
    pub derived : IsDerived p input new

  -- How the record may become another.
  pub data IsChange (log : List Entry) (s t : System) : Type 0 where
    kept : t.web.login ≡ s.web.login → IsChange log s t
    first : (new : LoginRecord) → BySetup log s t new → t.web.login ≡ some new → IsChange log s t
    renewed : (new : LoginRecord) → ByChange log s t new → t.web.login ≡ some new → IsChange log s t

  -- How a session may be opened.
  pub data IsAdmitted (log : List Entry) (s t : System) : Type 0 where
    by_setup : (new : LoginRecord) → BySetup log s t new → IsAdmitted log s t
    by_login : ByLogin log s t → IsAdmitted log s t
    by_change : (new : LoginRecord) → ByChange log s t new → IsAdmitted log s t

  save_first-login :
      (env : Env) (r : Request) (new : LoginRecord) (web : WebAuth) (saved : Saved)
      → ((save_first p env r new web saved).1.login ≡ web.login)
        ⊎ ((save_first p env r new web saved).1.login ≡ some new)
  unfolding save_first set_up save_locked leave_record
  save_first-login env r new web exists = inl refl
  save_first-login env r new web broken = inl refl
  save_first-login env r new web unsynced = inl refl
  save_first-login env r new web done = inr (open_session-login p env r _ env.random _)

  save_renewed-login :
      (env : Env) (r : Request) (source : Text) (new : LoginRecord) (web : WebAuth) (saved : Saved)
      → ((save_renewed p env r source new web saved).1.login ≡ web.login)
        ⊎ ((save_renewed p env r source new web saved).1.login ≡ some new)
  unfolding save_renewed with_sessions save_locked leave_record
  save_renewed-login env r source new web exists = inl refl
  save_renewed-login env r source new web broken = inl refl
  save_renewed-login env r source new web unsynced = inl refl
  save_renewed-login env r source new web done =
      inr (open_session-login p env r (signed_in source) env.random _)

  saving-step :
      (env : Env) (r : Request) (input : Input) (new : LoginRecord) (web : WebAuth)
      → web.login ≡ none
      → step p env r (saving input new) web ≡ save_first p env r new web env.saved
  unfolding step is_set
  saving-step env r input new web o =
      let unset : is_set web.login ≡ false = ap is_set o in rw (step, unset) refl

  approved-step :
      (env : Env) (r : Request) (input : Input) (source : Text) (login : LoginRecord)
      (web : WebAuth)
      → is_password r ≡ false
      → step p env r (approved input source login) web
        ≡ open_session p env r (signed_in source) env.random web
  unfolding step
  approved-step env r input source login web o = rw (step, o) refl

  renewing-step :
      (env : Env) (r : Request) (input : Input) (source : Text) (old new : LoginRecord)
      (web : WebAuth)
      → same_record web.login old ≡ true
      → step p env r (renewing input source old new) web
        ≡ save_renewed p env r source new web env.saved
  unfolding step if_same
  renewing-step env r input source old new web o = rw (if_same, o) refl

  -- What a step of a handler leads to.
  abbrev behind_step : Env → Request → Stage → System → List Task → List Task → System
  behind_step env r stage s before behind = resume r before behind (step p env r stage s.web)

  resume-web :
      (r : Request) (before behind : List Task) (result : Stage × WebAuth)
      → (resume r before behind result).web ≡ result.1
  unfolding resume
  resume-web r before behind (stage, web) = refl

  resume-tasks :
      (r : Request) (before behind : List Task) (result : Stage × WebAuth)
      → (resume r before behind result).tasks
        ≡ before ++ (record { request = r; stage = result.0 } ∷ behind)
  unfolding resume
  resume-tasks r before behind (stage, web) = refl

  step-IsMoved :
      (env : Env) (before behind : List Task) (r : Request) (stage : Stage) (s : System)
      → s.tasks ≡ before ++ (record { request = r; stage = stage } ∷ behind)
      → IsMoved s (behind_step env r stage s before behind) r stage
  step-IsMoved env before behind r stage s e = record {
    before = before;
    behind = behind;
    next = (step p env r stage s.web).0;
    from = e;
    to = resume-tasks r before behind (step p env r stage s.web);
  }

  -- A step that opens a session is one of these.
  opening-IsAdmitted :
      (log : List Entry) (s t : System) (r : Request) (stage : Stage)
      → IsOpening p r s.web stage
      → IsJustified p log r stage
      → IsMoved s t r stage
      → IsAdmitted log s t
  opening-IsAdmitted log s t r _ (opens_first input new o) j m =
      by_setup new (record { request = r; input = input; mover = m; empty = o; shown = j.1 })
  opening-IsAdmitted log s t r _ (opens_login input source login o) j m = by_login (record {
    request = r;
    input = input;
    source = source;
    old = login;
    path = o;
    mover = m;
    copied = j.0;
    right = j.1;
  })
  opening-IsAdmitted log s t r _ (opens_renewed input source old new o) j m =
      by_change new (record {
        request = r;
        input = input;
        source = source;
        old = old;
        mover = m;
        path = j.1;
        copied = j.0;
        same = o;
        right = j.2;
        derived = j.3;
      })

  -- What such a step makes of the record.
  opening-IsChange :
      (log : List Entry) (env : Env) (s t : System) (r : Request) (stage : Stage)
      → IsOpening p r s.web stage
      → IsJustified p log r stage
      → IsMoved s t r stage
      → t.web ≡ (step p env r stage s.web).1
      → IsChange log s t
  opening-IsChange log env s t r _ (opens_first input new o) j m w =
      let same = ap (λ x. x.login) w ∙ ap (λ x. x.1.login) (saving-step env r input new s.web o) in
      elim (save_first-login env r new s.web env.saved) [
        | inl e ↦ kept (same ∙ e)
        | inr e ↦
            first new (record { request = r; input = input; mover = m; empty = o; shown = j.1 })
              (same ∙ e)
      ]
  opening-IsChange log env s t r _ (opens_login input source login o) j m w =
      let same =
        ap (λ x. x.login) w
        ∙ ap (λ x. x.1.login) (approved-step env r input source login s.web o) in
      kept (same ∙ open_session-login p env r (signed_in source) env.random s.web)
  opening-IsChange log env s t r _ (opens_renewed input source old new o) j m w =
      let same =
        ap (λ x. x.login) w
        ∙ ap (λ x. x.1.login) (renewing-step env r input source old new s.web o) in
      let change : ByChange log s t new = record {
        request = r;
        input = input;
        source = source;
        old = old;
        mover = m;
        path = j.1;
        copied = j.0;
        same = o;
        right = j.2;
        derived = j.3;
      } in
      elim (save_renewed-login env r source new s.web env.saved) [
        | inl e ↦ kept (same ∙ e)
        | inr e ↦ renewed new change (same ∙ e)
      ]

  -- The task that a step moves is justified.
  mine-IsJustified :
      (log : List Entry) (s : System) (before behind : List Task) (r : Request) (stage : Stage)
      → IsGood p log s
      → s.tasks ≡ before ++ (record { request = r; stage = stage } ∷ behind)
      → IsJustified p log r stage
  mine-IsJustified log s before behind r stage h e =
      let P : Task → Type 0 = λ t. IsJustified p log t.request t.stage in
      let all : All P (before ++ (record { request = r; stage = stage } ∷ behind)) =
        rw (sym e) h.justified in
      (All-right P before _ all).0

  guard-IsQuiet :
      (now : ℕ) (cookie : Option Text) (web after : WebAuth)
      → (auth p now cookie (some web)).1 ≡ some after
      → IsQuiet p after web
  unfolding auth with_sessions
  guard-IsQuiet now cookie web after e =
      rw (sym (some-injective e)) (refl, valid_locked-IsWithin p now cookie web.sessions)

  -- In a state that the handlers reach by the steps of a log, where pbkdf2.Key and rand.Read fill
  -- the bytes that they are asked for, a move keeps the record in memory, or the handler that it
  -- moves stores one. Its request is one for /auth/setup while no record is in memory, and in the
  -- log a step of it has read from the setup file an unexpired code with the hash of the code in
  -- the body, and has made the record from the password in the body; or it is one for
  -- /auth/password, in the log a step of it has met a valid session and a record in memory whose
  -- salt and hash are still those in memory, the current password in the body matches that record,
  -- and the new one is made from the password in the body.
  pub Move-IsChange :
      (log : List Entry) (s t : System)
      → IsLawful p
      → IsReached p log s
      → Move p s t
      → IsChange log s t
  Move-IsChange log s _ law h (arrive r) = kept refl
  Move-IsChange log s _ law h (advance env before behind r stage e fair) =
      let w = resume-web r before behind (step p env r stage s.web) in
      let good = reached-IsGood p law log s h in
      elim (step-cases p env r stage s.web) [
        | inl q ↦ kept (ap (λ x. x.login) w ∙ q.0)
        | inr o ↦
            opening-IsChange log env s (behind_step env r stage s before behind) r stage o
              (mine-IsJustified log s before behind r stage good e)
              (step-IsMoved env before behind r stage s e) w
      ]
  Move-IsChange log s _ law h (guard now cookie web e) =
      kept (guard-IsQuiet now cookie s.web web e).0

  -- In a state that the handlers reach by the steps of a log, where pbkdf2.Key and rand.Read fill
  -- the bytes that they are asked for, a session that a move adds is that of the request whose
  -- handler it moves. The request is one for /auth/setup while no record is in memory, which has
  -- shown in the log the unexpired setup code; or it has met in the log a record in memory, which
  -- the password in its body matches; or it is one for /auth/password, which has met in the log a
  -- valid session and a record in memory, which the current password in its body matches and whose
  -- salt and hash are still those in memory.
  pub Move-IsAdmitted :
      (log : List Entry) (s t : System) (key : Text) (expiry : ℕ)
      → IsLawful p
      → IsReached p log s
      → Move p s t
      → lookup key t.web.sessions ≡ some expiry
      → (lookup key s.web.sessions ≡ some expiry) ⊎ IsAdmitted log s t
  Move-IsAdmitted log s _ key expiry law h (arrive r) f = inl f
  Move-IsAdmitted log s _ key expiry law h (advance env before behind r stage e fair) f =
      let w = resume-web r before behind (step p env r stage s.web) in
      let good = reached-IsGood p law log s h in
      elim (step-cases p env r stage s.web) [
        | inl q ↦ inl (q.1 key expiry (ap (λ x. lookup key x.sessions) (sym w) ∙ f))
        | inr o ↦ inr (
            opening-IsAdmitted log s (behind_step env r stage s before behind) r stage o
              (mine-IsJustified log s before behind r stage good e)
              (step-IsMoved env before behind r stage s e))
      ]
  Move-IsAdmitted log s _ key expiry law h (guard now cookie web e) f =
      inl ((guard-IsQuiet now cookie s.web web e).1 key expiry f)
