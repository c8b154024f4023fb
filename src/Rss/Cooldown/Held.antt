-- ===== src/Rss/Cooldown/Held.antt =====
-- internal/rss/cooldown.go: what other requests leave of a cooldown.
use aninode.Prelude.{
  ℕ, suc, ◌+◌, ◌≤◌, ◌<◌, ◌≡◌, refl, sym, ap, ◌∙◌, ◌⊎◌, inl, inr, true, false, ltb, ltb→lt, leb,
  ◌==◌, Text, text_eq, text_eq_sound, neq_text, ℤ, arith, Option, none, some, some-injective, List,
  [], ◌∷◌, All, length, Bool-cases, Option-cases, lookup, assign, lookup-assign_same,
  lookup-assign_other, length-assign_le,
}
use aninode.Rss.Http.{
  Response, Failure, http_status, Outcome, Outcome-cases, done, failed, too_many_requests,
  do_read_request,
}
use aninode.Rss.Cooldown.{
  Clock, deadline, expire, make_room, max_hosts, extend, limit, limit_hosts, send_request,
  read_request,
}
use aninode.Rss.Cooldown.Room.{length-expire_le, extend-deadline}
use aninode.Rss.Cooldown.Kept.{retry_at, refused, sent, send_limited}

-- The host has a deadline from `until` on.
abbrev IsHeld : Text → ℕ → List (Text × ℕ) → Type 0
IsHeld host until hosts = (t : ℕ) × (lookup host hosts ≡ some t) × (until ≤ t)

expire-lookup :
    (host : Text) (now : Text → ℕ) (t : ℕ) (hosts : List (Text × ℕ))
    → now host < t
    → lookup host hosts ≡ some t
    → lookup host (expire now hosts) ≡ some t
unfolding expire lookup
expire-lookup host now t [] soon h = h
expire-lookup host now t ((key, until) ∷ hosts) soon h = elim (Bool-cases (text_eq key host)) [
  | inl same ↦
      let here : until ≡ t = some-injective (rw same at h) in
      let alive : ltb (now key) until ≡ true =
        rw (text_eq_sound key host same, here) (ground arith) in
      rw (alive, same, here) refl
  | inr other ↦
      let rest = expire-lookup host now t hosts soon (rw other at h) in
      elim (Bool-cases (ltb (now key) until)) [ inl t ↦ rw (t, other) rest | inr f ↦ rw f rest ]
]

make_room-small :
    (host : Text) (hosts : List (Text × ℕ))
    → length hosts < max_hosts
    → make_room host hosts ≡ hosts
unfolding make_room
make_room-small host hosts few =
    let room : leb max_hosts (length hosts) ≡ false = ground arith in
    elim (Option-cases (lookup host hosts)) [
      | inl (t, e) ↦ rw (make_room, e) refl
      | inr e ↦ rw (make_room, e, room) refl
    ]

extend-IsHeld :
    (host other : Text) (until retry : ℕ) (hosts : List (Text × ℕ))
    → IsHeld host until hosts
    → IsHeld host until (extend other retry hosts)
unfolding extend deadline
extend-IsHeld host other until retry hosts (t, e, late) =
    elim (Bool-cases (ltb (deadline other hosts) retry)) [
      | inr f ↦ rw (extend, f) (t, e, late)
      | inl l ↦ elim (Bool-cases (text_eq host other)) [
        | inr n ↦
            rw (extend, l)
              (t, lookup-assign_other host other retry hosts (neq_text host other n) ∙ e, late)
        | inl same ↦
            let is_host = text_eq_sound host other same in
            let there : lookup host (assign other retry hosts) ≡ some retry =
              rw is_host (lookup-assign_same other retry hosts) in
            let before : deadline other hosts ≡ t = rw (sym is_host, deadline, e) refl in
            rw (extend, l) (retry, there, omega (arith, late, ltb→lt _ _ (rw before at l)))
      ]
    ]

length-extend_le :
    (other : Text) (retry : ℕ) (hosts : List (Text × ℕ))
    → length (extend other retry hosts) ≤ suc (length hosts)
unfolding extend
length-extend_le other retry hosts = elim (Bool-cases (ltb (deadline other hosts) retry)) [
  | inr f ↦ rw (extend, f) (omega arith)
  | inl l ↦ rw (extend, l) (length-assign_le other retry hosts)
]

limit-IsHeld :
    (host other : Text) (now : Text → ℕ) (until retry : ℕ) (hosts : List (Text × ℕ))
    → now host < until
    → length hosts < max_hosts
    → IsHeld host until hosts
    → IsHeld host until (limit now other retry hosts)
      × (length (limit now other retry hosts) ≤ suc (length hosts))
unfolding limit
limit-IsHeld host other now until retry hosts soon few (t, e, late) =
    let le = length-expire_le now hosts in
    let small = make_room-small other (expire now hosts) (omega (arith, le, few)) in
    let kept = expire-lookup host now t hosts (omega (arith, soon, late)) e in
    rw small (
      extend-IsHeld host other until retry (expire now hosts) (t, kept, late),
      omega (arith, le, length-extend_le other retry (expire now hosts)),
    )

-- A call of readRequest.
pub record Call : Type 0 where
  pub early : Option Failure
  pub ctx : Option Failure
  pub clock : Clock
  pub host : Text
  pub send : ℕ → Outcome Response

module _ (parse_int : Text → Option ℤ) (parse_time : Text → Option ℕ) where
  -- The hosts behind calls of readRequest, one after the other.
  abbrev pub run_calls : List Call → Option (List (Text × ℕ)) → Option (List (Text × ℕ))
  run_calls [] hosts = hosts
  run_calls (c ∷ calls) hosts =
      run_calls calls
        (read_request parse_int parse_time c.early c.ctx c.clock c.host c.send hosts).1

  send-cases :
      (ctx : Option Failure) (clock : Clock) (other : Text) (send : ℕ → Outcome Response)
      (h : List (Text × ℕ))
      → ((send_request parse_int parse_time ctx clock other send (some h)).1 ≡ some h)
        ⊎ ((retry : ℕ) × ((send_request parse_int parse_time ctx clock other send (some h)).1
              ≡ some (limit clock.sweep other retry h)))
  unfolding send_request limit_hosts
  send-cases ctx clock other send h = elim (Outcome-cases (do_read_request ctx send)) [
    | inr (e, p) ↦ inl (rw (send_request, p) refl)
    | inl (response, p) ↦ elim (Bool-cases (response.status == too_many_requests)) [
      | inr f ↦ inl (rw (send_request, p, f) refl)
      | inl t ↦ inr (
        retry_at parse_int parse_time response clock,
        ap (λ x. x.1)
            (send_limited parse_int parse_time ctx clock other send (some h) response p t),
      )
    ]
  ]

  read-cases :
      (early ctx : Option Failure) (clock : Clock) (other : Text) (send : ℕ → Outcome Response)
      (h : List (Text × ℕ))
      → ((read_request parse_int parse_time early ctx clock other send (some h)).1 ≡ some h)
        ⊎ ((retry : ℕ) × ((read_request parse_int parse_time early ctx clock other send (some h)).1
              ≡ some (limit clock.sweep other retry h)))
  unfolding read_request
  read-cases (some e) ctx clock other send h = inl refl
  read-cases none ctx clock other send h = elim (Bool-cases (ltb clock.start (deadline other h))) [
    | inl t ↦ inl (ap (λ x. x.1) (refused parse_int parse_time ctx clock other send h t))
    | inr f ↦
        let there = ap (λ x. x.1) (sent parse_int parse_time ctx clock other send h f) in
        elim (send-cases ctx clock other send h) [
          | inl e ↦ inl (there ∙ e)
          | inr (retry, e) ↦ inr (retry, there ∙ e)
        ]
  ]

  run_calls-IsHeld :
      (host : Text) (until : ℕ) (calls : List Call) (h : List (Text × ℕ))
      → All (λ c. c.clock.sweep host < until) calls
      → length h + length calls ≤ max_hosts
      → IsHeld host until h
      → (h' : List (Text × ℕ)) × (run_calls calls (some h) ≡ some h') × IsHeld host until h'
  run_calls-IsHeld host until [] h soon few held = (h, refl, held)
  run_calls-IsHeld host until (c ∷ calls) h soon few held =
      elim (read-cases c.early c.ctx c.clock c.host c.send h) [
        | inl e ↦ rw e (run_calls-IsHeld host until calls h soon.1 (omega (arith, few)) held)
        | inr (retry, e) ↦
            let (held', more) =
              limit-IsHeld host c.host c.clock.sweep until retry h soon.0 (omega (arith, few))
                held in
            rw e (
              run_calls-IsHeld host until calls (limit c.clock.sweep c.host retry h) soon.1
                (omega (arith, few, more)) held')
      ]

  deadline-IsHeld :
      (host : Text) (until : ℕ) (h : List (Text × ℕ))
      → 0 < until
      → until ≤ deadline host h
      → IsHeld host until h
  unfolding deadline
  deadline-IsHeld host until h pos le = elim (Option-cases (lookup host h)) [
    | inl (t, e) ↦ (t, e, rw (deadline, e) at le)
    | inr e ↦ let low : until ≤ 0 = rw (deadline, e) at le in absurd (omega (arith, low, pos))
  ]

  IsHeld-deadline :
      (host : Text) (until : ℕ) (h : List (Text × ℕ))
      → IsHeld host until h
      → until ≤ deadline host h
  unfolding deadline
  IsHeld-deadline host until h (t, e, late) = rw (deadline, e) late

  limited-IsHeld :
      (ctx : Option Failure) (clock : Clock) (host : Text) (send : ℕ → Outcome Response)
      (h : List (Text × ℕ)) (response : Response) (r : Outcome Response) (h' : List (Text × ℕ))
      → ltb clock.start (deadline host h) ≡ false
      → do_read_request ctx send ≡ done response
      → response.status ≡ too_many_requests
      → read_request parse_int parse_time none ctx clock host send (some h) ≡ (r, some h')
      → 0 < retry_at parse_int parse_time response clock
      → IsHeld host (retry_at parse_int parse_time response clock) h'
  unfolding limit_hosts limit
  limited-IsHeld ctx clock host send h response r h' free reply status before positive =
      let limited =
        sym (
          sent parse_int parse_time ctx clock host send h free
          ∙ send_limited parse_int parse_time ctx clock host send (some h) response reply
              (ground arith))
        ∙ before in
      let kept = some-injective (ap (λ x. x.1) limited) in
      let until = retry_at parse_int parse_time response clock in
      let long = extend-deadline host until (make_room host (expire clock.sweep h)) in
      deadline-IsHeld host until h' positive (rw (sym kept) long)

  -- Where a host has answered 429 to a request, and readRequest is called then for any hosts and
  -- with any outcome, one call after the other, at times before the deadline of that answer and no
  -- more often than there is room for other hosts among 128, a request to the host before the
  -- deadline is refused with status 429, whatever a server would answer to it, with a time from the
  -- deadline on, and changes nothing.
  pub run_calls-cooldown :
      (ctx ctx' : Option Failure) (clock later : Clock) (host : Text)
      (send send' : ℕ → Outcome Response) (h : List (Text × ℕ)) (response : Response)
      (r : Outcome Response) (h' : List (Text × ℕ)) (calls : List Call)
      → ltb clock.start (deadline host h) ≡ false
      → do_read_request ctx send ≡ done response
      → response.status ≡ too_many_requests
      → read_request parse_int parse_time none ctx clock host send (some h) ≡ (r, some h')
      → length h' + length calls ≤ max_hosts
      → All (λ c. c.clock.sweep host < retry_at parse_int parse_time response clock) calls
      → later.start < retry_at parse_int parse_time response clock
      → (after : List (Text × ℕ)) × (run_calls calls (some h') ≡ some after)
        × (retry_at parse_int parse_time response clock ≤ deadline host after)
        × (read_request parse_int parse_time none ctx' later host send' (some after)
            ≡ (failed (http_status [] too_many_requests (deadline host after)), some after))
  run_calls-cooldown ctx ctx' clock later host send send' h response r h' calls free reply status
        before few soon early =
      let until = retry_at parse_int parse_time response clock in
      let held =
        limited-IsHeld ctx clock host send h response r h' free reply status before
          (omega (arith, early)) in
      let (after, ran, still) = run_calls-IsHeld host until calls h' soon few held in
      let late = IsHeld-deadline host until after still in
      (
        after,
        ran,
        late,
        refused parse_int parse_time ctx' later host send' after (ground (arith, late, early)),
      )
