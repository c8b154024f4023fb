-- ===== src/Rss/Cooldown.antt =====
-- internal/rss/cooldown.go: a host that has answered 429 is left alone until the deadline.
pub mod Room
pub mod Kept
pub mod Held
use aninode.Prelude.{
  ℕ, ◌+◌, ◌*◌, Bool, true, false, not, ◌&&◌, ◌||◌, if◌then◌else◌, ltb, leb, ◌==◌, Text, codes,
  text_lt, ℤ, pos, pos_part, leb_ℤ, Option, none, some, List, [], ◌∷◌, length, lookup, delete,
  assign,
}
use aninode.ReleaseFilter.{is_empty, trim_space}
use aninode.Rss.{second}
use aninode.Rss.Http.{
  Response, Failure, http_status, Outcome, done, failed, too_many_requests, do_read_request,
}

-- c.hosts[host], the zero time where there is none
unfoldable pub deadline : Text → List (Text × ℕ) → ℕ
deadline host hosts = elim (lookup host hosts) [ some t ↦ t | none ↦ 0 ]

-- The loop that deletes the deadlines that have passed; `now key` is the time it reads at `key`.
unfoldable pub expire : (Text → ℕ) → List (Text × ℕ) → List (Text × ℕ)
expire now [] = []
expire now ((key, until) ∷ hosts) =
    let rest = expire now hosts in if not (ltb (now key) until) then rest else (key, until) ∷ rest

-- The test with which the search for the oldest deadline takes (key, until).
unfoldable pub is_sooner : List (Text × ℕ) → Text → Text → ℕ → Bool
is_sooner hosts oldest key until =
    is_empty oldest
    || ltb until (deadline oldest hosts)
    || ((until == deadline oldest hosts) && text_lt key oldest)

unfoldable pub find_soonest : List (Text × ℕ) → Text → List (Text × ℕ) → Text
find_soonest hosts oldest [] = oldest
find_soonest hosts oldest ((key, until) ∷ rest) = elim (is_sooner hosts oldest key until) [
  | true ↦ find_soonest hosts key rest
  | false ↦ find_soonest hosts oldest rest
]

abbrev pub max_hosts : ℕ
max_hosts = 128

-- if _, exists := c.hosts[host]; !exists && len(c.hosts) >= 128
unfoldable pub make_room : Text → List (Text × ℕ) → List (Text × ℕ)
make_room host hosts = elim (lookup host hosts) [
  | some t ↦ hosts
  | none ↦
      if leb max_hosts (length hosts) then delete (find_soonest hosts [] hosts) hosts else hosts
]

-- if retryAt.After(c.hosts[host])
unfoldable pub extend : Text → ℕ → List (Text × ℕ) → List (Text × ℕ)
extend host retry_at hosts =
    if ltb (deadline host hosts) retry_at then assign host retry_at hosts else hosts

-- What readRequest does to the hosts behind a 429.
unfoldable pub limit : (Text → ℕ) → Text → ℕ → List (Text × ℕ) → List (Text × ℕ)
limit now host retry_at hosts = extend host retry_at (make_room host (expire now hosts))

-- if c != nil
unfoldable pub limit_hosts :
    (Text → ℕ) → Text → ℕ → Option (List (Text × ℕ)) → Option (List (Text × ℕ))
limit_hosts now host retry_at none = none
limit_hosts now host retry_at (some hosts) = some (limit now host retry_at hosts)

-- The readings of the clock: before the request, behind it, and in the loop.
pub record Clock : Type 0 where
  pub start : ℕ
  pub reply : ℕ
  pub sweep : Text → ℕ

-- strconv.ParseInt (base 10, 64 bits) and http.ParseTime are arguments.
module _ (parse_int : Text → Option ℤ) (parse_time : Text → Option ℕ) where
  -- The first `if` of rateLimitDeadline.
  unfoldable pub after_seconds : Text → ℕ → Option ℕ
  after_seconds value now = elim (parse_int (trim_space value)) [
    | none ↦ none
    | some seconds ↦
        if leb_ℤ (pos 0) seconds && leb_ℤ seconds (pos 9223372036)
        then some (now + pos_part seconds * second)
        else none
  ]

  -- The second `if`.
  unfoldable pub at_date : Text → ℕ → Option ℕ
  at_date value now = elim (parse_time value) [
    | none ↦ none
    | some date ↦ if ltb now date then some date else none
  ]

  -- rateLimitDeadline
  unfoldable pub rate_limit_deadline : Text → ℕ → ℕ
  rate_limit_deadline value now = elim (after_seconds value now) [
    | some t ↦ t
    | none ↦ elim (at_date value now) [ some date ↦ date | none ↦ now + 60 * second ]
  ]

  -- The part of readRequest behind the check of the cooldown; no hosts stand for a nil cooldown.
  unfoldable pub send_request :
      Option Failure
      → Clock
      → Text
      → (ℕ → Outcome Response)
      → Option (List (Text × ℕ))
      → Outcome Response × Option (List (Text × ℕ))
  send_request ctx clock host send hosts = elim (do_read_request ctx send) [
    | failed e ↦ (failed e, hosts)
    | done response ↦
        let retry_at = rate_limit_deadline (response.header (codes "Retry-After")) clock.reply in
        if not (response.status == too_many_requests) then (done response, hosts) else (
          failed (http_status [] too_many_requests retry_at),
          limit_hosts clock.sweep host retry_at hosts,
        )
  ]

  -- readRequest to a host in lower case; `early` is ctx.Err() at the start.
  unfoldable pub read_request :
      Option Failure
      → Option Failure
      → Clock
      → Text
      → (ℕ → Outcome Response)
      → Option (List (Text × ℕ))
      → Outcome Response × Option (List (Text × ℕ))
  read_request early ctx clock host send hosts = elim early [
    | some e ↦ (failed e, hosts)
    | none ↦ elim hosts [
      | none ↦ send_request ctx clock host send none
      | some h ↦
          if ltb clock.start (deadline host h)
          then (failed (http_status [] too_many_requests (deadline host h)), some h)
          else send_request ctx clock host send (some h)
    ]
  ]
