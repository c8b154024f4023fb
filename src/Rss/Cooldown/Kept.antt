-- ===== src/Rss/Cooldown/Kept.antt =====
-- internal/rss/cooldown.go: requests and the hosts in cooldown.
use aninode.Prelude.{
  ℕ, ◌≡◌, inl, inr, true, false, ltb, ◌==◌, Text, codes, ℤ, Option, none, some, List, [],
  Bool-cases,
}
use aninode.Rss.Http.{
  Response, Failure, http_status, Outcome, Outcome-cases, done, failed, too_many_requests,
  do_read_request,
}
use aninode.Rss.Cooldown.{
  Clock, deadline, limit_hosts, rate_limit_deadline, send_request, read_request,
}
use aninode.Rss.Cooldown.Room.{IsBounded, limit-IsBounded}

-- Without hosts there is no cooldown to bound.
abbrev pub AreBounded : Option (List (Text × ℕ)) → Type 0
AreBounded none = Unit
AreBounded (some h) = IsBounded h

limit_hosts-AreBounded :
    (now : Text → ℕ) (host : Text) (retry_at : ℕ) (hosts : Option (List (Text × ℕ)))
    → AreBounded hosts
    → AreBounded (limit_hosts now host retry_at hosts)
unfolding limit_hosts
limit_hosts-AreBounded now host retry_at none b = tt
limit_hosts-AreBounded now host retry_at (some h) b = limit-IsBounded now host retry_at h b

module _ (parse_int : Text → Option ℤ) (parse_time : Text → Option ℕ) where
  -- The deadline that a reply sets.
  abbrev pub retry_at : Response → Clock → ℕ
  retry_at response clock =
      rate_limit_deadline parse_int parse_time (response.header (codes "Retry-After")) clock.reply

  pub send_limited :
      (ctx : Option Failure) (clock : Clock) (host : Text) (send : ℕ → Outcome Response)
      (hosts : Option (List (Text × ℕ))) (response : Response)
      → do_read_request ctx send ≡ done response
      → (response.status == too_many_requests) ≡ true
      → send_request parse_int parse_time ctx clock host send hosts ≡ (
        failed (http_status [] too_many_requests (retry_at response clock)),
        limit_hosts clock.sweep host (retry_at response clock) hosts,
      )
  unfolding send_request
  send_limited ctx clock host send hosts response e t = rw (send_request, e, t)

  send_request-AreBounded :
      (ctx : Option Failure) (clock : Clock) (host : Text) (send : ℕ → Outcome Response)
      (hosts : Option (List (Text × ℕ)))
      → AreBounded hosts
      → AreBounded (send_request parse_int parse_time ctx clock host send hosts).1
  unfolding send_request
  send_request-AreBounded ctx clock host send hosts b =
      elim (Outcome-cases (do_read_request ctx send)) [
        | inr (e, p) ↦ rw (send_request, p) b
        | inl (response, p) ↦ elim (Bool-cases (response.status == too_many_requests)) [
          | inr f ↦ rw (send_request, p, f) b
          | inl t ↦
              rw (send_limited ctx clock host send hosts response p t)
                (limit_hosts-AreBounded clock.sweep host (retry_at response clock) hosts b)
        ]
      ]

  -- A host before its deadline gets no request.
  pub refused :
      (ctx : Option Failure) (clock : Clock) (host : Text) (send : ℕ → Outcome Response)
      (h : List (Text × ℕ))
      → ltb clock.start (deadline host h) ≡ true
      → read_request parse_int parse_time none ctx clock host send (some h)
        ≡ (failed (http_status [] too_many_requests (deadline host h)), some h)
  unfolding read_request
  refused ctx clock host send h t = rw (read_request, t)

  pub sent :
      (ctx : Option Failure) (clock : Clock) (host : Text) (send : ℕ → Outcome Response)
      (h : List (Text × ℕ))
      → ltb clock.start (deadline host h) ≡ false
      → read_request parse_int parse_time none ctx clock host send (some h)
        ≡ send_request parse_int parse_time ctx clock host send (some h)
  unfolding read_request
  sent ctx clock host send h f = rw (read_request, f)

  -- A request keeps the hosts in cooldown distinct and within 128.
  pub read_request-AreBounded :
      (early ctx : Option Failure) (clock : Clock) (host : Text) (send : ℕ → Outcome Response)
      (hosts : Option (List (Text × ℕ)))
      → AreBounded hosts
      → AreBounded (read_request parse_int parse_time early ctx clock host send hosts).1
  unfolding read_request
  read_request-AreBounded (some e) ctx clock host send hosts b = b
  read_request-AreBounded none ctx clock host send none b =
      send_request-AreBounded ctx clock host send none b
  read_request-AreBounded none ctx clock host send (some h) b =
      elim (Bool-cases (ltb clock.start (deadline host h))) [
        | inl t ↦ rw (refused ctx clock host send h t) b
        | inr f ↦
            rw (sent ctx clock host send h f)
              (send_request-AreBounded ctx clock host send (some h) b)
      ]
