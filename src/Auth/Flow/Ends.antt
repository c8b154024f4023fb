-- ===== src/Auth/Flow/Ends.antt =====
-- internal/server/auth.go: lemmas on a source that is blocked.
use aninode.Prelude.{
  ℕ, ◌+◌, ◌≤◌, ◌<◌, ◌≡◌, refl, ap, ◌∙◌, ◌⊎◌, inl, inr, true, false, ◌||◌, Text, text_eq, codes,
  some, List, All,
}
use aninode.Auth.{LoginThrottle, WebAuth, Primitives}
use aninode.Auth.Throttles.{block_duration, failure_limit, blocked, Event, run}
use aninode.Auth.Throttles.Blocks.{IsCounted}
use aninode.Auth.Throttles.Count.{IsWithin, failures_of, run-blocked}
use aninode.Auth.Flow.{
  Input, Request, api_error, started, replied, Env, is_logout, is_setup, is_login, is_password,
  pass_throttle, login_source, start_check, dispatch, decode, start, whole_seconds, step,
}

module _ (p : Primitives) where
  path_tests :
      (r : Request)
      → (r.path ≡ codes "/auth/login") ⊎ (r.path ≡ codes "/auth/password")
      → (is_logout r ≡ false) × (is_setup r ≡ false) × ((is_login r || is_password r) ≡ true)
  unfolding text_eq
  path_tests r (inl e) = (rw e refl, rw e refl, rw e refl)
  path_tests r (inr e) = (rw e refl, rw e refl, rw e refl)

  start-throttled :
      (env : Env) (r : Request) (input : Input) (web : WebAuth) (rest : ℕ)
      → (blocked env.now (login_source p r) web.throttles).0 ≡ some rest
      → (start_check p env r input web).0
        ≡ replied (api_error 429 (codes "rate_limited") (some (whole_seconds rest)))
  unfolding start_check pass_throttle blocked
  start-throttled env r input web rest e = rw (e, pass_throttle) refl

  -- A source that has failed five times within half a minute, whatever other sources do and as long
  -- as it does not succeed, on throttles that count less than five failures each, gets the reply
  -- 429 to a request for /auth/login or /auth/password with a body that can be read, until half a
  -- minute has passed since the start of that time, with the rest of the block as Retry-After.
  pub start-rate_limited :
      (env : Env) (r : Request) (input : Input) (web : WebAuth) (source : Text) (first : ℕ)
      (before : List (Text × LoginThrottle)) (es : List Event)
      → (r.path ≡ codes "/auth/login") ⊎ (r.path ≡ codes "/auth/password")
      → r.body ≡ some input
      → login_source p r ≡ source
      → IsCounted before
      → web.throttles ≡ run es before
      → 0 < first
      → All (IsWithin source first) es
      → failure_limit ≤ failures_of source es
      → env.now < first + block_duration
      → (rest : ℕ) × (first + block_duration ≤ env.now + rest)
        × ((step p env r started web).0
            ≡ replied (api_error 429 (codes "rate_limited") (some (whole_seconds rest))))
  unfolding step start decode dispatch
  start-rate_limited env r input web source first before es path body from counted ran pos within
        five soon =
      let (rest, long, block) =
        run-blocked source first env.now es before counted pos within five soon in
      let there : (blocked env.now (login_source p r) web.throttles).0 ≡ some rest =
        rw (from, ran) block in
      let (l, u, q) = path_tests r path in
      let decoded : (decode p env r r.body web).0 ≡ (decode p env r (some input) web).0 =
        ap (λ b. (decode p env r b web).0) body in
      let first_test : (start p env r web).0 ≡ (decode p env r r.body web).0 = rw (start, l) refl in
      let checked : (decode p env r (some input) web).0 ≡ (start_check p env r input web).0 =
        rw (decode, dispatch, u, q) refl in
      (rest, long, first_test ∙ decoded ∙ checked ∙ start-throttled env r input web rest there)
