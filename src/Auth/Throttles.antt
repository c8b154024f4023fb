-- ===== src/Auth/Throttles.antt =====
-- internal/server/auth.go: the throttles, a map from sources to their failed attempts.
pub mod Blocks
pub mod Count
use aninode.Prelude.{
  ℕ, suc, ◌+◌, ◌-◌, ◌*◌, Bool, true, false, if◌then◌else◌, ltb, leb, Text, Option, none, some, List,
  [], ◌∷◌, lookup, assign, delete,
}
use aninode.Rss.{second}
use aninode.Auth.{LoginThrottle}

-- loginBlockDuration
abbrev pub block_duration : ℕ
block_duration = 30 * second

-- loginFailureLimit
abbrev pub failure_limit : ℕ
failure_limit = 5

-- The zero value of loginThrottle.
abbrev pub no_throttle : LoginThrottle
no_throttle = record { failures = 0; blocked_until = 0; last_seen = 0 }

unfoldable pub or_zero : Option LoginThrottle → LoginThrottle
or_zero none = no_throttle
or_zero (some item) = item

-- a.throttles[source]
unfoldable pub throttle_of : Text → List (Text × LoginThrottle) → LoginThrottle
throttle_of source throttles = or_zero (lookup source throttles)

-- The loop of blocked that forgets the sources not seen for ten minutes.
unfoldable pub forget : ℕ → List (Text × LoginThrottle) → List (Text × LoginThrottle)
forget now [] = []
forget now ((key, item) ∷ throttles) =
    let rest = forget now throttles in
    if ltb (item.last_seen + 600 * second) now then rest else (key, item) ∷ rest

-- How long the item still blocks its source.
unfoldable pub remaining : ℕ → LoginThrottle → Option ℕ
remaining now item = if ltb now item.blocked_until then some (item.blocked_until - now) else none

-- blocked: the rest of the block, if there is one.
unfoldable pub blocked :
    ℕ → Text → List (Text × LoginThrottle) → Option ℕ × List (Text × LoginThrottle)
blocked now source throttles =
    let kept = forget now throttles in (remaining now (throttle_of source kept), kept)

-- What failed makes of an item.
unfoldable pub count_failure : ℕ → LoginThrottle → LoginThrottle
count_failure now item =
    if leb failure_limit (suc item.failures)
    then record { failures = 0; blocked_until = now + block_duration; last_seen = now }
    else record {
      failures = suc item.failures;
      blocked_until = item.blocked_until;
      last_seen = now;
    }

-- failed
unfoldable pub failed : ℕ → Text → List (Text × LoginThrottle) → List (Text × LoginThrottle)
failed now source throttles =
    assign source (count_failure now (throttle_of source throttles)) throttles

-- succeeded
unfoldable pub succeeded : Text → List (Text × LoginThrottle) → List (Text × LoginThrottle)
succeeded source throttles = delete source throttles

-- What a request does to the throttles, the sources of others among them: the handlers ask blocked,
-- and report a failure or a success.
pub data Event : Type 0 where
  asks : (now : ℕ) (source : Text) → Event
  fails : (now : ℕ) (source : Text) → Event
  succeeds : (source : Text) → Event

unfoldable pub happen : Event → List (Text × LoginThrottle) → List (Text × LoginThrottle)
happen (asks now source) l = (blocked now source l).1
happen (fails now source) l = failed now source l
happen (succeeds source) l = succeeded source l

unfoldable pub run : List Event → List (Text × LoginThrottle) → List (Text × LoginThrottle)
run [] l = l
run (e ∷ es) l = run es (happen e l)
