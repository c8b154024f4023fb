-- ===== src/Auth/Sessions.antt =====
-- internal/server/auth.go: the sessions. The keys are the hashes of the cookies' values.
pub mod Bound
pub mod Cookie
use aninode.Prelude.{
  ℕ, ◌+◌, ◌*◌, Bool, true, false, not, ◌||◌, if◌then◌else◌, ltb, leb, ◌==◌, Text, Option, none,
  some, List, [], ◌∷◌, length, lookup, delete, assign,
}
use aninode.Rss.{second}
use aninode.Auth.{Primitives}

-- sessionLifetime
abbrev pub session_lifetime : ℕ
session_lifetime = 604800 * second

abbrev pub max_sessions : ℕ
max_sessions = 32

-- The part of validLocked behind the hash.
unfoldable pub check_session : Text → ℕ → List (Text × ℕ) → Bool × List (Text × ℕ)
check_session key now sessions = elim (lookup key sessions) [
  | none ↦ (false, sessions)
  | some expires ↦ if not (ltb now expires) then (false, delete key sessions) else (true, sessions)
]

-- The loop of sessionLocked that deletes the sessions that have ended.
unfoldable pub drop_ended : ℕ → List (Text × ℕ) → List (Text × ℕ)
drop_ended now [] = []
drop_ended now ((key, expiry) ∷ sessions) =
    let rest = drop_ended now sessions in
    if not (ltb now expiry) then rest else (key, expiry) ∷ rest

-- The search for the oldest session: `oldest` and `expiry` are the variables of the loop.
unfoldable pub find_first_end : Text → ℕ → List (Text × ℕ) → Text
find_first_end oldest expiry [] = oldest
find_first_end oldest expiry ((key, end) ∷ rest) = elim (expiry == 0 || ltb end expiry) [
  | true ↦ find_first_end key end rest
  | false ↦ find_first_end oldest expiry rest
]

-- if len(a.sessions) >= 32; [] stands for the zero value of the array, which no key is.
unfoldable pub evict_oldest : List (Text × ℕ) → List (Text × ℕ)
evict_oldest sessions =
    if leb max_sessions (length sessions)
    then delete (find_first_end [] 0 sessions) sessions
    else sessions

module _ (p : Primitives) where
  -- validLocked, for the cookie of the request
  unfoldable pub valid_locked : ℕ → Option Text → List (Text × ℕ) → Bool × List (Text × ℕ)
  valid_locked now none sessions = (false, sessions)
  valid_locked now (some value) sessions =
      if not (length value == 43)
      then (false, sessions)
      else check_session (p.sha256 value) now sessions

  -- revokeLocked
  unfoldable pub revoke_locked : Option Text → List (Text × ℕ) → List (Text × ℕ)
  revoke_locked none sessions = sessions
  revoke_locked (some value) sessions = delete (p.sha256 value) sessions

  -- sessionLocked behind rand.Read; the value of the new cookie is p.base64 bytes.
  unfoldable pub add_session : ℕ → Text → Option Text → List (Text × ℕ) → List (Text × ℕ)
  add_session now bytes cookie sessions =
      assign (p.sha256 (p.base64 bytes)) (now + session_lifetime)
        (evict_oldest (drop_ended now (revoke_locked cookie sessions)))
