-- ===== src/Rss/Flights.antt =====
-- internal/rss/metadata_cache.go: FetchTorrentMetadata, called any number of times at once. A step is
-- what one caller does while it holds the mutex, or its return from a select. A flight is a number, the
-- address of the Go object; the callers are numbered too.
pub mod Kept
pub mod Own
pub mod Progress
use aninode.Prelude.{
  ℕ, zero, suc, ◌≡◌, Bool, true, false, if◌then◌else◌, ◌==◌, Text, Option, none, some, List, [],
  ◌∷◌, lookup, delete, assign,
}
use aninode.Torrent.Metainfo.{Metadata}
use aninode.Rss.Http.{Failure, Outcome, done, failed}
use aninode.Rss.Metadata.{Cache, look, put}

-- Where a call stands: before the lookup, in the select, in the request of its own, or at its end.
pub data Caller : Type 0 where
  calling : (url : Text) → Caller
  waiting : (url : Text) (flight : ℕ) → Caller
  owning : (url : Text) (flight : ℕ) → Caller
  finished : (result : Outcome Metadata) → Caller

-- metadataCache with its flights. `results` has the value and the error of a flight once `done` is
-- closed; the flights from `fresh` on do not exist yet.
pub record State : Type 0 where
  pub cache : Cache
  pub flights : List (Text × ℕ)
  pub results : ℕ → Option (Outcome Metadata)
  pub fresh : ℕ
  pub callers : ℕ → Caller

unfoldable pub set {ℓ} : {A : Type ℓ} → ℕ → A → (ℕ → A) → ℕ → A
set i a f j = if i == j then a else f j

-- flight := &metadataFlight{…}; c.flights[rawURL] = flight
unfoldable pub take_off : ℕ → Text → State → State
take_off i url s = record s {
  flights = assign url s.fresh s.flights;
  results = set s.fresh none s.results;
  fresh = suc s.fresh;
  callers = set i (owning url s.fresh) s.callers;
}

-- The part under the first lock, behind the lookup, which has left the cache `c`.
unfoldable pub enter_found : ℕ → Text → Option Metadata → Cache → State → State
enter_found i url (some value) c s = record s {
  cache = c;
  callers = set i (finished (done value)) s.callers;
}
enter_found i url none c s = elim (lookup url s.flights) [
  | some flight ↦ record s { cache = c; callers = set i (waiting url flight) s.callers }
  | none ↦ take_off i url (record s { cache = c })
]

unfoldable pub enter : ℕ → Text → ℕ → State → State
enter i url now s = let (found, c) = look now url s.cache in enter_found i url found c s

-- if err == nil { c.put(rawURL, value) }
unfoldable pub keep : ℕ → Text → Outcome Metadata → Cache → Cache
keep now url (done value) c = put now url value c
keep now url (failed e) c = c

-- The part under the second lock, with the result of the request.
unfoldable pub land : ℕ → Text → ℕ → ℕ → Outcome Metadata → State → State
land i url flight now result s = record s {
  cache = keep now url result s.cache;
  flights = delete url s.flights;
  results = set flight (some result) s.results;
  callers = set i (finished result) s.callers;
}

unfoldable pub retire : ℕ → Outcome Metadata → State → State
retire i result s = record s { callers = set i (finished result) s.callers }

-- The steps: a call whose context has ended at once, the two critical sections, and the two cases of the
-- select.
pub data Step (s : State) : State → Type 0 where
  end_early :
      (i : ℕ) (url : Text) (e : Failure)
      → s.callers i ≡ calling url
      → Step s (retire i (failed e) s)
  go_in : (i : ℕ) (url : Text) (now : ℕ) → s.callers i ≡ calling url → Step s (enter i url now s)
  return_own :
      (i : ℕ) (url : Text) (flight now : ℕ) (result : Outcome Metadata)
      → s.callers i ≡ owning url flight
      → Step s (land i url flight now result s)
  wake_up :
      (i : ℕ) (url : Text) (flight : ℕ) (result : Outcome Metadata)
      → s.callers i ≡ waiting url flight
      → s.results flight ≡ some result
      → Step s (retire i result s)
  give_up :
      (i : ℕ) (url : Text) (flight : ℕ) (e : Failure)
      → s.callers i ≡ waiting url flight
      → Step s (retire i (failed e) s)

-- The cache is new, and every call is still ahead.
pub data IsStart : State → Type 0 where
  start :
      (c : Cache) (urls : ℕ → Text)
      → IsStart (record {
        cache = c;
        flights = [];
        results = (λ n. none);
        fresh = 0;
        callers = (λ n. calling (urls n));
      })

pub data Leads (s : State) : State → Type 0 where
  stay : Leads s s
  then_step : {t u : State} → Leads s t → Step t u → Leads s u
