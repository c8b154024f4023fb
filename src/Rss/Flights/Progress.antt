-- ===== src/Rss/Flights/Progress.antt =====
-- internal/rss/metadata_cache.go: the states that calls of FetchTorrentMetadata lead to.
use aninode.Prelude.{
  ℕ, ◌≡◌, sym, ap, ◌∙◌, ◌⊎◌, inl, inr, Text, Option, none, some, Option-cases, some-injective,
  lookup,
}
use aninode.Torrent.Metainfo.{Metadata}
use aninode.Rss.Http.{Outcome, done, failed}
use aninode.Rss.Metadata.{Cache, look}
use aninode.Rss.Flights.{
  calling, waiting, owning, finished, State, enter_found, enter, land, retire, Step, end_early,
  go_in, return_own, wake_up, give_up, IsStart, start, Leads, stay, then_step,
}
use aninode.Rss.Flights.Kept.{set-same, set-other, IsSound, move-IsSound, retire-IsSound}
use aninode.Rss.Flights.Own.{take_off-IsSound, land-IsSound}

-- The invariant does not look at the cache.
recache-IsSound : (s : State) (c : Cache) → IsSound s → IsSound (record s { cache = c })
recache-IsSound s c h = record {
  owner_holds = h.owner_holds;
  has_owner = h.has_owner;
  waits_for = h.waits_for;
  one_owner = h.one_owner;
}

enter_found-IsSound :
    (i : ℕ) (url : Text) (found : Option Metadata) (c : Cache) (s : State)
    → s.callers i ≡ calling url
    → IsSound s
    → IsSound (enter_found i url found c s)
unfolding enter_found
enter_found-IsSound i url (some value) c s e h =
    move-IsSound s i (finished (done value)) c (λ u f x. absurd cc) (λ u f x. absurd cc)
      (λ u f x. absurd cc) h
enter_found-IsSound i url none c s e h = elim (Option-cases (lookup url s.flights)) [
  | inl (flight, found) ↦
      rw (enter_found, found)
        (move-IsSound s i (waiting url flight) c (λ u f x. absurd cc) (λ u f x. absurd cc)
          (λ u f x.
            let (j, owns) = h.has_owner url flight found in
            let (held, unset, small) = h.owner_holds j url flight owns in
            let same : url ≡ u = cc in
            let new : flight ≡ f = cc in rw (sym same, sym new) (small, (j, owns)))
          h)
  | inr lacks ↦
      rw (enter_found, lacks)
        (take_off-IsSound (record s { cache = c }) i url (λ u f x. absurd cc) lacks
          (recache-IsSound s c h))
]

Step-IsSound : {s t : State} → Step s t → IsSound s → IsSound t
unfolding enter
Step-IsSound {s} (end_early i url e p) h = retire-IsSound s i (failed e) (λ u f x. absurd cc) h
Step-IsSound {s} (go_in i url now p) h =
    enter_found-IsSound i url (look now url s.cache).0 (look now url s.cache).1 s p h
Step-IsSound {s} (return_own i url flight now result p) h =
    land-IsSound s i url flight now result p h
Step-IsSound {s} (wake_up i url flight result p r) h =
    retire-IsSound s i result (λ u f x. absurd cc) h
Step-IsSound {s} (give_up i url flight e p) h = retire-IsSound s i (failed e) (λ u f x. absurd cc) h

start-IsSound : {s : State} → IsStart s → IsSound s
unfolding lookup
start-IsSound (start c urls) = record {
  owner_holds = λ i url flight e. absurd cc;
  has_owner = λ url flight e. absurd cc;
  waits_for = λ i url flight e. absurd cc;
  one_owner = λ i j url url' flight e e'. absurd cc;
}

pub Leads-IsSound : {s t : State} → IsStart s → Leads s t → IsSound t
Leads-IsSound h stay = start-IsSound h
Leads-IsSound h (then_step l st) = Step-IsSound st (Leads-IsSound h l)

-- However the calls interleave, no two of them request one URL at a time.
pub Leads-one_request :
    {s t : State} (i j : ℕ) (url : Text) (flight flight' : ℕ)
    → IsStart s
    → Leads s t
    → t.callers i ≡ owning url flight
    → t.callers j ≡ owning url flight'
    → i ≡ j
Leads-one_request {s} {t} i j url flight flight' h l mine other =
    let sound = Leads-IsSound h l in
    let (found, a, b) = sound.owner_holds i url flight mine in
    let (found', a', b') = sound.owner_holds j url flight' other in
    sound.one_owner i j url url flight mine (rw (some-injective (sym found ∙ found')) other)

-- A call that waits is never stuck: if its flight has ended, it can return the result of that; if not,
-- some call has the request of the flight, and whatever result that request ends with, the waiting call
-- can then return it.
pub Leads-progress :
    {s t : State} (i : ℕ) (url : Text) (flight : ℕ) (result : Outcome Metadata)
    → IsStart s
    → Leads s t
    → t.callers i ≡ waiting url flight
    → (u : State) × Leads t u
      × (((r : Outcome Metadata) × (t.results flight ≡ some r) × (u.callers i ≡ finished r))
          ⊎ ((t.results flight ≡ none)
              × ((j : ℕ) × (t.callers j ≡ owning url flight))
              × (u.callers i ≡ finished result)))
unfolding retire land
Leads-progress {s} {t} i url flight result h l waits =
    let sound = Leads-IsSound h l in
    let (small, rest) = sound.waits_for i url flight waits in
    elim rest [
      | inl (r, closed) ↦ (
        retire i r t,
        then_step stay (wake_up i url flight r waits closed),
        inl (r, closed, set-same i (finished r) t.callers),
      )
      | inr (j, owns) ↦
          let landed = land j url flight 0 result t in
          let (found, unset, b) = sound.owner_holds j url flight owns in
          let still : landed.callers i ≡ waiting url flight =
            set-other j i (finished result) t.callers
              (λ e. absurd (cc (owns, waits, ap t.callers e)))
            ∙ waits in
          (
            retire i result landed,
            then_step (then_step stay (return_own j url flight 0 result owns))
                (wake_up i url flight result still (set-same flight (some result) t.results)),
            inr (unset, (j, owns), set-same i (finished result) landed.callers),
          )
    ]
