-- ===== src/Examples/Flights.antt =====
-- Two calls for one URL, of which the first has the request: FetchTorrentMetadata of internal/rss.
use aninode.Prelude.{ℕ, ◌≡◌, refl, ◌⊎◌, codes, text_eq, none, some, [], lookup, delete, assign}
use aninode.Torrent.Metainfo.{Metadata}
use aninode.Rss.Http.{Outcome, failed, cancelled}
use aninode.Rss.Metadata.{look}
use aninode.Rss.Metadata.Reached.{empty_cache}
use aninode.Rss.Flights.{
  State, calling, waiting, owning, finished, set, take_off, enter_found, enter, start, Leads, stay,
  then_step, go_in,
}
use aninode.Rss.Flights.Progress.{Leads-one_request, Leads-progress}

abbrev first_state : State
first_state = record {
  cache = empty_cache;
  flights = [];
  results = (λ n. none);
  fresh = 0;
  callers = (λ n. calling (codes "u"));
}

abbrev both : State
both = enter 1 (codes "u") 5 (enter 0 (codes "u") 5 first_state)

second_call : (enter 0 (codes "u") 5 first_state).callers 1 ≡ calling (codes "u")
unfolding enter enter_found look take_off set lookup
second_call = refl

both_lead : Leads first_state both
both_lead =
    then_step (then_step stay (go_in 0 (codes "u") 5 refl)) (go_in 1 (codes "u") 5 second_call)

owner_test : both.callers 0 ≡ owning (codes "u") 0
unfolding enter enter_found look take_off set lookup assign delete text_eq
owner_test = refl

waiting_test : both.callers 1 ≡ waiting (codes "u") 0
unfolding enter enter_found look take_off set lookup assign delete text_eq
waiting_test = refl

Leads-one_request_example : ◌≡◌ {A = ℕ} 0 0
Leads-one_request_example =
    Leads-one_request 0 0 (codes "u") 0 0 (start empty_cache (λ n. codes "u")) both_lead owner_test
      owner_test

Leads-progress_example :
    (u : State) × Leads both u
    × (((r : Outcome Metadata) × (both.results 0 ≡ some r) × (u.callers 1 ≡ finished r))
        ⊎ ((both.results 0 ≡ none)
            × ((j : ℕ) × (both.callers j ≡ owning (codes "u") 0))
            × (u.callers 1 ≡ finished (failed cancelled))))
Leads-progress_example =
    Leads-progress 1 (codes "u") 0 (failed cancelled) (start empty_cache (λ n. codes "u")) both_lead
      waiting_test
