-- ===== src/Candidate/Build.antt =====
-- BuildObserved: the plan of one pass over the feeds. A map that is only read is a function, with the
-- zero value for a missing key; `matches` stands for matchesWork behind its test on the media type,
-- which compares titles (internal/naming). A context that is cancelled is not modelled.
pub mod Plan
use aninode.Prelude.{
  ℕ, Bool, true, false, not, ◌&&◌, ◌||◌, if◌then◌else◌, Text, text_eq, text_lt, ℤ, List, [], ◌∷◌,
  ◌++◌, map, Option, none, some, sort_stable,
}
use aninode.Release.{Release}
use aninode.ReleaseFilter.{is_empty}
use aninode.Catalog.{Entry, Evidence}
use aninode.Catalog.Stable.{effective_sources}
use aninode.Candidate.{Candidate, Identity, is_selected, duplicate, duplicate_release}
use aninode.Candidate.Order.{ContentSource}
use aninode.Candidate.Evaluate.{evaluate}
use aninode.Candidate.Score.{TechnicalTraits, continuity_score}
use aninode.Candidate.Select.{select_best}

-- seen[id]
unfoldable pub seen_before : List Text → Text → Bool
seen_before [] id = false
seen_before (k ∷ ks) id = text_eq k id || seen_before ks id

-- The plan so far, with the set seenRelease.
pub record Building : Type 0 where
  pub candidates : List Candidate
  pub seen : List Text

-- The loop of sourcesForEntry.
unfoldable pub without_repeats : List Text → List Text → List Text
without_repeats seen [] = []
without_repeats seen (id ∷ ids) = elim (seen_before seen id) [
  | true ↦ without_repeats seen ids
  | false ↦ id ∷ without_repeats (id ∷ seen) ids
]

-- sourcesForEntry, where `enabled` is what configstore.EnabledSourceIDs returns
unfoldable pub sources_for_entry : List Text → Entry → List Text
sources_for_entry enabled w = sort_stable text_lt (without_repeats [] (effective_sources w enabled))

-- sortedEntries
unfoldable pub sorted_entries : List Entry → List Entry
sorted_entries = sort_stable (λ a b. text_lt a.key b.key)

-- source, ok := b.Sources[sourceID]
unfoldable pub find_source : List (Text × ContentSource) → Text → Option ContentSource
find_source [] id = none
find_source ((k, s) ∷ m) id = if text_eq k id then some s else find_source m id

-- The test on seenRelease, and the append to the plan.
unfoldable pub add_candidate : Candidate → Building → Building
add_candidate c p =
    if is_selected c
    then (if seen_before p.seen c.acquisition.id
        then record p {
          candidates =
              p.candidates ++ (record c { decision = duplicate; reason = duplicate_release }) ∷ [];
        }
        else record { candidates = p.candidates ++ c ∷ []; seen = c.acquisition.id ∷ p.seen })
    else record p { candidates = p.candidates ++ c ∷ [] }

module _ (to_lower : ℕ → ℕ) (identity : Release → Option Identity)
    (technical : Text → TechnicalTraits) (matches : Entry → Release → Bool)
    (sources : List (Text × ContentSource)) (enabled : List Text) (by_source : Text → List Release)
    (evidence_by_entry : Text → List Evidence) where
  -- The two tests that a release has to pass for an Entry.
  unfoldable pub concerns : Entry → Release → Bool
  concerns w r = (is_empty r.media_type || text_eq r.media_type w.media_type) && matches w r

  -- The loop over the releases of a source.
  unfoldable pub add_releases : Entry → Text → List Release → Building → Building
  add_releases w id [] p = p
  add_releases w id (r ∷ rs) p = add_releases w id rs (
      if concerns w r
      then add_candidate (evaluate to_lower identity w id r (evidence_by_entry w.key)) p
      else p)

  -- The loop over the sources of an Entry.
  unfoldable pub add_sources : Entry → List Text → Building → Building
  add_sources w [] p = p
  add_sources w (id ∷ ids) p = add_sources w ids (elim (find_source sources id) [
    | none ↦ p
    | some source ↦ if not source.enabled then p else add_releases w id (by_source id) p
  ])

  -- The loop over the Entries.
  unfoldable pub add_entries : List Entry → Building → Building
  add_entries [] p = p
  add_entries (w ∷ ws) p = add_entries ws (add_sources w (sources_for_entry enabled w) p)

  -- The plan before the selection.
  unfoldable pub observed_candidates : List Entry → List Candidate
  observed_candidates entries =
      (add_entries (sorted_entries entries) (record { candidates = []; seen = [] })).candidates

  -- BuildObserved
  unfoldable pub build_observed : List Entry → List Candidate
  build_observed entries =
      select_best sources
        (some (λ c. continuity_score to_lower technical (evidence_by_entry c.entry_key) c))
        (observed_candidates entries)
