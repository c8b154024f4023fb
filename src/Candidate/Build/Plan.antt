-- ===== src/Candidate/Build/Plan.antt =====
-- What holds of every plan that BuildObserved returns.
use aninode.Prelude.{
  ℕ, zero, suc, ◌≡◌, ◌≢◌, sym, ◌∙◌, inl, inr, Bool, true, false, Text, List, [], ◌∷◌, All,
  All-append, Option, some, Option-cases, Bool-cases,
}
use aninode.Episode.{overlaps}
use aninode.Release.{Release}
use aninode.Catalog.{Entry, Evidence}
use aninode.Candidate.{Candidate, Identity, no_candidate, at, is_selected, is_movie}
use aninode.Candidate.Order.{ContentSource}
use aninode.Candidate.Evaluate.{evaluate}
use aninode.Candidate.Evaluate.Verdict.{evaluate_lem}
use aninode.Candidate.Score.{TechnicalTraits, continuity_score}
use aninode.Candidate.Select.Disjoint.{select_best-Shrinks, select_best-no_overlap}
use aninode.Candidate.Build.{
  Building, add_candidate, find_source, sources_for_entry, sorted_entries, concerns, add_releases,
  add_sources, add_entries, observed_candidates, build_observed,
}

-- The key of a selected candidate names the candidate's own Entry.
abbrev pub NamesEntry : Candidate → Type 0
NamesEntry c = is_selected c ≡ true → c.episode.entry_key ≡ c.entry_key

pub at-NamesEntry : (cs : List Candidate) (i : ℕ) → All NamesEntry cs → NamesEntry (at cs i)
unfolding at is_selected
at-NamesEntry [] i h = λ s. cc
at-NamesEntry (c ∷ cs) zero h = h.0
at-NamesEntry (c ∷ cs) (suc i) h = at-NamesEntry cs i h.1

pub add_candidate-NamesEntry :
    (c : Candidate) (p : Building)
    → NamesEntry c
    → All NamesEntry p.candidates
    → All NamesEntry (add_candidate c p).candidates
unfolding add_candidate
add_candidate-NamesEntry c p hc hp = elim (Bool-cases (is_selected c)) [
  | inl s ↦ elim (Bool-cases (aninode.Candidate.Build.seen_before p.seen c.acquisition.id)) [
    | inl e ↦ rw (s, e) (All-append NamesEntry p.candidates _ hp ((λ k. hc s), tt))
    | inr n ↦ rw (s, n) (All-append NamesEntry p.candidates (c ∷ []) hp (hc, tt))
  ]
  | inr n ↦ rw n (All-append NamesEntry p.candidates (c ∷ []) hp (hc, tt))
]

module _ (to_lower : ℕ → ℕ) (identity : Release → Option Identity)
    (technical : Text → TechnicalTraits) (matches : Entry → Release → Bool)
    (sources : List (Text × ContentSource)) (enabled : List Text) (by_source : Text → List Release)
    (evidence_by_entry : Text → List Evidence) where
  evaluate-NamesEntry :
      (w : Entry) (id : Text) (r : Release) (evidence : List Evidence)
      → NamesEntry (evaluate to_lower identity w id r evidence)
  evaluate-NamesEntry w id r evidence s =
      let (accepted, eligible, rest) = evaluate_lem to_lower identity w id r evidence s in
      eligible.key_of_entry ∙ sym eligible.of_entry

  add_releases-NamesEntry :
      (w : Entry) (id : Text) (rs : List Release) (p : Building)
      → All NamesEntry p.candidates
      → All NamesEntry
          (add_releases to_lower identity technical matches sources enabled by_source
            evidence_by_entry w id rs p).candidates
  unfolding add_releases
  add_releases-NamesEntry w id [] p h = h
  add_releases-NamesEntry w id (r ∷ rs) p h =
      elim (Bool-cases (
        concerns to_lower identity technical matches sources enabled by_source evidence_by_entry w
          r)) [
            | inl t ↦
                rw (t, add_releases)
                  (add_releases-NamesEntry w id rs _ (
                    add_candidate-NamesEntry
                      (evaluate to_lower identity w id r (evidence_by_entry w.key)) p
                      (evaluate-NamesEntry w id r (evidence_by_entry w.key)) h))
            | inr f ↦ rw (f, add_releases) (add_releases-NamesEntry w id rs p h)
          ]

  add_sources-NamesEntry :
      (w : Entry) (ids : List Text) (p : Building)
      → All NamesEntry p.candidates
      → All NamesEntry
          (add_sources to_lower identity technical matches sources enabled by_source
            evidence_by_entry w ids p).candidates
  unfolding add_sources
  add_sources-NamesEntry w [] p h = h
  add_sources-NamesEntry w (id ∷ ids) p h = elim (Option-cases (find_source sources id)) [
    | inr e ↦ rw (e, add_sources) (add_sources-NamesEntry w ids p h)
    | inl (source, e) ↦ elim (Bool-cases source.enabled) [
      | inl t ↦
          rw (e, t, add_sources)
            (add_sources-NamesEntry w ids _ (add_releases-NamesEntry w id (by_source id) p h))
      | inr f ↦ rw (e, f, add_sources) (add_sources-NamesEntry w ids p h)
    ]
  ]

  add_entries-NamesEntry :
      (ws : List Entry) (p : Building)
      → All NamesEntry p.candidates
      → All NamesEntry
          (add_entries to_lower identity technical matches sources enabled by_source
            evidence_by_entry ws p).candidates
  unfolding add_entries
  add_entries-NamesEntry [] p h = h
  add_entries-NamesEntry (w ∷ ws) p h =
      add_entries-NamesEntry ws _ (add_sources-NamesEntry w (sources_for_entry enabled w) p h)

  -- In a plan of BuildObserved no two different selected candidates that are no movies share an episode,
  -- whatever the Entries, the sources, the releases and the evidence are.
  pub build_observed-no_overlap :
      (entries : List Entry) (i j : ℕ)
      → is_movie (
          at
            (observed_candidates to_lower identity technical matches sources enabled by_source
              evidence_by_entry entries)
            i)
        ≡ false
      → is_movie (
          at
            (observed_candidates to_lower identity technical matches sources enabled by_source
              evidence_by_entry entries)
            j)
        ≡ false
      → is_selected (
          at
            (build_observed to_lower identity technical matches sources enabled by_source
              evidence_by_entry entries)
            i)
        ≡ true
      → is_selected (
          at
            (build_observed to_lower identity technical matches sources enabled by_source
              evidence_by_entry entries)
            j)
        ≡ true
      → i ≢ j
      → overlaps
          (at
            (observed_candidates to_lower identity technical matches sources enabled by_source
              evidence_by_entry entries)
            i).episode
          (at
            (observed_candidates to_lower identity technical matches sources enabled by_source
              evidence_by_entry entries)
            j).episode
        ≡ false
  unfolding build_observed observed_candidates
  build_observed-no_overlap entries i j mi mj si sj n =
      let score =
        some (λ c. continuity_score to_lower technical (evidence_by_entry c.entry_key) c) in
      let cs =
        observed_candidates to_lower identity technical matches sources enabled by_source
          evidence_by_entry entries in
      let named =
        add_entries-NamesEntry (sorted_entries entries) (record { candidates = []; seen = [] })
          tt in
      let kept = select_best-Shrinks sources score cs in
      select_best-no_overlap sources score cs i j (at-NamesEntry cs i named (kept.fewer i si))
        (at-NamesEntry cs j named (kept.fewer j sj)) mi mj si sj n
