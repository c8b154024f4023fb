-- ===== src/Candidate/Bound/Disjoint.antt =====
-- What holds of every plan that buildBoundPlan returns.
use aninode.Prelude.{
  ℕ, ◌≡◌, ◌≢◌, sym, ◌∙◌, inl, inr, true, false, Text, List, [], ◌∷◌, All, All-append, Option, some,
  Option-cases, Bool-cases,
}
use aninode.Episode.{overlaps}
use aninode.Release.{Release}
use aninode.Catalog.{Entry, Evidence}
use aninode.Candidate.{Identity, at, is_selected, is_movie, wrong_media_type}
use aninode.Candidate.Order.{ContentSource}
use aninode.Candidate.Evaluate.{refuse, start_candidate, evaluate}
use aninode.Candidate.Evaluate.Verdict.{evaluate_lem}
use aninode.Candidate.Score.{TechnicalTraits, continuity_score}
use aninode.Candidate.Select.Disjoint.{select_best-Shrinks, select_best-no_overlap}
use aninode.Candidate.Build.{Building, find_source}
use aninode.Candidate.Build.Plan.{NamesEntry, at-NamesEntry, add_candidate-NamesEntry}
use aninode.Candidate.Bound.{
  bound, BoundPlan, differs, add_bound, add_bound_releases, add_bound_source, add_bound_sources,
  sorted_sources, bound_plan, select_bound, build_bound_plan,
}

bound-injective : {p q : BoundPlan} → bound p ≡ bound q → p ≡ q
bound-injective e = cc

module _ (to_lower : ℕ → ℕ) (identity : Release → Option Identity)
    (technical : Text → TechnicalTraits) (sources : List (Text × ContentSource)) (w : Entry)
    (evidence : List Evidence) where
  add_bound-NamesEntry :
      (id : Text) (r : Release) (p : Building)
      → All NamesEntry p.candidates
      → All NamesEntry (add_bound to_lower identity technical sources w evidence id r p).candidates
  unfolding add_bound is_selected
  add_bound-NamesEntry id r p h = elim (Bool-cases (differs w r)) [
    | inl t ↦ rw t (
        All-append NamesEntry p.candidates (refuse (start_candidate w id r) wrong_media_type ∷ []) h
          ((λ s. absurd cc), tt))
    | inr f ↦ rw f (
        add_candidate-NamesEntry (evaluate to_lower identity w id r evidence) p
          (λ s.
            let (accepted, eligible, rest) = evaluate_lem to_lower identity w id r evidence s in
            eligible.key_of_entry ∙ sym eligible.of_entry)
          h)
  ]

  add_bound_releases-NamesEntry :
      (id : Text) (rs : List Release) (p : Building)
      → All NamesEntry p.candidates
      → All NamesEntry
          (add_bound_releases to_lower identity technical sources w evidence id rs p).candidates
  unfolding add_bound_releases
  add_bound_releases-NamesEntry id [] p h = h
  add_bound_releases-NamesEntry id (r ∷ rs) p h =
      add_bound_releases-NamesEntry id rs _ (add_bound-NamesEntry id r p h)

  add_bound_sources-NamesEntry :
      (ids : List (Text × List Release)) (p q : BoundPlan)
      → All NamesEntry p.building.candidates
      → add_bound_sources to_lower identity technical sources w evidence ids p ≡ bound q
      → All NamesEntry q.building.candidates
  unfolding add_bound_sources add_bound_source
  add_bound_sources-NamesEntry [] p q h e = let same : p ≡ q = bound-injective e in rw (sym same) h
  add_bound_sources-NamesEntry ((id, values) ∷ rest) p q h e =
      elim (Option-cases (find_source sources id)) [
        | inr n ↦ absurd (cc (rw (n, add_bound_sources) at e))
        | inl (source, f) ↦ elim (Bool-cases source.enabled) [
          | inr n ↦ absurd (cc (rw (f, n, add_bound_sources) at e))
          | inl t ↦
              add_bound_sources-NamesEntry rest
                (add_bound_source to_lower identity technical sources w evidence id values p) q
                (add_bound_releases-NamesEntry id values p.building h)
                (rw (f, t, add_bound_sources) at e)
        ]
      ]

  -- Where buildBoundPlan does not fail on a source, it returns the candidates after the selection, and no
  -- two different ones of them that are selected and are no movies share an episode.
  pub build_bound_plan-no_overlap :
      (by_source : List (Text × List Release)) (p : BoundPlan) (i j : ℕ)
      → bound_plan to_lower identity technical sources w evidence by_source ≡ bound p
      → is_movie (at p.building.candidates i) ≡ false
      → is_movie (at p.building.candidates j) ≡ false
      → is_selected (at (select_bound to_lower identity technical sources w evidence p).0 i) ≡ true
      → is_selected (at (select_bound to_lower identity technical sources w evidence p).0 j) ≡ true
      → i ≢ j
      → (build_bound_plan to_lower identity technical sources w evidence by_source
          ≡ bound (select_bound to_lower identity technical sources w evidence p))
        × (overlaps (at p.building.candidates i).episode (at p.building.candidates j).episode
            ≡ false)
  unfolding build_bound_plan bound_plan select_bound
  build_bound_plan-no_overlap by_source p i j built mi mj si sj n =
      let score = some (λ c. continuity_score to_lower technical evidence c) in
      let named =
        add_bound_sources-NamesEntry
          (sorted_sources to_lower identity technical sources w evidence by_source)
          (record { building = record { candidates = []; seen = [] }; warned = [] }) p tt built in
      let kept = select_best-Shrinks sources score p.building.candidates in
      (
        rw (build_bound_plan, built),
        select_best-no_overlap sources score p.building.candidates i j
            (at-NamesEntry p.building.candidates i named (kept.fewer i si))
            (at-NamesEntry p.building.candidates j named (kept.fewer j sj)) mi mj si sj n,
      )
