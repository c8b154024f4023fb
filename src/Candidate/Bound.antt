-- ===== src/Candidate/Bound.antt =====
-- buildBoundPlan, BuildBound and ReviewReason: the plan of a historical search, whose Entry the caller has
-- chosen. The Entry that was found is an argument; a context that is cancelled is not modelled.
pub mod Disjoint
use aninode.Prelude.{
  ℕ, Bool, true, false, not, ◌&&◌, ◌||◌, if◌then◌else◌, Text, text_eq, text_lt, codes, ℤ, List, [],
  ◌∷◌, ◌++◌, map, Option, none, some, sort_stable,
}
use aninode.Release.{Release}
use aninode.ReleaseFilter.{is_empty, same}
use aninode.Catalog.{Entry, Evidence}
use aninode.Catalog.Stable.{stable_traits}
use aninode.Candidate.{Candidate, Identity, is_selected, invalid, wrong_media_type}
use aninode.Candidate.Order.{ContentSource}
use aninode.Candidate.Evaluate.{refuse, start_candidate, evaluate}
use aninode.Candidate.Score.{TechnicalTraits, continued_group, continuity_score}
use aninode.Candidate.Select.{select_best}
use aninode.Candidate.Build.{Building, find_source, add_candidate}

-- The errors of both functions.
pub data BoundError : Type 0 where
  source_not_found source_disabled : Text → BoundError
  media_type_differs : BoundError

pub data Bound {ℓ} (A : Type ℓ) : Type ℓ where
  bound : A → Bound A
  failed : BoundError → Bound A

-- r.MediaType != "" && r.MediaType != w.MediaType
unfoldable pub differs : Entry → Release → Bool
differs w r = not (is_empty r.media_type) && not (text_eq r.media_type w.media_type)

-- The plan so far, and the sources with a warning.
pub record BoundPlan : Type 0 where
  pub building : Building
  pub warned : List Text

module _ (to_lower : ℕ → ℕ) (identity : Release → Option Identity)
    (technical : Text → TechnicalTraits) (sources : List (Text × ContentSource)) (w : Entry)
    (evidence : List Evidence) where
  -- One round of the loop over the releases.
  unfoldable pub add_bound : Text → Release → Building → Building
  add_bound id r p =
      if differs w r
      then record p {
        candidates = p.candidates ++ refuse (start_candidate w id r) wrong_media_type ∷ [];
      }
      else add_candidate (evaluate to_lower identity w id r evidence) p

  unfoldable pub add_bound_releases : Text → List Release → Building → Building
  add_bound_releases id [] p = p
  add_bound_releases id (r ∷ rs) p = add_bound_releases id rs (add_bound id r p)

  -- skippedMediaType > 0
  unfoldable pub skips_some : List Release → Bool
  skips_some [] = false
  skips_some (r ∷ rs) = differs w r || skips_some rs

  -- The body of the loop over the sources, behind its two tests.
  unfoldable pub add_bound_source : Text → List Release → BoundPlan → BoundPlan
  add_bound_source id values p = record {
    building = add_bound_releases id values p.building;
    warned = if skips_some values then p.warned ++ id ∷ [] else p.warned;
  }

  -- The loop over the sources.
  unfoldable pub add_bound_sources : List (Text × List Release) → BoundPlan → Bound BoundPlan
  add_bound_sources [] p = bound p
  add_bound_sources ((id, values) ∷ rest) p = elim (find_source sources id) [
    | none ↦ failed (source_not_found id)
    | some source ↦ elim (source.enabled) [
      | false ↦ failed (source_disabled id)
      | true ↦ add_bound_sources rest (add_bound_source id values p)
    ]
  ]

  -- sort.Strings(sourceIDs), with the releases of each
  unfoldable pub sorted_sources : List (Text × List Release) → List (Text × List Release)
  sorted_sources = sort_stable (λ a b. text_lt a.0 b.0)

  -- The plan before the selection.
  unfoldable pub bound_plan : List (Text × List Release) → Bound BoundPlan
  bound_plan by_source =
      add_bound_sources (sorted_sources by_source)
        (record { building = record { candidates = []; seen = [] }; warned = [] })

  unfoldable pub select_bound : BoundPlan → List Candidate × List Text
  select_bound p = (
    select_best sources (some (λ c. continuity_score to_lower technical evidence c))
        p.building.candidates,
    p.warned,
  )

  -- buildBoundPlan: the candidates and the sources of the warnings
  unfoldable pub build_bound_plan : List (Text × List Release) → Bound (List Candidate × List Text)
  build_bound_plan by_source = elim (bound_plan by_source) [
    | failed e ↦ failed e
    | bound p ↦ bound (select_bound p)
  ]

  -- BuildBound
  unfoldable pub build_bound : Text → Release → Bound Candidate
  build_bound id r = elim (find_source sources id) [
    | none ↦ failed (source_not_found id)
    | some source ↦
        if not source.enabled
        then failed (source_disabled id)
        else if differs w r
        then failed media_type_differs
        else bound (evaluate to_lower identity w id r evidence)
  ]

-- The texts of ReviewReason.
pub data Review : Type 0 where
  no_review : Review
  unknown_family other_kind other_group : Review

abbrev pub media_series : Text
media_series = codes "series"

-- ReviewReason behind the test on the group.
unfoldable pub review_kind : (ℕ → ℕ) → Text → Text → Review
review_kind to_lower kind stable_kind =
    if is_empty kind
    then unknown_family
    else if not (is_empty stable_kind) && not (same to_lower stable_kind kind)
    then other_kind
    else other_group

-- ReviewReason
unfoldable pub review_reason :
    (ℕ → ℕ) → (Text → TechnicalTraits) → Candidate → List Evidence → Review
review_reason to_lower technical c evidence =
    let continued = continued_group evidence c.episode.season in
    let traits = stable_traits evidence c.episode.season in
    if not (text_eq c.media_type media_series) || not (is_selected c)
    then no_review
    else if not continued.1 || same to_lower continued.0 c.release.group
    then no_review
    else review_kind to_lower (technical c.release.media_name).source_kind traits.source_kind.value
