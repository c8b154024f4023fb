-- ===== src/Catalog/Projection.antt =====
-- Where ProjectObservedEpisode takes its answer from.
pub mod Ranges
use aninode.Prelude.{
  ◌≡◌, refl, sym, ◌∙◌, ◌↔◌, ◌⊎◌, inl, inr, Bool, true, false, ◌&&◌, ◌||◌, ℤ, pos, leb_ℤ, ltb_ℤ,
  eqb_ℤ, eqb_ℤ_iff, ◌<ℤ◌, ◌≤ℤ◌, List, [], ◌∷◌, Option, none, some, arith, Bool-cases, Option-cases,
  some-injective,
}
use aninode.Catalog.{
  Entry, Evidence, Target, sole, of_source_season, containing, nearest, unambiguous, by_evidence,
  as_parsed, project_without_range, project_seasonless, project, no_nearest,
}
use aninode.Catalog.Projection.Ranges.{
  IsOnly, IsOfSeason, IsContaining, IsPreceding, IsLower, sole_iff, of_source_season_iff,
  containing_iff, nearest_iff,
}

-- Whether the release names a season.
abbrev IsNamed : ℤ → Bool → Type 0
IsNamed parsed explicit = (pos 0 <ℤ parsed) ⊎ (explicit ≡ true)

module _ (w : Entry) (evidence : List Evidence) (parsed : ℤ) (explicit : Bool) (episode : ℤ) where
  -- The one folder with the season that the release names; the one whose range has the episode; the
  -- one whose range ends closest in front of it.
  abbrev IsOfName : Evidence → Type 0
  IsOfName ev = IsOnly (IsOfSeason parsed) (λ o. ¬ IsOfSeason parsed o) evidence ev

  abbrev IsAround : Evidence → Type 0
  IsAround ev = IsOnly (IsContaining episode) (λ o. ¬ IsContaining episode o) evidence ev

  abbrev IsBefore : Evidence → Type 0
  IsBefore ev = IsOnly (IsPreceding episode) (IsLower episode ev.max_episode) evidence ev

  -- What ProjectObservedEpisode is to answer for an episode from 1 on. A rule applies where those in
  -- front of it find nothing.
  pub data IsProjected : Target → Type 0 where
    of_name :
        (ev : Evidence)
        → IsNamed parsed explicit
        → IsOfName ev
        → IsProjected (by_evidence ev episode)
    of_none :
        IsNamed parsed explicit
        → ((ev : Evidence) → ¬ IsOfName ev)
        → IsProjected (as_parsed parsed episode)
    around :
        (ev : Evidence)
        → ¬ IsNamed parsed explicit
        → IsAround ev
        → IsProjected (by_evidence ev episode)
    in_front :
        (ev : Evidence)
        → ¬ IsNamed parsed explicit
        → ((o : Evidence) → ¬ IsAround o)
        → IsBefore ev
        → IsProjected (by_evidence ev episode)
    alone :
        (ev : Evidence)
        → ¬ IsNamed parsed explicit
        → ((o : Evidence) → ¬ IsAround o)
        → ((o : Evidence) → ¬ IsBefore o)
        → evidence ≡ ev ∷ []
        → IsProjected (by_evidence ev episode)
    of_entry :
        (season : ℤ)
        → ¬ IsNamed parsed explicit
        → ((o : Evidence) → ¬ IsAround o)
        → ((o : Evidence) → ¬ IsBefore o)
        → ((o : Evidence) → ¬ (evidence ≡ o ∷ []))
        → w.seasons ≡ season ∷ []
        → IsProjected (as_parsed season episode)

  nothing :
      {A : Type 0} {P : A → Type 0} (found : Option A)
      → ((a : A) → (found ≡ some a) ↔ P a)
      → found ≡ none
      → (a : A) → ¬ P a
  nothing found iff e a h = absurd (cc (e, (iff a).1 h))

  something :
      {A : Type 0} {P : A → Type 0} (found : Option A)
      → ((a : A) → (found ≡ some a) ↔ P a)
      → ((a : A) → ¬ P a)
      → found ≡ none
  something found iff h = elim (Option-cases found) [
    | inl (a, e) ↦ absurd (h a ((iff a).0 e))
    | inr e ↦ e
  ]

  named_test : IsNamed parsed explicit → (ltb_ℤ (pos 0) parsed || explicit) ≡ true
  named_test (inl h) = ground arith
  named_test (inr h) = ground arith

  unnamed_test : ¬ IsNamed parsed explicit → (ltb_ℤ (pos 0) parsed || explicit) ≡ false
  unnamed_test h = elim (Bool-cases (ltb_ℤ (pos 0) parsed || explicit)) [
    | inr f ↦ f
    | inl t ↦ elim (Bool-cases explicit) [
      | inl e ↦ absurd (h (inr e))
      | inr e ↦ absurd (h (inl (ground arith)))
    ]
  ]

  test-IsNamed : (ltb_ℤ (pos 0) parsed || explicit) ≡ true → IsNamed parsed explicit
  test-IsNamed t = elim (Bool-cases explicit) [ inl e ↦ inr e | inr e ↦ inl (ground arith) ]

  test-unnamed : (ltb_ℤ (pos 0) parsed || explicit) ≡ false → ¬ IsNamed parsed explicit
  test-unnamed f h = absurd (cc (f, named_test h))

  containing-IsAround :
      (ev : Evidence) → (sole (containing episode evidence) ≡ some ev) ↔ IsAround ev
  containing-IsAround ev = containing_iff episode evidence ev

  nearest-IsBefore :
      (ev : Evidence) → (unambiguous (nearest episode no_nearest evidence) ≡ some ev) ↔ IsBefore ev
  nearest-IsBefore ev = nearest_iff episode evidence ev

  without_range-IsProjected :
      (t : Target)
      → (ltb_ℤ (pos 0) parsed || explicit) ≡ false
      → ((o : Evidence) → ¬ IsAround o)
      → ((o : Evidence) → ¬ IsBefore o)
      → project_without_range w evidence parsed explicit episode ≡ some t
      → IsProjected t
  unfolding project_without_range
  without_range-IsProjected t u a b h = elim (Option-cases (sole evidence)) [
    | inl (ev, e) ↦
        let same = some-injective (rw (e, project_without_range) at h) in
        rw (sym same) (alone ev (test-unnamed u) a b ((sole_iff evidence ev).0 e))
    | inr e ↦ elim (Option-cases (sole w.seasons)) [
      | inl (season, k) ↦
          let same = some-injective (rw (e, u, k, project_without_range) at h) in
          rw (sym same) (
            of_entry season (test-unnamed u) a b (nothing (sole evidence) (sole_iff evidence) e)
              ((sole_iff w.seasons season).0 k))
      | inr k ↦ absurd (cc (rw (e, u, k, project_without_range) at h))
    ]
  ]

  seasonless-IsProjected :
      (t : Target)
      → (ltb_ℤ (pos 0) parsed || explicit) ≡ false
      → project_seasonless w evidence parsed explicit episode ≡ some t
      → IsProjected t
  unfolding project_seasonless
  seasonless-IsProjected t u h = elim (Option-cases (sole (containing episode evidence))) [
    | inl (ev, e) ↦
        let same = some-injective (rw (e, project_seasonless) at h) in
        rw (sym same) (around ev (test-unnamed u) ((containing-IsAround ev).0 e))
    | inr e ↦
        let none_around = nothing (sole (containing episode evidence)) containing-IsAround e in
        elim (Option-cases (unambiguous (nearest episode no_nearest evidence))) [
          | inl (ev, k) ↦
              let same = some-injective (rw (e, k, project_seasonless) at h) in
              rw (sym same) (in_front ev (test-unnamed u) none_around ((nearest-IsBefore ev).0 k))
          | inr k ↦
              without_range-IsProjected t u none_around
                (nothing (unambiguous (nearest episode no_nearest evidence)) nearest-IsBefore k)
                (rw (e, k, project_seasonless) at h)
        ]
  ]

  project-IsProjected :
      (t : Target)
      → leb_ℤ episode (pos 0) ≡ false
      → project w evidence parsed explicit episode ≡ some t
      → IsProjected t
  unfolding project
  project-IsProjected t high h = elim (Bool-cases (ltb_ℤ (pos 0) parsed || explicit)) [
    | inr u ↦ seasonless-IsProjected t u (rw (high, u, project) at h)
    | inl n ↦ elim (Option-cases (sole (of_source_season parsed evidence))) [
      | inl (ev, e) ↦
          let same = some-injective (rw (high, n, e, project) at h) in
          rw (sym same)
            (of_name ev (test-IsNamed n) ((of_source_season_iff parsed evidence ev).0 e))
      | inr e ↦
          let same = some-injective (rw (high, n, e, project) at h) in
          rw (sym same) (
            of_none (test-IsNamed n) (
              nothing (sole (of_source_season parsed evidence))
                (of_source_season_iff parsed evidence) e))
    ]
  ]

  unnamed_step :
      leb_ℤ episode (pos 0) ≡ false
      → ¬ IsNamed parsed explicit
      → project w evidence parsed explicit episode
        ≡ project_seasonless w evidence parsed explicit episode
  unfolding project
  unnamed_step high n = rw (high, unnamed_test n) refl

  unfound_step :
      ((o : Evidence) → ¬ IsAround o)
      → ((o : Evidence) → ¬ IsBefore o)
      → project_seasonless w evidence parsed explicit episode
        ≡ project_without_range w evidence parsed explicit episode
  unfolding project_seasonless
  unfound_step a b =
      let e = something (sole (containing episode evidence)) containing-IsAround a in
      let k = something (unambiguous (nearest episode no_nearest evidence)) nearest-IsBefore b in
      rw (project_seasonless, e, k) refl

  in_front_step :
      (ev : Evidence)
      → ((o : Evidence) → ¬ IsAround o)
      → IsBefore ev
      → project_seasonless w evidence parsed explicit episode ≡ some (by_evidence ev episode)
  unfolding project_seasonless
  in_front_step ev a h =
      let e = something (sole (containing episode evidence)) containing-IsAround a in
      rw (project_seasonless, e, (nearest-IsBefore ev).1 h) refl

  IsProjected-project :
      (t : Target)
      → leb_ℤ episode (pos 0) ≡ false
      → IsProjected t
      → project w evidence parsed explicit episode ≡ some t
  unfolding project project_seasonless project_without_range
  IsProjected-project _ high (of_name ev n h) =
      rw (high, named_test n, (of_source_season_iff parsed evidence ev).1 h) refl
  IsProjected-project _ high (of_none n h) =
      let e =
        something (sole (of_source_season parsed evidence)) (of_source_season_iff parsed evidence)
          h in
      rw (high, named_test n, e) refl
  IsProjected-project _ high (around ev n h) =
      unnamed_step high n ∙ rw (project_seasonless, (containing-IsAround ev).1 h) refl
  IsProjected-project _ high (in_front ev n a h) = unnamed_step high n ∙ in_front_step ev a h
  IsProjected-project _ high (alone ev n a b h) =
      unnamed_step high n
      ∙ unfound_step a b
      ∙ rw (project_without_range, (sole_iff evidence ev).1 h) refl
  IsProjected-project _ high (of_entry season n a b c h) =
      let m = something (sole evidence) (sole_iff evidence) c in
      unnamed_step high n
      ∙ unfound_step a b
      ∙ rw (project_without_range, m, unnamed_test n, (sole_iff w.seasons season).1 h) refl

  -- ProjectObservedEpisode answers a target just where the episode is above 0 and the first of
  -- these rules that applies gives it: for a release that names a season, the only piece of
  -- evidence with that known source season, or else the numbers of the release without a folder;
  -- for another, the only piece whose range has the episode; or else the only one whose range ends
  -- closest in front of the episode, above 0; or else the only piece there is; or else the only
  -- season of the Entry with the episode of the release and without a folder.
  pub project_iff :
      (t : Target)
      → (project w evidence parsed explicit episode ≡ some t) ↔ ((pos 0 <ℤ episode) × IsProjected t)
  unfolding project
  project_iff t = (
    λ h. elim (Bool-cases (leb_ℤ episode (pos 0))) [
      | inl low ↦ absurd (cc (rw (low, project) at h))
      | inr high ↦ (ground arith, project-IsProjected t high h)
    ],
    λ h. IsProjected-project t (ground arith) h.1,
  )
