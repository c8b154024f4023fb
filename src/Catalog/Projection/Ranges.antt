-- ===== src/Catalog/Projection/Ranges.antt =====
-- The searches of ProjectObservedEpisode.
use aninode.Prelude.{
  ◌≡◌, refl, sym, ◌↔◌, ◌⊎◌, inl, inr, Bool, true, false, ◌&&◌, ◌||◌, if◌then◌else◌, ℤ, pos, leb_ℤ,
  ltb_ℤ, eqb_ℤ, eqb_ℤ_iff, ◌<ℤ◌, ◌≤ℤ◌, List, [], ◌∷◌, All, none, some, arith, Bool-cases,
}
use aninode.Catalog.{
  Evidence, sole, of_source_season, containing, Nearest, nearer, nearest, unambiguous, no_nearest,
}

-- `x` stands at a place where `P` holds, and `R` holds at all the other places.
abbrev pub IsOnly : {A : Type 0} → (P R : A → Type 0) → List A → A → Type 0
IsOnly P R [] x = ⊥
IsOnly P R (y ∷ ys) x = ((y ≡ x) × P y × All R ys) ⊎ (R y × IsOnly P R ys x)

abbrev pub IsOfSeason : ℤ → Evidence → Type 0
IsOfSeason parsed ev = (ev.source_season_known ≡ true) × (ev.source_season ≡ parsed)

abbrev pub IsContaining : ℤ → Evidence → Type 0
IsContaining episode ev =
    (pos 0 <ℤ ev.min_episode) × (ev.min_episode ≤ℤ episode) × (episode ≤ℤ ev.max_episode)

abbrev pub IsPreceding : ℤ → Evidence → Type 0
IsPreceding episode ev = (pos 0 <ℤ ev.max_episode) × (ev.max_episode <ℤ episode)

-- Where the range ends in front of the episode, it ends in front of `best`.
abbrev pub IsLower : ℤ → ℤ → Evidence → Type 0
IsLower episode best ev = IsPreceding episode ev → ev.max_episode <ℤ best

pub sole_iff : {A : Type 0} (xs : List A) (x : A) → (sole xs ≡ some x) ↔ (xs ≡ x ∷ [])
unfolding sole
sole_iff [] x = (λ h. absurd (cc h), λ h. absurd (cc h))
sole_iff (y ∷ []) x = (λ h. cc h, λ h. cc h)
sole_iff (y ∷ z ∷ xs) x = (λ h. absurd (cc h), λ h. absurd (cc h))

abbrev filter_by : {A : Type 0} → (A → Bool) → List A → List A
filter_by b [] = []
filter_by b (x ∷ xs) = let rest = filter_by b xs in if b x then x ∷ rest else rest

module _ {A : Type 0} (b : A → Bool) (P : A → Type 0) (iff : (x : A) → (b x ≡ true) ↔ P x) where
  filter_by-empty : (xs : List A) → filter_by b xs ≡ [] → All (λ x. ¬ P x) xs
  filter_by-empty [] h = tt
  filter_by-empty (x ∷ xs) h = elim (Bool-cases (b x)) [
    | inl t ↦ absurd (cc (rw t at h))
    | inr f ↦ (λ p. absurd (cc (f, (iff x).1 p)), filter_by-empty xs (rw f at h))
  ]

  empty-filter_by : (xs : List A) → All (λ x. ¬ P x) xs → filter_by b xs ≡ []
  empty-filter_by [] h = refl
  empty-filter_by (x ∷ xs) h = elim (Bool-cases (b x)) [
    | inl t ↦ absurd (h.0 ((iff x).0 t))
    | inr f ↦ rw f (empty-filter_by xs h.1)
  ]

  filter_by-IsOnly : (xs : List A) (x : A) → filter_by b xs ≡ x ∷ [] → IsOnly P (λ o. ¬ P o) xs x
  filter_by-IsOnly [] x h = absurd (cc h)
  filter_by-IsOnly (y ∷ ys) x h = elim (Bool-cases (b y)) [
    | inl t ↦
        let same : y ∷ filter_by b ys ≡ x ∷ [] = rw t at h in
        inl (cc same, (iff y).0 t, filter_by-empty ys (cc same))
    | inr f ↦ inr (λ p. absurd (cc (f, (iff y).1 p)), filter_by-IsOnly ys x (rw f at h))
  ]

  IsOnly-filter_by : (xs : List A) (x : A) → IsOnly P (λ o. ¬ P o) xs x → filter_by b xs ≡ x ∷ []
  IsOnly-filter_by [] x h = elim h [ ]
  IsOnly-filter_by (y ∷ ys) x (inl (e, p, rest)) =
      let t = (iff y).1 p in rw (t, empty-filter_by ys rest, e) refl
  IsOnly-filter_by (y ∷ ys) x (inr (n, h)) = elim (Bool-cases (b y)) [
    | inl t ↦ absurd (n ((iff y).0 t))
    | inr f ↦ rw f (IsOnly-filter_by ys x h)
  ]

  sole-filter_by_iff :
      (xs : List A) (x : A) → (sole (filter_by b xs) ≡ some x) ↔ IsOnly P (λ o. ¬ P o) xs x
  sole-filter_by_iff xs x = (
    λ h. filter_by-IsOnly xs x ((sole_iff (filter_by b xs) x).0 h),
    λ h. (sole_iff (filter_by b xs) x).1 (IsOnly-filter_by xs x h),
  )

of_source_season-filter_by :
    (parsed : ℤ) (evs : List Evidence)
    → of_source_season parsed evs
      ≡ filter_by (λ ev. ev.source_season_known && eqb_ℤ ev.source_season parsed) evs
unfolding of_source_season
of_source_season-filter_by parsed [] = refl
of_source_season-filter_by parsed (ev ∷ evs) = rw (of_source_season-filter_by parsed evs) refl

containing-filter_by :
    (episode : ℤ) (evs : List Evidence)
    → containing episode evs
      ≡ filter_by
          (λ ev.
            ltb_ℤ (pos 0) ev.min_episode
            && leb_ℤ ev.min_episode episode
            && leb_ℤ episode ev.max_episode)
          evs
unfolding containing
containing-filter_by episode [] = refl
containing-filter_by episode (ev ∷ evs) = rw (containing-filter_by episode evs) refl

season_test :
    (parsed : ℤ) (ev : Evidence)
    → ((ev.source_season_known && eqb_ℤ ev.source_season parsed) ≡ true) ↔ IsOfSeason parsed ev
season_test parsed ev = (
  λ t. (ground arith, (eqb_ℤ_iff ev.source_season parsed).0 (ground arith)),
  λ h. rw (h.0, (eqb_ℤ_iff ev.source_season parsed).1 h.1) refl,
)

pub of_source_season_iff :
    (parsed : ℤ) (evs : List Evidence) (ev : Evidence)
    → (sole (of_source_season parsed evs) ≡ some ev)
      ↔ IsOnly (IsOfSeason parsed) (λ o. ¬ IsOfSeason parsed o) evs ev
of_source_season_iff parsed evs ev =
    rw (of_source_season-filter_by parsed evs)
      (sole-filter_by_iff _ (IsOfSeason parsed) (season_test parsed) evs ev)

range_test :
    (episode : ℤ) (ev : Evidence)
    → ((ltb_ℤ (pos 0) ev.min_episode
          && leb_ℤ ev.min_episode episode
          && leb_ℤ episode ev.max_episode)
        ≡ true)
      ↔ IsContaining episode ev
range_test episode ev = (λ t. ground arith, λ h. ground arith)

pub containing_iff :
    (episode : ℤ) (evs : List Evidence) (ev : Evidence)
    → (sole (containing episode evs) ≡ some ev)
      ↔ IsOnly (IsContaining episode) (λ o. ¬ IsContaining episode o) evs ev
containing_iff episode evs ev =
    rw (containing-filter_by episode evs)
      (sole-filter_by_iff _ (IsContaining episode) (range_test episode) evs ev)

abbrev chosen_now : Evidence → Nearest
chosen_now ev = record { best = ev.max_episode; chosen = some ev; ambiguous = false }

-- What a round does.
nearer-cases :
    (episode : ℤ) (n : Nearest) (ev : Evidence)
    → (IsLower episode n.best ev × (nearer episode n ev ≡ n))
      ⊎ (IsPreceding episode ev
          × (((n.best <ℤ ev.max_episode) × (nearer episode n ev ≡ chosen_now ev))
              ⊎ ((ev.max_episode ≡ n.best)
                  × (nearer episode n ev ≡ record n { ambiguous = true }))))
unfolding nearer
nearer-cases episode n ev =
    elim (Bool-cases (leb_ℤ ev.max_episode (pos 0) || leb_ℤ episode ev.max_episode)) [
      | inl t ↦ inl (λ p. absurd (ground (arith, p)), rw (nearer, t) refl)
      | inr f ↦
          let before : IsPreceding episode ev = ground arith in
          elim (Bool-cases (ltb_ℤ n.best ev.max_episode)) [
            | inl t ↦ inr (before, inl (ground arith, rw (nearer, f, t) refl))
            | inr g ↦ elim (Bool-cases (eqb_ℤ ev.max_episode n.best)) [
              | inl t ↦ inr (before, inr ((eqb_ℤ_iff _ _).0 t, rw (nearer, f, g, t) refl))
              | inr k ↦ inl (λ p. ground arith, rw (nearer, f, g, k) refl)
            ]
          ]
    ]

-- The search that stands at `n` has found `ev` where the rest leads to it.
abbrev IsFound : ℤ → Nearest → List Evidence → Evidence → Type 0
IsFound episode n evs ev =
    ((unambiguous n ≡ some ev) × All (IsLower episode n.best) evs)
    ⊎ ((n.best <ℤ ev.max_episode)
        × IsOnly (IsPreceding episode) (IsLower episode ev.max_episode) evs ev)

unambiguous-chosen_now : (e ev : Evidence) → (unambiguous (chosen_now e) ≡ some ev) ↔ (e ≡ ev)
unfolding unambiguous
unambiguous-chosen_now e ev = (λ h. cc h, λ h. cc h)

unambiguous-mixed : (n : Nearest) → unambiguous (record n { ambiguous = true }) ≡ none
unfolding unambiguous
unambiguous-mixed n = refl

nearest-IsFound :
    (episode : ℤ) (n : Nearest) (evs : List Evidence) (ev : Evidence)
    → unambiguous (nearest episode n evs) ≡ some ev
    → IsFound episode n evs ev
unfolding nearest
nearest-IsFound episode n [] ev h = inl (h, tt)
nearest-IsFound episode n (e ∷ evs) ev h = elim (nearer-cases episode n e) [
  | inl (lower, q) ↦ elim (nearest-IsFound episode n evs ev (rw q at h)) [
    | inl (u, rest) ↦ inl (u, (lower, rest))
    | inr (more, only) ↦ inr (more, inr (λ p. let t = lower p in omega (arith, t, more), only))
  ]
  | inr (before, inl (more, q)) ↦ elim (nearest-IsFound episode (chosen_now e) evs ev (rw q at h)) [
    | inl (u, rest) ↦
        let same = (unambiguous-chosen_now e ev).0 u in
        inr (rw (sym same) more, inl (same, before, rw (sym same) rest))
    | inr (over, only) ↦ inr (omega (arith, more, over), inr (λ p. over, only))
  ]
  | inr (before, inr (same, q)) ↦
      elim (nearest-IsFound episode (record n { ambiguous = true }) evs ev (rw q at h)) [
        | inl (u, rest) ↦ absurd (cc (u, unambiguous-mixed n))
        | inr (over, only) ↦ inr (over, inr (λ p. rw same over, only))
      ]
]

IsFound-nearest :
    (episode : ℤ) (n : Nearest) (evs : List Evidence) (ev : Evidence)
    → IsFound episode n evs ev
    → unambiguous (nearest episode n evs) ≡ some ev
unfolding nearest
IsFound-nearest episode n [] ev (inl (u, rest)) = u
IsFound-nearest episode n [] ev (inr (more, only)) = elim only [ ]
IsFound-nearest episode n (e ∷ evs) ev h = elim (nearer-cases episode n e) [
  | inl (lower, q) ↦ rw q (
      IsFound-nearest episode n evs ev (elim h [
        | inl (u, rest) ↦ inl (u, rest.1)
        | inr (more, inl (same, before, rest)) ↦
            let t = lower before in
            let more' : n.best <ℤ e.max_episode = rw same more in absurd (omega (arith, t, more'))
        | inr (more, inr (r, only)) ↦ inr (more, only)
      ]))
  | inr (before, inl (more, q)) ↦ rw q (
      IsFound-nearest episode (chosen_now e) evs ev (elim h [
        | inl (u, rest) ↦ let t = rest.0 before in absurd (omega (arith, t, more))
        | inr (over, inl (same, before', rest)) ↦
            inl ((unambiguous-chosen_now e ev).1 same, rw same rest)
        | inr (over, inr (r, only)) ↦ inr (r before, only)
      ]))
  | inr (before, inr (same, q)) ↦ rw q (
      IsFound-nearest episode (record n { ambiguous = true }) evs ev
        (elim h [
          | inl (u, rest) ↦
              let t : n.best <ℤ n.best = rw same at (rest.0 before) in absurd (omega (arith, t))
          | inr (over, inl (is_ev, before', rest)) ↦
              let t : n.best <ℤ e.max_episode = rw is_ev over in
              let t' : n.best <ℤ n.best = rw same at t in absurd (omega (arith, t'))
          | inr (over, inr (r, only)) ↦ inr (over, only)
        ]))
]

positive-only :
    (episode : ℤ) (R : Evidence → Type 0) (evs : List Evidence) (ev : Evidence)
    → IsOnly (IsPreceding episode) R evs ev
    → pos 0 <ℤ ev.max_episode
positive-only episode R [] ev h = elim h [ ]
positive-only episode R (e ∷ evs) ev (inl (same, before, rest)) = rw (sym same) before.0
positive-only episode R (e ∷ evs) ev (inr (r, only)) = positive-only episode R evs ev only

pub nearest_iff :
    (episode : ℤ) (evs : List Evidence) (ev : Evidence)
    → (unambiguous (nearest episode no_nearest evs) ≡ some ev)
      ↔ IsOnly (IsPreceding episode) (IsLower episode ev.max_episode) evs ev
unfolding unambiguous
nearest_iff episode evs ev = (
  λ h. elim (nearest-IsFound episode no_nearest evs ev h) [
    | inl (u, rest) ↦ absurd (cc u)
    | inr (more, only) ↦ only
  ],
  λ h.
      let t = positive-only episode _ evs ev h in
      IsFound-nearest episode no_nearest evs ev (inr (omega (arith, t), h)),
)
