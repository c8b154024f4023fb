-- ===== src/ReleaseFilter/Decision.antt =====
-- Validate, Normalize, Equal and RejectReason together.
use aninode.Prelude.{
  ℕ, ◌≡◌, refl, sym, ap, ◌∙◌, ◌↔◌, ◌⊎◌, true, false, Text, List, [], ◌∷◌, All, In, inl, inr,
  Bool-cases, arith, none,
}
use aninode.ReleaseFilter.{
  Filters, Dimension, groups, resolutions, subtitles, comparable, same, holds, allows, normalize,
  normalize_values, equal_values, equal, validate_values, validate, reject_reason,
}
use aninode.ReleaseFilter.Values.{and-true, same_iff, allows-normalize_values, allows-equal_values}
use aninode.ReleaseFilter.Distinct.{
  normalize_values-Normal, validate_values-Normal, validate_values-AllFilled,
}

module _ (to_lower : ℕ → ℕ) where
  -- A dimension takes a value if it names none, or names one that is comparable to it.
  abbrev pub Takes : List Text → Text → Type 0
  Takes vs x = (vs ≡ []) ⊎ ((v : Text) × In v vs × (comparable to_lower v ≡ comparable to_lower x))

  holds_sound :
      (vs : List Text) (x : Text)
      → holds to_lower vs x ≡ true
      → (v : Text) × In v vs × (comparable to_lower v ≡ comparable to_lower x)
  unfolding holds
  holds_sound [] x h = cc
  holds_sound (v ∷ vs) x h = elim (Bool-cases (same to_lower v x)) [
    | inl e ↦ (v, inl refl, (same_iff to_lower v x).0 e)
    | inr n ↦ let (w, i, e) = holds_sound vs x (rw n at h) in (w, inr i, e)
  ]

  holds_complete :
      (vs : List Text) (v x : Text)
      → In v vs
      → comparable to_lower v ≡ comparable to_lower x
      → holds to_lower vs x ≡ true
  unfolding holds
  holds_complete [] v x i e = elim i [ ]
  holds_complete (w ∷ ws) v x (inl i) e =
      rw ((same_iff to_lower w x).1 (ap (comparable to_lower) (sym i) ∙ e))
  holds_complete (w ∷ ws) v x (inr i) e = let h = holds_complete ws v x i e in ground arith

  allows_iff : (vs : List Text) (x : Text) → (allows to_lower vs x ≡ true) ↔ Takes vs x
  unfolding allows
  allows_iff [] x = (λ h. inl refl, λ t. refl)
  allows_iff (v ∷ vs) x = (
    λ h. inr (holds_sound (v ∷ vs) x h),
    λ t. elim t [ inl e ↦ cc | inr (w, i, e) ↦ holds_complete (v ∷ vs) w x i e ],
  )

  reject_reason-tests :
      (f : Filters) (group resolution subtitle : Text)
      → (reject_reason to_lower f group resolution subtitle ≡ none) ↔ (
          (allows to_lower f.groups group ≡ true)
          × (allows to_lower f.resolutions resolution ≡ true)
          × (allows to_lower f.subtitles subtitle ≡ true))
  unfolding reject_reason
  reject_reason-tests f group resolution subtitle = (λ h. ground arith, λ h. ground arith)

  -- RejectReason accepts a release exactly if each of its three dimensions is taken: the filter
  -- names no value there, or one that is equal to the release's up to case and outer white space.
  pub reject_reason_iff :
      (f : Filters) (group resolution subtitle : Text)
      → (reject_reason to_lower f group resolution subtitle ≡ none)
        ↔ (Takes f.groups group × Takes f.resolutions resolution × Takes f.subtitles subtitle)
  reject_reason_iff f group resolution subtitle =
      let (there, back) = reject_reason-tests f group resolution subtitle in
      (
        λ h.
            let (g, r, s) = there h in
            (
              (allows_iff f.groups group).0 g,
              (allows_iff f.resolutions resolution).0 r,
              (allows_iff f.subtitles subtitle).0 s,
            ),
        λ (g, r, s). back (
          (allows_iff f.groups group).1 g,
          (allows_iff f.resolutions resolution).1 r,
          (allows_iff f.subtitles subtitle).1 s,
        ),
      )

  -- RejectReason depends on what the three dimensions allow only.
  reject_reason-allows :
      (f g : Filters) (group resolution subtitle : Text)
      → allows to_lower f.groups group ≡ allows to_lower g.groups group
      → allows to_lower f.resolutions resolution ≡ allows to_lower g.resolutions resolution
      → allows to_lower f.subtitles subtitle ≡ allows to_lower g.subtitles subtitle
      → reject_reason to_lower f group resolution subtitle
        ≡ reject_reason to_lower g group resolution subtitle
  unfolding reject_reason
  reject_reason-allows f g group resolution subtitle a b c = rw a (rw b (rw c))

  validate-parts :
      (f : Filters)
      → (validate to_lower f ≡ none) ↔ (
          (validate_values to_lower groups [] f.groups ≡ none)
          × (validate_values to_lower resolutions [] f.resolutions ≡ none)
          × (validate_values to_lower subtitles [] f.subtitles ≡ none))
  unfolding validate
  validate-parts f = (λ h. ground arith, λ h. ground arith)

  fresh : (vs : List Text) → All (λ v. holds to_lower [] v ≡ false) vs
  unfolding holds
  fresh [] = tt
  fresh (v ∷ vs) = (refl, fresh vs)

  -- Validate finds no fault in filters that Normalize returns.
  pub validate-normalize : (f : Filters) → validate to_lower (normalize to_lower f) ≡ none
  unfolding normalize
  validate-normalize f =
      (validate-parts (normalize to_lower f)).1
        (valid groups f.groups, valid resolutions f.resolutions, valid subtitles f.subtitles)
    where
      valid :
          (name : Dimension) (vs : List Text)
          → validate_values to_lower name [] (normalize_values to_lower vs) ≡ none
      valid name vs =
          validate_values-Normal to_lower name [] (normalize_values to_lower vs)
            (normalize_values-Normal to_lower vs) (fresh (normalize_values to_lower vs))

  -- Where Validate finds no fault in the filters, Normalize keeps every verdict of RejectReason.
  pub reject_reason-normalize :
      (f : Filters) (group resolution subtitle : Text)
      → validate to_lower f ≡ none
      → reject_reason to_lower (normalize to_lower f) group resolution subtitle
        ≡ reject_reason to_lower f group resolution subtitle
  unfolding normalize
  reject_reason-normalize f group resolution subtitle h =
      let (g, r, s) = (validate-parts f).0 h in
      reject_reason-allows (normalize to_lower f) f group resolution subtitle
        (allows-normalize_values to_lower f.groups group
          (validate_values-AllFilled to_lower groups [] f.groups g))
        (allows-normalize_values to_lower f.resolutions resolution
          (validate_values-AllFilled to_lower resolutions [] f.resolutions r))
        (allows-normalize_values to_lower f.subtitles subtitle
          (validate_values-AllFilled to_lower subtitles [] f.subtitles s))

  equal-normalize :
      (f g : Filters) (group resolution subtitle : Text)
      → equal to_lower f g ≡ true
      → reject_reason to_lower (normalize to_lower f) group resolution subtitle
        ≡ reject_reason to_lower (normalize to_lower g) group resolution subtitle
  unfolding equal
  equal-normalize f g group resolution subtitle h =
      let a = normalize to_lower f in
      let b = normalize to_lower g in
      let (both, three) = and-true _ (equal_values to_lower a.subtitles b.subtitles) h in
      let (one, two) = and-true _ (equal_values to_lower a.resolutions b.resolutions) both in
      reject_reason-allows a b group resolution subtitle
        (allows-equal_values to_lower a.groups b.groups group one)
        (allows-equal_values to_lower a.resolutions b.resolutions resolution two)
        (allows-equal_values to_lower a.subtitles b.subtitles subtitle three)

  -- Two filters in which Validate finds no fault and which Equal takes for the same give the same
  -- verdict, with the same reason, on every release.
  pub equal-reject_reason :
      (f g : Filters) (group resolution subtitle : Text)
      → validate to_lower f ≡ none
      → validate to_lower g ≡ none
      → equal to_lower f g ≡ true
      → reject_reason to_lower f group resolution subtitle
        ≡ reject_reason to_lower g group resolution subtitle
  equal-reject_reason f g group resolution subtitle hf hg e =
      sym (reject_reason-normalize f group resolution subtitle hf)
      ∙ equal-normalize f g group resolution subtitle e
      ∙ reject_reason-normalize g group resolution subtitle hg
