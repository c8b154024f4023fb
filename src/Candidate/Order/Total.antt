-- ===== src/Candidate/Order/Total.antt =====
-- `better` orders candidates strictly, and totally among publication times that carry one location.
use aninode.Prelude.{
  true, false, Bool, ◌≡◌, ◌≢◌, refl, inl, inr, List, Text, Option, none, some, ℤ, arith, Bool-cases,
  text_lt, text_lt_irrefl, text_lt_trans, text_lt_total, eqb_ℤ_iff,
}
use aninode.Release.{time_eq, after}
use aninode.Candidate.{Candidate}
use aninode.Candidate.Order.{ContentSource, priority_of, better_by_order, better}

-- The publication times of two candidates carry the same location.
abbrev pub SameLocation : Candidate → Candidate → Type 0
SameLocation a bx = a.release.published_at.location ≡ bx.release.published_at.location

otherwise : (b : Bool) → ¬ (b ≡ false) → b ≡ true
otherwise true h = refl
otherwise false h = absurd (h refl)

text_lt_asym : (s t : Text) → text_lt s t ≡ true → text_lt t s ≡ false
text_lt_asym s t h = elim (Bool-cases (text_lt t s)) [
  | inl k ↦ cc (text_lt_trans s t s h k, text_lt_irrefl s)
  | inr f ↦ f
]

module _ (sources : List (Text × ContentSource)) (score : Option (Candidate → ℤ))
    (a bx : Candidate) where
  by_order_asym :
      better_by_order sources score a bx ≡ true → better_by_order sources score bx a ≡ false
  unfolding better_by_order time_eq after
  by_order_asym h = ground (arith, text_lt_asym a.acquisition.id bx.acquisition.id)

  by_order_total :
      SameLocation a bx
      → better_by_order sources score a bx ≡ false
      → better_by_order sources score bx a ≡ false
      → a.acquisition.id ≡ bx.acquisition.id
  unfolding better_by_order time_eq after
  by_order_total l h k = ground (arith, text_lt_total a.acquisition.id bx.acquisition.id)

  by_order_tie :
      a.release.published_at.location ≢ bx.release.published_at.location
      → a.release.published_at.instant ≡ bx.release.published_at.instant
      → a.episode.revision ≡ bx.episode.revision
      → priority_of sources a.source_id ≡ priority_of sources bx.source_id
      → (better_by_order sources score a bx ≡ false) × (better_by_order sources score bx a ≡ false)
  unfolding better_by_order time_eq after
  by_order_tie l i r p = ground arith

module _ (sources : List (Text × ContentSource)) where
  -- Of two candidates at most one is better than the other, and if their publication times carry one
  -- location and their acquisition ids differ, exactly one is.
  pub better_asym_total :
      (score : Option (Candidate → ℤ)) (a bx : Candidate)
      → (better sources score a bx ≡ true → better sources score bx a ≡ false)
        × (SameLocation a bx
            → a.acquisition.id ≢ bx.acquisition.id
            → better sources score a bx ≡ false
            → better sources score bx a ≡ true)
  unfolding better
  better_asym_total none a bx = (
    by_order_asym sources none a bx,
    λ l n h.
        otherwise (better_by_order sources none bx a)
          (λ k. n (by_order_total sources none a bx l h k)),
  )
  better_asym_total (some f) a bx = (
    λ h. ground (
      arith,
      by_order_asym sources (some f) a bx,
      eqb_ℤ_iff (f a) (f bx),
      eqb_ℤ_iff (f bx) (f a),
    ),
    λ l n h. otherwise _ (λ k. n (
        ground (
          arith,
          by_order_total sources (some f) a bx,
          eqb_ℤ_iff (f a) (f bx),
          eqb_ℤ_iff (f bx) (f a),
        ))),
  )

  -- Two candidates published at one instant, in two locations, tie whatever their acquisition ids are,
  -- if their scores, revisions and source priorities agree.
  pub better_tie :
      (f : Candidate → ℤ) (a bx : Candidate)
      → f a ≡ f bx
      → a.release.published_at.location ≢ bx.release.published_at.location
      → a.release.published_at.instant ≡ bx.release.published_at.instant
      → a.episode.revision ≡ bx.episode.revision
      → priority_of sources a.source_id ≡ priority_of sources bx.source_id
      → (better sources (some f) a bx ≡ false) × (better sources (some f) bx a ≡ false)
  unfolding better
  better_tie f a bx e l i r p =
      ground (arith, by_order_tie sources (some f) a bx, eqb_ℤ_iff (f a) (f bx))
