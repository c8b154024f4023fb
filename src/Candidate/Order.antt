-- ===== src/Candidate/Order.antt =====
-- The order of preference on candidates and on sets of them, in selectBestByScore.
pub mod Total
use aninode.Prelude.{
  ℕ, Bool, true, false, not, if◌then◌else◌, ltb, ◌==◌, Text, text_eq, text_lt, ℤ, pos, ltb_ℤ, eqb_ℤ,
  List, [], ◌∷◌, Option, none, some, length, sort_stable,
}
use aninode.Release.{time_eq, after}
use aninode.Candidate.{Candidate, at}

-- configstore.ContentSource, less its feed and search settings.
pub record ContentSource : Type 0 where
  pub id : Text
  pub provider : Text
  pub enabled : Bool
  pub priority : ℤ

-- b.Sources[id].Priority, zero for a missing source
unfoldable pub priority_of : List (Text × ContentSource) → Text → ℤ
priority_of [] id = pos 0
priority_of ((k, s) ∷ m) id = if text_eq k id then s.priority else priority_of m id

module _ (sources : List (Text × ContentSource)) (score : Option (Candidate → ℤ)) where
  -- The part of `better` behind the score.
  unfoldable pub better_by_order : Candidate → Candidate → Bool
  better_by_order a bx =
      let pa = priority_of sources a.source_id in
      let pb = priority_of sources bx.source_id in
      if not (eqb_ℤ a.episode.revision bx.episode.revision)
      then ltb_ℤ bx.episode.revision a.episode.revision
      else if not (eqb_ℤ pa pb)
      then ltb_ℤ pa pb
      else if not (time_eq a.release.published_at bx.release.published_at)
      then after a.release.published_at bx.release.published_at
      else text_lt a.acquisition.id bx.acquisition.id

  -- better
  unfoldable pub better : Candidate → Candidate → Bool
  unfolding better_by_order
  better a bx = elim score [
    | none ↦ better_by_order a bx
    | some f ↦ if not (eqb_ℤ (f a) (f bx)) then ltb_ℤ (f bx) (f a) else better_by_order a bx
  ]

  module _ (cs : List Candidate) where
    -- The comparison that sorts aRanked and bRanked.
    unfoldable pub ranked_before : ℕ → ℕ → Bool
    ranked_before i j =
        if better (at cs i) (at cs j)
        then true
        else if better (at cs j) (at cs i)
        then false
        else ltb i j

    -- The loop over the ranked sets: the verdict at the first place where they differ.
    unfoldable pub first_difference : List ℕ → List ℕ → Option Bool
    first_difference (a ∷ as') (b ∷ bs) =
        let rest = first_difference as' bs in
        if a == b
        then rest
        else some (
            if better (at cs a) (at cs b)
            then true
            else if better (at cs b) (at cs a)
            then false
            else ltb a b)
    first_difference [] _ = none
    first_difference _ _ = none

    -- The part of betterSelection for equal coverage.
    unfoldable pub better_ranked : List ℕ → List ℕ → Bool
    unfolding ranked_before first_difference
    better_ranked a bx =
        elim (first_difference (sort_stable ranked_before a) (sort_stable ranked_before bx)) [
          | some verdict ↦ verdict
          | none ↦ if not (length a == length bx) then ltb (length a) (length bx) else false
        ]
