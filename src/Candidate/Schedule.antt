-- ===== src/Candidate/Schedule.antt =====
-- The dynamic programme of selectBestByScore: weighted interval scheduling over the sorted group.
pub mod Chains
pub mod Optimal
pub mod Subsets
pub mod Best
use aninode.Prelude.{
  ℕ, Bool, true, false, not, if◌then◌else◌, ℤ, pos, ltb_ℤ, eqb_ℤ, ◌+ℤ◌, List, [], ◌∷◌, ◌++◌, Text,
  Option, sort_stable,
}
use aninode.Episode.{Key, end_of, width}
use aninode.Candidate.{Candidate, at}
use aninode.Candidate.Order.{ContentSource, better, better_ranked}

pub record Selection : Type 0 where
  pub indexes : List ℕ
  pub coverage : ℤ

abbrev pub no_selection : Selection
no_selection = record { indexes = []; coverage = pos 0 }

-- The scan for `previous` and the read of dp[previous+1]. The candidates before `pos` and the
-- selections dp[0..pos] are held latest first, so that the scan walks both lists at once and ends
-- with dp[0].
unfoldable pub previous_selection : (ℕ → Key) → ℤ → List ℕ → List Selection → Selection
previous_selection ep start _ [] = no_selection
previous_selection ep start [] (s ∷ ss) = s
previous_selection ep start (j ∷ js) (s ∷ ss) =
    let earlier = previous_selection ep start js ss in
    if ltb_ℤ (end_of (ep j)) start then s else earlier

-- dp[pos]
unfoldable pub latest : List Selection → Selection
latest [] = no_selection
latest (s ∷ ss) = s

module _ (sources : List (Text × ContentSource)) (score : Option (Candidate → ℤ))
    (cs : List Candidate) where
  -- p.Candidates[i].Episode
  abbrev pub episode_at : ℕ → Key
  episode_at i = (at cs i).episode

  -- betterSelection
  unfoldable pub better_selection : Selection → Selection → Bool
  better_selection a bx =
      if not (eqb_ℤ a.coverage bx.coverage)
      then ltb_ℤ bx.coverage a.coverage
      else better_ranked sources score cs a.indexes bx.indexes

  -- One round: dp[pos+1] from the table for the candidates before.
  unfoldable pub next_selection : ℕ → List ℕ → List Selection → Selection
  next_selection i before table =
      let previous = previous_selection episode_at (episode_at i).episode_start before table in
      let include : Selection = record {
        indexes = previous.indexes ++ i ∷ [];
        coverage = previous.coverage +ℤ width (episode_at i);
      } in
      let exclude = latest table in if better_selection include exclude then include else exclude

  -- The loop over the sorted group, and dp[len(idx)].
  unfoldable pub schedule : List ℕ → List Selection → List ℕ → Selection
  schedule before table [] = latest table
  schedule before table (i ∷ is) = schedule (i ∷ before) (next_selection i before table ∷ table) is

  -- The comparison that sorts the group.
  unfoldable pub ends_before : ℕ → ℕ → Bool
  ends_before i j =
      let a = episode_at i in
      let bx = episode_at j in
      if not (eqb_ℤ (end_of a) (end_of bx))
      then ltb_ℤ (end_of a) (end_of bx)
      else if not (eqb_ℤ a.episode_start bx.episode_start)
      then ltb_ℤ a.episode_start bx.episode_start
      else better sources score (at cs i) (at cs j)

  unfoldable pub best_selection : List ℕ → Selection
  best_selection idx = schedule [] (no_selection ∷ []) (sort_stable ends_before idx)
