-- ===== src/Completeness.antt =====
-- internal/completeness/completeness.go: the episodes that a season lacks.
pub mod Gaps
pub mod Range
use aninode.Prelude.{
  Bool, true, false, not, ◌&&◌, ◌||◌, if◌then◌else◌, Text, ℤ, pos, leb_ℤ, ltb_ℤ, eqb_ℤ, rounds,
  List, [], ◌∷◌,
}
use aninode.Episode.{Key}
use aninode.Inventory.{Snapshot, season, missing_from}

-- The status strings of the package.
pub data Status : Type 0 where
  unknown continuous incomplete invalid complete : Status

pub record EpisodeRange : Type 0 where
  pub from : ℤ
  pub through : ℤ

pub record Bounds : Type 0 where
  pub first : ℤ
  pub last : ℤ

-- One round of the loop over si.Episodes.
unfoldable pub widen : Bounds → ℤ → Bounds
widen b ep = if leb_ℤ ep (pos 0) then b else record {
  first = if eqb_ℤ b.first (pos 0) || ltb_ℤ ep b.first then ep else b.first;
  last = if ltb_ℤ b.last ep then ep else b.last;
}

unfoldable pub observed_bounds : Bounds → List ℤ → Bounds
observed_bounds b [] = b
observed_bounds b (ep ∷ eps) = observed_bounds (widen b ep) eps

-- The tail of both functions: a list of missing episodes and its status.
judge : Status → List ℤ → List ℤ × Status
judge whole [] = ([], whole)
judge whole (m ∷ ms) = (m ∷ ms, incomplete)

-- The part of InternalGaps behind the loop.
unfoldable pub gaps_between : Bounds → List ℤ → List ℤ × Status
unfolding judge
gaps_between b episodes =
    if eqb_ℤ b.first (pos 0) || eqb_ℤ b.first b.last
    then ([], continuous)
    else judge continuous (missing_from (rounds b.first b.last) b.first episodes)

-- InternalGaps
unfoldable pub internal_gaps : Snapshot → Text → ℤ → List ℤ × Status
internal_gaps inv entry_key n =
    let si = season inv entry_key n in
    if not si.known
    then ([], unknown)
    else gaps_between (observed_bounds (record { first = pos 0; last = pos 0 }) si.episodes)
        si.episodes

-- MissingInRange
unfoldable pub missing_in_range : Snapshot → Text → ℤ → EpisodeRange → List ℤ × Status
unfolding judge
missing_in_range inv entry_key n r =
    if leb_ℤ r.from (pos 0) || ltb_ℤ r.through r.from
    then ([], invalid)
    else let si = season inv entry_key n in
      if not si.known
      then ([], unknown)
      else judge complete (missing_from (rounds r.from r.through) r.from si.episodes)

-- EpisodeKeys. The revision is the zero value.
unfoldable pub episode_keys : Text → ℤ → List ℤ → List Key
episode_keys entry_key n [] = []
episode_keys entry_key n (ep ∷ eps) =
    let rest = episode_keys entry_key n eps in
    if leb_ℤ ep (pos 0)
    then rest
    else record {
      entry_key = entry_key;
      season = n;
      episode_start = ep;
      episode_end = ep;
      revision = pos 0;
      special = eqb_ℤ n (pos 0);
    }
      ∷ rest
