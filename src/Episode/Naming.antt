-- ===== src/Episode/Naming.antt =====
-- What the key of a release says about its components.
use aninode.Prelude.{true, false, ◌≡◌, ◌↔◌, ℤ, pos, ◌≤ℤ◌, ◌<ℤ◌, arith, none, some, Text, eqb_ℤ_iff}
use aninode.MediaName.{Components}
use aninode.Episode.{Key, from_release, contains}
use aninode.Episode.Interval.{contains_iff, start-le-end_of}

-- FromRelease fails exactly when the release names no positive episode.
pub from_release-none_iff :
    (entry_key : Text) (default_season : ℤ) (c : Components)
    → (from_release entry_key default_season c ≡ none) ↔ (c.episode_start ≤ℤ pos 0)
unfolding from_release
from_release-none_iff entry_key default_season c = ground arith

-- A key made from a release starts at the episode of the release, contains it, has a positive
-- revision, is special exactly in season zero, keeps a season that the name states, and has a
-- positive one otherwise.
pub from_release_lem :
    (entry_key : Text) (default_season : ℤ) (c : Components) (k : Key)
    → from_release entry_key default_season c ≡ some k
    → (k.episode_start ≡ c.episode_start)
      × (contains k c.episode_start ≡ true)
      × (pos 0 <ℤ k.revision)
      × ((k.special ≡ true) ↔ (k.season ≡ pos 0))
      × (c.season_explicit ≡ true → k.season ≡ c.season)
      × (c.season_explicit ≡ false → pos 0 <ℤ k.season)
unfolding from_release
from_release_lem entry_key default_season c k h = (
  ground arith,
  (contains_iff k c.episode_start).1
      (ground arith, ground arith, ground (arith, start-le-end_of k)),
  ground arith,
  ground (arith, eqb_ℤ_iff k.season (pos 0)),
  ground arith,
  ground arith,
)
