-- ===== src/Episode.antt =====
-- internal/episode/episode.go: the identity of an episode interval inside one Entry's season.
pub mod Interval
pub mod Naming
use aninode.Prelude.{
  Bool, true, false, not, ◌&&◌, ◌||◌, if◌then◌else◌, Text, text_eq, ℤ, pos, leb_ℤ, ltb_ℤ, eqb_ℤ,
  ◌+ℤ◌, ◌-ℤ◌, Option, none, some,
}
use aninode.MediaName.{Components}

pub record Key : Type 0 where
  pub entry_key : Text
  pub season : ℤ
  pub episode_start : ℤ
  pub episode_end : ℤ
  pub revision : ℤ
  pub special : Bool

-- FromRelease, on the components of the release. `none` is the error.
unfoldable pub from_release : Text → ℤ → Components → Option Key
from_release entry_key default_season c =
    if leb_ℤ c.episode_start (pos 0)
    then none
    else let unnamed = λ (s : ℤ). leb_ℤ s (pos 0) && not c.season_explicit in
      let season = if unnamed c.season then default_season else c.season in
      let season' = if unnamed season then pos 1 else season in
      some (record {
        entry_key = entry_key;
        season = season';
        episode_start = c.episode_start;
        episode_end = if leb_ℤ c.episode_end (pos 0) then c.episode_start else c.episode_end;
        revision = if leb_ℤ c.version (pos 0) then pos 1 else c.version;
        special = eqb_ℤ season' (pos 0);
      })

-- End
unfoldable pub end_of : Key → ℤ
end_of k = if ltb_ℤ k.episode_end k.episode_start then k.episode_start else k.episode_end

-- Contains
unfoldable pub contains : Key → ℤ → Bool
contains k episode =
    ltb_ℤ (pos 0) k.episode_start && leb_ℤ k.episode_start episode && leb_ℤ episode (end_of k)

-- The slot tests that Overlaps and Covers begin with.
unfoldable pub same_slot : Key → Key → Bool
same_slot k other =
    text_eq k.entry_key other.entry_key
    && eqb_ℤ k.season other.season
    && (if k.special then other.special else not other.special)

-- Overlaps
unfoldable pub overlaps : Key → Key → Bool
overlaps k other =
    if not (same_slot k other)
    then false
    else if leb_ℤ k.episode_start (pos 0) || leb_ℤ other.episode_start (pos 0)
    then false
    else leb_ℤ k.episode_start (end_of other) && leb_ℤ other.episode_start (end_of k)

-- Covers
unfoldable pub covers : Key → Key → Bool
covers k other =
    if not (same_slot k other)
    then false
    else ltb_ℤ (pos 0) other.episode_start
      && contains k other.episode_start
      && contains k (end_of other)

-- Width
unfoldable pub width : Key → ℤ
width k = if leb_ℤ k.episode_start (pos 0) then pos 0 else end_of k -ℤ k.episode_start +ℤ pos 1
