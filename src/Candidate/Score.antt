-- ===== src/Candidate/Score.antt =====
-- continuityScore: how well a candidate continues what the managed files show. `to_lower` stands for the
-- table of unicode.ToLower and `technical` for medianame.TechnicalTraitsOf (regular expressions).
pub mod Weight
use aninode.Prelude.{
  ℕ, Bool, true, false, not, ◌&&◌, if◌then◌else◌, Text, text_eq, codes, ℤ, pos, negsuc, ◌+ℤ◌, List,
}
use aninode.MediaName.{reliable_episode_evidence}
use aninode.ReleaseFilter.{is_empty, trim_space, comparable, same}
use aninode.Catalog.{Evidence}
use aninode.Catalog.Stable.{Traits, stable_observed_group, stable_observed_group_any, stable_traits}
use aninode.Candidate.{Candidate}

-- medianame.TechnicalTraits
pub record TechnicalTraits : Type 0 where
  pub source : Text
  pub source_kind : Text
  pub video_codec : Text
  pub bit_depth : Text
  pub audio_codec : Text

-- The group that is stable in the season, or else in all seasons.
unfoldable pub continued_group : List Evidence → ℤ → Text × Bool
continued_group evidence season =
    let in_season = stable_observed_group evidence season in
    if in_season.1 then in_season else stable_observed_group_any evidence

-- The points of a resolution, whatever the traits are.
unfoldable pub resolution_points : Text → ℤ
resolution_points r =
    if text_eq r (codes "2160p")
    then pos 8
    else if text_eq r (codes "1080p")
    then pos 6
    else if text_eq r (codes "720p")
    then pos 4
    else if text_eq r (codes "480p")
    then pos 2
    else pos 0

unfoldable pub kind_points : Text → ℤ
kind_points k =
    if text_eq k (codes "web")
    then pos 12
    else if text_eq k (codes "disc")
    then pos 8
    else if text_eq k (codes "broadcast")
    then pos 4
    else pos 0

-- if b { score += n }
unfoldable pub points_if : Bool → ℕ → ℤ
points_if b n = if b then pos n else pos 0

module _ (to_lower : ℕ → ℕ) where
  -- The two switches on a trait: the points for the same value, for none, and for another.
  unfoldable pub switch_points : Text → Text → ℤ → ℤ → ℤ → ℤ
  switch_points trait value equal absent other =
      if is_empty trait
      then pos 0
      else if same to_lower trait value
      then equal
      else if is_empty (trim_space value)
      then absent
      else other

  -- The tests on a technical trait: the points for the same value, and for another.
  unfoldable pub trait_points : Text → Text → ℤ → ℤ → ℤ
  trait_points trait value equal other =
      if is_empty trait
      then pos 0
      else if same to_lower trait value
      then equal
      else if not (is_empty value)
      then other
      else pos 0

  -- The group of the candidate is the one that the managed files show.
  unfoldable pub continues_group : List Evidence → Candidate → Bool
  continues_group evidence c =
      let continued = continued_group evidence c.episode.season in
      continued.1 && same to_lower continued.0 c.release.group

  -- The points behind those for the group.
  unfoldable pub trait_score : (Text → TechnicalTraits) → List Evidence → Candidate → ℤ
  trait_score technical evidence c =
      let traits = stable_traits evidence c.episode.season in
      let tech = technical c.release.media_name in
      switch_points traits.resolution.value c.release.resolution (pos 160) (negsuc 24) (negsuc 39)
      +ℤ resolution_points (comparable to_lower c.release.resolution)
      +ℤ switch_points traits.subtitle.value c.release.subtitle (pos 70) (negsuc 9) (negsuc 19)
      +ℤ trait_points traits.source_kind.value tech.source_kind (pos 90) (pos 0)
      +ℤ trait_points traits.source.value tech.source (pos 35) (pos 0)
      +ℤ points_if (not (is_empty tech.source)) 10
      +ℤ kind_points tech.source_kind
      +ℤ trait_points traits.video_codec.value tech.video_codec (pos 45) (negsuc 9)
      +ℤ points_if (not (is_empty tech.video_codec)) 5
      +ℤ trait_points traits.bit_depth.value tech.bit_depth (pos 25) (negsuc 4)
      +ℤ trait_points traits.audio_codec.value tech.audio_codec (pos 15) (negsuc 2)
      +ℤ points_if (reliable_episode_evidence c.release.components) 10

  -- continuityScore
  unfoldable pub continuity_score : (Text → TechnicalTraits) → List Evidence → Candidate → ℤ
  continuity_score technical evidence c =
      points_if (continues_group evidence c) 1000 +ℤ trait_score technical evidence c
