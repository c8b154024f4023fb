-- ===== src/Candidate/Score/Weight.antt =====
-- The group outweighs all other points of continuityScore.
use aninode.Prelude.{
  ℕ, ◌≡◌, Bool, true, false, not, Text, ℤ, pos, negsuc, ◌≤ℤ◌, ◌<ℤ◌, List, arith, int_laws,
}
use aninode.MediaName.{reliable_episode_evidence}
use aninode.ReleaseFilter.{is_empty, comparable}
use aninode.Catalog.{Evidence}
use aninode.Catalog.Stable.{stable_traits}
use aninode.Candidate.{Candidate}
use aninode.Candidate.Score.{
  TechnicalTraits, resolution_points, kind_points, points_if, switch_points, trait_points,
  continues_group, trait_score, continuity_score,
}

-- A number between two others.
abbrev Within : ℤ → ℤ → ℤ → Type 0
Within lo hi n = (lo ≤ℤ n) × (n ≤ℤ hi)

resolution_points-Within : (r : Text) → Within (pos 0) (pos 8) (resolution_points r)
unfolding resolution_points
resolution_points-Within r = ground arith

kind_points-Within : (k : Text) → Within (pos 0) (pos 12) (kind_points k)
unfolding kind_points
kind_points-Within k = ground arith

points_if-Within : (b : Bool) (n : ℕ) → Within (pos 0) (pos n) (points_if b n)
unfolding points_if
points_if-Within b n = ground arith

module _ (to_lower : ℕ → ℕ) where
  switch_points-Within :
      (trait value : Text) (equal absent other : ℤ)
      → pos 0 ≤ℤ equal
      → other ≤ℤ absent
      → absent ≤ℤ pos 0
      → Within other equal (switch_points to_lower trait value equal absent other)
  unfolding switch_points
  switch_points-Within trait value equal absent other h k l = ground arith

  trait_points-Within :
      (trait value : Text) (equal other : ℤ)
      → pos 0 ≤ℤ equal
      → other ≤ℤ pos 0
      → Within other equal (trait_points to_lower trait value equal other)
  unfolding trait_points
  trait_points-Within trait value equal other h k = ground arith

  trait_score-Within :
      (technical : Text → TechnicalTraits) (evidence : List Evidence) (c : Candidate)
      → Within (negsuc 77) (pos 485) (trait_score to_lower technical evidence c)
  unfolding trait_score
  trait_score-Within technical evidence c =
      let traits = stable_traits evidence c.episode.season in
      let tech = technical c.release.media_name in
      let a =
        switch_points-Within traits.resolution.value c.release.resolution (pos 160) (negsuc 24)
          (negsuc 39) (omega arith) (omega arith) (omega arith) in
      let b = resolution_points-Within (comparable to_lower c.release.resolution) in
      let d =
        switch_points-Within traits.subtitle.value c.release.subtitle (pos 70) (negsuc 9)
          (negsuc 19) (omega arith) (omega arith) (omega arith) in
      let e =
        trait_points-Within traits.source_kind.value tech.source_kind (pos 90) (pos 0) (omega arith)
          (omega arith) in
      let f =
        trait_points-Within traits.source.value tech.source (pos 35) (pos 0) (omega arith)
          (omega arith) in
      let g = points_if-Within (not (is_empty tech.source)) 10 in
      let h = kind_points-Within tech.source_kind in
      let i =
        trait_points-Within traits.video_codec.value tech.video_codec (pos 45) (negsuc 9)
          (omega arith) (omega arith) in
      let j = points_if-Within (not (is_empty tech.video_codec)) 5 in
      let k =
        trait_points-Within traits.bit_depth.value tech.bit_depth (pos 25) (negsuc 4) (omega arith)
          (omega arith) in
      let l =
        trait_points-Within traits.audio_codec.value tech.audio_codec (pos 15) (negsuc 2)
          (omega arith) (omega arith) in
      let m = points_if-Within (reliable_episode_evidence c.release.components) 10 in
      (omega int_laws, omega int_laws)

  -- A candidate of the group that the managed files show scores higher than any candidate of another
  -- group, whatever their other traits are.
  pub continuity_score-group :
      (technical : Text → TechnicalTraits) (evidence : List Evidence) (a b : Candidate)
      → continues_group to_lower evidence a ≡ true
      → continues_group to_lower evidence b ≡ false
      → continuity_score to_lower technical evidence b
        <ℤ continuity_score to_lower technical evidence a
  unfolding continuity_score points_if
  continuity_score-group technical evidence a b ha hb =
      let x = trait_score-Within technical evidence a in
      let y = trait_score-Within technical evidence b in rw (ha, hb) (omega int_laws)
