-- ===== src/Release.antt =====
-- internal/release/release.go: one observed release, and the time of Go's time package. Of the
-- struct only the field Differences, which the modelled code never reads, is left out; Parsed has the
-- same facts as Components.
use aninode.Prelude.{Bool, ◌&&◌, ◌==◌, ℕ, ℤ, pos, ltb_ℤ, eqb_ℤ, Text, ◌||◌, codes, if◌then◌else◌}
use aninode.MediaName.{Components, reliable_episode_evidence}

-- time.Time: the instant, and the *Location that the value carries. time.Parse allocates a new
-- Location for an offset that is neither UTC nor local.
pub record Time : Type 0 where
  pub instant : ℤ
  pub location : ℕ

-- a == b, which compares the instants and the pointers
unfoldable pub time_eq : Time → Time → Bool
time_eq a b = eqb_ℤ a.instant b.instant && a.location == b.location

-- a.After(b)
unfoldable pub after : Time → Time → Bool
after a b = ltb_ℤ b.instant a.instant

pub record Release : Type 0 where
  pub media_type : Text
  pub provider : Text
  pub title : Text
  pub normalized_title : Text
  pub media_name : Text
  pub name_source : Text
  pub info_hash : Text
  pub components : Components
  pub guid : Text
  pub page_url : Text
  pub download_url : Text
  pub published_at : Time
  pub group : Text
  pub episode : Text
  pub resolution : Text
  pub subtitle : Text

-- InferMediaType
unfoldable pub infer_media_type : Components → Text
infer_media_type c =
    if c.season_explicit || ltb_ℤ (pos 0) c.season || reliable_episode_evidence c
    then codes "series"
    else codes "movie"
