-- ===== src/Catalog.antt =====
-- internal/catalog/catalog.go: a declared Entry, and the projection of an observed episode by the
-- evidence of the folders of its source. The scan of the folders that yields the evidence is not
-- modelled.
pub mod Projection
pub mod Stable
use aninode.Prelude.{
  Bool, true, false, not, ◌&&◌, ◌||◌, if◌then◌else◌, Text, ℤ, pos, negsuc, leb_ℤ, ltb_ℤ, eqb_ℤ,
  ◌+ℤ◌, List, [], ◌∷◌, Option, none, some, ℕ,
}
use aninode.ReleaseFilter.{Filters}

-- Entry, less the fields that the modelled code never reads.
pub record Entry : Type 0 where
  pub key : Text
  pub media_type : Text
  pub title : Text
  pub year : ℤ
  pub seasons : List ℤ
  pub enabled : Bool
  pub sources : List Text
  pub filters : Filters

-- FolderProjectionEvidence
pub record Evidence : Type 0 where
  pub folder : Text
  pub target_season : ℤ
  pub episode_offset : ℤ
  pub source_season : ℤ
  pub source_season_known : Bool
  pub min_episode : ℤ
  pub max_episode : ℤ
  pub episode_count : ℤ
  pub observed_groups : List Text
  pub observed_resolutions : List Text
  pub observed_subtitles : List Text
  pub stable_group : Text
  pub stable_group_n : ℤ
  pub stable_resolution : Text
  pub stable_subtitle : Text
  pub stable_source : Text
  pub stable_source_kind : Text
  pub stable_video_codec : Text
  pub stable_bit_depth : Text
  pub stable_audio_codec : Text

-- The results of ProjectObservedEpisode, where `ok` holds.
pub record Target : Type 0 where
  pub season : ℤ
  pub episode : ℤ
  pub folder : Text

-- if len(matches) == 1 { ev := matches[0] … }
unfoldable pub sole {ℓ} : {A : Type ℓ} → List A → Option A
sole [] = none
sole (x ∷ []) = some x
sole (x ∷ y ∷ xs) = none

-- The loop that fills `matches`.
unfoldable pub of_source_season : ℤ → List Evidence → List Evidence
of_source_season parsed [] = []
of_source_season parsed (ev ∷ evs) =
    let rest = of_source_season parsed evs in
    if ev.source_season_known && eqb_ℤ ev.source_season parsed then ev ∷ rest else rest

-- The loop that fills `containing`.
unfoldable pub containing : ℤ → List Evidence → List Evidence
containing episode [] = []
containing episode (ev ∷ evs) =
    let rest = containing episode evs in
    if ltb_ℤ (pos 0) ev.min_episode && leb_ℤ ev.min_episode episode && leb_ℤ episode ev.max_episode
    then ev ∷ rest
    else rest

-- best, chosen, ambiguous
pub record Nearest : Type 0 where
  pub best : ℤ
  pub chosen : Option Evidence
  pub ambiguous : Bool

abbrev pub no_nearest : Nearest
no_nearest = record { best = negsuc 0; chosen = none; ambiguous = false }

-- One round of the search for the nearest preceding range.
unfoldable pub nearer : ℤ → Nearest → Evidence → Nearest
nearer episode n ev =
    if leb_ℤ ev.max_episode (pos 0) || leb_ℤ episode ev.max_episode
    then n
    else if ltb_ℤ n.best ev.max_episode
    then record { best = ev.max_episode; chosen = some ev; ambiguous = false }
    else if eqb_ℤ ev.max_episode n.best
    then record n { ambiguous = true }
    else n

unfoldable pub nearest : ℤ → Nearest → List Evidence → Nearest
nearest episode n [] = n
nearest episode n (ev ∷ evs) = nearest episode (nearer episode n ev) evs

-- chosen, where it is not nil and not ambiguous
unfoldable pub unambiguous : Nearest → Option Evidence
unambiguous n = if n.ambiguous then none else n.chosen

abbrev pub by_evidence : Evidence → ℤ → Target
by_evidence ev episode = record {
  season = ev.target_season;
  episode = episode +ℤ ev.episode_offset;
  folder = ev.folder;
}

abbrev pub as_parsed : ℤ → ℤ → Target
as_parsed season episode = record { season = season; episode = episode; folder = [] }

-- The tail, where neither the containing nor the preceding range decides. The test on the parsed
-- season stands in the code too, though it cannot hold there.
unfoldable pub project_without_range : Entry → List Evidence → ℤ → Bool → ℤ → Option Target
project_without_range w evidence parsed explicit episode = elim (sole evidence) [
  | some ev ↦ some (by_evidence ev episode)
  | none ↦
      if ltb_ℤ (pos 0) parsed || explicit
      then some (as_parsed parsed episode)
      else elim (sole w.seasons) [ some season ↦ some (as_parsed season episode) | none ↦ none ]
]

-- The part for a release that names no season.
unfoldable pub project_seasonless : Entry → List Evidence → ℤ → Bool → ℤ → Option Target
project_seasonless w evidence parsed explicit episode = elim (sole (containing episode evidence)) [
  | some ev ↦ some (by_evidence ev episode)
  | none ↦ elim (unambiguous (nearest episode no_nearest evidence)) [
    | some ev ↦ some (by_evidence ev episode)
    | none ↦ project_without_range w evidence parsed explicit episode
  ]
]

-- ProjectObservedEpisode
unfoldable pub project : Entry → List Evidence → ℤ → Bool → ℤ → Option Target
project w evidence parsed explicit episode =
    if leb_ℤ episode (pos 0)
    then none
    else if ltb_ℤ (pos 0) parsed || explicit
    then elim (sole (of_source_season parsed evidence)) [
      | some ev ↦ some (by_evidence ev episode)
      | none ↦ some (as_parsed parsed episode)
    ]
    else project_seasonless w evidence parsed explicit episode
