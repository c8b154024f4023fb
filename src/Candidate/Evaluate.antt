-- ===== src/Candidate/Evaluate.antt =====
-- evaluate: the candidate that one release of an Entry makes. `to_lower` stands for the table of
-- unicode.ToLower and `identity` for release.AcquisitionIdentity, which parses URLs.
pub mod Verdict
use aninode.Prelude.{
  ℕ, Bool, true, false, not, ◌&&◌, ◌||◌, if◌then◌else◌, Text, text_eq, ℤ, pos, leb_ℤ, ltb_ℤ, eqb_ℤ,
  List, [], ◌∷◌, Option, none, some,
}
use aninode.Episode.{Key}
use aninode.Release.{Release}
use aninode.ReleaseFilter.{reject_reason, is_empty}
use aninode.Catalog.{Entry, Evidence, Target, project}
use aninode.Candidate.{
  Candidate, Identity, no_key, no_candidate, media_movie, selected, filtered, invalid, empty,
  filtered_by, no_episode_identity, unmapped_season, crosses_season, no_acquisition_identity,
}

-- c.Decision, c.Reason = DecisionInvalid, …
abbrev pub refuse : Candidate → aninode.Candidate.Reason → Candidate
refuse c why = record c { decision = invalid; reason = why }

-- end
abbrev pub last_episode : Release → ℤ
last_episode r =
    if ltb_ℤ r.components.episode_end r.components.episode_start
    then r.components.episode_start
    else r.components.episode_end

-- The test on the targets of the first and the last episode.
unfoldable pub crosses : Target → Target → Bool
crosses p q =
    leb_ℤ q.episode (pos 0)
    || not (eqb_ℤ q.season p.season)
    || (not (is_empty p.folder) && not (is_empty q.folder) && not (text_eq p.folder q.folder))

-- The assignments to the keys and to SourceFolder.
unfoldable pub with_keys : Entry → Release → Target → Target → Candidate → Candidate
with_keys w r p q c =
    let parsed = r.components.season in
    let source_season =
      if leb_ℤ parsed (pos 0) && not r.components.season_explicit then pos 1 else parsed in
    record c {
      source_episode = record {
        entry_key = w.key;
        season = source_season;
        episode_start = r.components.episode_start;
        episode_end = last_episode r;
        revision = r.components.version;
        special = eqb_ℤ source_season (pos 0);
      };
      episode = record {
        entry_key = w.key;
        season = p.season;
        episode_start = p.episode;
        episode_end = q.episode;
        revision = r.components.version;
        special = eqb_ℤ p.season (pos 0);
      };
      source_folder = if is_empty p.folder then q.folder else p.folder;
    }

-- The composite literal at the top. Its decision is set on every path.
unfoldable pub start_candidate : Entry → Text → Release → Candidate
start_candidate w source_id r = record no_candidate {
  media_type = w.media_type;
  entry_key = w.key;
  source_id = source_id;
  release = r;
}

module _ (to_lower : ℕ → ℕ) (identity : Release → Option Identity) where
  -- The end of the function.
  unfoldable pub finish : Candidate → Candidate
  finish c = elim (identity c.release) [
    | none ↦ refuse c no_acquisition_identity
    | some ident ↦ record c { acquisition = ident; decision = selected }
  ]

  -- From the projection of the last episode on.
  unfoldable pub evaluate_last : Entry → Release → List Evidence → Target → Candidate → Candidate
  evaluate_last w r evidence p c =
      elim (project w evidence r.components.season r.components.season_explicit (last_episode r)) [
        | none ↦ refuse c crosses_season
        | some q ↦ elim (crosses p q) [
          | true ↦ refuse c crosses_season
          | false ↦ finish (with_keys w r p q c)
        ]
      ]

  -- The branch for a series.
  unfoldable pub evaluate_series : Entry → Release → List Evidence → Candidate → Candidate
  evaluate_series w r evidence c = elim (leb_ℤ r.components.episode_start (pos 0)) [
    | true ↦ refuse c no_episode_identity
    | false ↦
        elim (project w evidence r.components.season r.components.season_explicit
          r.components.episode_start) [
            | none ↦ refuse c unmapped_season
            | some p ↦ elim (leb_ℤ p.episode (pos 0)) [
              | true ↦ refuse c unmapped_season
              | false ↦ evaluate_last w r evidence p c
            ]
          ]
  ]

  -- The branch for a movie.
  unfoldable pub evaluate_movie : Entry → Candidate → Candidate
  evaluate_movie w c = finish (record c {
    source_episode = record no_key { entry_key = w.key };
    episode = record no_key { entry_key = w.key };
  })

  -- evaluate
  unfoldable pub evaluate : Entry → Text → Release → List Evidence → Candidate
  evaluate w source_id r evidence =
      let c = start_candidate w source_id r in
      elim (reject_reason to_lower w.filters r.group r.resolution r.subtitle) [
        | some why ↦ record c { decision = filtered; reason = filtered_by why }
        | none ↦ elim (text_eq w.media_type media_movie) [
          | true ↦ evaluate_movie w c
          | false ↦ evaluate_series w r evidence c
        ]
      ]
