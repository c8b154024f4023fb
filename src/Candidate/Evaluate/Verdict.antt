-- ===== src/Candidate/Evaluate/Verdict.antt =====
-- What a candidate that evaluate selects carries.
use aninode.Prelude.{
  ℕ, ◌≡◌, refl, sym, ap, ◌∙◌, ◌⊎◌, inl, inr, true, false, Text, text_eq, pos, leb_ℤ, eqb_ℤ_iff,
  ◌<ℤ◌, List, Option, none, some, arith, Bool-cases, Option-cases,
}
use aninode.Release.{Release}
use aninode.ReleaseFilter.{reject_reason}
use aninode.Catalog.{Entry, Evidence, Target, project}
use aninode.Candidate.{Candidate, Identity, is_selected, is_movie, media_movie}
use aninode.Candidate.Evaluate.{
  last_episode, crosses, with_keys, finish, evaluate_last, evaluate_series, start_candidate,
  evaluate_movie, evaluate,
}

-- What a selected series candidate says of its episodes: the targets of its first and its last episode
-- lie in one season, at positive episodes, and the key runs from the one to the other.
abbrev pub SpansTargets : Entry → Release → List Evidence → Candidate → Type 0
SpansTargets w r evidence c =
    (p : Target) × (q : Target) × (project w evidence r.components.season
        r.components.season_explicit r.components.episode_start
      ≡ some p)
    × (project w evidence r.components.season r.components.season_explicit (last_episode r)
        ≡ some q)
    × (pos 0 <ℤ p.episode)
    × (pos 0 <ℤ q.episode)
    × (q.season ≡ p.season)
    × (c.episode.season ≡ p.season)
    × (c.episode.episode_start ≡ p.episode)
    × (c.episode.episode_end ≡ q.episode)

-- What every selected candidate carries.
pub record IsEligible (w : Entry) (r : Release) (c : Candidate) (ident : Option Identity)
    : Type 0 where
  pub of_entry : c.entry_key ≡ w.key
  pub key_of_entry : c.episode.entry_key ≡ w.key
  pub of_release : c.release ≡ r
  pub identified : ident ≡ some c.acquisition
  pub special_season : (c.episode.special ≡ true) → c.episode.season ≡ pos 0

module _ (to_lower : ℕ → ℕ) (identity : Release → Option Identity) where
  finish_lem :
      (c : Candidate)
      → is_selected (finish to_lower identity c) ≡ true
      → (ident : Identity) × (identity c.release ≡ some ident)
        × (finish to_lower identity c
            ≡ record c { acquisition = ident; decision = aninode.Candidate.selected })
  unfolding finish is_selected
  finish_lem c h = elim (Option-cases (identity c.release)) [
    | inl (ident, e) ↦ (ident, e, rw (e, finish))
    | inr e ↦ absurd (cc (rw (e, finish) at h))
  ]

  crosses_lem : (p q : Target) → crosses p q ≡ false → (pos 0 <ℤ q.episode) × (q.season ≡ p.season)
  unfolding crosses
  crosses_lem p q h = (ground arith, (eqb_ℤ_iff q.season p.season).0 (ground arith))

  evaluate_last_lem :
      (w : Entry) (r : Release) (evidence : List Evidence) (p : Target) (c : Candidate)
      → is_selected (evaluate_last to_lower identity w r evidence p c) ≡ true
      → (q : Target) × (project w evidence r.components.season r.components.season_explicit
            (last_episode r)
          ≡ some q)
        × (crosses p q ≡ false)
        × (is_selected (finish to_lower identity (with_keys w r p q c)) ≡ true)
        × (evaluate_last to_lower identity w r evidence p c
            ≡ finish to_lower identity (with_keys w r p q c))
  unfolding evaluate_last is_selected
  evaluate_last_lem w r evidence p c h =
      elim (Option-cases
        (project w evidence r.components.season r.components.season_explicit (last_episode r))) [
          | inr e ↦ absurd (cc (rw (e, evaluate_last) at h))
          | inl (q, e) ↦ elim (Bool-cases (crosses p q)) [
            | inl t ↦ absurd (cc (rw (e, t, evaluate_last) at h))
            | inr f ↦ (q, e, f, rw (e, f, evaluate_last) at h, rw (e, f, evaluate_last))
          ]
        ]

  -- The candidate that a series release ends with, where it is selected.
  finished_series :
      (w : Entry) (r : Release) (evidence : List Evidence) (p q : Target) (c : Candidate)
      → c.entry_key ≡ w.key
      → c.release ≡ r
      → project w evidence r.components.season r.components.season_explicit
          r.components.episode_start
        ≡ some p
      → pos 0 <ℤ p.episode
      → project w evidence r.components.season r.components.season_explicit (last_episode r)
        ≡ some q
      → crosses p q ≡ false
      → is_selected (finish to_lower identity (with_keys w r p q c)) ≡ true
      → IsEligible w r (finish to_lower identity (with_keys w r p q c)) (identity r)
        × SpansTargets w r evidence (finish to_lower identity (with_keys w r p q c))
  unfolding with_keys
  finished_series w r evidence p q c ew er hp low hq x s =
      let (ident, e, done) = finish_lem (with_keys w r p q c) s in
      let (positive, same) = crosses_lem p q x in
      rw done (
        record {
          of_entry = ew;
          key_of_entry = refl;
          of_release = er;
          identified = ap identity (sym er) ∙ e;
          special_season = (eqb_ℤ_iff p.season (pos 0)).0;
        },
        (p, q, hp, hq, low, positive, same, refl, refl, refl),
      )

  evaluate_series_lem :
      (w : Entry) (r : Release) (evidence : List Evidence) (c : Candidate)
      → c.entry_key ≡ w.key
      → c.release ≡ r
      → is_selected (evaluate_series to_lower identity w r evidence c) ≡ true
      → IsEligible w r (evaluate_series to_lower identity w r evidence c) (identity r)
        × SpansTargets w r evidence (evaluate_series to_lower identity w r evidence c)
  unfolding evaluate_series is_selected
  evaluate_series_lem w r evidence c ew er h =
      elim (Bool-cases (leb_ℤ r.components.episode_start (pos 0))) [
        | inl t ↦ absurd (cc (rw (t, evaluate_series) at h))
        | inr f ↦
            elim (Option-cases (
              project w evidence r.components.season r.components.season_explicit
                r.components.episode_start)) [
                  | inr e ↦ absurd (cc (rw (f, e, evaluate_series) at h))
                  | inl (p, hp) ↦ elim (Bool-cases (leb_ℤ p.episode (pos 0))) [
                    | inl t ↦ absurd (cc (rw (f, hp, t, evaluate_series) at h))
                    | inr high ↦
                        let (q, hq, x, s, same) =
                          evaluate_last_lem w r evidence p c
                            (rw (f, hp, high, evaluate_series) at h) in
                        let opened : evaluate_series to_lower identity w r evidence c
                            ≡ evaluate_last to_lower identity w r evidence p c =
                          rw (f, hp, high, evaluate_series) in
                        rw (opened ∙ same)
                          (finished_series w r evidence p q c ew er hp (ground arith) hq x s)
                  ]
                ]
      ]

  evaluate_movie_lem :
      (w : Entry) (r : Release) (c : Candidate)
      → c.entry_key ≡ w.key
      → c.release ≡ r
      → is_selected (evaluate_movie to_lower identity w c) ≡ true
      → IsEligible w r (evaluate_movie to_lower identity w c) (identity r)
  unfolding evaluate_movie
  evaluate_movie_lem w r c ew er h =
      let (ident, e, done) = finish_lem _ h in
      rw done (record {
        of_entry = ew;
        key_of_entry = refl;
        of_release = er;
        identified = ap identity (sym er) ∙ e;
        special_season = λ k. refl;
      })

  -- A release that evaluate makes a selected candidate of passes the filters of its Entry. The candidate
  -- and its episode key name that Entry, it carries the identity of the release, and it is special in
  -- season zero only. If the Entry is no movie, the first and the last episode of the release are both
  -- projected to positive episodes of one season, and the key runs from the one to the other.
  pub evaluate_lem :
      (w : Entry) (source_id : Text) (r : Release) (evidence : List Evidence)
      → is_selected (evaluate to_lower identity w source_id r evidence) ≡ true
      → (reject_reason to_lower w.filters r.group r.resolution r.subtitle ≡ none)
        × IsEligible w r (evaluate to_lower identity w source_id r evidence) (identity r)
        × ((text_eq w.media_type media_movie ≡ true)
            ⊎ SpansTargets w r evidence (evaluate to_lower identity w source_id r evidence))
  unfolding evaluate is_selected start_candidate
  evaluate_lem w source_id r evidence h =
      elim (Option-cases (reject_reason to_lower w.filters r.group r.resolution r.subtitle)) [
        | inl (why, e) ↦ absurd (cc (rw (e, evaluate) at h))
        | inr e ↦ elim (Bool-cases (text_eq w.media_type media_movie)) [
          | inl t ↦ (
            e,
            rw (e, t, evaluate)
                (evaluate_movie_lem w r (start_candidate w source_id r) refl refl
                  (rw (e, t, evaluate) at h)),
            inl t,
          )
          | inr f ↦
              let (eligible, spans) =
                evaluate_series_lem w r evidence (start_candidate w source_id r) refl refl
                  (rw (e, f, evaluate) at h) in
              let opened : evaluate to_lower identity w source_id r evidence
                  ≡ evaluate_series to_lower identity w r evidence (start_candidate w source_id r) =
                rw (e, f, evaluate) in
              (e, rw opened eligible, inr (rw opened spans))
        ]
      ]
