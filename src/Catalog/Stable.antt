-- ===== src/Catalog/Stable.antt =====
-- StableObservedGroup, StableObservedGroupAny, StableObservedReleaseTraits and Comparable: what the
-- managed files agree on.
use aninode.Prelude.{
  ℕ, ◌+◌, ◌≡◌, sym, ap, ◌∙◌, ◌⊎◌, inl, inr, Bool, true, false, not, ◌&&◌, ◌||◌, if◌then◌else◌, Text,
  text_eq, text_eq_iff, leb, ltb, ℤ, pos, leb_ℤ, eqb_ℤ, eqb_ℤ_iff, ◌+ℤ◌, List, [], ◌∷◌, All,
  All-map, arith, Bool-cases,
}
use aninode.ReleaseFilter.{is_empty, trim_space}
use aninode.Catalog.{Entry, Evidence}

-- r += 32 for an upper-case letter
abbrev lower_letter : ℕ → ℕ
lower_letter r = if leb b'A' r && leb r b'Z' then r + 32 else r

-- The runes that strings.Map keeps.
abbrev is_kept : ℕ → Bool
is_kept r = (leb b'a' r && leb r b'z') || (leb b'0' r && leb r b'9') || ltb 127 r

-- Comparable
unfoldable pub comparable_key : Text → Text
comparable_key [] = []
comparable_key (r ∷ v) =
    let rest = comparable_key v in if is_kept (lower_letter r) then lower_letter r ∷ rest else rest

-- The loop of both functions, where `skips` is the test on the season.
unfoldable pub stable_group : (Evidence → Bool) → Text → ℤ → List Evidence → Text × Bool
stable_group skips group count [] = (group, leb_ℤ (pos 2) count)
stable_group skips group count (ev ∷ evs) = elim (skips ev || is_empty ev.stable_group) [
  | true ↦ stable_group skips group count evs
  | false ↦ elim (is_empty group) [
    | true ↦ stable_group skips ev.stable_group (count +ℤ ev.stable_group_n) evs
    | false ↦ elim (text_eq (comparable_key group) (comparable_key ev.stable_group)) [
      | true ↦ stable_group skips group (count +ℤ ev.stable_group_n) evs
      | false ↦ ([], false)
    ]
  ]
]

-- StableObservedGroup
unfoldable pub stable_observed_group : List Evidence → ℤ → Text × Bool
stable_observed_group evidence target_season =
    stable_group (λ ev. not (eqb_ℤ ev.target_season target_season)) [] (pos 0) evidence

-- StableObservedGroupAny
unfoldable pub stable_observed_group_any : List Evidence → Text × Bool
stable_observed_group_any evidence = stable_group (λ ev. false) [] (pos 0) evidence

-- A field of ObservedReleaseTraits, and whether `conflict` names it.
pub record Trait : Type 0 where
  pub value : Text
  pub conflict : Bool

abbrev no_trait : Trait
no_trait = record { value = []; conflict = false }

-- The test with which merge returns at once.
abbrev ignores : Trait → Text → Bool
ignores t value = is_empty (trim_space value) || t.conflict

-- merge
unfoldable pub merge_trait : Trait → Text → Trait
merge_trait t value =
    let trimmed = trim_space value in
    if ignores t value
    then t
    else if is_empty t.value
    then record t { value = trimmed }
    else if not (text_eq (comparable_key t.value) (comparable_key trimmed))
    then record { value = []; conflict = true }
    else t

-- out, conflict and found
pub record Traits : Type 0 where
  pub resolution : Trait
  pub subtitle : Trait
  pub source : Trait
  pub source_kind : Trait
  pub video_codec : Trait
  pub bit_depth : Trait
  pub audio_codec : Trait
  pub found : Bool

abbrev no_traits : Traits
no_traits = record {
  resolution = no_trait;
  subtitle = no_trait;
  source = no_trait;
  source_kind = no_trait;
  video_codec = no_trait;
  bit_depth = no_trait;
  audio_codec = no_trait;
  found = false;
}

-- One round of the loop of collect.
unfoldable pub merge_evidence : Traits → Evidence → Traits
merge_evidence out ev = record {
  resolution = merge_trait out.resolution ev.stable_resolution;
  subtitle = merge_trait out.subtitle ev.stable_subtitle;
  source = merge_trait out.source ev.stable_source;
  source_kind = merge_trait out.source_kind ev.stable_source_kind;
  video_codec = merge_trait out.video_codec ev.stable_video_codec;
  bit_depth = merge_trait out.bit_depth ev.stable_bit_depth;
  audio_codec = merge_trait out.audio_codec ev.stable_audio_codec;
  found =
      out.found
      || not (ignores out.resolution ev.stable_resolution)
      || not (ignores out.subtitle ev.stable_subtitle)
      || not (ignores out.source ev.stable_source)
      || not (ignores out.source_kind ev.stable_source_kind)
      || not (ignores out.video_codec ev.stable_video_codec)
      || not (ignores out.bit_depth ev.stable_bit_depth)
      || not (ignores out.audio_codec ev.stable_audio_codec);
}

-- collect
unfoldable pub collect : Bool → ℤ → Traits → List Evidence → Traits
collect any_season target_season out [] = out
collect any_season target_season out (ev ∷ evs) =
    collect any_season target_season
      (if not any_season && not (eqb_ℤ ev.target_season target_season)
        then out
        else merge_evidence out ev)
      evs

-- StableObservedReleaseTraits
unfoldable pub stable_traits : List Evidence → ℤ → Traits
stable_traits evidence target_season =
    let traits = collect false target_season no_traits evidence in
    if traits.found then traits else collect true target_season no_traits evidence

-- EffectiveSources
unfoldable pub effective_sources : Entry → List Text → List Text
effective_sources w enabled = elim w.sources [ [] ↦ enabled | s ∷ ss ↦ s ∷ ss ]

-- Evidence that the loop counts says the same group, up to letter case and punctuation.
abbrev pub Agrees : (Evidence → Bool) → Text → Evidence → Type 0
Agrees skips group ev =
    skips ev ≡ false
    → is_empty ev.stable_group ≡ false
    → comparable_key group ≡ comparable_key ev.stable_group

stable_group_lem :
    (skips : Evidence → Bool) (group : Text) (count : ℤ) (evs : List Evidence) (g : Text)
    → stable_group skips group count evs ≡ (g, true)
    → ((is_empty group ≡ true) ⊎ (g ≡ group)) × All (Agrees skips g) evs
unfolding stable_group
stable_group_lem skips group count [] g h = (inr (sym (ap (λ r. r.0) h)), tt)
stable_group_lem skips group count (ev ∷ evs) g h =
    elim (Bool-cases (skips ev || is_empty ev.stable_group)) [
      | inl t ↦
          let (start, rest) =
            stable_group_lem skips group count evs g (rw (t, stable_group) at h) in
          (start, (λ a b. absurd (ground arith), rest))
      | inr f ↦ elim (Bool-cases (is_empty group)) [
        | inl e ↦
            let (start, rest) =
              stable_group_lem skips ev.stable_group (count +ℤ ev.stable_group_n) evs g
                (rw (f, e, stable_group) at h) in
            (
              inl e,
              (
                λ a b. elim start [
                  | inl none_there ↦ absurd (cc (b, none_there))
                  | inr same ↦ ap comparable_key same
                ],
                rest,
              ),
            )
        | inr n ↦
            elim (Bool-cases (text_eq (comparable_key group) (comparable_key ev.stable_group))) [
              | inl same ↦
                  let (start, rest) =
                    stable_group_lem skips group (count +ℤ ev.stable_group_n) evs g
                      (rw (f, n, same, stable_group) at h) in
                  elim start [
                    | inl none_there ↦ absurd (cc (n, none_there))
                    | inr is_group ↦ (
                      inr is_group,
                      (
                        λ a b.
                            ap comparable_key is_group
                            ∙ (text_eq_iff (comparable_key group)
                                  (comparable_key ev.stable_group)).0
                                same,
                        rest,
                      ),
                    )
                  ]
              | inr differ ↦ absurd (cc (ap (λ r. r.1) (rw (f, n, differ, stable_group) at h)))
            ]
      ]
    ]

-- A group that StableObservedGroup reports as stable is the one that every piece of the evidence for the
-- season names, as far as it names one, up to letter case and punctuation.
pub stable_observed_group_lem :
    (evidence : List Evidence) (target_season : ℤ) (g : Text)
    → stable_observed_group evidence target_season ≡ (g, true)
    → All
        (λ ev.
          ev.target_season ≡ target_season
          → is_empty ev.stable_group ≡ false
          → comparable_key g ≡ comparable_key ev.stable_group)
        evidence
unfolding stable_observed_group
stable_observed_group_lem evidence target_season g h =
    All-map (Agrees (λ ev. not (eqb_ℤ ev.target_season target_season)) g) _ evidence
      (λ ev agrees same filled.
        agrees (ground (arith, eqb_ℤ_iff ev.target_season target_season)) filled)
      (stable_group_lem (λ ev. not (eqb_ℤ ev.target_season target_season)) [] (pos 0) evidence g
        h).1
