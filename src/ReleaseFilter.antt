-- ===== src/ReleaseFilter.antt =====
-- internal/releasefilter/filter.go: user-declared release filters and option aggregation. A string
-- is a list of code points; `to_lower` stands for the table of unicode.ToLower, which
-- strings.ToLower maps over the string.
pub mod Trim
pub mod Values
pub mod Distinct
pub mod Decision
pub mod Options
use aninode.Prelude.{
  ℕ, Bool, true, false, not, ◌&&◌, ◌||◌, if◌then◌else◌, Text, text_eq, text_lt, List, [], ◌∷◌, ◌++◌,
  map, reverse, Option, none, some, leb, ◌==◌, sort_stable,
}
use aninode.MediaName.{Components}

pub record Filters : Type 0 where
  pub groups : List Text
  pub resolutions : List Text
  pub subtitles : List Text

-- The three dimensions, for the messages that name one.
pub data Dimension : Type 0 where
  groups resolutions subtitles : Dimension

pub data Invalid : Type 0 where
  empty_value duplicate_value : Dimension → Invalid

-- unicode.IsSpace
unfoldable pub is_space : ℕ → Bool
is_space c =
    (leb 9 c && leb c 13)
    || c == 32
    || c == 0x85
    || c == 0xa0
    || c == 0x1680
    || (leb 0x2000 c && leb c 0x200a)
    || c == 0x2028
    || c == 0x2029
    || c == 0x202f
    || c == 0x205f
    || c == 0x3000

unfoldable pub trim_left : Text → Text
trim_left [] = []
trim_left (c ∷ s) = let rest = trim_left s in if is_space c then rest else c ∷ s

-- strings.TrimSpace
unfoldable pub trim_space : Text → Text
unfolding trim_left
trim_space s = reverse (trim_left (reverse (trim_left s)))

abbrev pub is_empty : Text → Bool
is_empty [] = true
is_empty (c ∷ s) = false

module _ (to_lower : ℕ → ℕ) where
  -- comparable
  unfoldable pub comparable : Text → Text
  comparable value = map to_lower (trim_space value)

  -- Same
  unfoldable pub same : Text → Text → Bool
  same a b = text_eq (comparable a) (comparable b)

  -- The loops `if Same(candidate, value) { return … }` of allows and appendValue.
  unfoldable pub holds : List Text → Text → Bool
  holds [] value = false
  holds (candidate ∷ rest) value = same candidate value || holds rest value

  -- allows
  unfoldable pub allows : List Text → Text → Bool
  allows [] value = true
  allows (c ∷ cs) value = holds (c ∷ cs) value

  -- appendValue
  unfoldable pub append_value : List Text → Text → List Text
  append_value values value =
      let trimmed = trim_space value in
      if is_empty trimmed
      then values
      else if holds values trimmed
      then values
      else values ++ trimmed ∷ []

  -- The loop of mergeValues and normalizeValues.
  unfoldable pub append_values : List Text → List Text → List Text
  append_values out [] = out
  append_values out (value ∷ rest) = append_values (append_value out value) rest

  -- The comparison of sortValues.
  unfoldable pub value_less : Text → Text → Bool
  value_less a b =
      let ai = comparable a in
      let aj = comparable b in if text_eq ai aj then text_lt a b else text_lt ai aj

  -- sortValues. sort.Slice is not stable, but values that neither comparison puts first are equal.
  unfoldable pub sort_values : List Text → List Text
  sort_values = sort_stable value_less

  -- mergeValues
  unfoldable pub merge_values : List Text → List Text → List Text
  merge_values a b = sort_values (append_values a b)

  -- normalizeValues
  unfoldable pub normalize_values : List Text → List Text
  normalize_values values = sort_values (append_values [] values)

  -- Normalize
  unfoldable pub normalize : Filters → Filters
  normalize f = record {
    groups = normalize_values f.groups;
    resolutions = normalize_values f.resolutions;
    subtitles = normalize_values f.subtitles;
  }

  -- equalValues, whose length test is the first two clauses
  unfoldable pub equal_values : List Text → List Text → Bool
  equal_values [] [] = true
  equal_values [] (b ∷ bs) = false
  equal_values (a ∷ as') [] = false
  equal_values (a ∷ as') (b ∷ bs) = same a b && equal_values as' bs

  -- Equal
  unfoldable pub equal : Filters → Filters → Bool
  equal f other =
      let a = normalize f in
      let b = normalize other in
      equal_values a.groups b.groups
      && equal_values a.resolutions b.resolutions
      && equal_values a.subtitles b.subtitles

  -- The inner loop of Validate. The map `seen` holds the keys of the values before.
  unfoldable pub validate_values : Dimension → List Text → List Text → Option Invalid
  validate_values name seen [] = none
  validate_values name seen (value ∷ rest) =
      let value' = trim_space value in
      let go_on = validate_values name (value' ∷ seen) rest in
      if is_empty value'
      then some (empty_value name)
      else if holds seen value'
      then some (duplicate_value name)
      else go_on

  -- Validate. Go visits the dimensions in any order; only which fault is reported depends on it.
  unfoldable pub validate : Filters → Option Invalid
  validate f = elim (validate_values groups [] f.groups) [
    | some e ↦ some e
    | none ↦ elim (validate_values resolutions [] f.resolutions) [
      | some e ↦ some e
      | none ↦ validate_values subtitles [] f.subtitles
    ]
  ]

  -- RejectReason, for the group, resolution and subtitle of a release. `none` is the empty reason.
  unfoldable pub reject_reason : Filters → Text → Text → Text → Option Dimension
  reject_reason f group resolution subtitle =
      if not (allows f.groups group)
      then some groups
      else if not (allows f.resolutions resolution)
      then some resolutions
      else if not (allows f.subtitles subtitle)
      then some subtitles
      else none
