-- ===== src/Examples/Filters.antt =====
-- Filters on a release: internal/releasefilter.
use aninode.Prelude.{
  ℕ, true, ◌&&◌, ◌+◌, ◌≡◌, refl, ◌↔◌, [], ◌∷◌, codes, none, some, leb, if◌then◌else◌, text_eq,
  text_lt, sort_stable, insert_stable,
}
use aninode.ReleaseFilter.{
  Filters, resolutions, is_space, trim_left, trim_space, comparable, same, holds, allows,
  append_value, append_values, value_less, sort_values, normalize_values, normalize, equal_values,
  equal, validate_values, validate, reject_reason,
}
use aninode.ReleaseFilter.Decision.{Takes, reject_reason_iff, equal-reject_reason}

-- unicode.ToLower on ASCII.
abbrev ascii_lower : ℕ → ℕ
ascii_lower c = if leb b'A' c && leb c b'Z' then c + 32 else c

abbrev wanted : Filters
wanted = record {
  groups = codes " Abc" ∷ codes "xyz" ∷ [];
  resolutions = codes "1080p" ∷ [];
  subtitles = [];
}

abbrev same_wanted : Filters
same_wanted = record {
  groups = codes "XYZ" ∷ codes "abc" ∷ [];
  resolutions = codes "1080P " ∷ [];
  subtitles = [];
}

accepted_test : reject_reason ascii_lower wanted (codes "ABC") (codes "1080P") [] ≡ none
unfolding reject_reason allows holds same comparable trim_space trim_left is_space text_eq
accepted_test = refl

refused_test : reject_reason ascii_lower wanted (codes "abc") (codes "720p") [] ≡ some resolutions
unfolding reject_reason allows holds same comparable trim_space trim_left is_space text_eq
refused_test = refl

wanted_valid : (validate ascii_lower wanted ≡ none) × (validate ascii_lower same_wanted ≡ none)
unfolding validate validate_values holds same comparable trim_space trim_left is_space text_eq
wanted_valid = (refl, refl)

wanted-equal : equal ascii_lower wanted same_wanted ≡ true
unfolding equal equal_values normalize normalize_values append_values append_value sort_values
    sort_stable insert_stable value_less text_lt holds same comparable trim_space trim_left is_space
    text_eq
wanted-equal = refl

reject_reason_iff_example :
    (reject_reason ascii_lower wanted (codes "ABC") (codes "1080P") [] ≡ none) ↔ (
      Takes ascii_lower wanted.groups (codes "ABC")
      × Takes ascii_lower wanted.resolutions (codes "1080P")
      × Takes ascii_lower wanted.subtitles [])
reject_reason_iff_example = reject_reason_iff ascii_lower wanted (codes "ABC") (codes "1080P") []

equal-reject_reason_example :
    reject_reason ascii_lower wanted (codes "abc") (codes "720p") []
    ≡ reject_reason ascii_lower same_wanted (codes "abc") (codes "720p") []
equal-reject_reason_example =
    equal-reject_reason ascii_lower wanted same_wanted (codes "abc") (codes "720p") []
      wanted_valid.0 wanted_valid.1 wanted-equal
