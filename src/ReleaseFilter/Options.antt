-- ===== src/ReleaseFilter/Options.antt =====
-- Option sets, which have the fields of filters, and their aggregation.
use aninode.Prelude.{ℕ, ◌≡◌, refl, ap, ◌∙◌, ◌||◌, Text, List, [], ◌∷◌}
use aninode.MediaName.{Components}
use aninode.Release.{Release}
use aninode.ReleaseFilter.{
  Filters, holds, append_value, append_values, sort_values, merge_values, normalize_values,
}
use aninode.ReleaseFilter.Values.{AllFilled, holds-sort_values, holds-append_values}

abbrev pub no_options : Filters
no_options = record { groups = []; resolutions = []; subtitles = [] }

-- Releases and components that say the same of the three dimensions, one by one.
abbrev pub SameFacts : List Release → List Components → Type 0
SameFacts [] [] = Unit
SameFacts [] (n ∷ ns) = ⊥
SameFacts (v ∷ vs) [] = ⊥
SameFacts (v ∷ vs) (n ∷ ns) =
    ((v.group ≡ n.release_group) × (v.resolution ≡ n.resolution) × (v.subtitle ≡ n.subtitle))
    × SameFacts vs ns

module _ (to_lower : ℕ → ℕ) where
  -- Merge
  unfoldable pub merge : Filters → Filters → Filters
  merge o other = record {
    groups = merge_values to_lower o.groups other.groups;
    resolutions = merge_values to_lower o.resolutions other.resolutions;
    subtitles = merge_values to_lower o.subtitles other.subtitles;
  }

  -- WithFilters
  unfoldable pub with_filters : Filters → Filters → Filters
  with_filters o f =
      merge o (record { groups = f.groups; resolutions = f.resolutions; subtitles = f.subtitles })

  -- The body of both loops over observed values.
  unfoldable pub add_options : Filters → Text → Text → Text → Filters
  add_options out group resolution subtitle = record {
    groups = append_value to_lower out.groups group;
    resolutions = append_value to_lower out.resolutions resolution;
    subtitles = append_value to_lower out.subtitles subtitle;
  }

  -- The end of both functions.
  unfoldable pub sort_options : Filters → Filters
  sort_options out = record {
    groups = sort_values to_lower out.groups;
    resolutions = sort_values to_lower out.resolutions;
    subtitles = sort_values to_lower out.subtitles;
  }

  unfoldable pub append_releases : Filters → List Release → Filters
  append_releases out [] = out
  append_releases out (value ∷ rest) =
      append_releases (add_options out value.group value.resolution value.subtitle) rest

  -- OptionsFromReleases
  unfoldable pub options_from_releases : List Release → Filters
  options_from_releases values = sort_options (append_releases no_options values)

  unfoldable pub append_components : Filters → List Components → Filters
  append_components out [] = out
  append_components out (value ∷ rest) =
      append_components (add_options out value.release_group value.resolution value.subtitle) rest

  -- OptionsFromNames
  unfoldable pub options_from_names : List Components → Filters
  options_from_names values = sort_options (append_components no_options values)

  -- NewOptions
  unfoldable new_options : List Text → List Text → List Text → Filters
  new_options group_values resolution_values subtitle_values = record {
    groups = normalize_values to_lower group_values;
    resolutions = normalize_values to_lower resolution_values;
    subtitles = normalize_values to_lower subtitle_values;
  }

  holds-merge_values :
      (vs ws : List Text) (x : Text)
      → AllFilled ws
      → holds to_lower (merge_values to_lower vs ws) x
        ≡ (holds to_lower vs x || holds to_lower ws x)
  unfolding merge_values
  holds-merge_values vs ws x h =
      holds-sort_values to_lower (append_values to_lower vs ws) x
      ∙ holds-append_values to_lower vs ws x h

  -- WithFilters offers, in each dimension, exactly the values that the options or the filters hold up
  -- to case and outer white space, where something is left of every value of the filters.
  pub holds-with_filters :
      (o f : Filters) (x : Text)
      → AllFilled f.groups
      → AllFilled f.resolutions
      → AllFilled f.subtitles
      → (holds to_lower (with_filters o f).groups x
          ≡ (holds to_lower o.groups x || holds to_lower f.groups x))
        × (holds to_lower (with_filters o f).resolutions x
            ≡ (holds to_lower o.resolutions x || holds to_lower f.resolutions x))
        × (holds to_lower (with_filters o f).subtitles x
            ≡ (holds to_lower o.subtitles x || holds to_lower f.subtitles x))
  unfolding with_filters merge
  holds-with_filters o f x g r s = (
    holds-merge_values o.groups f.groups x g,
    holds-merge_values o.resolutions f.resolutions x r,
    holds-merge_values o.subtitles f.subtitles x s,
  )

  -- The options collected from releases are those collected from components that say the same.
  map-options :
      (out : Filters) (values : List Release) (names : List Components)
      → SameFacts values names
      → append_releases out values ≡ append_components out names
  unfolding append_releases append_components
  map-options out [] [] h = refl
  map-options out [] (n ∷ ns) h = elim h [ ]
  map-options out (v ∷ vs) [] h = elim h [ ]
  map-options out (v ∷ vs) (n ∷ ns) ((g, r, s), h) =
      rw g (
        rw r (rw s (map-options (add_options out n.release_group n.resolution n.subtitle) vs ns h)))

  -- OptionsFromReleases and OptionsFromNames agree on lists whose elements have, one by one, the same
  -- group, resolution and subtitle.
  pub options_from_releases-names :
      (values : List Release) (names : List Components)
      → SameFacts values names
      → options_from_releases values ≡ options_from_names names
  unfolding options_from_releases options_from_names
  options_from_releases-names values names h =
      ap sort_options (map-options no_options values names h)
