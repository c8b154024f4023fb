-- ===== src/Examples/Places.antt =====
-- Paths of tasks and their places: internal/download and internal/source.
use aninode.Prelude.{
  false, Text, List, length, arith, ◌≡◌, ◌≢◌, refl, ◌↔◌, true, false, ◌||◌, codes, text_eq, [], ◌∷◌,
  All,
}
use aninode.ReleaseFilter.{is_empty, trim_space, trim_left, is_space}
use aninode.Paths.{
  parse_path, clean, starts_with_slash, walk, push, go_up, split, split_from, render, join_parts,
  join, base, until_slash, strip_slashes,
}
use aninode.Paths.Below.{LiesBelow, escapes}
use aninode.Download.{PathMapping, source_of, target_of, map_either, map_path, unmap_path}
use aninode.Download.Mapping.{IsBest, map_either-IsBest, unmap_path-map_path}
use aninode.Topology.{
  series, multi_file, save_at, placement_for, place_in, validate_series, validate_series_at_source,
  validate_movie,
}
use aninode.Topology.Valid.{IsWithin, IsInside, validate_iff}

abbrev mapping : PathMapping
mapping = record { remote = codes "/downloads"; local = codes "/mnt/nas/" }

-- A mapping inside another one.
abbrev inner : PathMapping
inner = record { remote = codes "/downloads/show/"; local = codes "/mnt/nas/shows" }

abbrev mappings : List PathMapping
mappings = mapping ∷ inner ∷ []

abbrev episode_path : Text
episode_path = codes "/downloads/show/e.mkv"

below_test : LiesBelow (parse_path inner.remote) (parse_path episode_path) (codes "e.mkv" ∷ [])
unfolding parse_path starts_with_slash walk push split split_from text_eq escapes
below_test = (refl, refl, refl)

rooted_test :
    (starts_with_slash inner.remote ≡ true)
    × (starts_with_slash inner.local ≡ true)
    × (starts_with_slash episode_path ≡ true)
unfolding starts_with_slash
rooted_test = (refl, refl, refl)

remote_lengths : (length (clean mapping.remote) ≡ 10) × (length (clean inner.remote) ≡ 15)
unfolding clean parse_path starts_with_slash walk push split split_from text_eq render join_parts
remote_lengths = (refl, refl)

local_lengths : (length (clean mapping.local) ≡ 8) × (length (clean inner.local) ≡ 14)
unfolding clean parse_path starts_with_slash walk push split split_from text_eq render join_parts
local_lengths = (refl, refl)

remote-IsBest : (path : Text) → IsBest false path (mapping ∷ []) inner []
unfolding source_of
remote-IsBest path = ((λ r u h. omega (arith, remote_lengths.0, remote_lengths.1), tt), tt)

local-IsBest : (path : Text) → IsBest true path (mapping ∷ []) inner []
unfolding source_of
local-IsBest path = ((λ r u h. omega (arith, local_lengths.0, local_lengths.1), tt), tt)

map_either-IsBest_example :
    LiesBelow
      (parse_path (target_of false inner))
      (parse_path (map_either false episode_path mappings))
      (codes "e.mkv" ∷ [])
unfolding source_of target_of
map_either-IsBest_example =
    map_either-IsBest false (mapping ∷ []) [] inner episode_path (codes "e.mkv" ∷ []) rooted_test.0
      rooted_test.1 rooted_test.2 below_test (remote-IsBest episode_path)

unmap_path-map_path_example :
    unmap_path (map_path episode_path mappings) mappings ≡ clean episode_path
unmap_path-map_path_example =
    unmap_path-map_path (mapping ∷ []) [] inner episode_path (codes "e.mkv" ∷ []) rooted_test.0
      rooted_test.1 rooted_test.2 below_test (remote-IsBest episode_path)
      (local-IsBest (map_path episode_path mappings))

validate_iff_example :
    ((validate_series
          (codes "/tv/show")
          (codes "/tv/show/s1")
          (codes "/tv/show/s1/a.mkv" ∷ [])).valid
        ≡ true
      ↔ ((codes "/tv/show/s1/a.mkv" ∷ []) ≢ [])
        × ((is_empty (codes "/tv/show") || is_empty (codes "/tv/show/s1")) ≡ false)
        × IsWithin 1 2 (codes "/tv/show") (codes "/tv/show/s1")
        × All (IsInside (codes "/tv/show/s1")) (codes "/tv/show/s1/a.mkv" ∷ []))
    × ((validate_series_at_source
            (codes "/tv/show")
            (codes "/tv/show/s1")
            (codes "/tv/show/s1/a.mkv" ∷ [])).valid
          ≡ true
        ↔ ((codes "/tv/show/s1/a.mkv" ∷ []) ≢ [])
          × ((is_empty (codes "/tv/show") || is_empty (codes "/tv/show/s1")) ≡ false)
          × IsWithin 2 3 (codes "/tv/show") (codes "/tv/show/s1")
          × All (IsInside (codes "/tv/show/s1")) (codes "/tv/show/s1/a.mkv" ∷ []))
    × ((validate_movie
            (codes "/tv/show")
            (codes "/tv/show/s1")
            (codes "/tv/show/s1/a.mkv" ∷ [])).valid
          ≡ true
        ↔ ((codes "/tv/show/s1/a.mkv" ∷ []) ≢ [])
          × ((is_empty (codes "/tv/show") || is_empty (codes "/tv/show/s1")) ≡ false)
          × IsWithin 1 1 (codes "/tv/show") (codes "/tv/show/s1")
          × All (IsInside (codes "/tv/show/s1")) (codes "/tv/show/s1/a.mkv" ∷ []))
validate_iff_example =
    validate_iff (codes "/tv/show") (codes "/tv/show/s1") (codes "/tv/show/s1/a.mkv" ∷ [])

placement_test :
    placement_for series multi_file (codes "/tv/show") [] (codes " s1 ")
    ≡ save_at (codes "/tv/show/s1")
unfolding placement_for place_in base until_slash strip_slashes join clean parse_path
    starts_with_slash walk push split split_from render join_parts text_eq trim_space trim_left
    is_space
placement_test = refl

-- The name "..", which leads out of the root.
escaping_test :
    placement_for series multi_file (codes "/tv/show") [] (codes "..") ≡ save_at (codes "/tv")
unfolding placement_for place_in base until_slash strip_slashes join clean parse_path
    starts_with_slash walk push go_up split split_from render join_parts text_eq trim_space
    trim_left is_space
escaping_test = refl

even_test :
    (text_eq (trim_space (codes " s1 ")) (codes "..")
      || text_eq (trim_space (codes " s1 ")) (codes "/"))
    ≡ false
unfolding text_eq trim_space trim_left is_space
even_test = refl
