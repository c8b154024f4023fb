-- ===== src/Topology.antt =====
-- internal/source/topology.go: where the content of a task lies, and where it may lie.
pub mod Valid
pub mod Placed
use aninode.Prelude.{
  ℕ, ◌+◌, Bool, true, false, not, ◌&&◌, ◌||◌, if◌then◌else◌, ltb, Text, text_eq, Option, none, some,
  List, [], ◌∷◌, length,
}
use aninode.ReleaseFilter.{is_empty, trim_space}
use aninode.Paths.{dot, parse_path, clean, rel, dir_text, join, base}
use aninode.Paths.Below.{escapes}
use aninode.Download.{Task, File, PathMapping, map_path}

pub data MediaType : Type 0 where
  series movie other_media : MediaType

pub data Shape : Type 0 where
  single_file multi_file other_shape : Shape

pub record Observation : Type 0 where
  pub task : Task
  pub content_root : Text
  pub paths : List Text
  pub shape : Shape

-- The errors of Observe.
pub data Problem : Type 0 where
  no_wanted_files no_path not_flat : Problem
  outside : (path content : Text) → Problem

pub data Observed : Type 0 where
  found : Observation → Observed
  failed : Problem → Observed

-- samePath
unfoldable pub same_path : Text → Text → Bool
same_path a b = text_eq (clean a) (clean b)

-- within
unfoldable pub within : Text → Text → Bool
within root path =
    if is_empty root || is_empty path
    then false
    else elim (rel (parse_path root) (parse_path path)) [ none ↦ false | some r ↦ not (escapes r) ]

-- The first loop of Observe.
unfoldable pub wanted_paths : List PathMapping → List File → List Text
wanted_paths mappings [] = []
wanted_paths mappings (file ∷ files) =
    let rest = wanted_paths mappings files in
    if file.wanted then clean (map_path file.path mappings) ∷ rest else rest

-- The loop behind the content path: the first path that is not inside it.
unfoldable pub first_outside : Text → List Text → Option Text
first_outside content [] = none
first_outside content (path ∷ paths) =
    let rest = first_outside content paths in
    if not (within content path) || same_path content path then some path else rest

unfoldable pub observe_content : Task → List Text → Text → Observed
observe_content task paths content = elim (first_outside content paths) [
  | some path ↦ failed (outside path content)
  | none ↦ found (record { task = task; content_root = content; paths = paths; shape = multi_file })
]

-- len(paths) == 1 && samePath(paths[0], content)
unfoldable pub is_the_content : List Text → Text → Bool
is_the_content [] content = false
is_the_content (path ∷ []) content = same_path path content
is_the_content (path ∷ other ∷ paths) content = false

-- The loop behind the save path.
unfoldable pub all_flat : Text → List Text → Bool
all_flat save [] = true
all_flat save (path ∷ paths) = same_path (dir_text path) save && all_flat save paths

unfoldable pub shape_of : List Text → Shape
shape_of [] = multi_file
shape_of (path ∷ []) = single_file
shape_of (path ∷ other ∷ paths) = multi_file

-- The part of Observe behind the first loop, where it has found paths.
unfoldable pub observe_paths : Task → List Text → Observed
observe_paths task paths =
    let content = clean task.content_path in
    let save = clean task.save_path in
    if not (is_empty task.content_path)
    then if is_the_content paths content
      then found (record {
        task = task;
        content_root = dir_text content;
        paths = paths;
        shape = single_file;
      })
      else observe_content task paths content
    else if is_empty task.save_path
    then failed no_path
    else if not (all_flat save paths)
    then failed not_flat
    else found (record { task = task; content_root = save; paths = paths; shape = shape_of paths })

-- Observe
unfoldable pub observe : Task → List File → List PathMapping → Observed
observe task files mappings =
    let mapped = record task {
      save_path = map_path task.save_path mappings;
      content_path = map_path task.content_path mappings;
    } in
    elim (wanted_paths mappings files) [
      | [] ↦ failed no_wanted_files
      | path ∷ paths ↦ observe_paths mapped (path ∷ paths)
    ]

-- PlacementFor answers a save path or one of these errors.
pub data PlacementError : Type 0 where
  no_shape no_entry_root no_source_root unknown_media unsafe_name : PlacementError

pub data Placement : Type 0 where
  save_at : Text → Placement
  no_place : PlacementError → Placement

-- The part of PlacementFor that joins the name of the container.
unfoldable pub place_in : Text → Text → Placement
place_in root container_name =
    let name = trim_space container_name in
    if is_empty name || text_eq name dot || not (text_eq (base name) name)
    then no_place unsafe_name
    else save_at (join root name)

-- PlacementFor
unfoldable pub placement_for : MediaType → Shape → Text → Text → Text → Placement
placement_for media other_shape entry_root source_root name = no_place no_shape
placement_for other_media single_file entry_root source_root name = no_place unknown_media
placement_for other_media multi_file entry_root source_root name = no_place unknown_media
placement_for series single_file entry_root source_root name =
    if is_empty entry_root then no_place no_entry_root else place_in entry_root name
placement_for series multi_file entry_root source_root name =
    if is_empty entry_root then no_place no_entry_root else place_in entry_root name
placement_for movie multi_file entry_root source_root name =
    if is_empty source_root then no_place no_source_root else save_at (clean source_root)
placement_for movie single_file entry_root source_root name =
    if is_empty source_root then no_place no_source_root else place_in source_root name

-- Stands for the texts of Topology.Detail.
pub data Detail : Type 0 where
  all_required roots_required series_outside movie_outside valid_topology : Detail
  depth_wanted : (depth min max : ℕ) → Detail
  asset_escapes : (path : Text) → Detail

pub record Topology : Type 0 where
  pub valid : Bool
  pub relative_depth : ℕ
  pub detail : Detail

abbrev pub invalid : Detail → Topology
invalid detail = record { valid = false; relative_depth = 0; detail = detail }

-- The end of validateSeriesRoot and ValidateMovieRoot, with the depth.
unfoldable pub check_depth : ℕ → ℕ → ℕ → Topology
check_depth min max depth =
    if ltb depth min || ltb max depth
    then record { valid = false; relative_depth = depth; detail = depth_wanted depth min max }
    else record { valid = true; relative_depth = depth; detail = valid_topology }

-- Both of these functions behind the test for empty roots: they differ in the depths and in the message.
unfoldable pub check_root : Detail → ℕ → ℕ → Text → Text → Topology
check_root outside_detail min max root content =
    if is_empty root || is_empty content
    then invalid roots_required
    else elim (rel (parse_path root) (parse_path content)) [
      | none ↦ invalid outside_detail
      | some [] ↦ invalid outside_detail
      | some (e ∷ r) ↦
          if escapes (e ∷ r) then invalid outside_detail else check_depth min max (length (e ∷ r))
    ]

-- validateSeriesRoot
unfoldable pub validate_root : Text → Text → ℕ → ℕ → Topology
validate_root parent content min max = check_root series_outside min max parent content

-- ValidateSeriesRoot
unfoldable pub validate_series_root : Text → Text → Topology
validate_series_root entry_root content_root = validate_root entry_root content_root 1 2

-- ValidateSeriesAtSourceRoot
unfoldable pub validate_series_at_source_root : Text → Text → Topology
validate_series_at_source_root source_root content_root = validate_root source_root content_root 2 3

-- ValidateMovieRoot
unfoldable pub validate_movie_root : Text → Text → Topology
validate_movie_root source_root content_root = check_root movie_outside 1 1 source_root content_root

-- Whether validatePaths refuses a path.
unfoldable pub escapes_root : Text → Text → Bool
escapes_root content path = elim (rel (parse_path content) (parse_path path)) [
  | none ↦ true
  | some [] ↦ true
  | some (e ∷ r) ↦ escapes (e ∷ r)
]

-- validatePaths
unfoldable pub validate_paths : Text → List Text → Topology → Topology
validate_paths content [] topology = topology
validate_paths content (path ∷ paths) topology =
    let rest = validate_paths content paths topology in
    if escapes_root content path
    then record topology { valid = false; detail = asset_escapes path }
    else rest

-- ValidateSeries, ValidateSeriesAtSource and ValidateMovie, with their test on the root.
unfoldable pub validate_with : Topology → Text → Text → List Text → Topology
validate_with topology root content [] = invalid all_required
validate_with topology root content (path ∷ paths) =
    let checked = validate_paths content (path ∷ paths) topology in
    if is_empty root || is_empty content
    then invalid all_required
    else if not topology.valid
    then topology
    else checked

-- ValidateSeries
unfoldable pub validate_series : Text → Text → List Text → Topology
validate_series entry_root content_root paths =
    validate_with (validate_series_root entry_root content_root) entry_root content_root paths

-- ValidateSeriesAtSource
unfoldable pub validate_series_at_source : Text → Text → List Text → Topology
validate_series_at_source source_root content_root paths =
    validate_with (validate_series_at_source_root source_root content_root) source_root content_root
      paths

-- ValidateMovie
unfoldable pub validate_movie : Text → Text → List Text → Topology
validate_movie source_root content_root paths =
    validate_with (validate_movie_root source_root content_root) source_root content_root paths
