-- ===== src/Download.antt =====
-- internal/download/download.go: tasks, and the mapping of their paths.
pub mod Mapping
use aninode.Prelude.{
  ℕ, Bool, true, false, not, ◌&&◌, ◌||◌, if◌then◌else◌, ltb, Text, text_eq, Option, none, some,
  List, [], ◌∷◌, length,
}
use aninode.ReleaseFilter.{is_empty}
use aninode.Paths.{dot, parse_path, clean, rel, render_rel, join}
use aninode.Paths.Below.{escapes}

-- Task, with the fields that tell tasks and their places apart
pub record Task : Type 0 where
  pub id : Text
  pub info_hash : Text
  pub name : Text
  pub save_path : Text
  pub content_path : Text

-- File, without its progress
pub record File : Type 0 where
  pub path : Text
  pub size : ℕ
  pub wanted : Bool

pub record PathMapping : Type 0 where
  pub remote : Text
  pub local : Text

-- The two sides of a mapping, swapped for the way back.
unfoldable pub source_of : Bool → PathMapping → Text
source_of backwards m = if backwards then m.local else m.remote

unfoldable pub target_of : Bool → PathMapping → Text
target_of backwards m = if backwards then m.remote else m.local

-- Whether the loop looks at a mapping at all.
unfoldable pub is_usable : Text → Text → Bool
is_usable remote local = not (text_eq remote dot || is_empty remote || is_empty local)

-- The elements of the path below `remote`, where it lies there.
unfoldable pub below : Text → Text → Option (List Text)
below remote path = elim (rel (parse_path remote) (parse_path path)) [
  | none ↦ none
  | some r ↦ if escapes r then none else some r
]

-- The loop of mapPath: bestRemote and bestLocal.
unfoldable pub best_mapping : Bool → Text → Text × Text → List PathMapping → Text × Text
best_mapping backwards path best [] = best
best_mapping backwards path best (m ∷ mappings) =
    let remote = clean (source_of backwards m) in
    let local = target_of backwards m in
    elim (is_usable remote local) [
      | false ↦ best_mapping backwards path best mappings
      | true ↦ elim (below remote path) [
        | none ↦ best_mapping backwards path best mappings
        | some r ↦ elim (ltb (length best.0) (length remote)) [
          | true ↦ best_mapping backwards path (remote, clean local) mappings
          | false ↦ best_mapping backwards path best mappings
        ]
      ]
    ]

-- filepath.Join(bestLocal, relative); the error of Rel is dropped, and its result is empty then.
unfoldable pub join_below : Text → Option (List Text) → Text
join_below local none = join local []
join_below local (some r) = join local (render_rel r)

-- mapPath
unfoldable pub map_either : Bool → Text → List PathMapping → Text
map_either backwards path mappings =
    let best = best_mapping backwards path ([], []) mappings in
    if is_empty best.0 then path else join_below best.1 (rel (parse_path best.0) (parse_path path))

-- MapPath
unfoldable pub map_path : Text → List PathMapping → Text
map_path path mappings = map_either false path mappings

-- UnmapPath
unfoldable pub unmap_path : Text → List PathMapping → Text
unmap_path path mappings = map_either true path mappings
