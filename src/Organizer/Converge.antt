-- ===== src/Organizer/Converge.antt =====
-- internal/organizer/plan.go: convergePublicationAliases, which removes the old names of what a plan has
-- published. The regular files are a map from paths to objects. Directories are not in it, so
-- RemoveEmptyParents has no part here, and the errors of single removals are not listed.
pub mod Kept
pub mod Wanted
use aninode.Prelude.{
  ℕ, zero, suc, Bool, true, false, not, ◌&&◌, ◌||◌, if◌then◌else◌, ◌==◌, Text, text_eq, Option,
  none, some, List, [], ◌∷◌, ◌++◌, lookup, delete,
}
use aninode.ReleaseFilter.{is_empty, trim_space}
use aninode.Paths.{clean}
use aninode.Organizer.{
  other_action, Action, link, existing, unmatched, conflict, excluded, PlanItem, within_root,
}

-- The destinations of each object, in the order of a range loop.
abbrev pub Desired : Type 0
Desired = List (ℕ × List Text)

-- desired[id], no destinations where there is none
unfoldable pub desired_of : ℕ → Desired → List Text
desired_of id [] = []
desired_of id ((o, paths) ∷ desired) = if o == id then paths else desired_of id desired

-- desired[id][path] = true, with the set made where it is missing; no path makes the set only.
unfoldable pub want : ℕ → List Text → Desired → Desired
want id paths [] = (id, paths) ∷ []
want id paths ((o, known) ∷ desired) = elim (o == id) [
  | true ↦ (o, paths ++ known) ∷ desired
  | false ↦ (o, known) ∷ want id paths desired
]

-- A round of the first loop, for an item with an object.
unfoldable pub want_action : Action → ℕ → Text → Desired → Desired
want_action excluded id destination desired = want id [] desired
want_action link id destination desired =
    if is_empty destination then desired else want id (clean destination ∷ []) desired
want_action existing id destination desired =
    if is_empty destination then desired else want id (clean destination ∷ []) desired
want_action unmatched id destination desired = desired
want_action conflict id destination desired = desired
want_action (other_action name) id destination desired = desired

unfoldable pub want_item : PlanItem → Option ℕ → Desired → Desired
want_item item none desired = desired
want_item item (some id) desired = want_action item.action id item.destination desired

-- The first loop.
unfoldable pub want_items : List PlanItem → Desired → Desired
want_items [] desired = desired
want_items (item ∷ items) desired = want_items items (want_item item item.source_object desired)

unfoldable pub is_listed : Text → List Text → Bool
is_listed path [] = false
is_listed path (p ∷ paths) = text_eq p path || is_listed path paths

unfoldable pub names : Option ℕ → ℕ → Bool
names none id = false
names (some o) id = o == id

-- Whether each destination is a regular file of the object: os.Lstat and filesystem.Identity.
unfoldable pub is_proven : List (Text × ℕ) → ℕ → List Text → Bool
is_proven files id [] = true
is_proven files id (path ∷ paths) = names (lookup path files) id && is_proven files id paths

-- How the system calls of RemoveObservedLink go: well, with an error before the file is unlinked, or with
-- one of Fsync behind it.
pub data Calls : Type 0 where
  calls_work calls_fail sync_fails : Calls

-- The part behind the open file, of the object `o`: verifyFD, and the unlink.
unfoldable pub unlink_verified : Bool → Text → ℕ → ℕ → List (Text × ℕ) → Bool × List (Text × ℕ)
unlink_verified synced path id o files =
    if o == id then (synced, delete path files) else (false, files)

unfoldable pub unlink_opened : Bool → Text → ℕ → Option ℕ → List (Text × ℕ) → Bool × List (Text × ℕ)
unlink_opened synced path id none files = (true, files)
unlink_opened synced path id (some o) files = unlink_verified synced path id o files

-- filesystem.RemoveObservedLink: whether it returns no error, and the files that are left.
unfoldable pub remove_observed_link : Calls → Text → ℕ → List (Text × ℕ) → Bool × List (Text × ℕ)
remove_observed_link calls_fail path id files = (false, files)
remove_observed_link calls_work path id files = unlink_opened true path id (lookup path files) files
remove_observed_link sync_fails path id files =
    unlink_opened false path id (lookup path files) files

-- removed++, where there was no error
unfoldable pub count_removed : ℕ → Bool × List (Text × ℕ) → List (Text × ℕ) × ℕ
count_removed removed (true, files) = (files, suc removed)
count_removed removed (false, files) = (files, removed)

-- `calls path` is how the system calls go for a path; `paths_of` is the Paths of library.Objects[id].
module _ (calls : Text → Calls) (paths_of : ℕ → Option (List Text)) (root : Text) where
  -- A round of the loop over the paths of an object.
  unfoldable pub drop_stale : ℕ → List Text → Text → List (Text × ℕ) × ℕ → List (Text × ℕ) × ℕ
  drop_stale id destinations stale (files, removed) =
      if is_listed (clean stale) destinations || not (within_root root (clean stale))
      then (files, removed)
      else count_removed removed (remove_observed_link (calls (clean stale)) (clean stale) id files)

  unfoldable pub drop_all : ℕ → List Text → List Text → List (Text × ℕ) × ℕ → List (Text × ℕ) × ℕ
  drop_all id destinations [] state = state
  drop_all id destinations (stale ∷ rest) state =
      drop_all id destinations rest (drop_stale id destinations stale state)

  unfoldable pub drop_object :
      ℕ → List Text → Option (List Text) → List (Text × ℕ) × ℕ → List (Text × ℕ) × ℕ
  drop_object id destinations none state = state
  drop_object id destinations (some paths) state = drop_all id destinations paths state

  -- A round of the second loop.
  unfoldable pub converge_object : ℕ → List Text → List (Text × ℕ) × ℕ → List (Text × ℕ) × ℕ
  converge_object id destinations (files, removed) =
      if is_proven files id destinations
      then drop_object id destinations (paths_of id) (files, removed)
      else (files, removed)

  -- The second loop; `ctx` counts the rounds before the context ends.
  unfoldable pub converge : ℕ → Desired → List (Text × ℕ) × ℕ → List (Text × ℕ) × ℕ
  converge ctx [] state = state
  converge zero ((id, destinations) ∷ desired) state = state
  converge (suc ctx) ((id, destinations) ∷ desired) state =
      converge ctx desired (converge_object id destinations state)

-- convergePublicationAliases: no result where the root lies outside the library.
unfoldable pub converge_aliases :
    (Text → Calls)
    → (ℕ → Option (List Text))
    → (managed : Bool) → (publication_root library_root : Text) → ℕ
    → List PlanItem
    → List (Text × ℕ)
    → Option (List (Text × ℕ) × ℕ)
converge_aliases calls paths_of managed publication_root library_root ctx items files =
    if not managed || is_empty (trim_space publication_root)
    then some (files, 0)
    else if is_empty library_root || not (within_root library_root (clean publication_root))
    then none
    else some
        (converge calls paths_of (clean publication_root) ctx (want_items items []) (files, 0))
