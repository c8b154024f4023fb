-- ===== src/Ownership.antt =====
-- internal/observation/graph.go and internal/claim/claim.go: which Entries own the files of a task. An
-- object of a file system is a number, and a snapshot has its objects and whether it has issues.
pub mod Agreed
use aninode.Prelude.{
  ℕ, Bool, true, false, not, ◌&&◌, ◌||◌, if◌then◌else◌, ◌==◌, Text, text_eq, text_lt, Option, none,
  some, List, [], ◌∷◌, lookup, sort_stable,
}

pub record Snapshot : Type 0 where
  pub objects : List ℕ
  pub has_issues : Bool

-- _, ok := snapshot.Objects[id]
unfoldable pub has_object : List ℕ → ℕ → Bool
has_object [] o = false
has_object (p ∷ ps) o = p == o || has_object ps o

unfoldable pub has_key : List Text → Text → Bool
has_key [] k = false
has_key (j ∷ js) k = text_eq j k || has_key js k

-- candidates == nil || candidates[entryKey]
unfoldable pub allows_key : Option (List Text) → Text → Bool
allows_key none k = true
allows_key (some ks) k = has_key ks k

-- The inner loop of SourceOwners.
unfoldable pub owners_in : List (Text × Snapshot) → Option (List Text) → ℕ → List Text
owners_in [] candidates o = []
owners_in ((k, snapshot) ∷ sources) candidates o =
    let rest = owners_in sources candidates o in
    if has_object snapshot.objects o && allows_key candidates k then k ∷ rest else rest

-- The outer loop of SourceOwners and of physicalOwners; both leave it once no candidate is left.
unfoldable pub narrow :
    (Option (List Text) → ℕ → List Text) → List ℕ → Option (List Text) → Option (List Text)
narrow step [] candidates = candidates
narrow step (o ∷ objects) candidates = elim (step candidates o) [
  | [] ↦ some []
  | k ∷ ks ↦ narrow step objects (some (k ∷ ks))
]

-- The keys of a set that may be nil.
unfoldable pub keys_of : Option (List Text) → List Text
keys_of none = []
keys_of (some ks) = ks

-- SourceOwners
unfoldable pub source_owners : List (Text × Snapshot) → List ℕ → List Text
source_owners sources task = sort_stable text_lt (keys_of (narrow (owners_in sources) task none))

-- SourceIndex, as far as physicalOwners reads it
pub record SourceIndex : Type 0 where
  pub owners : ℕ → List Text
  pub uncertain : List Text

-- snapshot := graph.Sources[w.Key]
unfoldable pub source_of_entry : List (Text × Snapshot) → Text → Snapshot
source_of_entry sources k = elim (lookup k sources) [
  | some snapshot ↦ snapshot
  | none ↦ record { objects = []; has_issues = false }
]

-- index.owners[id] behind the loop
unfoldable pub index_owners : List (Text × Snapshot) → List Text → ℕ → List Text
index_owners sources [] o = []
index_owners sources (k ∷ ks) o =
    let rest = index_owners sources ks o in
    if has_object (source_of_entry sources k).objects o then k ∷ rest else rest

unfoldable pub index_uncertain : List (Text × Snapshot) → List Text → List Text
index_uncertain sources [] = []
index_uncertain sources (k ∷ ks) =
    let rest = index_uncertain sources ks in
    if (source_of_entry sources k).has_issues then k ∷ rest else rest

-- BuildSourceIndexFromGraph, for the keys of the sorted Entries
unfoldable pub build_index : List (Text × Snapshot) → List Text → SourceIndex
build_index sources keys = record {
  owners = index_owners sources keys;
  uncertain = index_uncertain sources keys;
}

-- The inner loop of physicalOwners over the owners of an object.
unfoldable pub allowed_of : Option (List Text) → List Text → List Text
allowed_of candidates [] = []
allowed_of candidates (k ∷ ks) =
    let rest = allowed_of candidates ks in if allows_key candidates k then k ∷ rest else rest

unfoldable pub owners_by_index : SourceIndex → Option (List Text) → ℕ → List Text
owners_by_index index candidates o = allowed_of candidates (index.owners o)

unfoldable pub has_all : List Text → List Text → Bool
has_all candidates [] = true
has_all candidates (k ∷ ks) = has_key candidates k && has_all candidates ks

-- physicalOwners: the keys of the owners, and whether the observation is incomplete.
unfoldable pub physical_owners : SourceIndex → List ℕ → List Text × Bool
physical_owners index task =
    let candidates = keys_of (narrow (owners_by_index index) task none) in
    if not (has_all candidates index.uncertain)
    then ([], true)
    else (sort_stable text_lt candidates, false)
