-- ===== src/Inventory.antt =====
-- internal/inventory/inventory.go: what the library holds, and the queries on it. The scan that
-- fills a snapshot from the file system is not modelled. A Go map is a list of pairs with distinct
-- keys, a map used as a set the list of its keys, both in the order in which a `range` loop happens
-- to visit them.
pub mod Queries
pub mod Known
use aninode.Prelude.{
  ℕ, zero, suc, Bool, true, false, not, ◌&&◌, ◌||◌, if◌then◌else◌, Text, text_eq, ℤ, pos, leb_ℤ,
  ltb_ℤ, eqb_ℤ, ◌+ℤ◌, rounds, Option, none, some, List, [], ◌∷◌, ◌++◌,
}
use aninode.Episode.{Key, end_of}

pub data Availability : Type 0 where
  unknown absent present : Availability

pub record SeasonInventory : Type 0 where
  pub known : Bool
  pub episodes : List ℤ
  pub err : Option Text

pub record EntryInventory : Type 0 where
  pub known : Bool
  pub available : Bool
  pub episodes : List Text
  pub seasons : List (ℤ × SeasonInventory)
  pub err : Option Text

pub record Snapshot : Type 0 where
  pub entries : List (Text × EntryInventory)

-- _, ok := si.Episodes[n]
unfoldable pub has : List ℤ → ℤ → Bool
has [] n = false
has (m ∷ ms) n = eqb_ℤ m n || has ms n

-- wi, ok := s.Entries[entryKey]
unfoldable pub find_entry : Text → List (Text × EntryInventory) → Option EntryInventory
find_entry k [] = none
find_entry k ((j, e) ∷ m) = if text_eq j k then some e else find_entry k m

-- si, ok := wi.Seasons[season]
unfoldable pub find_season : ℤ → List (ℤ × SeasonInventory) → Option SeasonInventory
find_season k [] = none
find_season k ((j, e) ∷ m) = if eqb_ℤ j k then some e else find_season k m

-- The season of an Entry whose inventory was found; a known Entry has every season it does not list,
-- with no episodes.
unfoldable pub season_of : EntryInventory → ℤ → SeasonInventory
season_of wi season =
    if not wi.known
    then record { known = false; episodes = []; err = wi.err }
    else elim (find_season season wi.seasons) [
      | none ↦ record { known = true; episodes = []; err = none }
      | some si ↦ si
    ]

-- Season
unfoldable pub season : Snapshot → Text → ℤ → SeasonInventory
season s entry_key n = elim (find_entry entry_key s.entries) [
  | none ↦ record { known = false; episodes = []; err = none }
  | some wi ↦ season_of wi n
]

-- for n := from; …; n++ { if _, ok := si.Episodes[n]; !ok { return Absent } }, for a count of rounds
unfoldable pub all_present : ℕ → ℤ → List ℤ → Bool
all_present zero n episodes = true
all_present (suc r) n episodes =
    let rest = all_present r (n +ℤ pos 1) episodes in if not (has episodes n) then false else rest

-- Availability
unfoldable pub availability : Snapshot → Key → Availability
availability s k =
    let si = season s k.entry_key k.season in
    if not si.known
    then unknown
    else if all_present (rounds k.episode_start (end_of k)) k.episode_start si.episodes
    then present
    else absent

-- for n := from; …; n++ { if _, ok := si.Episodes[n]; !ok { v = append(v, n) } }
unfoldable pub missing_from : ℕ → ℤ → List ℤ → List ℤ
missing_from zero n episodes = []
missing_from (suc r) n episodes =
    let rest = missing_from r (n +ℤ pos 1) episodes in
    if not (has episodes n) then n ∷ rest else rest

-- Missing
unfoldable pub missing : Snapshot → Text → ℤ → ℤ → List ℤ × Availability
missing s entry_key n through =
    let si = season s entry_key n in
    if not si.known
    then ([], unknown)
    else elim (missing_from (rounds (pos 1) through) (pos 1) si.episodes) [
      | [] ↦ ([], present)
      | m ∷ ms ↦ (m ∷ ms, absent)
    ]

-- Stands for the errors that RequireKnown joins: an Entry's own, one that it makes for an Entry or a
-- season without one, or a season's own.
pub data Complaint : Type 0 where
  reported : Text → Complaint
  unknown_inventory unknown_season : Complaint

unfoldable pub season_complaints : List (ℤ × SeasonInventory) → List Complaint
season_complaints [] = []
season_complaints ((n, si) ∷ r) =
    let rest = season_complaints r in
    if not si.known
    then elim si.err [ some e ↦ reported e ∷ rest | none ↦ unknown_season ∷ rest ]
    else rest

unfoldable pub entry_complaints : List (Text × EntryInventory) → List Complaint
entry_complaints [] = []
entry_complaints ((k, wi) ∷ r) =
    let rest = entry_complaints r in
    if not wi.known
    then elim wi.err [ some e ↦ reported e ∷ rest | none ↦ unknown_inventory ∷ rest ]
    else season_complaints wi.seasons ++ rest

-- RequireKnown: no complaint is the nil error.
unfoldable pub require_known : Snapshot → List Complaint
require_known s = entry_complaints s.entries
