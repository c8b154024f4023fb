-- ===== src/Organizer.antt =====
-- internal/organizer: where the files of an Entry are to be linked. An object of a file system is a
-- number; the zero ObjectID is `none`.
pub mod Safe
pub mod Series
pub mod Movie
pub mod Converge
pub mod Apply
use aninode.Prelude.{
  ℕ, Bool, true, false, not, ◌&&◌, ◌||◌, if◌then◌else◌, ◌==◌, Text, codes, text_eq, Option, none,
  some, List, [], ◌∷◌, ◌++◌, lookup, assign, leb, length, map,
}
use aninode.ReleaseFilter.{is_empty}
use aninode.Paths.{
  dot, dot_dot, slash, starts_with_slash, parse_path, clean, rel, render_rel, join, base,
}
use aninode.Paths.Below.{escapes}
use aninode.Rss.Documents.{has_prefix}

-- Action
pub data Action : Type 0 where
  link existing unmatched conflict excluded : Action
  other_action : Text → Action

-- The texts of Detail, by what they tell.
pub data Detail : Type 0 where
  untold unsafe_path no_identity same_destination not_recognized : Detail
  told : Text → Detail
  other_object : (destination source : Text) → Detail
  same_target : (name : Text) (sources : List Text) → Detail
  blacklisted : (pattern : Text) → Detail
  also_at : (path : Text) → Detail

-- PlanItem without Parents
pub record PlanItem : Type 0 where
  pub source : Text
  pub source_object : Option ℕ
  pub relative : Text
  pub destination : Text
  pub normalized : Text
  pub action : Action
  pub detail : Detail

-- filePlanner: the roots of its Config, and its maps.
pub record Planner : Type 0 where
  pub source_root : Text
  pub target_root : Text
  pub linked : List (ℕ × Text)
  pub planned_destinations : List (Text × ℕ)
  pub target_ids : List (Text × ℕ)

-- safeDestination; no path stands for its error.
unfoldable pub safe_destination : Text → Text → Option Text
safe_destination root relative =
    let cleaned = clean relative in
    if text_eq cleaned dot
      || starts_with_slash cleaned
      || text_eq cleaned dot_dot
      || has_prefix cleaned (codes "../")
    then none
    else some (join root cleaned)

-- withinRoot of absolute paths
unfoldable pub within_root : Text → Text → Bool
within_root root path = elim (rel (parse_path root) (parse_path path)) [
  | none ↦ false
  | some r ↦ not (escapes r)
]

-- rootsOverlap
unfoldable pub roots_overlap : Text → Text → Bool
roots_overlap a b =
    if text_eq a b
    then true
    else has_prefix (a ++ slash ∷ []) (b ++ slash ∷ [])
      || has_prefix (b ++ slash ∷ []) (a ++ slash ∷ [])

-- planner.linked[id]
unfoldable pub linked_path : ℕ → List (ℕ × Text) → Option Text
linked_path id [] = none
linked_path id ((o, path) ∷ linked) = if o == id then some path else linked_path id linked

-- The item and the planner behind a verdict.
unfoldable pub judged : PlanItem → Action → Detail → PlanItem
judged item action detail = record item { action = action; detail = detail }

-- planner.plannedDestinations[item.Destination] = id
unfoldable pub reserve : ℕ → Text → Planner → Planner
reserve id destination p = record p {
  planned_destinations = assign destination id p.planned_destinations;
}

-- An object at the destination.
unfoldable pub judge_existing : ℕ → ℕ → PlanItem → Action × Detail
judge_existing found id item =
    if found == id
    then (existing, item.detail)
    else (conflict, other_object item.destination item.source)

-- The answer of the map of planned destinations.
unfoldable pub is_taken : Option ℕ → ℕ → Bool
is_taken none id = false
is_taken (some owner) id = not (owner == id)

-- finalizeMovieItem
unfoldable pub finalize_movie_item : Option ℕ → PlanItem → Planner → PlanItem × Planner
finalize_movie_item none item p = (judged item conflict no_identity, p)
finalize_movie_item (some id) item p = elim (lookup (clean item.destination) p.target_ids) [
  | some found ↦
      let (action, detail) = judge_existing found id item in (judged item action detail, p)
  | none ↦
      if is_taken (lookup item.destination p.planned_destinations) id
      then (judged item conflict same_destination, p)
      else (item, reserve id item.destination p)
]

-- moviebundle.Asset, Version, Extra and Bundle, as far as the plan reads them.
pub record Asset : Type 0 where
  pub path : Text
  pub relative : Text
  pub detail : Text

pub record Version : Type 0 where
  pub video : Asset
  pub subtitles : List Asset
  pub audios : List Asset
  pub label : Text

-- moviebundle.MovieExtra
pub record MovieExtra : Type 0 where
  pub kind : Text
  pub asset : Asset

pub data Kind : Type 0 where
  blu_ray dvd iso files conflicting : Kind

pub record Bundle : Type 0 where
  pub kind : Kind
  pub reason : Text
  pub opaque_assets : List Asset
  pub versions : List Version
  pub extras : List MovieExtra
  pub left_out : List Asset
  pub unknown : List Asset

-- The arguments of a call of `add`.
pub record Wanted : Type 0 where
  pub asset : Asset
  pub target : Text
  pub action : Action
  pub detail : Text

unfoldable pub want_all : (Asset → Text) → Action → (Asset → Text) → List Asset → List Wanted
want_all target action detail [] = []
want_all target action detail (a ∷ assets) =
    record { asset = a; target = target a; action = action; detail = detail a }
    ∷ want_all target action detail assets

unfoldable pub is_conflicting : Bundle → Bool
is_conflicting b = elim b.kind [
  | blu_ray ↦ not (is_empty b.reason)
  | dvd ↦ not (is_empty b.reason)
  | iso ↦ not (is_empty b.reason)
  | files ↦ not (is_empty b.reason)
  | conflicting ↦ true
]

-- The names are those of moviebundle.TargetName, ISOTargetName and ExtraTargetName, for the title and the
-- year of the Entry.
module _ (target_name : Version → Asset → Text) (iso_name : Asset → Text)
    (extra_name : MovieExtra → Text) where
  unfoldable pub want_version : Version → List Wanted
  want_version v =
      want_all (target_name v) link (λ a. codes "movie version") (v.video ∷ [])
      ++ want_all (target_name v) link (λ a. codes "associated subtitle") v.subtitles
      ++ want_all (target_name v) link (λ a. codes "associated external audio") v.audios

  unfoldable pub want_versions : List Version → List Wanted
  want_versions [] = []
  want_versions (v ∷ vs) = want_version v ++ want_versions vs

  unfoldable pub want_extras : List MovieExtra → List Wanted
  want_extras [] = []
  want_extras (x ∷ xs) =
      want_all (λ a. extra_name x) link (λ a. codes "recognized movie extra") (x.asset ∷ [])
      ++ want_extras xs

  -- The first asset of an ISO image; Go panics where there is none.
  unfoldable pub want_iso : List Asset → List Wanted
  want_iso [] = []
  want_iso (a ∷ assets) = want_all iso_name link (λ a. codes "opaque ISO image") (a ∷ [])

  unfoldable pub want_kind : Bundle → Kind → List Wanted
  want_kind b blu_ray =
      want_all (λ a. a.relative) link
        (λ a. codes "opaque disc tree: preserve relative path and filename") b.opaque_assets
  want_kind b dvd =
      want_all (λ a. a.relative) link
        (λ a. codes "opaque disc tree: preserve relative path and filename") b.opaque_assets
  want_kind b iso = want_iso b.opaque_assets
  want_kind b files = want_versions b.versions ++ want_extras b.extras
  want_kind b conflicting = []

  -- The calls of `add` in planMovie, but for those of a conflict.
  unfoldable pub want_bundle : Bundle → List Wanted
  want_bundle b =
      want_all (λ a. []) excluded (λ a. a.detail) b.left_out
      ++ (if is_conflicting b
          then want_all (λ a. []) conflict (λ a. a.detail) b.unknown
          else want_kind b b.kind)

-- The part of `add` behind safeDestination.
unfoldable pub place_wanted :
    Option ℕ → Wanted → PlanItem → Option Text → Planner → PlanItem × Planner
place_wanted id w item none p = (judged item conflict unsafe_path, p)
place_wanted id w item (some destination) p = elim w.action [
  | link ↦ finalize_movie_item id (record item { destination = destination }) p
  | existing ↦ (record item { destination = destination }, p)
  | unmatched ↦ (record item { destination = destination }, p)
  | conflict ↦ (record item { destination = destination }, p)
  | excluded ↦ (record item { destination = destination }, p)
  | other_action name ↦ (record item { destination = destination }, p)
]

-- `add`: the item of an asset; `object_id` is planner.objectID.
unfoldable pub add_item : (Text → Option ℕ) → Wanted → Planner → PlanItem × Planner
add_item object_id w p =
    let item : PlanItem = record {
      source = w.asset.path;
      source_object = object_id w.asset.path;
      relative = w.asset.relative;
      destination = [];
      normalized = base w.asset.relative;
      action = w.action;
      detail = told w.detail;
    } in
    if is_empty w.target
    then (item, p)
    else place_wanted (object_id w.asset.path) w item (safe_destination p.target_root w.target) p

unfoldable pub add_items : (Text → Option ℕ) → List Wanted → Planner → List PlanItem × Planner
add_items object_id [] p = ([], p)
add_items object_id (w ∷ ws) p =
    let (item, p') = add_item object_id w p in
    let (items, p'') = add_items object_id ws p' in (item ∷ items, p'')

-- Whether byDestination lists the item.
unfoldable pub claims_destination : PlanItem → Bool
claims_destination item = not (is_empty item.destination) && elim item.action [
  | link ↦ true
  | existing ↦ true
  | unmatched ↦ false
  | conflict ↦ true
  | excluded ↦ false
  | other_action name ↦ false
]

-- byDestination[destination]: the items in place of their indexes.
unfoldable pub sharers : Text → List PlanItem → List PlanItem
sharers destination [] = []
sharers destination (item ∷ items) =
    let rest = sharers destination items in
    if claims_destination item && text_eq item.destination destination then item ∷ rest else rest

-- What the last loop of planMovie does to an item of `all`.
unfoldable pub mark_item : List PlanItem → PlanItem → PlanItem
mark_item all item =
    let group = sharers item.destination all in
    if claims_destination item && leb 2 (length group)
    then judged item conflict (same_target (base item.destination) (map (λ i. i.relative) group))
    else item

-- The item of a conflict without unknown assets.
unfoldable pub root_item : Text → Text → PlanItem
root_item root reason = record {
  source = root;
  source_object = none;
  relative = [];
  destination = [];
  normalized = base root;
  action = conflict;
  detail = told reason;
}

unfoldable pub is_nil : List Asset → Bool
is_nil [] = true
is_nil (a ∷ assets) = false

-- planMovie, behind moviebundle.AnalyzePaths
unfoldable pub plan_movie :
    (Version → Asset → Text)
    → (Asset → Text)
    → (MovieExtra → Text)
    → (Text → Option ℕ)
    → Bundle
    → Planner
    → List PlanItem
plan_movie target_name iso_name extra_name object_id b p =
    let items = (add_items object_id (want_bundle target_name iso_name extra_name b) p).0 in
    if is_conflicting b
    then items ++ (if is_nil b.unknown then root_item p.source_root b.reason ∷ [] else [])
    else map (mark_item items) items

-- What the names of a file lead to, behind resolveEmbyParsed, resolveRelative and the second try with the
-- season hint: an error, no match, or a relative path.
pub data Resolved : Type 0 where
  unresolved : (reason : Text) → Resolved
  no_match : Resolved
  resolved : (relative : Text) → Resolved

-- fmt.Errorf in `file` and planPaths
pub data PlanError : Type 0 where
  escapes_source no_stat unsafe_destination : (path : Text) → PlanError
  ended : Text → PlanError

-- The last branches of `file`: an item with its destination.
unfoldable pub settle_new : Option Text → ℕ → PlanItem → Planner → PlanItem × Planner
settle_new none id item p = (judged item link item.detail, reserve id item.destination p)
settle_new (some path) id item p = (judged item link (also_at path), reserve id item.destination p)

-- planner.linked[id] = item.Destination
unfoldable pub remember : ℕ → Text → Planner → Planner
remember id path p = record p { linked = (id, path) ∷ p.linked }

unfoldable pub settle_found : ℕ → ℕ → PlanItem → Planner → PlanItem × Planner
settle_found found id item p =
    if found == id
    then (judged item existing item.detail, remember id item.destination p)
    else (judged item conflict (other_object item.destination item.source), p)

unfoldable pub settle : Option ℕ → ℕ → PlanItem → Planner → PlanItem × Planner
settle (some found) id item p = settle_found found id item p
settle none id item p =
    if is_taken (lookup item.destination p.planned_destinations) id
    then (judged item conflict same_destination, p)
    else settle_new (linked_path id p.linked) id item p

-- A file: an error, no item, or an item.
pub data Filed : Type 0 where
  refused : PlanError → Filed
  skipped : Filed
  filed : PlanItem → Filed

-- `file` behind safeDestination
unfoldable pub file_at : Option Text → ℕ → PlanItem → Planner → Filed × Planner
file_at none id item p = (refused (unsafe_destination item.source), p)
file_at (some destination) id item p =
    let there = record item { destination = destination } in
    let (done, p') = settle (lookup (clean destination) p.target_ids) id there p in (filed done, p')

unfoldable pub file_resolved : Resolved → ℕ → PlanItem → Planner → Filed × Planner
file_resolved (unresolved reason) id item p = (filed (judged item unmatched (told reason)), p)
file_resolved no_match id item p = (filed (judged item unmatched not_recognized), p)
file_resolved (resolved relative) id item p =
    file_at (safe_destination p.target_root relative) id item p

-- The Relative of an item; the empty text where Rel fails.
unfoldable pub relative_to : Text → Text → Text
relative_to root path = elim (rel (parse_path root) (parse_path path)) [
  | none ↦ []
  | some r ↦ render_rel r
]

-- What planPaths meets of a file: ctx.Err(), realPathWithinRoot, its metadata (whether it is regular, and
-- its object) where they can be had, whether its extension is allowed, catalog.BlacklistMatch on its name
-- and its relative path, and what its name leads to.
pub record Seen : Type 0 where
  pub path : Text
  pub ctx_error : Option Text
  pub is_real : Bool
  pub metadata : Option (Bool × ℕ)
  pub is_allowed : Bool
  pub blacklist_match : Option Text
  pub resolution : Resolved

-- The item that `file` starts with; every way through it sets the action.
unfoldable pub new_item : Seen → ℕ → Planner → PlanItem
new_item s id p = record {
  source = s.path;
  source_object = some id;
  relative = relative_to p.source_root s.path;
  destination = [];
  normalized = base s.path;
  action = unmatched;
  detail = untold;
}

-- file
unfoldable pub file : Seen → Bool → ℕ → Planner → Filed × Planner
file s is_regular id p =
    let item = new_item s id p in
    if not is_regular || not s.is_allowed then (skipped, p) else elim s.blacklist_match [
      | some pattern ↦ (filed (judged item excluded (blacklisted pattern)), p)
      | none ↦ file_resolved s.resolution id item p
    ]

unfoldable pub plan_metadata : Seen → Option (Bool × ℕ) → Planner → Filed × Planner
plan_metadata s none p = (refused (no_stat s.path), p)
plan_metadata s (some (is_regular, id)) p = file s is_regular id p

-- A round of planPaths with requireWithinRoot behind the test of the context.
unfoldable pub plan_path : Seen → Planner → Filed × Planner
plan_path s p =
    if not (within_root p.source_root s.path) || not s.is_real
    then (refused (escapes_source s.path), p)
    else plan_metadata s s.metadata p

unfoldable pub gather : Filed → List PlanItem × List PlanError → List PlanItem × List PlanError
gather (refused e) (items, errs) = (items, e ∷ errs)
gather skipped (items, errs) = (items, errs)
gather (filed item) (items, errs) = (item ∷ items, errs)

-- planPaths
unfoldable pub plan_paths : List Seen → Planner → List PlanItem × List PlanError
plan_paths [] p = ([], [])
plan_paths (s ∷ ss) p = elim s.ctx_error [
  | some e ↦ ([], ended e ∷ [])
  | none ↦ let (result, p') = plan_path s p in gather result (plan_paths ss p')
]
