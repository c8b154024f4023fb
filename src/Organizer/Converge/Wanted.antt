-- ===== src/Organizer/Converge/Wanted.antt =====
-- internal/organizer/plan.go: lemmas on the destinations that convergePublicationAliases gathers.
use aninode.Prelude.{
  ℕ, ◌≡◌, refl, sym, ◌∙◌, ap, inl, inr, Bool, true, false, not, ◌||◌, if◌then◌else◌, ◌==◌, ==_iff,
  Text, text_eq, text_eq_refl, Option, none, some, some-injective, List, [], ◌∷◌, ◌++◌, In,
  All-members, Bool-cases, lookup,
}
use aninode.ReleaseFilter.{is_empty, trim_space}
use aninode.Paths.{clean}
use aninode.Organizer.{
  other_action, Action, link, existing, unmatched, conflict, excluded, PlanItem, within_root,
}
use aninode.Organizer.Series.{IsPublished}
use aninode.Organizer.Converge.{
  Desired, desired_of, want, want_action, want_item, want_items, is_listed, Calls, converge_aliases,
}
use aninode.Organizer.Converge.Kept.{want_items-IsKeyed, converge-keeps}

is_listed-append :
    (path : Text) (xs ys : List Text) → is_listed path ys ≡ true → is_listed path (xs ++ ys) ≡ true
unfolding is_listed
is_listed-append path [] ys h = h
is_listed-append path (x ∷ xs) ys h = elim (Bool-cases (text_eq x path)) [
  | inl t ↦ rw t refl
  | inr f ↦ rw f (is_listed-append path xs ys h)
]

want-keeps :
    (o id : ℕ) (path : Text) (paths : List Text) (desired : Desired)
    → is_listed path (desired_of o desired) ≡ true
    → is_listed path (desired_of o (want id paths desired)) ≡ true
unfolding want desired_of is_listed
want-keeps o id path paths [] h = absurd (cc h)
want-keeps o id path paths ((k, known) ∷ desired) h = elim (Bool-cases (k == id)) [
  | inl t ↦ elim (Bool-cases (k == o)) [
    | inl s ↦
        rw (want, t, desired_of, s) (is_listed-append path paths known (rw (desired_of, s) at h))
    | inr f ↦ rw (want, t, desired_of, f) (rw (desired_of, f) at h)
  ]
  | inr n ↦ elim (Bool-cases (k == o)) [
    | inl s ↦ rw (want, n, desired_of, s) (rw (desired_of, s) at h)
    | inr f ↦
        rw (want, n, desired_of, f) (want-keeps o id path paths desired (rw (desired_of, f) at h))
  ]
]

want-adds :
    (id : ℕ) (path : Text) (desired : Desired)
    → is_listed path (desired_of id (want id (path ∷ []) desired)) ≡ true
unfolding want desired_of is_listed
want-adds id path [] =
    let same : (id == id) ≡ true = (==_iff id id).1 refl in
    rw (desired_of, same, is_listed, text_eq_refl path) refl
want-adds id path ((k, known) ∷ desired) = elim (Bool-cases (k == id)) [
  | inl t ↦ rw (want, t, desired_of, t, is_listed, text_eq_refl path) refl
  | inr n ↦ rw (want, n, desired_of, n) (want-adds id path desired)
]

want_if-keeps :
    (b : Bool) (o id : ℕ) (path other : Text) (desired : Desired)
    → is_listed path (desired_of o desired) ≡ true
    → is_listed path (desired_of o (if b then desired else want id (other ∷ []) desired)) ≡ true
want_if-keeps true o id path other desired h = h
want_if-keeps false o id path other desired h = want-keeps o id path (other ∷ []) desired h

want_action-keeps :
    (action : Action) (o id : ℕ) (path destination : Text) (desired : Desired)
    → is_listed path (desired_of o desired) ≡ true
    → is_listed path (desired_of o (want_action action id destination desired)) ≡ true
unfolding want_action
want_action-keeps excluded o id path destination desired h = want-keeps o id path [] desired h
want_action-keeps link o id path destination desired h =
    want_if-keeps (is_empty destination) o id path (clean destination) desired h
want_action-keeps existing o id path destination desired h =
    want_if-keeps (is_empty destination) o id path (clean destination) desired h
want_action-keeps unmatched o id path destination desired h = h
want_action-keeps conflict o id path destination desired h = h
want_action-keeps (other_action name) o id path destination desired h = h

want_item-keeps :
    (item : PlanItem) (object : Option ℕ) (o : ℕ) (path : Text) (desired : Desired)
    → is_listed path (desired_of o desired) ≡ true
    → is_listed path (desired_of o (want_item item object desired)) ≡ true
unfolding want_item
want_item-keeps item none o path desired h = h
want_item-keeps item (some id) o path desired h =
    want_action-keeps item.action o id path item.destination desired h

want_items-keeps :
    (items : List PlanItem) (o : ℕ) (path : Text) (desired : Desired)
    → is_listed path (desired_of o desired) ≡ true
    → is_listed path (desired_of o (want_items items desired)) ≡ true
unfolding want_items
want_items-keeps [] o path desired h = h
want_items-keeps (item ∷ items) o path desired h =
    want_items-keeps items o path (want_item item item.source_object desired)
      (want_item-keeps item item.source_object o path desired h)

-- A published item has its destination listed.
want_item-adds :
    (item : PlanItem) (o : ℕ) (desired : Desired)
    → IsPublished item
    → is_empty item.destination ≡ false
    → is_listed (clean item.destination) (desired_of o (want_item item (some o) desired)) ≡ true
unfolding want_item want_action
want_item-adds item o desired (inl a) e =
    rw (want_item, a, want_action, e) (want-adds o (clean item.destination) desired)
want_item-adds item o desired (inr a) e =
    rw (want_item, a, want_action, e) (want-adds o (clean item.destination) desired)

want_items-adds :
    (items : List PlanItem) (item : PlanItem) (o : ℕ) (desired : Desired)
    → In item items
    → item.source_object ≡ some o
    → IsPublished item
    → is_empty item.destination ≡ false
    → is_listed (clean item.destination) (desired_of o (want_items items desired)) ≡ true
unfolding want_items
want_items-adds [] item o desired i s h e = elim i [ ]
want_items-adds (x ∷ items) item o desired (inl p) s h e =
    let same : x.source_object ≡ some o = ap (λ y. y.source_object) (sym p) ∙ s in
    let listed = want_item-adds item o desired h e in
    let here : is_listed (clean item.destination)
          (desired_of o (want_item x x.source_object desired))
        ≡ true =
      ap (λ q. is_listed (clean item.destination) (desired_of o (want_item x q desired))) same
      ∙ ap (λ y. is_listed (clean item.destination) (desired_of o (want_item y (some o) desired)))
          (sym p)
      ∙ listed in
    want_items-keeps items o (clean item.destination) (want_item x x.source_object desired) here
want_items-adds (x ∷ items) item o desired (inr i) s h e =
    want_items-adds items item o (want_item x x.source_object desired) i s h e

-- convergePublicationAliases removes no name under which the plan publishes an object: where the
-- file at the cleaned destination of a link or existing item, which names a destination, is the
-- object of the item, it still is behind the removal of the old names, whatever system calls fail.
pub converge_aliases-keeps :
    (calls : Text → Calls) (paths_of : ℕ → Option (List Text)) (managed : Bool)
    (publication_root library_root : Text) (ctx : ℕ) (items : List PlanItem)
    (files rest : List (Text × ℕ)) (removed : ℕ) (item : PlanItem) (o : ℕ)
    → converge_aliases calls paths_of managed publication_root library_root ctx items files
      ≡ some (rest, removed)
    → In item items
    → item.source_object ≡ some o
    → IsPublished item
    → is_empty item.destination ≡ false
    → lookup (clean item.destination) files ≡ some o
    → lookup (clean item.destination) rest ≡ some o
unfolding converge_aliases
converge_aliases-keeps calls paths_of managed publication_root library_root ctx items files rest
      removed item o r i s h e there =
    elim (Bool-cases (not managed || is_empty (trim_space publication_root))) [
      | inl t ↦
          let same = some-injective (rw (converge_aliases, t) at r) in
          ap (λ x. lookup (clean item.destination) x.0) (sym same) ∙ there
      | inr f ↦
          elim (Bool-cases
            (is_empty library_root || not (within_root library_root (clean publication_root)))) [
              | inl t ↦ absurd (cc (rw (converge_aliases, f, t) at r))
              | inr g ↦
                  let same = some-injective (rw (converge_aliases, f, g) at r) in
                  let desired = want_items items [] in
                  ap (λ x. lookup (clean item.destination) x.0) (sym same)
                  ∙ converge-keeps calls paths_of (clean publication_root) ctx desired desired
                      (files, 0) (clean item.destination) o (want_items-IsKeyed items [] tt)
                      (All-members desired) (want_items-adds items item o [] i s h e) there
            ]
    ]
