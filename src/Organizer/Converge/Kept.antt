-- ===== src/Organizer/Converge/Kept.antt =====
-- internal/organizer/plan.go: lemmas on the names that convergePublicationAliases keeps.
use aninode.Prelude.{
  ℕ, zero, suc, ◌≡◌, ◌≢◌, refl, sym, ◌∙◌, ap, ◌⊎◌, inl, inr, Bool, true, false, not, ◌||◌,
  if◌then◌else◌, ◌==◌, ==_iff, Text, arith, Option, none, some, some-injective, List, [], ◌∷◌, All,
  In, In-All, Ordered, Bool-cases, lookup, lookup-delete_other,
}
use aninode.ReleaseFilter.{is_empty}
use aninode.Paths.{clean}
use aninode.Organizer.{
  other_action, Action, link, existing, unmatched, conflict, excluded, PlanItem, within_root,
}
use aninode.Organizer.Converge.{
  Desired, desired_of, want, want_action, want_item, want_items, is_listed, Calls, calls_work,
  calls_fail, sync_fails, unlink_verified, unlink_opened, remove_observed_link, count_removed,
  drop_stale, drop_all, drop_object, converge_object, converge, is_proven,
}

-- The keys are distinct.
abbrev pub IsKeyed : Desired → Type 0
IsKeyed = Ordered (λ a b. a.0 ≢ b.0)

want-Lacks :
    (id k : ℕ) (paths : List Text) (desired : Desired)
    → k ≢ id
    → All (λ b. k ≢ b.0) desired
    → All (λ b. k ≢ b.0) (want id paths desired)
unfolding want
want-Lacks id k paths [] n h = (n, tt)
want-Lacks id k paths ((o, known) ∷ desired) n h = elim (Bool-cases (o == id)) [
  | inl t ↦ rw (want, t) h
  | inr f ↦ rw (want, f) (h.0, want-Lacks id k paths desired n h.1)
]

want-IsKeyed :
    (id : ℕ) (paths : List Text) (desired : Desired)
    → IsKeyed desired
    → IsKeyed (want id paths desired)
unfolding want
want-IsKeyed id paths [] h = (tt, tt)
want-IsKeyed id paths ((o, known) ∷ desired) h = elim (Bool-cases (o == id)) [
  | inl t ↦ rw (want, t) h
  | inr f ↦
      let other : o ≢ id = λ p. absurd (cc (f, (==_iff o id).1 p)) in
      rw (want, f) (want-Lacks id o paths desired other h.0, want-IsKeyed id paths desired h.1)
]

want_if-IsKeyed :
    (b : Bool) (id : ℕ) (path : Text) (desired : Desired)
    → IsKeyed desired
    → IsKeyed (if b then desired else want id (path ∷ []) desired)
want_if-IsKeyed true id path desired h = h
want_if-IsKeyed false id path desired h = want-IsKeyed id (path ∷ []) desired h

want_action-IsKeyed :
    (action : Action) (id : ℕ) (destination : Text) (desired : Desired)
    → IsKeyed desired
    → IsKeyed (want_action action id destination desired)
unfolding want_action
want_action-IsKeyed excluded id destination desired h = want-IsKeyed id [] desired h
want_action-IsKeyed link id destination desired h =
    want_if-IsKeyed (is_empty destination) id (clean destination) desired h
want_action-IsKeyed existing id destination desired h =
    want_if-IsKeyed (is_empty destination) id (clean destination) desired h
want_action-IsKeyed unmatched id destination desired h = h
want_action-IsKeyed conflict id destination desired h = h
want_action-IsKeyed (other_action name) id destination desired h = h

want_item-IsKeyed :
    (item : PlanItem) (object : Option ℕ) (desired : Desired)
    → IsKeyed desired
    → IsKeyed (want_item item object desired)
unfolding want_item
want_item-IsKeyed item none desired h = h
want_item-IsKeyed item (some id) desired h =
    want_action-IsKeyed item.action id item.destination desired h

pub want_items-IsKeyed :
    (items : List PlanItem) (desired : Desired)
    → IsKeyed desired
    → IsKeyed (want_items items desired)
unfolding want_items
want_items-IsKeyed [] desired h = h
want_items-IsKeyed (item ∷ items) desired h =
    want_items-IsKeyed items (want_item item item.source_object desired)
      (want_item-IsKeyed item item.source_object desired h)

-- A key leads to its own set.
desired_of-In :
    (id : ℕ) (paths : List Text) (desired : Desired)
    → IsKeyed desired
    → In (id, paths) desired
    → desired_of id desired ≡ paths
unfolding desired_of
desired_of-In id paths [] h i = elim i [ ]
desired_of-In id paths ((o, known) ∷ desired) h (inl e) =
    let same : (o == id) ≡ true = (==_iff o id).1 (sym (ap (λ b. b.0) e)) in
    rw (desired_of, same) (sym (ap (λ b. b.1) e))
desired_of-In id paths ((o, known) ∷ desired) h (inr i) =
    let other : o ≢ id = In-All (λ b. o ≢ b.0) (id, paths) desired i h.0 in
    let apart : (o == id) ≡ false = ground (arith, other) in
    rw (desired_of, apart) (desired_of-In id paths desired h.1 i)

-- A name is kept where it is another path, or names another object.
unlink_verified-keeps :
    (synced : Bool) (path : Text) (id found : ℕ) (files : List (Text × ℕ)) (other : Text) (o : ℕ)
    → lookup path files ≡ some found
    → (other ≢ path) ⊎ (o ≢ id)
    → lookup other files ≡ some o
    → lookup other (unlink_verified synced path id found files).1 ≡ some o
unfolding unlink_verified
unlink_verified-keeps synced path id found files other o e n h = elim (Bool-cases (found == id)) [
  | inr f ↦ rw (unlink_verified, f) h
  | inl t ↦
      let apart : other ≢ path = elim n [
        | inl a ↦ a
        | inr b ↦ λ p.
            absurd
              (b (some-injective (sym h ∙ ap (λ x. lookup x files) p ∙ e) ∙ (==_iff found id).0 t))
      ] in
      rw (unlink_verified, t) (lookup-delete_other other path files apart ∙ h)
]

opened_keeps :
    (synced : Bool) (path : Text) (id : ℕ) (found : Option ℕ) (files : List (Text × ℕ))
    (other : Text) (o : ℕ)
    → lookup path files ≡ found
    → (other ≢ path) ⊎ (o ≢ id)
    → lookup other files ≡ some o
    → lookup other (unlink_opened synced path id found files).1 ≡ some o
unfolding unlink_opened
opened_keeps synced path id none files other o e n h = h
opened_keeps synced path id (some found) files other o e n h =
    unlink_verified-keeps synced path id found files other o e n h

or_false : (a b : Bool) → (a || b) ≡ false → (a ≡ false) × (b ≡ false)
or_false false b h = (refl, h)
or_false true b h = absurd (cc h)

remove_observed_link-keeps :
    (calls : Calls) (path : Text) (id : ℕ) (files : List (Text × ℕ)) (other : Text) (o : ℕ)
    → (other ≢ path) ⊎ (o ≢ id)
    → lookup other files ≡ some o
    → lookup other (remove_observed_link calls path id files).1 ≡ some o
unfolding remove_observed_link
remove_observed_link-keeps calls_fail path id files other o n h = h
remove_observed_link-keeps calls_work path id files other o n h =
    opened_keeps true path id (lookup path files) files other o refl n h
remove_observed_link-keeps sync_fails path id files other o n h =
    opened_keeps false path id (lookup path files) files other o refl n h

count_removed-files :
    (removed : ℕ) (result : Bool × List (Text × ℕ)) → (count_removed removed result).0 ≡ result.1
unfolding count_removed
count_removed-files removed (true, files) = refl
count_removed-files removed (false, files) = refl

is_listed-neq :
    (path stale : Text) (destinations : List Text)
    → is_listed path destinations ≡ true
    → is_listed stale destinations ≡ false
    → path ≢ stale
is_listed-neq path stale destinations h k p =
    absurd (cc (h, k, ap (λ x. is_listed x destinations) p))

module _ (calls : Text → Calls) (paths_of : ℕ → Option (List Text)) (root : Text) where
  drop_stale-keeps :
      (id : ℕ) (destinations : List Text) (stale : Text) (state : List (Text × ℕ) × ℕ) (path : Text)
      (o : ℕ)
      → (is_listed path destinations ≡ true) ⊎ (o ≢ id)
      → lookup path state.0 ≡ some o
      → lookup path (drop_stale calls paths_of root id destinations stale state).0 ≡ some o
  unfolding drop_stale
  drop_stale-keeps id destinations stale (files, removed) path o safe h =
      elim (Bool-cases
        (is_listed (clean stale) destinations || not (within_root root (clean stale)))) [
          | inl t ↦ rw (drop_stale, t) h
          | inr f ↦
              let result = remove_observed_link (calls (clean stale)) (clean stale) id files in
              let apart : (path ≢ clean stale) ⊎ (o ≢ id) = elim safe [
                | inl l ↦ inl (is_listed-neq path (clean stale) destinations l (or_false _ _ f).0)
                | inr n ↦ inr n
              ] in
              let kept =
                remove_observed_link-keeps (calls (clean stale)) (clean stale) id files path o apart
                  h in
              rw (drop_stale, f) (ap (lookup path) (count_removed-files removed result) ∙ kept)
        ]

  drop_all-keeps :
      (id : ℕ) (destinations stales : List Text) (state : List (Text × ℕ) × ℕ) (path : Text) (o : ℕ)
      → (is_listed path destinations ≡ true) ⊎ (o ≢ id)
      → lookup path state.0 ≡ some o
      → lookup path (drop_all calls paths_of root id destinations stales state).0 ≡ some o
  unfolding drop_all
  drop_all-keeps id destinations [] state path o safe h = h
  drop_all-keeps id destinations (stale ∷ stales) state path o safe h =
      drop_all-keeps id destinations stales
        (drop_stale calls paths_of root id destinations stale state) path o safe
        (drop_stale-keeps id destinations stale state path o safe h)

  drop_object-keeps :
      (id : ℕ) (destinations : List Text) (paths : Option (List Text)) (state : List (Text × ℕ) × ℕ)
      (path : Text) (o : ℕ)
      → (is_listed path destinations ≡ true) ⊎ (o ≢ id)
      → lookup path state.0 ≡ some o
      → lookup path (drop_object calls paths_of root id destinations paths state).0 ≡ some o
  unfolding drop_object
  drop_object-keeps id destinations none state path o safe h = h
  drop_object-keeps id destinations (some paths) state path o safe h =
      drop_all-keeps id destinations paths state path o safe h

  converge_object-keeps :
      (id : ℕ) (destinations : List Text) (state : List (Text × ℕ) × ℕ) (path : Text) (o : ℕ)
      → (is_listed path destinations ≡ true) ⊎ (o ≢ id)
      → lookup path state.0 ≡ some o
      → lookup path (converge_object calls paths_of root id destinations state).0 ≡ some o
  unfolding converge_object
  converge_object-keeps id destinations (files, removed) path o safe h =
      elim (Bool-cases (is_proven files id destinations)) [
        | inl t ↦
            rw (converge_object, t)
              (drop_object-keeps id destinations (paths_of id) (files, removed) path o safe h)
        | inr f ↦ rw (converge_object, f) h
      ]

  -- A destination of an object is safe from the rounds of all objects.
  pub converge-keeps :
      (ctx : ℕ) (all desired : Desired) (state : List (Text × ℕ) × ℕ) (path : Text) (o : ℕ)
      → IsKeyed all
      → All (λ b. In b all) desired
      → is_listed path (desired_of o all) ≡ true
      → lookup path state.0 ≡ some o
      → lookup path (converge calls paths_of root ctx desired state).0 ≡ some o
  unfolding converge
  converge-keeps ctx all [] state path o k i l h = h
  converge-keeps zero all ((id, destinations) ∷ desired) state path o k i l h = h
  converge-keeps (suc ctx) all ((id, destinations) ∷ desired) state path o k i l h =
      let safe : (is_listed path destinations ≡ true) ⊎ (o ≢ id) = elim (Bool-cases (o == id)) [
        | inl t ↦
            let same : desired_of o all ≡ destinations =
              ap (λ x. desired_of x all) ((==_iff o id).0 t)
              ∙ desired_of-In id destinations all k i.0 in
            inl (ap (is_listed path) (sym same) ∙ l)
        | inr f ↦ inr (λ p. absurd (cc (f, (==_iff o id).1 p)))
      ] in
      converge-keeps ctx all desired (converge_object calls paths_of root id destinations state)
        path o k i.1 l (converge_object-keeps id destinations state path o safe h)
