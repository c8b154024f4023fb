-- ===== src/Organizer/Apply/Linked.antt =====
-- internal/organizer/plan.go: lemmas on what ApplyPlan links and counts.
use aninode.Prelude.{
  ℕ, suc, ◌+◌, ◌≡◌, refl, sym, ap, inl, inr, Bool, true, false, not, ◌||◌, if◌then◌else◌, ◌==◌,
  ==_iff, Text, arith, Option, none, some, List, [], ◌∷◌, All, In, In-All, Bool-cases,
}
use aninode.Organizer.{
  other_action, Action, link, existing, unmatched, conflict, excluded, PlanItem, within_root,
}
use aninode.Organizer.Apply.{
  ApplyError, ended, escapes_roots, escapes_source, not_regular, object_changed, in_the_way,
  cross_device, link_failed, unknown_action, Linking, made, was_there, other_device, file_exists,
  fails, Met, LinkCall, Applying, complain, count_conflict, count_existing, count_linking,
  call_link, check_object, apply_link, apply_action, apply_item, apply_items, no_result, apply_plan,
}

-- The errors of items that no counter but Scanned counts.
unfoldable pub uncounted : List ApplyError → ℕ
uncounted [] = 0
uncounted (ended ∷ errs) = uncounted errs
uncounted (escapes_roots ∷ errs) = suc (uncounted errs)
uncounted (escapes_source ∷ errs) = suc (uncounted errs)
uncounted (not_regular ∷ errs) = suc (uncounted errs)
uncounted (object_changed ∷ errs) = uncounted errs
uncounted (in_the_way ∷ errs) = uncounted errs
uncounted (cross_device ∷ errs) = suc (uncounted errs)
uncounted (link_failed ∷ errs) = suc (uncounted errs)
uncounted (unknown_action name ∷ errs) = suc (uncounted errs)

-- Whether a call is one for an item of the list.
abbrev pub IsPlanned : Text → Text → List (PlanItem × Met) → LinkCall → Type 0
IsPlanned source target items c =
    (item : PlanItem) × (met : Met) × In (item, met) items
    × (item.action ≡ link)
    × (item.source ≡ c.source)
    × (item.destination ≡ c.destination)
    × (item.source_object ≡ some c.object)
    × (met.identity ≡ some c.object)
    × (within_root source c.source ≡ true)
    × (within_root target c.destination ≡ true)

-- How many items a result accounts for, with those that only an error tells of.
unfoldable pub accounted : Applying → ℕ
accounted a =
    a.result.linked
    + a.result.present
    + a.result.left_out
    + a.result.unknown
    + a.result.conflicts
    + uncounted a.errs

-- The item is accounted for once, from the state in which it is scanned.
Accounts : Applying → Applying → Type 0
Accounts a b = (accounted b ≡ suc (accounted a)) × (b.result.scanned ≡ a.result.scanned)

count_linking-Accounts : (l : Linking) (a : Applying) → Accounts a (count_linking l a)
unfolding Accounts accounted count_linking complain uncounted count_conflict count_existing
count_linking-Accounts made a = (omega arith, refl)
count_linking-Accounts was_there a = (omega arith, refl)
count_linking-Accounts other_device a = (omega arith, refl)
count_linking-Accounts file_exists a = (omega arith, refl)
count_linking-Accounts fails a = (omega arith, refl)

call_link-Accounts :
    (id : ℕ) (item : PlanItem) (l : Linking) (a : Applying) → Accounts a (call_link id item l a)
unfolding Accounts accounted call_link
call_link-Accounts id item l a =
    let counted = count_linking-Accounts l (record a {
      calls =
          record { source = item.source; destination = item.destination; object = id } ∷ a.calls;
    }) in
    (counted.0, counted.1)

if-Accounts :
    (a x y : Applying) (b : Bool) → Accounts a x → Accounts a y → Accounts a (if b then x else y)
if-Accounts a x y true h k = h
if-Accounts a x y false h k = k

check_object-Accounts :
    (found planned : Option ℕ) (item : PlanItem) (l : Linking) (a : Applying)
    → Accounts a (check_object found planned item l a)
unfolding Accounts accounted check_object complain uncounted count_conflict
check_object-Accounts none planned item l a = (omega arith, refl)
check_object-Accounts (some found) none item l a = (omega arith, refl)
check_object-Accounts (some found) (some id) item l a =
    if-Accounts a _ _ (found == id) (call_link-Accounts id item l a) (omega arith, refl)

apply_link-Accounts :
    (source target : Text) (item : PlanItem) (met : Met) (a : Applying)
    → Accounts a (apply_link source target item met a)
unfolding Accounts accounted apply_link complain uncounted
apply_link-Accounts source target item met a =
    if-Accounts a _ _
      (not (within_root source item.source) || not (within_root target item.destination))
      (omega arith, refl)
      (if-Accounts a _ _ (not met.is_real) (omega arith, refl)
        (if-Accounts a _ _ (not met.is_regular) (omega arith, refl)
          (check_object-Accounts met.identity item.source_object item met.linking a)))

apply_action-Accounts :
    (action : Action) (source target : Text) (item : PlanItem) (met : Met) (a : Applying)
    → Accounts a (apply_action action source target item met a)
unfolding Accounts accounted apply_action count_conflict count_existing complain uncounted
apply_action-Accounts existing source target item met a = (omega arith, refl)
apply_action-Accounts unmatched source target item met a = (omega arith, refl)
apply_action-Accounts excluded source target item met a = (omega arith, refl)
apply_action-Accounts conflict source target item met a = (omega arith, refl)
apply_action-Accounts (other_action name) source target item met a = (omega arith, refl)
apply_action-Accounts link source target item met a = apply_link-Accounts source target item met a

apply_items-accounted :
    (source target : Text) (items : List (PlanItem × Met)) (a : Applying)
    → accounted a ≡ a.result.scanned
    → accounted (apply_items source target items a)
      ≡ (apply_items source target items a).result.scanned
unfolding apply_items apply_item Accounts accounted complain uncounted
apply_items-accounted source target [] a h = h
apply_items-accounted source target ((item, met) ∷ rest) a h = elim (Bool-cases met.has_ended) [
  | inl t ↦ rw (apply_items, t) h
  | inr f ↦
      let scanned : Applying = record a {
        result = record a.result { scanned = suc a.result.scanned };
      } in
      let (more, same) = apply_action-Accounts item.action source target item met scanned in
      rw (apply_items, f)
        (apply_items-accounted source target rest (apply_item source target item met a)
          (omega (arith, more, same, h)))
]

-- What holds of a call that the round of an item makes.
abbrev IsCall : Text → Text → PlanItem → Option ℕ → LinkCall → Type 0
IsCall source target item identity c =
    (item.source ≡ c.source)
    × (item.destination ≡ c.destination)
    × (item.source_object ≡ some c.object)
    × (identity ≡ some c.object)
    × (within_root source c.source ≡ true)
    × (within_root target c.destination ≡ true)

count_linking-calls : (l : Linking) (a : Applying) → (count_linking l a).calls ≡ a.calls
unfolding count_linking complain
count_linking-calls made a = refl
count_linking-calls was_there a = refl
count_linking-calls other_device a = refl
count_linking-calls file_exists a = refl
count_linking-calls fails a = refl

module _ (P : LinkCall → Type 0) where
  check_object-calls :
      (source target : Text) (found planned : Option ℕ) (item : PlanItem) (l : Linking)
      (a : Applying)
      → (within_root source item.source ≡ true) × (within_root target item.destination ≡ true)
      → item.source_object ≡ planned
      → ((c : LinkCall) → IsCall source target item found c → P c)
      → All P a.calls
      → All P (check_object found planned item l a).calls
  unfolding check_object complain call_link
  check_object-calls source target none planned item l a w e f h = h
  check_object-calls source target (some found) none item l a w e f h = h
  check_object-calls source target (some found) (some id) item l a w e f h =
      elim (Bool-cases (found == id)) [
        | inr n ↦ rw (check_object, n) h
        | inl t ↦
            let c : LinkCall = record {
              source = item.source;
              destination = item.destination;
              object = id;
            } in
            rw (check_object, t, count_linking-calls l (record a { calls = c ∷ a.calls }))
              (f c (refl, refl, e, ap some ((==_iff found id).0 t), w.0, w.1), h)
      ]

  if-calls :
      (x y : Applying) (b : Bool)
      → All P x.calls
      → (b ≡ false → All P y.calls)
      → All P (if b then x else y).calls
  if-calls x y true h k = h
  if-calls x y false h k = k refl

  roots_within : (a b : Bool) → (not a || not b) ≡ false → (a ≡ true) × (b ≡ true)
  roots_within true true h = (refl, refl)
  roots_within true false h = absurd (cc h)
  roots_within false b h = absurd (cc h)

  apply_action-calls :
      (action : Action) (source target : Text) (item : PlanItem) (met : Met) (a : Applying)
      → ((c : LinkCall) → action ≡ link → IsCall source target item met.identity c → P c)
      → All P a.calls
      → All P (apply_action action source target item met a).calls
  unfolding apply_action apply_link complain
  apply_action-calls existing source target item met a f h = h
  apply_action-calls unmatched source target item met a f h = h
  apply_action-calls excluded source target item met a f h = h
  apply_action-calls conflict source target item met a f h = h
  apply_action-calls (other_action name) source target item met a f h = h
  apply_action-calls link source target item met a f h =
      if-calls _ _
        (not (within_root source item.source) || not (within_root target item.destination)) h
        (λ w. if-calls _ _ (not met.is_real) h (λ r. if-calls _ _ (not met.is_regular) h (λ s.
          check_object-calls source target met.identity item.source_object item met.linking a
            (roots_within _ _ w) refl (λ c k. f c refl k) h)))

  apply_items-calls :
      (source target : Text) (items : List (PlanItem × Met)) (a : Applying)
      → ((item : PlanItem) (met : Met) (c : LinkCall)
          → In (item, met) items
          → item.action ≡ link
          → IsCall source target item met.identity c
          → P c)
      → All P a.calls
      → All P (apply_items source target items a).calls
  unfolding apply_items apply_item complain
  apply_items-calls source target [] a f h = h
  apply_items-calls source target ((item, met) ∷ rest) a f h = elim (Bool-cases met.has_ended) [
    | inl t ↦ rw (apply_items, t) h
    | inr n ↦
        rw (apply_items, n)
          (apply_items-calls source target rest (apply_item source target item met a)
            (λ i m c j. f i m c (inr j))
            (apply_action-calls item.action source target item met
              (record a { result = record a.result { scanned = suc a.result.scanned } })
              (λ c. f item met c (inl refl)) h))
  ]

-- Every call of LinkObserved that ApplyPlan makes is for a link item of the plan, with its paths,
-- which lie within the two roots, and with its object, which the file still was when ApplyPlan
-- looked.
pub apply_plan-links :
    (source target : Text) (items : List (PlanItem × Met)) (c : LinkCall)
    → In c (apply_plan source target items).calls
    → IsPlanned source target items c
unfolding apply_plan
apply_plan-links source target items c i =
    In-All (IsPlanned source target items) c (apply_plan source target items).calls i (
      apply_items-calls (IsPlanned source target items) source target items
        (record { result = no_result; errs = []; calls = [] })
        (λ item met d j k call. (item, met, j, k, call.0, call.1, call.2, call.3, call.4, call.5))
        tt)

-- ApplyPlan accounts once for every item that it scans: as linked, existing, excluded, unmatched or
-- in conflict, or by an error that no other counter counts.
pub apply_plan-accounted :
    (source target : Text) (items : List (PlanItem × Met))
    → (apply_plan source target items).result.scanned ≡ accounted (apply_plan source target items)
unfolding apply_plan accounted uncounted
apply_plan-accounted source target items = sym (
    apply_items-accounted source target items (record { result = no_result; errs = []; calls = [] })
      refl)
