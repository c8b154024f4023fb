-- ===== src/Organizer/Series.antt =====
-- internal/organizer/plan.go: lemmas on the plan of a season.
use aninode.Prelude.{
  ℕ, ◌≡◌, refl, sym, ◌∙◌, ap, ◌⊎◌, inl, inr, Bool, false, not, ◌||◌, ◌==◌, ==_iff, Text, arith,
  Option, none, some, some-injective, List, [], ◌∷◌, All, Ordered, In, In-All, Bool-cases,
  Option-cases, lookup, assign, text_eq, text_eq_sound, neq_text, lookup-assign_same,
  lookup-assign_other,
}
use aninode.Paths.{clean}
use aninode.Organizer.{
  Action, link, existing, unmatched, conflict, excluded, Detail, PlanItem, Planner, judged, reserve,
  other_object, is_taken, linked_path, settle_new, remember, settle_found, settle, Filed, refused,
  skipped, filed, PlanError, file_at, file_resolved, Resolved, unresolved, no_match, resolved, Seen,
  new_item, file, plan_metadata, within_root, plan_path, gather, plan_paths, safe_destination,
}

-- Whether a plan publishes the item.
abbrev pub IsPublished : PlanItem → Type 0
IsPublished item = (item.action ≡ link) ⊎ (item.action ≡ existing)

-- The object stands at the destination, or it is planned to.
abbrev Owns : Planner → Text → ℕ → Type 0
Owns p d id =
    (lookup (clean d) p.target_ids ≡ some id)
    ⊎ ((lookup (clean d) p.target_ids ≡ none) × (lookup d p.planned_destinations ≡ some id))

Owns-one : (p : Planner) (d : Text) (i j : ℕ) → Owns p d i → Owns p d j → i ≡ j
Owns-one p d i j (inl a) (inl b) = some-injective (sym a ∙ b)
Owns-one p d i j (inl a) (inr (b, c)) = absurd (cc (a, b))
Owns-one p d i j (inr (a, c)) (inl b) = absurd (cc (a, b))
Owns-one p d i j (inr (a, c)) (inr (b, e)) = some-injective (sym c ∙ e)

-- Nothing that is planned is given up.
abbrev Grows : Planner → Planner → Type 0
Grows p q = (d : Text) (id : ℕ) → Owns p d id → Owns q d id

taken_same : (i id : ℕ) → is_taken (some i) id ≡ false → i ≡ id
unfolding is_taken
taken_same i id h = ground arith

reserve-Grows :
    (id : ℕ) (d : Text) (p : Planner)
    → is_taken (lookup d p.planned_destinations) id ≡ false
    → Grows p (reserve id d p)
unfolding reserve
reserve-Grows id d p h e i (inl a) = inl a
reserve-Grows id d p h e i (inr (a, b)) = elim (Bool-cases (text_eq e d)) [
  | inl t ↦
      let same = text_eq_sound e d t in
      let owner : lookup d p.planned_destinations ≡ some i =
        sym (ap (λ k. lookup k p.planned_destinations) same) ∙ b in
      let mine : i ≡ id = taken_same i id (rw owner at h) in
      inr (
        a,
        ap (λ k. lookup k (assign d id p.planned_destinations)) same
            ∙ lookup-assign_same d id p.planned_destinations
            ∙ ap some (sym mine),
      )
  | inr n ↦ inr (a, (lookup-assign_other e d id p.planned_destinations (neq_text e d n) ∙ b))
]

-- What a verdict on a file leaves behind.
abbrev Fits : Planner → Planner → ℕ → PlanItem → Type 0
Fits p q id item =
    Grows p q × (IsPublished item → (item.source_object ≡ some id) × Owns q item.destination id)

unpublished :
    (item : PlanItem)
    → (item.action ≡ link → ⊥)
    → (item.action ≡ existing → ⊥)
    → IsPublished item
    → ⊥
unpublished item f g (inl e) = f e
unpublished item f g (inr e) = g e

-- An item that is judged otherwise fits, where the planner stays.
stay-Fits :
    (p : Planner) (id : ℕ) (item : PlanItem) (action : Action) (detail : Detail)
    → (action ≡ link → ⊥)
    → (action ≡ existing → ⊥)
    → Fits p p id (judged item action detail)
unfolding judged
stay-Fits p id item action detail f g =
    ((λ d i o. o), λ h. absurd (unpublished (judged item action detail) f g h))

remember-Grows : (id : ℕ) (path : Text) (p : Planner) → Grows p (remember id path p)
unfolding remember
remember-Grows id path p d i o = o

settle_found-Fits :
    (found id : ℕ) (item : PlanItem) (p : Planner)
    → lookup (clean item.destination) p.target_ids ≡ some found
    → item.source_object ≡ some id
    → Fits p (settle_found found id item p).1 id (settle_found found id item p).0
unfolding settle_found remember judged
settle_found-Fits found id item p e s = elim (Bool-cases (found == id)) [
  | inl t ↦
      let same : found ≡ id = (==_iff found id).0 t in
      rw (settle_found, t) (remember-Grows id item.destination p, λ h. (s, inl (e ∙ ap some same)))
  | inr f ↦
      rw (settle_found, f)
        (stay-Fits p id item conflict (other_object item.destination item.source) (λ q. cc q)
          (λ q. cc q))
]

settle_new-Fits :
    (path : Option Text) (id : ℕ) (item : PlanItem) (p : Planner)
    → lookup (clean item.destination) p.target_ids ≡ none
    → is_taken (lookup item.destination p.planned_destinations) id ≡ false
    → item.source_object ≡ some id
    → Fits p (settle_new path id item p).1 id (settle_new path id item p).0
unfolding settle_new judged reserve
settle_new-Fits none id item p e f s = (
  reserve-Grows id item.destination p f,
  λ h. (s, inr (e, lookup-assign_same item.destination id p.planned_destinations)),
)
settle_new-Fits (some path) id item p e f s = (
  reserve-Grows id item.destination p f,
  λ h. (s, inr (e, lookup-assign_same item.destination id p.planned_destinations)),
)

settle-Fits :
    (found : Option ℕ) (id : ℕ) (item : PlanItem) (p : Planner)
    → lookup (clean item.destination) p.target_ids ≡ found
    → item.source_object ≡ some id
    → Fits p (settle found id item p).1 id (settle found id item p).0
unfolding settle
settle-Fits (some found) id item p e s = settle_found-Fits found id item p e s
settle-Fits none id item p e s =
    elim (Bool-cases (is_taken (lookup item.destination p.planned_destinations) id)) [
      | inl t ↦ rw (settle, t) (stay-Fits p id item conflict _ (λ q. cc q) (λ q. cc q))
      | inr f ↦ rw (settle, f) (settle_new-Fits (linked_path id p.linked) id item p e f s)
    ]

-- The same for the outcome of a file.
abbrev FitsFiled : Planner → Planner → Filed → Type 0
FitsFiled p q (refused e) = Grows p q
FitsFiled p q skipped = Grows p q
FitsFiled p q (filed item) = (id : ℕ) × Fits p q id item

file_at-FitsFiled :
    (destination : Option Text) (id : ℕ) (item : PlanItem) (p : Planner)
    → item.source_object ≡ some id
    → FitsFiled p (file_at destination id item p).1 (file_at destination id item p).0
unfolding file_at
file_at-FitsFiled none id item p s = λ d i o. o
file_at-FitsFiled (some destination) id item p s = (
  id,
  settle-Fits (lookup (clean destination) p.target_ids) id
      (record item { destination = destination }) p refl s,
)

file_resolved-FitsFiled :
    (resolution : Resolved) (id : ℕ) (item : PlanItem) (p : Planner)
    → item.source_object ≡ some id
    → FitsFiled p (file_resolved resolution id item p).1 (file_resolved resolution id item p).0
unfolding file_resolved
file_resolved-FitsFiled (unresolved reason) id item p s =
    (id, stay-Fits p id item unmatched _ (λ q. cc q) (λ q. cc q))
file_resolved-FitsFiled no_match id item p s =
    (id, stay-Fits p id item unmatched _ (λ q. cc q) (λ q. cc q))
file_resolved-FitsFiled (resolved relative) id item p s =
    file_at-FitsFiled (safe_destination p.target_root relative) id item p s

file-FitsFiled :
    (s : Seen) (is_regular : Bool) (id : ℕ) (p : Planner)
    → FitsFiled p (file s is_regular id p).1 (file s is_regular id p).0
unfolding file new_item
file-FitsFiled s is_regular id p = elim (Bool-cases (not is_regular || not s.is_allowed)) [
  | inl t ↦ rw (file, t) (λ d i o. o)
  | inr f ↦ elim (Option-cases s.blacklist_match) [
    | inl (pattern, b) ↦
        rw (file, f, b) (id, stay-Fits p id (new_item s id p) excluded _ (λ q. cc q) (λ q. cc q))
    | inr b ↦ rw (file, f, b) (file_resolved-FitsFiled s.resolution id (new_item s id p) p refl)
  ]
]

plan_metadata-FitsFiled :
    (s : Seen) (m : Option (Bool × ℕ)) (p : Planner)
    → FitsFiled p (plan_metadata s m p).1 (plan_metadata s m p).0
unfolding plan_metadata
plan_metadata-FitsFiled s none p = λ d i o. o
plan_metadata-FitsFiled s (some (is_regular, id)) p = file-FitsFiled s is_regular id p

plan_path-FitsFiled : (s : Seen) (p : Planner) → FitsFiled p (plan_path s p).1 (plan_path s p).0
unfolding plan_path
plan_path-FitsFiled s p =
    elim (Bool-cases (not (within_root p.source_root s.path) || not s.is_real)) [
      | inl t ↦ rw (plan_path, t) (λ d i o. o)
      | inr f ↦ rw (plan_path, f) (plan_metadata-FitsFiled s s.metadata p)
    ]

-- The published items of a plan and what the planner knew before: they agree on the owners.
abbrev Respects : Planner → PlanItem → Type 0
Respects p item =
    (id : ℕ) → IsPublished item → Owns p item.destination id → item.source_object ≡ some id

FitsFiled-Grows : (p q : Planner) (result : Filed) → FitsFiled p q result → Grows p q
FitsFiled-Grows p q (refused e) f = f
FitsFiled-Grows p q skipped f = f
FitsFiled-Grows p q (filed x) (id, (g, h)) = g

filed-injective : {x y : PlanItem} → filed x ≡ filed y → x ≡ y
filed-injective e = cc e

-- A filed item that is published owns its destination behind its round.
filed-Owns :
    (p q : Planner) (x : PlanItem)
    → FitsFiled p q (filed x)
    → IsPublished x
    → (id : ℕ) × (x.source_object ≡ some id) × Owns q x.destination id
filed-Owns p q x (id, (g, owns)) h = let (a, b) = owns h in (id, a, b)

abbrev pub Agrees : PlanItem → PlanItem → Type 0
Agrees x y =
    IsPublished x
    → IsPublished y
    → x.destination ≡ y.destination
    → x.source_object ≡ y.source_object

Respects-Grows :
    (p q : Planner) (items : List PlanItem)
    → Grows p q
    → All (Respects q) items
    → All (Respects p) items
Respects-Grows p q [] g h = tt
Respects-Grows p q (x ∷ items) g (h, hs) =
    ((λ id k o. h id k (g x.destination id o)), Respects-Grows p q items g hs)

Respects-Agrees :
    (p q : Planner) (x : PlanItem) (items : List PlanItem)
    → FitsFiled p q (filed x)
    → All (Respects q) items
    → All (Agrees x) items
Respects-Agrees p q x [] f h = tt
Respects-Agrees p q x (y ∷ items) f (h, hs) = (
  λ k l d.
      let (id, e, o) = filed-Owns p q x f k in
      let owned : Owns q y.destination id = rw d at o in e ∙ sym (h id l owned),
  Respects-Agrees p q x items f hs,
)

gather-Agrees :
    (p q : Planner) (result : Filed) (rest : List PlanItem × List PlanError)
    → FitsFiled p q result
    → All (Respects q) rest.0
    → Ordered Agrees rest.0
    → All (Respects p) (gather result rest).0 × Ordered Agrees (gather result rest).0
unfolding gather
gather-Agrees p q (refused e) (items, errs) f h o = (Respects-Grows p q items f h, o)
gather-Agrees p q skipped (items, errs) f h o = (Respects-Grows p q items f h, o)
gather-Agrees p q (filed x) (items, errs) f h o = (
  (
    (λ id k own.
        let (mine, e, owns) = filed-Owns p q x f k in
        e
        ∙ ap some (
            Owns-one q x.destination mine id owns
              (FitsFiled-Grows p q (filed x) f x.destination id own))),
    Respects-Grows p q items (FitsFiled-Grows p q (filed x) f) h,
  ),
  (Respects-Agrees p q x items f h, o),
)

plan_paths-Agrees :
    (ss : List Seen) (p : Planner)
    → All (Respects p) (plan_paths ss p).0 × Ordered Agrees (plan_paths ss p).0
unfolding plan_paths
plan_paths-Agrees [] p = (tt, tt)
plan_paths-Agrees (s ∷ ss) p = elim (Option-cases s.ctx_error) [
  | inl (e, c) ↦ rw (plan_paths, c) (tt, tt)
  | inr c ↦
      let q = (plan_path s p).1 in
      let (h, o) = plan_paths-Agrees ss q in
      rw (plan_paths, c)
        (gather-Agrees p q (plan_path s p).0 (plan_paths ss q) (plan_path-FitsFiled s p) h o)
]

In-Agrees :
    (items : List PlanItem) (x y : PlanItem)
    → Ordered Agrees items
    → In x items
    → In y items
    → Agrees x y
In-Agrees [] x y o i j = elim i [ ]
In-Agrees (z ∷ items) x y o (inl e) (inl f) = λ k l d. ap (λ a. a.source_object) (e ∙ sym f)
In-Agrees (z ∷ items) x y o (inl e) (inr j) = rw (sym e) at (In-All (Agrees z) y items j o.0)
In-Agrees (z ∷ items) x y o (inr i) (inl f) = λ k l d.
    let h : Agrees y x = rw (sym f) at (In-All (Agrees z) x items i o.0) in sym (h l k (sym d))
In-Agrees (z ∷ items) x y o (inr i) (inr j) = In-Agrees items x y o.1 i j

-- Two items of a plan for a season that are to be linked, or are linked already, at one destination
-- have the same object.
pub plan_paths-one_object :
    (ss : List Seen) (p : Planner) (x y : PlanItem)
    → In x (plan_paths ss p).0
    → In y (plan_paths ss p).0
    → IsPublished x
    → IsPublished y
    → x.destination ≡ y.destination
    → x.source_object ≡ y.source_object
plan_paths-one_object ss p x y i j =
    In-Agrees (plan_paths ss p).0 x y (plan_paths-Agrees ss p).1 i j
