-- ===== src/Organizer/Movie.antt =====
-- internal/organizer/plan.go: lemmas on the plan of a movie.
use aninode.Prelude.{
  ℕ, zero, suc, ◌≤◌, ◌<◌, ◌≡◌, refl, sym, ◌∙◌, ap, ◌⊎◌, inl, inr, true, false, ◌&&◌, leb, Text,
  arith, Option, some, some-injective, List, [], ◌∷◌, length, map, get_elem?, Bool-cases, text_eq,
  text_eq_refl,
}
use aninode.ReleaseFilter.{is_empty}
use aninode.Paths.{base}
use aninode.Organizer.{
  conflict, Detail, same_target, PlanItem, judged, claims_destination, sharers, mark_item, Bundle,
  Version, Asset, MovieExtra, Planner, plan_movie, is_conflicting, add_items, want_bundle,
}
use aninode.Organizer.Series.{IsPublished}

published-claims :
    (item : PlanItem)
    → IsPublished item
    → is_empty item.destination ≡ false
    → claims_destination item ≡ true
unfolding claims_destination
published-claims item (inl a) e = rw (claims_destination, e, a) refl
published-claims item (inr a) e = rw (claims_destination, e, a) refl

judged-unpublished :
    (item : PlanItem) (detail : Detail) → IsPublished (judged item conflict detail) → ⊥
unfolding judged
judged-unpublished item detail (inl e) = absurd (cc e)
judged-unpublished item detail (inr e) = absurd (cc e)

-- An item that is published behind the loop was published before, and it was alone.
mark_item-alone :
    (all : List PlanItem) (item : PlanItem)
    → IsPublished (mark_item all item)
    → is_empty (mark_item all item).destination ≡ false
    → (mark_item all item ≡ item)
      × (leb 2 (length (sharers item.destination all)) ≡ false)
      × (claims_destination item ≡ true)
unfolding mark_item judged
mark_item-alone all item h e =
    elim (Bool-cases (claims_destination item && leb 2 (length (sharers item.destination all)))) [
      | inl t ↦ absurd (
          judged-unpublished item
            (same_target (base item.destination)
              (map (λ i. i.relative) (sharers item.destination all)))
            (rw (mark_item, t) at h))
      | inr f ↦
          let same : mark_item all item ≡ item = rw (mark_item, f) refl in
          let claims = published-claims item (rw same at h) (rw same at e) in
          (same, (rw claims at f), claims)
    ]

get-map :
    (f : PlanItem → PlanItem) (items : List PlanItem) (i : ℕ) (x : PlanItem)
    → get_elem? (map f items) i ≡ some x
    → (a : PlanItem) × (get_elem? items i ≡ some a) × (x ≡ f a)
get-map f [] i x e = absurd (cc e)
get-map f (a ∷ items) zero x e = (a, refl, sym (some-injective e))
get-map f (a ∷ items) (suc i) x e = get-map f items i x e

sharers-head :
    (x : PlanItem) (items : List PlanItem) (d : Text)
    → claims_destination x ≡ true
    → x.destination ≡ d
    → sharers d (x ∷ items) ≡ x ∷ sharers d items
unfolding sharers
sharers-head x items d c s =
    let same : text_eq x.destination d ≡ true = ap (λ t. text_eq t d) s ∙ text_eq_refl d in
    rw (sharers, c, same) refl

sharers-one :
    (items : List PlanItem) (i : ℕ) (a : PlanItem) (d : Text)
    → get_elem? items i ≡ some a
    → claims_destination a ≡ true
    → a.destination ≡ d
    → 1 ≤ length (sharers d items)
unfolding sharers
sharers-one [] i a d e c s = absurd (cc e)
sharers-one (x ∷ items) zero a d e c s =
    let here : x ≡ a = some-injective e in
    let grown =
      sharers-head x items d (ap claims_destination here ∙ c) (ap (λ y. y.destination) here ∙ s) in
    omega (arith, ap length grown)
sharers-one (x ∷ items) (suc i) a d e c s = ground (arith, sharers-one items i a d e c s)

sharers-two :
    (items : List PlanItem) (i j : ℕ) (a b : PlanItem) (d : Text)
    → i < j
    → get_elem? items i ≡ some a
    → get_elem? items j ≡ some b
    → claims_destination a ≡ true
    → claims_destination b ≡ true
    → a.destination ≡ d
    → b.destination ≡ d
    → 2 ≤ length (sharers d items)
unfolding sharers
sharers-two [] i j a b d l e f c k s t = absurd (cc e)
sharers-two (x ∷ items) zero zero a b d l e f c k s t = absurd (omega arith)
sharers-two (x ∷ items) zero (suc j) a b d l e f c k s t =
    let here : x ≡ a = some-injective e in
    let grown =
      sharers-head x items d (ap claims_destination here ∙ c) (ap (λ y. y.destination) here ∙ s) in
    omega (arith, ap length grown, sharers-one items j b d f k t)
sharers-two (x ∷ items) (suc i) zero a b d l e f c k s t = absurd (omega arith)
sharers-two (x ∷ items) (suc i) (suc j) a b d l e f c k s t =
    ground (arith, sharers-two items i j a b d (omega arith) e f c k s t)

two_not_alone : (n : ℕ) → leb 2 n ≡ false → 2 ≤ n → ⊥
two_not_alone n h k = ground arith

order_cases : (i j : ℕ) → (i ≡ j) ⊎ (i < j) ⊎ (j < i)
order_cases i j = ground arith

-- Two places of one plan whose items are published at one destination are the same place.
lonely :
    (items : List PlanItem) (i j : ℕ) (x y : PlanItem)
    → i < j
    → get_elem? (map (mark_item items) items) i ≡ some x
    → get_elem? (map (mark_item items) items) j ≡ some y
    → IsPublished x
    → IsPublished y
    → is_empty x.destination ≡ false
    → x.destination ≡ y.destination
    → ⊥
lonely items i j x y l e f h k n d =
    let (a, at_i, x_is) = get-map (mark_item items) items i x e in
    let (b, at_j, y_is) = get-map (mark_item items) items j y f in
    let (same, alone, claims) = mark_item-alone items a (rw x_is at h) (rw x_is at n) in
    let (same', alone', claims') = mark_item-alone items b (rw y_is at k) (rw (d, y_is) at n) in
    let one : a.destination ≡ b.destination =
      ap (λ z. z.destination) (sym (x_is ∙ same)) ∙ d ∙ ap (λ z. z.destination) (y_is ∙ same') in
    absurd (
      two_not_alone (length (sharers a.destination items)) alone
        (sharers-two items i j a b a.destination l at_i at_j claims claims' refl (sym one)))

-- Where a movie bundle is in no conflict, no two items of its plan that are to be linked, or are
-- linked already, share a destination that is not empty.
pub plan_movie-distinct :
    (target_name : Version → Asset → Text) (iso_name : Asset → Text)
    (extra_name : MovieExtra → Text) (object_id : Text → Option ℕ) (b : Bundle) (p : Planner)
    (i j : ℕ) (x y : PlanItem)
    → is_conflicting b ≡ false
    → get_elem? (plan_movie target_name iso_name extra_name object_id b p) i ≡ some x
    → get_elem? (plan_movie target_name iso_name extra_name object_id b p) j ≡ some y
    → IsPublished x
    → IsPublished y
    → is_empty x.destination ≡ false
    → x.destination ≡ y.destination
    → i ≡ j
unfolding plan_movie
plan_movie-distinct target_name iso_name extra_name object_id b p i j x y h e f k l n d =
    let items = (add_items object_id (want_bundle target_name iso_name extra_name b) p).0 in
    let e' : get_elem? (map (mark_item items) items) i ≡ some x = rw (plan_movie, h) at e in
    let f' : get_elem? (map (mark_item items) items) j ≡ some y = rw (plan_movie, h) at f in
    let one = lonely items i j x y in
    let other = lonely items j i y x in
    elim (order_cases i j) [
      | inl same ↦ same
      | inr (inl less) ↦ absurd (one less e' f' k l n d)
      | inr (inr more) ↦ absurd (other more f' e' l k (rw d at n) (sym d))
    ]
