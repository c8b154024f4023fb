-- ===== src/Prelude/Sorting.antt =====
-- sort.SliceStable: a stable sort by a comparison, and what it keeps.
use mathlib.Core.Path.{◌≡◌, refl}
use mathlib.Core.Bool.{Bool, true, false}
use mathlib.Core.List.{List, [], ◌∷◌, ◌++◌, reverse, reverse-append}
use mathlib.Core.Logic.{◌⊎◌, inl, inr}
use native.Mathlib.Omega.{arith}
use Prim.Native.Nat.{ℕ, suc}
use aninode.Prelude.Tests.{if◌then◌else◌, Bool-cases}
use aninode.Prelude.Lists.{All, All-append, All-map, In, length}

module _ {ℓ} {A : Type ℓ} (less : A → A → Bool) where
  -- `x` stood before the elements of the list: it passes only those that are less.
  unfoldable pub insert_stable : A → List A → List A
  insert_stable x [] = x ∷ []
  insert_stable x (y ∷ ys) =
      let rest = insert_stable x ys in if less y x then y ∷ rest else x ∷ y ∷ ys

  unfoldable pub sort_stable : List A → List A
  unfolding insert_stable
  sort_stable [] = []
  sort_stable (x ∷ xs) = insert_stable x (sort_stable xs)

  pub length-sort_stable : (xs : List A) → length (sort_stable xs) ≡ length xs
  unfolding sort_stable
  length-sort_stable [] = refl
  length-sort_stable (x ∷ xs) = length-insert x (sort_stable xs) (length-sort_stable xs)
    where
      length-insert :
          (x : A) (ys : List A) {n : ℕ} → length ys ≡ n → length (insert_stable x ys) ≡ suc n
      length-insert x [] e = ground arith
      length-insert x (y ∷ ys) e = ground (arith, length-insert x ys refl)

module _ {ℓ κ} {A : Type ℓ} (less : A → A → Bool) (P : A → Type κ) where
  pub All-insert_stable : (x : A) (ys : List A) → P x → All P ys → All P (insert_stable less x ys)
  unfolding insert_stable
  All-insert_stable x [] p h = (p, tt)
  All-insert_stable x (y ∷ ys) p h = elim (Bool-cases (less y x)) [
    | inl t ↦ rw t (h.0, All-insert_stable x ys p h.1)
    | inr f ↦ rw f (p, h)
  ]

  pub All-sort_stable : (xs : List A) → All P xs → All P (sort_stable less xs)
  unfolding sort_stable
  All-sort_stable [] h = tt
  All-sort_stable (x ∷ xs) h =
      All-insert_stable x (sort_stable less xs) h.0 (All-sort_stable xs h.1)

-- Every earlier element stands in the relation to every later one.
abbrev pub Ordered {ℓ κ} : {A : Type ℓ} → (A → A → Type κ) → List A → Type κ
Ordered R [] = Unit
Ordered R (x ∷ xs) = All (R x) xs × Ordered R xs

module _ {ℓ κ} {A : Type ℓ} (less : A → A → Bool) (R : A → A → Type κ)
    (before : (x y : A) → less x y ≡ true → R x y)
    (not_before : (x y : A) → less y x ≡ false → R x y)
    (trans : (x y z : A) → R x y → R y z → R x z) where
  All-trans : (x y : A) (ys : List A) → R x y → All (R y) ys → All (R x) ys
  All-trans x y [] r h = tt
  All-trans x y (z ∷ zs) r h = (trans x y z r h.0, All-trans x y zs r h.1)

  Ordered-insert_stable : (x : A) (ys : List A) → Ordered R ys → Ordered R (insert_stable less x ys)
  unfolding insert_stable
  Ordered-insert_stable x [] h = (tt, tt)
  Ordered-insert_stable x (y ∷ ys) h = elim (Bool-cases (less y x)) [
    | inl t ↦
        rw t (All-insert_stable less (R y) x ys (before y x t) h.0, Ordered-insert_stable x ys h.1)
    | inr f ↦ rw f ((not_before x y f, All-trans x y ys (not_before x y f) h.0), h)
  ]

  -- The result is in order, for every preorder that the comparison refines.
  pub Ordered-sort_stable : (xs : List A) → Ordered R (sort_stable less xs)
  unfolding sort_stable
  Ordered-sort_stable [] = tt
  Ordered-sort_stable (x ∷ xs) =
      Ordered-insert_stable x (sort_stable less xs) (Ordered-sort_stable xs)

module _ {A : Type 0} (less : A → A → Bool) where
  pub In-insert_stable :
      (a x : A) (ys : List A) → ((a ≡ x) ⊎ In a ys) → In a (insert_stable less x ys)
  unfolding insert_stable
  In-insert_stable a x [] h = h
  In-insert_stable a x (y ∷ ys) (inl e) = elim (Bool-cases (less y x)) [
    | inl t ↦ rw t (inr (In-insert_stable a x ys (inl e)))
    | inr f ↦ rw f (inl e)
  ]
  In-insert_stable a x (y ∷ ys) (inr (inl e)) = elim (Bool-cases (less y x)) [
    | inl t ↦ rw t (inl e)
    | inr f ↦ rw f (inr (inl e))
  ]
  In-insert_stable a x (y ∷ ys) (inr (inr i)) = elim (Bool-cases (less y x)) [
    | inl t ↦ rw t (inr (In-insert_stable a x ys (inr i)))
    | inr f ↦ rw f (inr (inr i))
  ]

  pub In-sort_stable : (a : A) (xs : List A) → In a xs → In a (sort_stable less xs)
  unfolding sort_stable
  In-sort_stable a [] h = elim h [ ]
  In-sort_stable a (x ∷ xs) (inl e) = In-insert_stable a x (sort_stable less xs) (inl e)
  In-sort_stable a (x ∷ xs) (inr i) =
      In-insert_stable a x (sort_stable less xs) (inr (In-sort_stable a xs i))

-- Lists extended at the end, and turned round.
module _ {ℓ κ} {A : Type ℓ} (R : A → A → Type κ) where
  pub Ordered-append_one :
      (xs : List A) (x : A) → Ordered R xs → All (λ y. R y x) xs → Ordered R (xs ++ x ∷ [])
  Ordered-append_one [] x o h = (tt, tt)
  Ordered-append_one (y ∷ ys) x o h =
      (All-append (R y) ys (x ∷ []) o.0 (h.0, tt), Ordered-append_one ys x o.1 h.1)

pub All-reverse {ℓ κ} : {A : Type ℓ} (P : A → Type κ) (xs : List A) → All P xs → All P (reverse xs)
All-reverse P [] h = tt
All-reverse P (x ∷ xs) h =
    rw (reverse-append (x ∷ []) xs)
      (All-append P (reverse xs) (x ∷ []) (All-reverse P xs h.1) (h.0, tt))

-- A symmetric relation between all elements holds in the reversed list.
pub Ordered-reverse {ℓ κ} :
    {A : Type ℓ} (R : A → A → Type κ)
    → ((x y : A) → R x y → R y x)
    → (xs : List A) → Ordered R xs
    → Ordered R (reverse xs)
Ordered-reverse R flip [] o = tt
Ordered-reverse R flip (x ∷ xs) o = rw (reverse-append (x ∷ []) xs) (
    Ordered-append_one R (reverse xs) x (Ordered-reverse R flip xs o.1)
      (All-reverse (λ y. R y x) xs (All-map (R x) (λ y. R y x) xs (flip x) o.0)))
