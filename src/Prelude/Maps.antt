-- ===== src/Prelude/Maps.antt =====
-- Go maps with string keys: lists of pairs with distinct keys, in the order in which a range loop
-- happens to visit them.
use Prim.Native.Nat.{ℕ, suc, ◌+◌, ◌≤◌}
use mathlib.Core.Path.{◌≡◌, refl, sym, ap, ◌∙◌}
use mathlib.Core.Logic.{inl, inr, ◌≢◌}
use mathlib.Core.Bool.{false}
use mathlib.Core.Option.{Option, none, some}
use mathlib.Core.List.{List, [], ◌∷◌}
use native.Mathlib.Omega.{arith}
use aninode.Prelude.Tests.{if◌then◌else◌, Bool-cases}
use aninode.Prelude.Lists.{All, In, length, some-injective, In-All}
use aninode.Prelude.Sorting.{Ordered}
use aninode.Prelude.Texts.{Text, text_eq, text_eq_sound, text_eq_refl}

pub text_neq : (s t : Text) → s ≢ t → text_eq s t ≡ false
text_neq s t h = elim (Bool-cases (text_eq s t)) [
  | inl e ↦ absurd (h (text_eq_sound s t e))
  | inr f ↦ f
]

pub neq_text : (s t : Text) → text_eq s t ≡ false → s ≢ t
neq_text s t h e = absurd (cc (h, e, text_eq_refl t))

module _ {A : Type 0} where
  -- v, ok := m[k]
  unfoldable pub lookup : Text → List (Text × A) → Option A
  lookup k [] = none
  lookup k ((j, v) ∷ m) = if text_eq j k then some v else lookup k m

  -- delete(m, k)
  unfoldable pub delete : Text → List (Text × A) → List (Text × A)
  delete k [] = []
  delete k ((j, v) ∷ m) = let rest = delete k m in if text_eq j k then rest else (j, v) ∷ rest

  -- m[k] = v
  unfoldable pub assign : Text → A → List (Text × A) → List (Text × A)
  unfolding delete
  assign k v m = (k, v) ∷ delete k m

  -- The sum of f over the elements.
  unfoldable pub total : (A → ℕ) → List (Text × A) → ℕ
  total f [] = 0
  total f ((j, v) ∷ m) = f v + total f m

  abbrev pub IsMap : List (Text × A) → Type 0
  IsMap = Ordered (λ a b. a.0 ≢ b.0)

  pub lookup-delete_same : (k : Text) (m : List (Text × A)) → lookup k (delete k m) ≡ none
  unfolding lookup delete
  lookup-delete_same k [] = refl
  lookup-delete_same k ((j, v) ∷ m) = elim (Bool-cases (text_eq j k)) [
    | inl e ↦ rw e (lookup-delete_same k m)
    | inr f ↦ rw (f, lookup, f) (lookup-delete_same k m)
  ]

  pub lookup-delete_other :
      (j k : Text) (m : List (Text × A)) → j ≢ k → lookup j (delete k m) ≡ lookup j m
  unfolding lookup delete
  lookup-delete_other j k [] h = refl
  lookup-delete_other j k ((i, v) ∷ m) h = elim (Bool-cases (text_eq i k)) [
    | inl e ↦
        rw (e, text_neq i j (λ p. h (sym p ∙ text_eq_sound i k e))) (lookup-delete_other j k m h)
    | inr f ↦ rw (f, lookup, lookup-delete_other j k m h)
  ]

  pub lookup-assign_same :
      (k : Text) (v : A) (m : List (Text × A)) → lookup k (assign k v m) ≡ some v
  unfolding assign lookup
  lookup-assign_same k v m = rw (text_eq_refl k) refl

  pub lookup-assign_other :
      (j k : Text) (v : A) (m : List (Text × A)) → j ≢ k → lookup j (assign k v m) ≡ lookup j m
  unfolding assign lookup
  lookup-assign_other j k v m h = rw (text_neq k j (λ p. h (sym p)), lookup-delete_other j k m h)

  pub All-delete {ℓ} :
      (P : Text × A → Type ℓ) (k : Text) (m : List (Text × A)) → All P m → All P (delete k m)
  unfolding delete
  All-delete P k [] h = tt
  All-delete P k ((j, v) ∷ m) h = elim (Bool-cases (text_eq j k)) [
    | inl e ↦ rw e (All-delete P k m h.1)
    | inr f ↦ rw f (h.0, All-delete P k m h.1)
  ]

  pub IsMap-delete : (k : Text) (m : List (Text × A)) → IsMap m → IsMap (delete k m)
  unfolding delete
  IsMap-delete k [] h = tt
  IsMap-delete k ((j, v) ∷ m) h = elim (Bool-cases (text_eq j k)) [
    | inl e ↦ rw e (IsMap-delete k m h.1)
    | inr f ↦ rw f (All-delete (λ b. j ≢ b.0) k m h.0, IsMap-delete k m h.1)
  ]

  -- The key is gone from what is left.
  pub delete-Lacks : (k : Text) (m : List (Text × A)) → All (λ b. k ≢ b.0) (delete k m)
  unfolding delete
  delete-Lacks k [] = tt
  delete-Lacks k ((j, v) ∷ m) = elim (Bool-cases (text_eq j k)) [
    | inl e ↦ rw e (delete-Lacks k m)
    | inr f ↦ rw f ((λ p. neq_text j k f (sym p)), delete-Lacks k m)
  ]

  -- Nothing is deleted where the key is missing.
  delete_missing : (k : Text) (m : List (Text × A)) → All (λ b. k ≢ b.0) m → delete k m ≡ m
  unfolding delete
  delete_missing k [] h = refl
  delete_missing k ((j, v) ∷ m) h = rw (text_neq j k (λ p. h.0 (sym p)), delete_missing k m h.1)

  pub IsMap-assign : (k : Text) (v : A) (m : List (Text × A)) → IsMap m → IsMap (assign k v m)
  unfolding assign
  IsMap-assign k v m h = (delete-Lacks k m, IsMap-delete k m h)

  pub total-delete :
      (f : A → ℕ) (k : Text) (v : A) (m : List (Text × A))
      → IsMap m
      → lookup k m ≡ some v
      → total f m ≡ f v + total f (delete k m)
  unfolding total delete lookup
  total-delete f k v [] h e = absurd (cc)
  total-delete f k v ((j, w) ∷ m) h e = elim (Bool-cases (text_eq j k)) [
    | inl t ↦
        rw
          (
            t,
            delete_missing k m (rw (sym (text_eq_sound j k t)) h.0),
            sym (some-injective (rw t at e)),
          )
          refl
    | inr n ↦ rw n (omega (arith, total-delete f k v m h.1 (rw n at e)))
  ]

  pub length-total : (m : List (Text × A)) → length m ≡ total (λ v. 1) m
  unfolding total
  length-total [] = refl
  length-total (x ∷ m) = omega (arith, length-total m)

  pub length-delete :
      (k : Text) (v : A) (m : List (Text × A))
      → IsMap m
      → lookup k m ≡ some v
      → length m ≡ suc (length (delete k m))
  length-delete k v m h e =
      omega (arith, length-total m, length-total (delete k m), total-delete (λ v. 1) k v m h e)

  pub length-delete_le : (k : Text) (m : List (Text × A)) → length (delete k m) ≤ length m
  unfolding delete
  length-delete_le k [] = omega arith
  length-delete_le k ((j, v) ∷ m) = ground (arith, length-delete_le k m)

  -- A lookup finds what every element satisfies.
  pub lookup-All {ℓ} :
      (P : Text × A → Type ℓ) (k : Text) (v : A) (m : List (Text × A))
      → All P m
      → lookup k m ≡ some v
      → P (k, v)
  unfolding lookup
  lookup-All P k v [] h e = absurd cc
  lookup-All P k v ((j, w) ∷ m) h e = elim (Bool-cases (text_eq j k)) [
    | inl t ↦ rw (sym (text_eq_sound j k t), sym (some-injective (rw t at e))) h.0
    | inr n ↦ lookup-All P k v m h.1 (rw n at e)
  ]

  pub lookup-In : (k : Text) (v : A) (m : List (Text × A)) → lookup k m ≡ some v → In (k, v) m
  unfolding lookup
  lookup-In k v [] e = absurd cc
  lookup-In k v ((j, w) ∷ m) e = elim (Bool-cases (text_eq j k)) [
    | inl t ↦ inl (rw (text_eq_sound j k t, some-injective (rw t at e)))
    | inr n ↦ inr (lookup-In k v m (rw n at e))
  ]

  pub In-lookup :
      (k : Text) (v : A) (m : List (Text × A)) → In (k, v) m → (w : A) × (lookup k m ≡ some w)
  unfolding lookup
  In-lookup k v [] i = elim i [ ]
  In-lookup k v ((j, w) ∷ m) (inl e) = (w, rw (sym (ap (λ b. b.0) e), text_eq_refl k) refl)
  In-lookup k v ((j, w) ∷ m) (inr i) = elim (Bool-cases (text_eq j k)) [
    | inl t ↦ rw t (w, refl)
    | inr f ↦ rw f (In-lookup k v m i)
  ]

  pub In-IsMap-lookup :
      (k : Text) (v : A) (m : List (Text × A)) → IsMap m → In (k, v) m → lookup k m ≡ some v
  unfolding lookup
  In-IsMap-lookup k v [] h i = elim i [ ]
  In-IsMap-lookup k v ((j, w) ∷ m) h (inl e) =
      rw (sym (ap (λ b. b.0) e), text_eq_refl k, sym (ap (λ b. b.1) e)) refl
  In-IsMap-lookup k v ((j, w) ∷ m) h (inr i) =
      rw (text_neq j k (In-All (λ b. j ≢ b.0) (k, v) m i h.0)) (In-IsMap-lookup k v m h.1 i)

  pub lookup-none : (k : Text) (m : List (Text × A)) → lookup k m ≡ none → All (λ b. k ≢ b.0) m
  unfolding lookup
  lookup-none k [] e = tt
  lookup-none k ((j, w) ∷ m) e = elim (Bool-cases (text_eq j k)) [
    | inl t ↦ absurd cc
    | inr n ↦ ((λ p. neq_text j k n (sym p)), lookup-none k m (rw n at e))
  ]

  pub delete-lookup-none : (k : Text) (m : List (Text × A)) → lookup k m ≡ none → delete k m ≡ m
  delete-lookup-none k m e = delete_missing k m (lookup-none k m e)

  pub lookup-none-delete :
      (j k : Text) (m : List (Text × A)) → lookup j m ≡ none → lookup j (delete k m) ≡ none
  lookup-none-delete j k m e = elim (Bool-cases (text_eq j k)) [
    | inl t ↦ rw (text_eq_sound j k t) (lookup-delete_same k m)
    | inr n ↦ lookup-delete_other j k m (neq_text j k n) ∙ e
  ]

  -- A key that is found is not one that is missing.
  pub found_neq :
      (j k : Text) (v : A) (m : List (Text × A)) → lookup j m ≡ some v → lookup k m ≡ none → j ≢ k
  found_neq j k v m e h p = absurd (cc (e, h, ap (λ i. lookup i m) p))

  pub total-assign :
      (f : A → ℕ) (k : Text) (v : A) (m : List (Text × A))
      → lookup k m ≡ none
      → total f (assign k v m) ≡ f v + total f m
  unfolding total assign
  total-assign f k v m e = rw (delete-lookup-none k m e)

  pub length-assign_le :
      (k : Text) (v : A) (m : List (Text × A)) → length (assign k v m) ≤ suc (length m)
  unfolding assign
  length-assign_le k v m = omega (arith, length-delete_le k m)

  pub All-assign {ℓ} :
      (P : Text × A → Type ℓ) (k : Text) (v : A) (m : List (Text × A))
      → P (k, v)
      → All P m
      → All P (assign k v m)
  unfolding assign
  All-assign P k v m p h = (p, All-delete P k m h)
