-- ===== src/ReleaseFilter/Values.antt =====
-- The lists of values: what appendValue, sortValues and normalizeValues keep.
use aninode.Prelude.{
  ℕ, ◌≡◌, refl, sym, ap, ◌∙◌, ◌↔◌, Bool, true, false, ◌&&◌, ◌||◌, Text, text_eq, text_eq_iff, List,
  [], ◌∷◌, ◌++◌, All, inl, inr, Bool-cases, arith, insert_stable, sort_stable,
}
use aninode.ReleaseFilter.{
  trim_space, is_empty, comparable, same, holds, allows, append_value, append_values, value_less,
  sort_values, normalize_values, equal_values,
}
use aninode.ReleaseFilter.Trim.{trim_space_idem}

-- Something is left of every value.
abbrev pub AllFilled : List Text → Type 0
AllFilled values = All (λ v. is_empty (trim_space v) ≡ false) values

pub and-true : (a b : Bool) → (a && b) ≡ true → (a ≡ true) × (b ≡ true)
and-true a b h = ground arith

module _ (to_lower : ℕ → ℕ) where
  pub comparable-trim_space :
      (v : Text) → comparable to_lower (trim_space v) ≡ comparable to_lower v
  unfolding comparable
  comparable-trim_space v = rw (trim_space_idem v)

  pub same-trim_space : (v x : Text) → same to_lower (trim_space v) x ≡ same to_lower v x
  unfolding same
  same-trim_space v x = rw (comparable-trim_space v)

  pub same_iff :
      (a b : Text) → (same to_lower a b ≡ true) ↔ (comparable to_lower a ≡ comparable to_lower b)
  unfolding same
  same_iff a b = text_eq_iff (comparable to_lower a) (comparable to_lower b)

  pub same-left : (a b x : Text) → same to_lower a b ≡ true → same to_lower a x ≡ same to_lower b x
  unfolding same
  same-left a b x h =
      ap (λ k. text_eq k (comparable to_lower x))
        ((text_eq_iff (comparable to_lower a) (comparable to_lower b)).0 h)

  -- `holds` looks at the class of its value only.
  pub holds-same :
      (vs : List Text) (a b : Text)
      → comparable to_lower a ≡ comparable to_lower b
      → holds to_lower vs a ≡ holds to_lower vs b
  unfolding holds same
  holds-same [] a b e = refl
  holds-same (v ∷ vs) a b e = rw e (rw (holds-same vs a b e))

  holds-append :
      (vs ws : List Text) (x : Text)
      → holds to_lower (vs ++ ws) x ≡ (holds to_lower vs x || holds to_lower ws x)
  unfolding holds
  holds-append [] ws x = refl
  holds-append (v ∷ vs) ws x = ground (arith, holds-append vs ws x)

  held :
      (out : List Text) (v x : Text)
      → holds to_lower out (trim_space v) ≡ true
      → holds to_lower out x ≡ (holds to_lower out x || same to_lower v x)
  held out v x e = elim (Bool-cases (same to_lower v x)) [
    | inl f ↦
        let equal = comparable-trim_space v ∙ (same_iff v x).0 f in
        let found = sym (holds-same out (trim_space v) x equal) ∙ e in ground arith
    | inr n ↦ rw n (ground arith)
  ]

  pub holds-append_value :
      (out : List Text) (v x : Text)
      → is_empty (trim_space v) ≡ false
      → holds to_lower (append_value to_lower out v) x ≡ (holds to_lower out x || same to_lower v x)
  unfolding append_value holds
  holds-append_value out v x n = elim (Bool-cases (holds to_lower out (trim_space v))) [
    | inl e ↦ rw n (rw e (held out v x e))
    | inr m ↦ rw n (
        rw m (
          holds-append out (trim_space v ∷ []) x
          ∙ ap (λ b. holds to_lower out x || (b || false)) (same-trim_space v x)
          ∙ ground arith))
  ]

  holds-insert :
      (v : Text) (vs : List Text) (x : Text)
      → holds to_lower (insert_stable (value_less to_lower) v vs) x
        ≡ (same to_lower v x || holds to_lower vs x)
  unfolding insert_stable holds
  holds-insert v [] x = refl
  holds-insert v (w ∷ ws) x = ground (arith, holds-insert v ws x)

  pub holds-sort_values :
      (vs : List Text) (x : Text) → holds to_lower (sort_values to_lower vs) x ≡ holds to_lower vs x
  unfolding sort_values sort_stable holds
  holds-sort_values [] x = refl
  holds-sort_values (v ∷ vs) x =
      holds-insert v (sort_stable (value_less to_lower) vs) x
      ∙ ap (λ b. same to_lower v x || b) (holds-sort_values vs x)

  pub holds-append_values :
      (out vs : List Text) (x : Text)
      → AllFilled vs
      → holds to_lower (append_values to_lower out vs) x
        ≡ (holds to_lower out x || holds to_lower vs x)
  unfolding append_values holds
  holds-append_values out [] x h = ground arith
  holds-append_values out (v ∷ vs) x h =
      holds-append_values (append_value to_lower out v) vs x h.1
      ∙ ap (λ b. b || holds to_lower vs x) (holds-append_value out v x h.0)
      ∙ ground arith

  pub holds-normalize_values :
      (vs : List Text) (x : Text)
      → AllFilled vs
      → holds to_lower (normalize_values to_lower vs) x ≡ holds to_lower vs x
  unfolding normalize_values holds
  holds-normalize_values vs x h =
      holds-sort_values (append_values to_lower [] vs) x ∙ holds-append_values [] vs x h

  -- Where something is held, the list is not empty, and `allows` is `holds`.
  allows-holds :
      (vs : List Text) (v x : Text)
      → holds to_lower vs v ≡ true
      → allows to_lower vs x ≡ holds to_lower vs x
  unfolding allows holds
  allows-holds [] v x h = cc
  allows-holds (w ∷ ws) v x h = refl

  holds-head : (v : Text) (vs : List Text) → holds to_lower (v ∷ vs) v ≡ true
  unfolding holds
  holds-head v vs = let e = (same_iff v v).1 refl in ground arith

  -- normalizeValues changes nothing of what a list of filled values allows.
  pub allows-normalize_values :
      (vs : List Text) (x : Text)
      → AllFilled vs
      → allows to_lower (normalize_values to_lower vs) x ≡ allows to_lower vs x
  allows-normalize_values [] x h =
      unfold normalize_values append_values sort_values sort_stable in refl
  allows-normalize_values (v ∷ vs) x h =
      allows-holds (normalize_values to_lower (v ∷ vs)) v x
        (holds-normalize_values (v ∷ vs) v h ∙ holds-head v vs)
      ∙ holds-normalize_values (v ∷ vs) x h
      ∙ sym (allows-holds (v ∷ vs) v x (holds-head v vs))

  -- Lists that equalValues takes for equal hold and allow the same.
  holds-equal_values :
      (vs ws : List Text) (x : Text)
      → equal_values to_lower vs ws ≡ true
      → holds to_lower vs x ≡ holds to_lower ws x
  unfolding equal_values holds
  holds-equal_values [] [] x h = refl
  holds-equal_values [] (w ∷ ws) x h = cc
  holds-equal_values (v ∷ vs) [] x h = cc
  holds-equal_values (v ∷ vs) (w ∷ ws) x h =
      let (first, rest) = and-true (same to_lower v w) (equal_values to_lower vs ws) h in
      ap (λ b. b || holds to_lower vs x) (same-left v w x first)
      ∙ ap (λ b. same to_lower w x || b) (holds-equal_values vs ws x rest)

  pub allows-equal_values :
      (vs ws : List Text) (x : Text)
      → equal_values to_lower vs ws ≡ true
      → allows to_lower vs x ≡ allows to_lower ws x
  unfolding equal_values allows
  allows-equal_values [] [] x h = refl
  allows-equal_values [] (w ∷ ws) x h = cc
  allows-equal_values (v ∷ vs) [] x h = cc
  allows-equal_values (v ∷ vs) (w ∷ ws) x h = holds-equal_values (v ∷ vs) (w ∷ ws) x h
