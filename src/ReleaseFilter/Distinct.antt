-- ===== src/ReleaseFilter/Distinct.antt =====
-- What normalizeValues returns: trimmed, filled and distinct values, in order.
use aninode.Prelude.{
  ℕ, ◌≡◌, refl, sym, false, Text, List, [], ◌∷◌, All, All-append, All-insert_stable,
  All-sort_stable, Ordered, Ordered-append_one, inl, inr, Bool-cases, arith, insert_stable,
  sort_stable, none,
}
use aninode.ReleaseFilter.{
  Dimension, trim_space, is_empty, same, holds, append_value, append_values, value_less,
  sort_values, normalize_values, validate_values,
}
use aninode.ReleaseFilter.Trim.{trim_space_idem}
use aninode.ReleaseFilter.Values.{AllFilled, same_iff}

-- A value as appendValue stores it.
abbrev pub IsClean : Text → Type 0
IsClean v = (trim_space v ≡ v) × (is_empty v ≡ false)

module _ (to_lower : ℕ → ℕ) where
  abbrev pub Differ : Text → Text → Type 0
  Differ a b = same to_lower a b ≡ false

  Differ-sym : (a b : Text) → Differ a b → Differ b a
  Differ-sym a b h = elim (Bool-cases (same to_lower b a)) [
    | inl e ↦ absurd (cc ((same_iff to_lower a b).1 (sym ((same_iff to_lower b a).0 e)), h))
    | inr n ↦ n
  ]

  not_held : (vs : List Text) (x : Text) → holds to_lower vs x ≡ false → All (λ v. Differ v x) vs
  unfolding holds
  not_held [] x h = tt
  not_held (v ∷ vs) x h = (ground arith, not_held vs x (ground arith))

  abbrev pub Normal : List Text → Type 0
  Normal vs = All IsClean vs × Ordered Differ vs

  append_value-Normal :
      (out : List Text) (v : Text) → Normal out → Normal (append_value to_lower out v)
  unfolding append_value
  append_value-Normal out v (clean, apart) = elim (Bool-cases (is_empty (trim_space v))) [
    | inl e ↦ rw e (clean, apart)
    | inr n ↦ elim (Bool-cases (holds to_lower out (trim_space v))) [
      | inl e ↦ rw n (rw e (clean, apart))
      | inr m ↦ rw n (
          rw m (
            All-append IsClean out (trim_space v ∷ []) clean ((trim_space_idem v, n), tt),
            Ordered-append_one Differ out (trim_space v) apart (not_held out (trim_space v) m),
          ))
    ]
  ]

  append_values-Normal : (out vs : List Text) → Normal out → Normal (append_values to_lower out vs)
  unfolding append_values
  append_values-Normal out [] h = h
  append_values-Normal out (v ∷ vs) h =
      append_values-Normal (append_value to_lower out v) vs (append_value-Normal out v h)

  insert-Differ :
      (x : Text) (ys : List Text)
      → All (Differ x) ys
      → Ordered Differ ys
      → Ordered Differ (insert_stable (value_less to_lower) x ys)
  unfolding insert_stable
  insert-Differ x [] h o = (tt, tt)
  insert-Differ x (y ∷ ys) h o = elim (Bool-cases (value_less to_lower y x)) [
    | inl t ↦ rw t (
      All-insert_stable (value_less to_lower) (Differ y) x ys (Differ-sym x y h.0) o.0,
      insert-Differ x ys h.1 o.1,
    )
    | inr f ↦ rw f (h, o)
  ]

  sort-Differ :
      (xs : List Text) → Ordered Differ xs → Ordered Differ (sort_stable (value_less to_lower) xs)
  unfolding sort_stable
  sort-Differ [] o = tt
  sort-Differ (x ∷ xs) o =
      insert-Differ x (sort_stable (value_less to_lower) xs)
        (All-sort_stable (value_less to_lower) (Differ x) xs o.0) (sort-Differ xs o.1)

  pub normalize_values-Normal : (vs : List Text) → Normal (normalize_values to_lower vs)
  unfolding normalize_values sort_values
  normalize_values-Normal vs =
      let (clean, apart) = append_values-Normal [] vs (tt, tt) in
      (
        All-sort_stable (value_less to_lower) IsClean (append_values to_lower [] vs) clean,
        sort-Differ (append_values to_lower [] vs) apart,
      )

  -- Validate finds nothing in such a list.
  pub validate_values-Normal :
      (name : Dimension) (seen vs : List Text)
      → Normal vs
      → All (λ v. holds to_lower seen v ≡ false) vs
      → validate_values to_lower name seen vs ≡ none
  unfolding validate_values holds
  validate_values-Normal name seen [] h fresh = refl
  validate_values-Normal name seen (v ∷ vs) ((clean, cleans), (apart, aparts)) (new, news) =
      rw clean.0 (
        rw clean.1 (
          rw new (validate_values-Normal name (v ∷ seen) vs (cleans, aparts) (both vs apart news))))
    where
      both :
          (ws : List Text)
          → All (Differ v) ws
          → All (λ w. holds to_lower seen w ≡ false) ws
          → All (λ w. holds to_lower (v ∷ seen) w ≡ false) ws
      both [] d n = tt
      both (w ∷ ws) d n = (rw d.0 n.0, both ws d.1 n.1)

  -- Where Validate finds nothing, something is left of every value.
  pub validate_values-AllFilled :
      (name : Dimension) (seen vs : List Text)
      → validate_values to_lower name seen vs ≡ none
      → AllFilled vs
  unfolding validate_values
  validate_values-AllFilled name seen [] h = tt
  validate_values-AllFilled name seen (v ∷ vs) h = elim (Bool-cases (is_empty (trim_space v))) [
    | inl e ↦ absurd (cc (rw e at h))
    | inr n ↦ elim (Bool-cases (holds to_lower seen (trim_space v))) [
      | inl e ↦ absurd (cc (rw (n, e) at h))
      | inr m ↦ (n, validate_values-AllFilled name (trim_space v ∷ seen) vs (rw (n, m) at h))
    ]
  ]
