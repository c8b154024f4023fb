-- ===== src/Torrent/Fuel.antt =====
-- skipValue's recursion ends: the fuel of the model is enough.
use aninode.Prelude.{
  ℕ, zero, suc, ◌+◌, ◌*◌, ◌≤◌, ◌<◌, ◌≡◌, ◌≢◌, refl, ap, ◌∙◌, ◌⊎◌, inl, inr, Bool, true, false, Text,
  [], ◌∷◌, length, length-append, ◌==◌, arith, Bool-cases,
}
use aninode.Torrent.{
  Error, Result, ok, fail, span_digits, read_body, ◌>>=◌, is_digit, read_string, skip_integer, Kind,
  kind, skip_key, skip_value, skip_items, fuel, skip, out_of_fuel,
}
use aninode.Torrent.Pieces.{skip_key_sound}
use aninode.Torrent.Sound.{skip_value_sound}
use aninode.Torrent.Complete.{value_size}

pub >>=-eq-fail {ℓ κ} :
    {A : Type ℓ} {B : Type κ} (m : Result A) (f : A → Result B) {e : Error}
    → (m >>= f) ≡ fail e
    → (m ≡ fail e) ⊎ ((a : A) × (m ≡ ok a) × (f a ≡ fail e))
>>=-eq-fail (ok a) f h = inr (a, refl, h)
>>=-eq-fail (fail e) f h = inl (cc h)

read_body-fuel : (ds s : Text) → read_body ds s ≢ fail out_of_fuel
unfolding read_body
read_body-fuel ds [] h = cc
read_body-fuel ds (c ∷ s) h = ground arith

pub read_string-fuel : (s : Text) → read_string s ≢ fail out_of_fuel
unfolding read_string
read_string-fuel [] h = cc
read_string-fuel (c ∷ s) h = elim (Bool-cases (is_digit c)) [
  | inl d ↦ read_body-fuel (span_digits (c ∷ s)).0 (span_digits (c ∷ s)).1 (rw d at h)
  | inr n ↦ absurd (cc (rw n at h))
]

skip_integer-fuel : (s : Text) → skip_integer s ≢ fail out_of_fuel
unfolding skip_integer
skip_integer-fuel s h = ground arith

skip_key-fuel : (in_dict : Bool) (s : Text) → skip_key in_dict s ≢ fail out_of_fuel
unfolding skip_key
skip_key-fuel true s h = elim (>>=-eq-fail (read_string s) (λ r. ok r.1) h) [
  | inl e ↦ read_string-fuel s e
  | inr (a, _, e) ↦ cc
]
skip_key-fuel false s h = cc

skip_key-shorter :
    (in_dict : Bool) (s next : Text) → skip_key in_dict s ≡ ok next → length next ≤ length s
skip_key-shorter in_dict s next h =
    let (key, _, split) = skip_key_sound in_dict s next h in
    let size = ap length split ∙ length-append key next in omega arith

-- A value takes at least a byte of the input.
pub skip_value-shorter : (f : ℕ) (s rest : Text) → skip_value f s ≡ ok rest → length rest < length s
skip_value-shorter f s rest h =
    let (t, v, split) = skip_value_sound f s rest h in
    let size = ap length split ∙ length-append t rest in let some_byte = value_size v in omega arith

value_case_fuel :
    (f c : ℕ) (s : Text) (k : Kind)
    → kind c ≡ k
    → ((b : Bool) → skip_items f b s ≢ fail out_of_fuel)
    → skip_value (suc f) (c ∷ s) ≢ fail out_of_fuel
unfolding skip_value
value_case_fuel f c s Kind.integer e ih h = skip_integer-fuel s (rw (e, skip_value) at h)
value_case_fuel f c s Kind.list e ih h = ih false (rw (e, skip_value) at h)
value_case_fuel f c s Kind.dictionary e ih h = ih true (rw (e, skip_value) at h)
value_case_fuel f c s Kind.other e ih h = skip_key-fuel true (c ∷ s) (rw (e, skip_value) at h)

items_case_fuel :
    (f c : ℕ) (in_dict : Bool) (s : Text)
    → ((next : Text) → length next ≤ suc (length s) → skip_value f next ≢ fail out_of_fuel)
    → ((rest : Text) → length rest ≤ length s → skip_items f in_dict rest ≢ fail out_of_fuel)
    → skip_items (suc f) in_dict (c ∷ s) ≢ fail out_of_fuel
unfolding skip_value
items_case_fuel f c in_dict s ihv ihi h = elim (Bool-cases (c == b'e')) [
  | inl e ↦ absurd (cc (rw (e, skip_items) at h))
  | inr n ↦
      elim (>>=-eq-fail (skip_key in_dict (c ∷ s))
        (λ next. skip_value f next >>= skip_items f in_dict) (rw (n, skip_items) at h)) [
          | inl e ↦ skip_key-fuel in_dict (c ∷ s) e
          | inr (next, read_key, h') ↦
              let shorter = skip_key-shorter in_dict (c ∷ s) next read_key in
              elim (>>=-eq-fail (skip_value f next) (skip_items f in_dict) h') [
                | inl e ↦ ihv next shorter e
                | inr (rest, read_value, h'') ↦
                    let less = skip_value-shorter f next rest read_value in
                    ihi rest (omega arith) h''
              ]
        ]
]

nothing_read-fuel : (f : ℕ) → skip_value (suc f) [] ≢ fail out_of_fuel
unfolding skip_value
nothing_read-fuel f e = cc

no_items-fuel : (f : ℕ) (in_dict : Bool) → skip_items (suc f) in_dict [] ≢ fail out_of_fuel
unfolding skip_value
no_items-fuel f in_dict e = cc

mutual
  pub skip_value-fuel : (f : ℕ) (s : Text) → 2 * length s < f → skip_value f s ≢ fail out_of_fuel
  skip_value-fuel zero s h e = absurd (omega arith)
  skip_value-fuel (suc f) [] h e = nothing_read-fuel f e
  skip_value-fuel (suc f) (c ∷ s) h e =
      value_case_fuel f c s (kind c) refl (λ b. skip_items-fuel f b s (omega arith)) e

  skip_items-fuel :
      (f : ℕ) (in_dict : Bool) (s : Text)
      → 2 * length s + 1 < f
      → skip_items f in_dict s ≢ fail out_of_fuel
  skip_items-fuel zero in_dict s h e = absurd (omega arith)
  skip_items-fuel (suc f) in_dict [] h e = no_items-fuel f in_dict e
  skip_items-fuel (suc f) in_dict (c ∷ s) h e =
      items_case_fuel f c in_dict s (λ next le. skip_value-fuel f next (omega arith))
        (λ rest le. skip_items-fuel f in_dict rest (omega arith)) e

-- The fuel that the model gives skipValue is enough: it never runs out, whatever the input.
pub skip-fuel : (s : Text) → skip s ≢ fail out_of_fuel
unfolding skip
skip-fuel s = skip_value-fuel (fuel s) s (omega arith)
