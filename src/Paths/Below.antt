-- ===== src/Paths/Below.antt =====
-- filepath.Rel and filepath.Join: what lies below a directory.
use aninode.Prelude.{
  ◌≡◌, ◌↔◌, refl, sym, ap, inl, inr, Bool, true, false, Text, text_eq, text_eq_sound, text_eq_refl,
  some, some-injective, List, [], ◌∷◌, ◌++◌, Bool-cases,
}
use aninode.Paths.{dot_dot, FilePath, rel_parts, rel, bool_eq}

-- The test on the result of Rel that the code makes: it goes up, as `..` or behind `../`.
unfoldable pub escapes : List Text → Bool
escapes [] = false
escapes (e ∷ es) = text_eq e dot_dot

pub bool_eq_sound : (a b : Bool) → bool_eq a b ≡ true → a ≡ b
unfolding bool_eq
bool_eq_sound true b h = sym h
bool_eq_sound false true h = absurd cc
bool_eq_sound false false h = refl

pub bool_eq_refl : (a : Bool) → bool_eq a a ≡ true
unfolding bool_eq
bool_eq_refl true = refl
bool_eq_refl false = refl

rel_parts-below :
    (base target r : List Text)
    → rel_parts base target ≡ some r
    → escapes r ≡ false
    → target ≡ base ++ r
unfolding rel_parts escapes
rel_parts-below [] target r h k = some-injective h
rel_parts-below (e ∷ base) [] r h k = elim (Bool-cases (text_eq e dot_dot)) [
  | inl t ↦ absurd (cc (rw t at h))
  | inr n ↦ absurd (cc (k, ap escapes (some-injective (rw n at h)), text_eq_refl dot_dot))
]
rel_parts-below (e ∷ base) (f ∷ target) r h k = elim (Bool-cases (text_eq e f)) [
  | inl t ↦ rw (text_eq_sound e f t, rel_parts-below base target r (rw (t, rel_parts) at h) k) refl
  | inr n ↦ elim (Bool-cases (text_eq e dot_dot)) [
    | inl t ↦ absurd (cc (rw (n, t, rel_parts) at h))
    | inr m ↦
        absurd
          (cc (k, ap escapes (some-injective (rw (n, m, rel_parts) at h)), text_eq_refl dot_dot))
  ]
]

rel_parts-append : (base r : List Text) → rel_parts base (base ++ r) ≡ some r
unfolding rel_parts
rel_parts-append [] r = refl
rel_parts-append (e ∷ base) r = rw (rel_parts, text_eq_refl e) (rel_parts-append base r)

-- `target` is reached from `base` by the elements r, without going up.
abbrev pub LiesBelow : FilePath → FilePath → List Text → Type 0
LiesBelow base target r =
    (base.rooted ≡ target.rooted) × (target.parts ≡ base.parts ++ r) × (escapes r ≡ false)

-- Rel answers without going up exactly where the target lies below the base, by the elements between.
pub rel_iff :
    (base target : FilePath) (r : List Text)
    → ((rel base target ≡ some r) × (escapes r ≡ false)) ↔ LiesBelow base target r
unfolding rel
rel_iff base target r = (
  λ h. elim (Bool-cases (bool_eq base.rooted target.rooted)) [
    | inl t ↦ (
      bool_eq_sound base.rooted target.rooted t,
      rel_parts-below base.parts target.parts r (rw (t, rel) at h.0) h.1,
      h.1,
    )
    | inr n ↦ absurd (cc (rw (n, rel) at h.0))
  ],
  λ h. (rw (rel, h.0, bool_eq_refl target.rooted, h.1, rel_parts-append base.parts r) refl, h.2),
)
