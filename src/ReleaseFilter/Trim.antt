-- ===== src/ReleaseFilter/Trim.antt =====
-- strings.TrimSpace leaves a trimmed string as it is.
use mathlib.Core.List.{reverse-append, reverse-reverse}
use aninode.Prelude.{
  ◌≡◌, refl, sym, ap, ◌∙◌, false, Text, [], ◌∷◌, ◌++◌, reverse, inl, inr, Bool-cases,
}
use aninode.ReleaseFilter.{is_space, trim_left, trim_space}

-- No white space at the front.
abbrev Tight : Text → Type 0
Tight [] = Unit
Tight (c ∷ s) = is_space c ≡ false

trim_left-Tight : (s : Text) → Tight (trim_left s)
unfolding trim_left
trim_left-Tight [] = tt
trim_left-Tight (c ∷ s) = elim (Bool-cases (is_space c)) [
  | inl e ↦ rw e (trim_left-Tight s)
  | inr n ↦ rw n n
]

Tight-trim_left : (s : Text) → Tight s → trim_left s ≡ s
unfolding trim_left
Tight-trim_left [] h = refl
Tight-trim_left (c ∷ s) h = rw h

trim_left-split : (s : Text) → (p : Text) × (s ≡ p ++ trim_left s)
unfolding trim_left
trim_left-split [] = ([], refl)
trim_left-split (c ∷ s) = elim (Bool-cases (is_space c)) [
  | inl e ↦ let (p, split) = trim_left-split s in (c ∷ p, rw e (ap (λ r. c ∷ r) split))
  | inr n ↦ ([], rw n)
]

Tight-left : (a b : Text) → Tight (a ++ b) → Tight a
Tight-left [] b h = tt
Tight-left (c ∷ a) b h = h

trim_both : (w : Text) → Tight w → Tight (reverse w) → trim_space (reverse w) ≡ reverse w
unfolding trim_space
trim_both w h k =
    rw (Tight-trim_left (reverse w) k) (rw (reverse-reverse w) (rw (Tight-trim_left w h)))

pub trim_space_idem : (s : Text) → trim_space (trim_space s) ≡ trim_space s
unfolding trim_space
trim_space_idem s =
    let u = trim_left s in
    let w = trim_left (reverse u) in
    let (p, split) = trim_left-split (reverse u) in
    let whole : u ≡ reverse w ++ reverse p =
      sym (reverse-reverse u) ∙ ap reverse split ∙ reverse-append p w in
    trim_both w (trim_left-Tight (reverse u))
      (Tight-left (reverse w) (reverse p) (rw whole at (trim_left-Tight s)))
