-- ===== src/Paths/Split.antt =====
-- strings.Split and the texts of a path: splitting what was joined.
use aninode.Prelude.{
  ℕ, ◌≡◌, ◌≢◌, refl, ap, ◌∙◌, false, ◌==◌, Text, List, [], ◌∷◌, ◌++◌, reverse, All, arith,
}
use mathlib.Core.List.{reverse-append, append_assoc, append-nil}
use aninode.Paths.{slash, split_from, split, join_parts}

abbrev pub IsFree : Text → Type 0
IsFree = All (λ c. c ≢ slash)

not_slash : (c : ℕ) → c ≢ slash → (c == slash) ≡ false
not_slash c h = ground arith

reverse_front : (c : ℕ) (before e : Text) → reverse (c ∷ before) ++ e ≡ reverse before ++ c ∷ e
reverse_front c before e =
    rw (reverse-append (c ∷ []) before, append_assoc (reverse before) (c ∷ []) e) refl

split_from-end : (before e : Text) → IsFree e → split_from before e ≡ (reverse before ++ e) ∷ []
unfolding split_from
split_from-end before [] h = rw (append-nil (reverse before)) refl
split_from-end before (c ∷ e) h =
    rw (split_from, not_slash c h.0, split_from-end (c ∷ before) e h.1, reverse_front c before e)
      refl

split_from-next :
    (before e s : Text)
    → IsFree e
    → split_from before (e ++ slash ∷ s) ≡ (reverse before ++ e) ∷ split_from [] s
unfolding split_from
split_from-next before [] s h = rw (append-nil (reverse before)) refl
split_from-next before (c ∷ e) s h =
    rw (split_from, not_slash c h.0, split_from-next (c ∷ before) e s h.1, reverse_front c before e)
      refl

-- Splitting gives back the elements that were joined.
pub split-join_parts :
    (e : Text) (es : List Text) → IsFree e → All IsFree es → split (join_parts (e ∷ es)) ≡ e ∷ es
unfolding split join_parts
split-join_parts e [] h hs = split_from-end [] e h
split-join_parts e (f ∷ es) h hs =
    split_from-next [] e (join_parts (f ∷ es)) h ∙ ap (λ r. e ∷ r) (split-join_parts f es hs.0 hs.1)
