-- ===== src/Paths/Join.antt =====
-- filepath.Join: the elements of a joined path.
use aninode.Prelude.{
  ◌≡◌, refl, ap, ◌∙◌, inl, inr, Bool, true, false, ◌==◌, Text, text_eq, List, [], ◌∷◌, ◌++◌,
  reverse, All, All-map, All-reverse, Bool-cases,
}
use mathlib.Core.List.{reverse-append, reverse-reverse, append_assoc}
use aninode.ReleaseFilter.{is_empty}
use aninode.Paths.{
  slash, dot, dot_dot, split_from, split, starts_with_slash, push, walk, parse_path, render, clean,
  render_rel, join,
}
use aninode.Paths.Split.{IsFree, split-join_parts}
use aninode.Paths.Clean.{IsElement, IsNormal, walk-append, parse-IsNormal, parse-clean}

-- An element that leads down.
abbrev pub IsPlain : Text → Type 0
IsPlain e = IsElement e × (text_eq e dot_dot ≡ false)

split_from-slash :
    (before a b : Text) → split_from before (a ++ slash ∷ b) ≡ split_from before a ++ split b
unfolding split_from split
split_from-slash before [] b = refl
split_from-slash before (c ∷ a) b = elim (Bool-cases (c == slash)) [
  | inl t ↦ rw (split_from, t) (ap (λ r. reverse before ∷ r) (split_from-slash [] a b))
  | inr f ↦ rw (split_from, f) (split_from-slash (c ∷ before) a b)
]

walk-plain :
    (rooted : Bool) (stack es : List Text)
    → All IsPlain es
    → walk rooted stack es ≡ reverse es ++ stack
unfolding walk push
walk-plain rooted stack [] h = refl
walk-plain rooted stack (e ∷ es) (((free, filled, plain), down), rest) =
    rw
      (
        walk,
        push,
        filled,
        plain,
        down,
        walk-plain rooted (e ∷ stack) es rest,
        reverse-append (e ∷ []) es,
        append_assoc (reverse es) (e ∷ []) stack,
      )
      refl

walk-dot : (rooted : Bool) (stack : List Text) → walk rooted stack (split dot) ≡ stack
unfolding walk split split_from push text_eq
walk-dot rooted stack = refl

-- The text of plain elements walks to them.
walk-render_rel :
    (rooted : Bool) (stack es : List Text)
    → All IsPlain es
    → walk rooted stack (split (render_rel es)) ≡ reverse es ++ stack
unfolding render_rel render
walk-render_rel rooted stack [] h = walk-dot rooted stack
walk-render_rel rooted stack (e ∷ es) h =
    ap (walk rooted stack)
      (split-join_parts e es h.0.0.0 (All-map IsPlain IsFree es (λ x p. p.0.0) h.1))
    ∙ walk-plain rooted stack (e ∷ es) h

walk-slash :
    (rooted : Bool) (a : Text) (es : List Text)
    → All IsPlain es
    → reverse (walk rooted [] (split (a ++ slash ∷ render_rel es)))
      ≡ reverse (walk rooted [] (split a)) ++ es
unfolding split
walk-slash rooted a es h =
    let stack = walk rooted [] (split a) in
    ap (λ r. reverse (walk rooted [] r)) (split_from-slash [] a (render_rel es))
    ∙ ap reverse (
        walk-append rooted [] (split a) (split (render_rel es)) ∙ walk-render_rel rooted stack es h)
    ∙ reverse-append (reverse es) stack
    ∙ ap (λ r. reverse stack ++ r) (reverse-reverse es)

parse_slash :
    (a : Text) (es : List Text)
    → is_empty a ≡ false
    → All IsPlain es
    → parse_path (a ++ slash ∷ render_rel es)
      ≡ record { rooted = (parse_path a).rooted; parts = (parse_path a).parts ++ es }
unfolding parse_path starts_with_slash
parse_slash [] es f h = absurd cc
parse_slash (c ∷ a) es f h =
    ap (λ r. record { rooted = c == slash; parts = r }) (walk-slash (c == slash) (c ∷ a) es h)

-- Joining plain elements to a path goes down by them.
pub parse-join :
    (a : Text) (es : List Text)
    → is_empty a ≡ false
    → All IsPlain es
    → parse_path (join a (render_rel es))
      ≡ record { rooted = (parse_path a).rooted; parts = (parse_path a).parts ++ es }
unfolding join
parse-join a es f h = rw f (parse-clean (a ++ slash ∷ render_rel es) ∙ parse_slash a es f h)

pub join-clean :
    (a : Text) (es : List Text)
    → is_empty a ≡ false
    → All IsPlain es
    → join a (render_rel es)
      ≡ render (record { rooted = (parse_path a).rooted; parts = (parse_path a).parts ++ es })
unfolding join clean
join-clean a es f h = rw (f, parse_slash a es f h) refl

normal-IsPlain : (stack : List Text) → IsNormal true stack → All IsPlain stack
normal-IsPlain [] h = tt
normal-IsPlain (e ∷ stack) (elem, starts, rest) = (
  (elem, elim (Bool-cases (text_eq e dot_dot)) [ inl t ↦ absurd (cc (starts t).0) | inr n ↦ n ]),
  normal-IsPlain stack rest,
)

-- A path with a root never goes up.
pub rooted-IsPlain : (s : Text) → starts_with_slash s ≡ true → All IsPlain (parse_path s).parts
rooted-IsPlain s h =
    let (stack, parsed, normal) = parse-IsNormal s in
    rw parsed (All-reverse IsPlain stack (normal-IsPlain stack (rw h at normal)))
