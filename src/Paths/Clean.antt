-- ===== src/Paths/Clean.antt =====
-- filepath.Clean: the elements of a cleaned path, and cleaning twice.
use aninode.Prelude.{
  ◌≡◌, ◌≢◌, refl, sym, ap, ◌∙◌, inl, inr, Bool, true, false, ◌||◌, ◌==◌, ==_iff, Text, text_eq,
  text_eq_sound, text_eq_refl, List, [], ◌∷◌, ◌++◌, reverse, All, All-map, All-reverse, arith,
  Bool-cases,
}
use mathlib.Core.List.{reverse-append, reverse-reverse}
use aninode.ReleaseFilter.{is_empty}
use aninode.Paths.Split.{IsFree, split-join_parts}
use aninode.Paths.{
  slash, dot, dot_dot, split_from, split, starts_with_slash, go_up, push, walk, parse_path,
  join_parts, render, clean,
}

-- An element of a cleaned path.
abbrev pub IsElement : Text → Type 0
IsElement e = All (λ c. c ≢ slash) e × (is_empty e ≡ false) × (text_eq e dot ≡ false)

-- A stack of elements, the last one first: `..` stands only at the start of a path without a root.
abbrev pub IsNormal : Bool → List Text → Type 0
IsNormal rooted [] = Unit
IsNormal rooted (e ∷ stack) =
    IsElement e
    × (text_eq e dot_dot ≡ true → (rooted ≡ false) × All (λ f. f ≡ dot_dot) stack)
    × IsNormal rooted stack

dot_dot-IsElement : IsElement dot_dot
unfolding text_eq
dot_dot-IsElement = (((λ e. omega arith), ((λ e. omega arith), tt)), refl, refl)

go_up-IsNormal :
    (rooted : Bool) (stack : List Text)
    → IsNormal rooted stack
    → IsNormal rooted (go_up rooted stack)
unfolding go_up
go_up-IsNormal true [] h = tt
go_up-IsNormal false [] h = (dot_dot-IsElement, λ e. (refl, tt), tt)
go_up-IsNormal rooted (e ∷ stack) (elem, starts, rest) = elim (Bool-cases (text_eq e dot_dot)) [
  | inl t ↦ rw t (
    dot_dot-IsElement,
    λ x. ((starts t).0, (text_eq_sound e dot_dot t, (starts t).1)),
    (elem, starts, rest),
  )
  | inr f ↦ rw f rest
]

push-IsNormal :
    (rooted : Bool) (stack : List Text) (e : Text)
    → All (λ c. c ≢ slash) e
    → IsNormal rooted stack
    → IsNormal rooted (push rooted stack e)
unfolding push
push-IsNormal rooted stack e free h = elim (Bool-cases (is_empty e || text_eq e dot)) [
  | inl t ↦ rw t h
  | inr f ↦ elim (Bool-cases (text_eq e dot_dot)) [
    | inl t ↦ rw (push, f, t) (go_up-IsNormal rooted stack h)
    | inr n ↦ rw (push, f, n) ((free, ground arith, ground arith), (λ x. absurd (ground arith)), h)
  ]
]

walk-IsNormal :
    (rooted : Bool) (es : List Text) (stack : List Text)
    → All (λ e. All (λ c. c ≢ slash) e) es
    → IsNormal rooted stack
    → IsNormal rooted (walk rooted stack es)
unfolding walk
walk-IsNormal rooted [] stack free h = h
walk-IsNormal rooted (e ∷ es) stack free h =
    walk-IsNormal rooted es (push rooted stack e) free.1 (push-IsNormal rooted stack e free.0 h)

split_from-free :
    (before s : Text)
    → All (λ c. c ≢ slash) before
    → All (λ e. All (λ c. c ≢ slash) e) (split_from before s)
unfolding split_from
split_from-free before [] h = (All-reverse (λ c. c ≢ slash) before h, tt)
split_from-free before (c ∷ s) h = elim (Bool-cases (c == slash)) [
  | inl t ↦ rw (split_from, t) (All-reverse (λ c. c ≢ slash) before h, split_from-free [] s tt)
  | inr f ↦
      rw (split_from, f)
        (split_from-free (c ∷ before) s ((λ e. absurd (cc (f, (==_iff c slash).1 e))), h))
]

-- An element that fits on a stack is pushed as it is.
push-normal :
    (rooted : Bool) (e : Text) (stack : List Text)
    → IsNormal rooted (e ∷ stack)
    → push rooted stack e ≡ e ∷ stack
unfolding push go_up
push-normal rooted e [] ((free, filled, plain), starts, rest) =
    elim (Bool-cases (text_eq e dot_dot)) [
      | inl t ↦ rw (push, filled, plain, t, (starts t).0, go_up, text_eq_sound e dot_dot t) refl
      | inr n ↦ rw (push, filled, plain, n) refl
    ]
push-normal rooted e (f ∷ stack) ((free, filled, plain), starts, rest) =
    elim (Bool-cases (text_eq e dot_dot)) [
      | inl t ↦
          let ups : text_eq f dot_dot ≡ true = rw ((starts t).1.0) (text_eq_refl dot_dot) in
          rw (push, filled, plain, t, go_up, ups, text_eq_sound e dot_dot t) refl
      | inr n ↦ rw (push, filled, plain, n) refl
    ]

pub walk-append :
    (rooted : Bool) (stack xs ys : List Text)
    → walk rooted stack (xs ++ ys) ≡ walk rooted (walk rooted stack xs) ys
unfolding walk
walk-append rooted stack [] ys = refl
walk-append rooted stack (x ∷ xs) ys = walk-append rooted (push rooted stack x) xs ys

-- The elements of a normal stack lead to the stack.
walk-reverse :
    (rooted : Bool) (stack : List Text)
    → IsNormal rooted stack
    → walk rooted [] (reverse stack) ≡ stack
unfolding walk
walk-reverse rooted [] h = refl
walk-reverse rooted (e ∷ stack) h =
    rw
      (
        reverse-append (e ∷ []) stack,
        walk-append rooted [] (reverse stack) (e ∷ []),
        walk-reverse rooted stack h.2,
      )
      (push-normal rooted e stack h)

pub normal-elements :
    (rooted : Bool) (stack : List Text) → IsNormal rooted stack → All IsElement stack
normal-elements rooted [] h = tt
normal-elements rooted (e ∷ stack) h = (h.0, normal-elements rooted stack h.2)

starts_with_slash-join :
    (e : Text) (es : List Text) → IsElement e → starts_with_slash (join_parts (e ∷ es)) ≡ false
unfolding starts_with_slash join_parts
starts_with_slash-join [] es h = absurd (ground arith)
starts_with_slash-join (c ∷ e) [] h = ground (arith, h.0.0, ==_iff c slash)
starts_with_slash-join (c ∷ e) (f ∷ es) h = ground (arith, h.0.0, ==_iff c slash)

parse_walk :
    (s : Text) (rooted : Bool) (es : List Text)
    → starts_with_slash s ≡ rooted
    → walk rooted [] (split s) ≡ reverse es
    → parse_path s ≡ record { rooted = rooted; parts = es }
unfolding parse_path
parse_walk s rooted es h w = rw (h, w, reverse-reverse es) refl

split-slash : (t : Text) → walk true [] (split (slash ∷ t)) ≡ walk true [] (split t)
unfolding split split_from walk push
split-slash t = refl

parse-root : parse_path (slash ∷ []) ≡ record { rooted = true; parts = [] }
unfolding parse_path starts_with_slash walk split split_from push
parse-root = refl

parse-dot : parse_path dot ≡ record { rooted = false; parts = [] }
unfolding parse_path starts_with_slash walk split split_from push text_eq
parse-dot = refl

all-IsFree : (es : List Text) → All IsElement es → All IsFree es
all-IsFree es h = All-map IsElement IsFree es (λ e x. x.0) h

-- Elements that walk to themselves are those of the text that they make.
pub parse-render :
    (rooted : Bool) (es : List Text)
    → All IsElement es
    → walk rooted [] es ≡ reverse es
    → parse_path (render (record { rooted = rooted; parts = es }))
      ≡ record { rooted = rooted; parts = es }
unfolding render join_parts starts_with_slash
parse-render true [] h w = parse-root
parse-render false [] h w = parse-dot
parse-render true (e ∷ es) h w = parse_walk (slash ∷ join_parts (e ∷ es)) true (e ∷ es) refl (
    split-slash (join_parts (e ∷ es))
    ∙ ap (walk true []) (split-join_parts e es h.0.0 (all-IsFree es h.1))
    ∙ w)
parse-render false (e ∷ es) h w =
    parse_walk (join_parts (e ∷ es)) false (e ∷ es) (starts_with_slash-join e es h.0)
      (ap (walk false []) (split-join_parts e es h.0.0 (all-IsFree es h.1)) ∙ w)

-- What parsing answers is normal.
pub parse-IsNormal :
    (s : Text)
    → (stack : List Text) × (parse_path s
        ≡ record { rooted = starts_with_slash s; parts = reverse stack })
      × IsNormal (starts_with_slash s) stack
unfolding parse_path split
parse-IsNormal s =
    let stack = walk (starts_with_slash s) [] (split_from [] s) in
    (
      stack,
      refl,
      walk-IsNormal (starts_with_slash s) (split_from [] s) [] (split_from-free [] s tt) tt,
    )

-- A path that has been cleaned reads as before, so cleaning it again does nothing.
pub parse-clean : (s : Text) → parse_path (clean s) ≡ parse_path s
unfolding clean
parse-clean s =
    let (stack, parsed, normal) = parse-IsNormal s in
    rw parsed (
      parse-render (starts_with_slash s) (reverse stack)
        (All-reverse IsElement stack (normal-elements (starts_with_slash s) stack normal))
        (walk-reverse (starts_with_slash s) stack normal ∙ sym (reverse-reverse stack)))
