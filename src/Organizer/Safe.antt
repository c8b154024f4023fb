-- ===== src/Organizer/Safe.antt =====
-- internal/organizer: lemmas on safeDestination.
use aninode.Prelude.{
  ◌≡◌, refl, sym, ◌∙◌, ap, inl, inr, Bool, true, false, ◌||◌, Text, codes, text_eq, text_eq_sound,
  text_eq_refl, some, some-injective, List, [], ◌∷◌, ◌++◌, reverse, All, All-reverse, Bool-cases,
}
use mathlib.Core.List.{reverse-append}
use aninode.ReleaseFilter.{is_empty}
use aninode.Paths.{
  dot, dot_dot, slash, starts_with_slash, parse_path, render, join_parts, clean, join, render_rel,
}
use aninode.Paths.Clean.{IsNormal, parse-IsNormal}
use aninode.Paths.Below.{escapes, LiesBelow}
use aninode.Paths.Join.{IsPlain, parse-join}
use aninode.Organizer.{safe_destination}
use aninode.Rss.Documents.{has_prefix}

escapes-last :
    (xs : List Text) (x e : Text) → escapes ((xs ++ x ∷ []) ++ e ∷ []) ≡ escapes (xs ++ x ∷ [])
unfolding escapes
escapes-last [] x e = refl
escapes-last (y ∷ xs) x e = refl

escapes-reverse :
    (stack : List Text) (e f : Text)
    → escapes (reverse (e ∷ f ∷ stack)) ≡ escapes (reverse (f ∷ stack))
escapes-reverse stack e f =
    ap escapes
      (reverse-append (e ∷ []) (f ∷ stack) ∙ ap (λ x. x ++ e ∷ []) (reverse-append (f ∷ []) stack))
    ∙ escapes-last (reverse stack) f e
    ∙ ap escapes (sym (reverse-append (f ∷ []) stack))

-- A path whose first element does not go up never does.
still-IsPlain :
    (stack : List Text) → IsNormal false stack → escapes (reverse stack) ≡ false → All IsPlain stack
unfolding escapes
still-IsPlain [] n h = tt
still-IsPlain (e ∷ []) (elem, starts, rest) h = ((elem, h), tt)
still-IsPlain (e ∷ f ∷ stack) (elem, starts, rest) h =
    let below = still-IsPlain (f ∷ stack) rest (sym (escapes-reverse stack e f) ∙ h) in
    (
      (
        elem,
        elim (Bool-cases (text_eq e dot_dot)) [
          | inl t ↦
              let climbs : text_eq f dot_dot ≡ true =
                ap (λ x. text_eq x dot_dot) ((starts t).1.0) ∙ text_eq_refl dot_dot in
              absurd (cc (climbs, below.0.1))
          | inr g ↦ g
        ],
      ),
      below,
    )

-- The tests of safeDestination on the text say that the path leads down.
rooted-render :
    (rooted : Bool) (es : List Text)
    → starts_with_slash (render (record { rooted = rooted; parts = es })) ≡ false
    → rooted ≡ false
unfolding starts_with_slash render
rooted-render true es h = absurd cc
rooted-render false es h = refl

climbing :
    (e : Text) (es : List Text)
    → e ≡ dot_dot
    → text_eq (render_rel (e ∷ es)) dot_dot ≡ false
    → has_prefix (render_rel (e ∷ es)) (codes "../") ≡ false
    → ⊥
unfolding render_rel render join_parts has_prefix
climbing e [] d h k =
    let h' : text_eq dot_dot dot_dot ≡ false = rw d at h in absurd (cc (h', text_eq_refl dot_dot))
climbing e (f ∷ es) d h k =
    let k' : has_prefix (dot_dot ++ slash ∷ join_parts (f ∷ es)) (codes "../") ≡ false =
      rw d at k in
    absurd (cc k')

escapes-render :
    (es : List Text)
    → text_eq (render_rel es) dot_dot ≡ false
    → has_prefix (render_rel es) (codes "../") ≡ false
    → escapes es ≡ false
unfolding escapes
escapes-render [] h k = refl
escapes-render (e ∷ es) h k = elim (Bool-cases (text_eq e dot_dot)) [
  | inr f ↦ f
  | inl t ↦ absurd (climbing e es (text_eq_sound e dot_dot t) h k)
]

render-some :
    (es : List Text)
    → text_eq (render_rel es) dot ≡ false
    → (e : Text) × (rest : List Text) × (es ≡ e ∷ rest)
unfolding render_rel render text_eq
render-some [] h = absurd (cc h)
render-some (e ∷ es) h = (e, es, refl)

-- The four tests, one by one.
or_false : (a b : Bool) → (a || b) ≡ false → (a ≡ false) × (b ≡ false)
or_false false b h = (refl, h)
or_false true b h = absurd (cc h)

safe_destination-tests :
    (root relative d : Text)
    → safe_destination root relative ≡ some d
    → (text_eq (clean relative) dot ≡ false)
      × (starts_with_slash (clean relative) ≡ false)
      × (text_eq (clean relative) dot_dot ≡ false)
      × (has_prefix (clean relative) (codes "../") ≡ false)
      × (d ≡ join root (clean relative))
unfolding safe_destination
safe_destination-tests root relative d e =
    elim (Bool-cases (
      text_eq (clean relative) dot
      || starts_with_slash (clean relative)
      || text_eq (clean relative) dot_dot
      || has_prefix (clean relative) (codes "../"))) [
        | inl t ↦ absurd (cc (rw (safe_destination, t) at e))
        | inr f ↦
            let (abc, k) = or_false _ _ f in
            let (ab, c) = or_false _ _ abc in
            let (a, b) = or_false _ _ ab in
            (a, b, c, k, sym (some-injective (rw (safe_destination, f) at e)))
      ]

-- What a relative path without a root has to be.
relative-IsPlain :
    (relative : Text)
    → starts_with_slash (clean relative) ≡ false
    → text_eq (clean relative) dot_dot ≡ false
    → has_prefix (clean relative) (codes "../") ≡ false
    → (es : List Text) × (clean relative ≡ render_rel es) × All IsPlain es
unfolding clean render_rel
relative-IsPlain relative s c k =
    let (stack, parsed, normal) = parse-IsNormal relative in
    let text : clean relative
        ≡ render (record { rooted = starts_with_slash relative; parts = reverse stack }) =
      ap render parsed in
    let flat = rooted-render (starts_with_slash relative) (reverse stack) (rw text at s) in
    let same : clean relative ≡ render_rel (reverse stack) =
      text ∙ ap (λ b. render (record { rooted = b; parts = reverse stack })) flat in
    let down = escapes-render (reverse stack) (rw same at c) (rw same at k) in
    (reverse stack, same, All-reverse IsPlain stack (still-IsPlain stack (rw flat at normal) down))

All-IsPlain-escapes : (es : List Text) → All IsPlain es → escapes es ≡ false
unfolding escapes
All-IsPlain-escapes [] h = refl
All-IsPlain-escapes (e ∷ es) h = h.0.1

-- A path that safeDestination returns for a root that is not empty lies below the root, by one
-- element at least.
pub safe_destination-below :
    (root relative d : Text)
    → is_empty root ≡ false
    → safe_destination root relative ≡ some d
    → (e : Text) × (es : List Text) × LiesBelow (parse_path root) (parse_path d) (e ∷ es)
safe_destination-below root relative d h e =
    let (a, b, c, k, same) = safe_destination-tests root relative d e in
    let (all, text, plain) = relative-IsPlain relative b c k in
    let (f, rest, some_part) = render-some all (rw text at a) in
    let parsed =
      ap parse_path same ∙ ap (λ t. parse_path (join root t)) text ∙ parse-join root all h plain in
    (
      f,
      rest,
      (
        sym (ap (λ p. p.rooted) parsed),
        ap (λ p. p.parts) parsed ∙ ap (λ l. (parse_path root).parts ++ l) some_part,
        ap escapes (sym some_part) ∙ All-IsPlain-escapes all plain,
      ),
    )
