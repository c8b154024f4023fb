-- ===== src/Topology/Placed.antt =====
-- internal/source/topology.go: PlacementFor, and the container that it names.
use aninode.Prelude.{
  ◌≡◌, ◌≢◌, refl, sym, ap, ◌∙◌, ◌⊎◌, inl, inr, Bool, true, false, not, ◌||◌, ◌==◌, ==_iff, Text,
  text_eq, text_eq_sound, text_eq_refl, [], ◌∷◌, ◌++◌, reverse, All-reverse, Bool-cases, arith,
}
use aninode.ReleaseFilter.{is_empty, trim_space}
use aninode.Paths.{
  slash, dot, dot_dot, parse_path, join_parts, render, render_rel, clean, join, until_slash,
  strip_slashes, base,
}
use aninode.Paths.Split.{IsFree}
use aninode.Paths.Join.{IsPlain, parse-join}
use aninode.Topology.{
  MediaType, series, movie, other_media, Shape, single_file, multi_file, other_shape, save_at,
  place_in, placement_for,
}

until_slash-IsFree : (s : Text) → IsFree (until_slash s)
unfolding until_slash
until_slash-IsFree [] = tt
until_slash-IsFree (c ∷ s) = elim (Bool-cases (c == slash)) [
  | inl t ↦ rw t tt
  | inr f ↦ rw f ((λ e. absurd (cc (f, (==_iff c slash).1 e))), until_slash-IsFree s)
]

-- A name that is its own base has no slash, but for the name "/".
base-IsFree : (s : Text) → is_empty s ≡ false → base s ≡ s → IsFree s ⊎ (s ≡ slash ∷ [])
unfolding base
base-IsFree s filled h =
    let last = reverse (until_slash (strip_slashes (reverse s))) in
    elim (Bool-cases (is_empty last)) [
      | inl t ↦ inr (sym (rw (filled, t, base) at h))
      | inr f ↦
          let same = rw (filled, f, base) at h in
          inl (
            rw⁻¹ same (
              All-reverse (λ c. c ≢ slash) (until_slash (strip_slashes (reverse s)))
                (until_slash-IsFree (strip_slashes (reverse s)))))
    ]

-- The names that PlacementFor takes for safe, and that are none of a container.
abbrev pub is_odd : Text → Bool
is_odd name = text_eq name dot_dot || text_eq name (slash ∷ [])

-- The text of one element.
render-one : (e : Text) → render_rel (e ∷ []) ≡ e
unfolding render_rel render join_parts
render-one e = refl

-- The path is that of one element below the root.
abbrev pub IsChild : Text → Text → Text → Type 0
IsChild root name path =
    parse_path path
    ≡ record { rooted = (parse_path root).rooted; parts = (parse_path root).parts ++ name ∷ [] }

name-IsPlain :
    (e : Text)
    → is_odd e ≡ false
    → (is_empty e || text_eq e dot || not (text_eq (base e) e)) ≡ false
    → IsPlain e
name-IsPlain e even f =
    let its_base = text_eq_sound (base e) e (ground arith) in
    elim (base-IsFree e (ground arith) its_base) [
      | inl free ↦ ((free, ground arith, ground arith), ground arith)
      | inr root_name ↦
          let same : text_eq e (slash ∷ []) ≡ true = rw root_name (text_eq_refl (slash ∷ [])) in
          absurd (ground arith)
    ]

save_at-injective : {p q : Text} → save_at p ≡ save_at q → p ≡ q
save_at-injective h = cc

place_in-IsChild :
    (root name path : Text)
    → is_empty root ≡ false
    → is_odd (trim_space name) ≡ false
    → place_in root name ≡ save_at path
    → IsChild root (trim_space name) path
unfolding place_in
place_in-IsChild root name path filled even h =
    let e = trim_space name in
    elim (Bool-cases (is_empty e || text_eq e dot || not (text_eq (base e) e))) [
      | inl t ↦ absurd (cc (rw (t, place_in) at h))
      | inr f ↦
          let joined = save_at-injective (rw (f, place_in) at h) in
          let child = parse-join root (e ∷ []) filled (name-IsPlain e even f, tt) in
          ap parse_path (sym joined ∙ ap (join root) (sym (render-one e))) ∙ child
    ]

-- Where PlacementFor answers with a path, and the name of the container is neither ".." nor "/", the path
-- is that of a child with this name of the Entry's root, for a series, or of the source root, for a movie
-- of one file; for a movie of several files it is the cleaned source root, whatever the name is.
pub placement_for_lem :
    (media : MediaType) (shape : Shape) (entry_root source_root name path : Text)
    → is_odd (trim_space name) ≡ false
    → placement_for media shape entry_root source_root name ≡ save_at path
    → ((media ≡ series) × IsChild entry_root (trim_space name) path)
      ⊎ (((media ≡ movie) × (shape ≡ single_file) × IsChild source_root (trim_space name) path)
          ⊎ ((media ≡ movie) × (shape ≡ multi_file) × (path ≡ clean source_root)))
unfolding placement_for
placement_for_lem series single_file entry_root source_root name path even h =
    elim (Bool-cases (is_empty entry_root)) [
      | inl t ↦ absurd (cc (rw (t, placement_for) at h))
      | inr f ↦
          inl (refl, place_in-IsChild entry_root name path f even (rw (f, placement_for) at h))
    ]
placement_for_lem series multi_file entry_root source_root name path even h =
    elim (Bool-cases (is_empty entry_root)) [
      | inl t ↦ absurd (cc (rw (t, placement_for) at h))
      | inr f ↦
          inl (refl, place_in-IsChild entry_root name path f even (rw (f, placement_for) at h))
    ]
placement_for_lem movie single_file entry_root source_root name path even h =
    elim (Bool-cases (is_empty source_root)) [
      | inl t ↦ absurd (cc (rw (t, placement_for) at h))
      | inr f ↦ inr (
          inl (
            refl,
            refl,
            place_in-IsChild source_root name path f even (rw (f, placement_for) at h),
          ))
    ]
placement_for_lem movie multi_file entry_root source_root name path even h =
    elim (Bool-cases (is_empty source_root)) [
      | inl t ↦ absurd (cc (rw (t, placement_for) at h))
      | inr f ↦ inr (inr (refl, refl, sym (save_at-injective (rw (f, placement_for) at h))))
    ]
placement_for_lem other_media single_file entry_root source_root name path even h = absurd cc
placement_for_lem other_media multi_file entry_root source_root name path even h = absurd cc
placement_for_lem series other_shape entry_root source_root name path even h = absurd cc
placement_for_lem movie other_shape entry_root source_root name path even h = absurd cc
placement_for_lem other_media other_shape entry_root source_root name path even h = absurd cc
