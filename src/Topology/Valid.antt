-- ===== src/Topology/Valid.antt =====
-- internal/source/topology.go: the validations, in terms of the elements of paths.
use aninode.Prelude.{
  ℕ, ◌≤◌, ◌≡◌, ◌≢◌, ◌↔◌, refl, sym, ◌∙◌, inl, inr, true, false, not, ◌&&◌, ◌||◌, &&_iff,
  if◌then◌else◌, Text, List, [], ◌∷◌, All, length, arith, Bool-cases, Option-cases,
}
use aninode.ReleaseFilter.{is_empty}
use aninode.Paths.{parse_path, rel}
use aninode.Paths.Below.{escapes, LiesBelow, rel_iff}
use aninode.Topology.{
  Detail, Topology, check_depth, check_root, validate_root, validate_series_root, escapes_root,
  validate_paths, validate_with, validate_series, validate_series_at_source, validate_movie,
  validate_series_at_source_root, validate_movie_root, series_outside, movie_outside,
}

-- The second path lies below the first, by at least `min` and at most `max` elements.
abbrev pub IsWithin : ℕ → ℕ → Text → Text → Type 0
IsWithin min max root path =
    (r : List Text) × LiesBelow (parse_path root) (parse_path path) r
    × (min ≤ length r)
    × (length r ≤ max)

-- The second path lies below the first, at any depth.
abbrev pub IsInside : Text → Text → Type 0
IsInside root path =
    (r : List Text) × LiesBelow (parse_path root) (parse_path path) r × (1 ≤ length r)

check_depth_iff :
    (min max depth : ℕ)
    → ((check_depth min max depth).valid ≡ true) ↔ ((min ≤ depth) × (depth ≤ max))
unfolding check_depth
check_depth_iff min max depth = ground arith

check_root-valid :
    (d : Detail) (min max : ℕ) (root content : Text) (r : List Text)
    → 1 ≤ min
    → (is_empty root || is_empty content) ≡ false
    → LiesBelow (parse_path root) (parse_path content) r
    → min ≤ length r
    → length r ≤ max
    → (check_root d min max root content).valid ≡ true
unfolding check_root
check_root-valid d min max root content [] pos f below low high = absurd (omega arith)
check_root-valid d min max root content (x ∷ r) pos f below low high =
    let (e, n) = (rel_iff (parse_path root) (parse_path content) (x ∷ r)).1 below in
    rw (check_root, f, e, n) ((check_depth_iff min max (length (x ∷ r))).1 (low, high))

check_root_iff :
    (d : Detail) (min max : ℕ) (root content : Text)
    → 1 ≤ min
    → ((check_root d min max root content).valid ≡ true)
      ↔ (((is_empty root || is_empty content) ≡ false) × IsWithin min max root content)
unfolding check_root
check_root_iff d min max root content pos = (
  λ h. elim (Bool-cases (is_empty root || is_empty content)) [
    | inl t ↦ absurd (cc (rw (t, check_root) at h))
    | inr f ↦ elim (Option-cases (rel (parse_path root) (parse_path content))) [
      | inr e ↦ absurd (cc (rw (f, e, check_root) at h))
      | inl ([], e) ↦ absurd (cc (rw (f, e, check_root) at h))
      | inl (x ∷ r, e) ↦ elim (Bool-cases (escapes (x ∷ r))) [
        | inl t ↦ absurd (cc (rw (f, e, t, check_root) at h))
        | inr n ↦
            let (low, high) =
              (check_depth_iff min max (length (x ∷ r))).0 (rw (f, e, n, check_root) at h) in
            (
              f,
              (x ∷ r, (rel_iff (parse_path root) (parse_path content) (x ∷ r)).0 (e, n), low, high),
            )
      ]
    ]
  ],
  λ (f, (r, below, low, high)). check_root-valid d min max root content r pos f below low high,
)

escapes_root-inside :
    (content path : Text) (r : List Text)
    → LiesBelow (parse_path content) (parse_path path) r
    → 1 ≤ length r
    → escapes_root content path ≡ false
unfolding escapes_root
escapes_root-inside content path [] below h = absurd (omega arith)
escapes_root-inside content path (x ∷ r) below h =
    let (e, n) = (rel_iff (parse_path content) (parse_path path) (x ∷ r)).1 below in
    rw (escapes_root, e, n) refl

escapes_root_iff :
    (content path : Text) → (escapes_root content path ≡ false) ↔ IsInside content path
unfolding escapes_root
escapes_root_iff content path = (
  λ h. elim (Option-cases (rel (parse_path content) (parse_path path))) [
    | inr e ↦ absurd (cc (rw (e, escapes_root) at h))
    | inl ([], e) ↦ absurd (cc (rw (e, escapes_root) at h))
    | inl (x ∷ r, e) ↦ (
      x ∷ r,
      (rel_iff (parse_path content) (parse_path path) (x ∷ r)).0 (e, rw (e, escapes_root) at h),
      omega arith,
    )
  ],
  λ (r, below, low). escapes_root-inside content path r below low,
)

validate_paths_iff :
    (content : Text) (paths : List Text) (t : Topology)
    → ((validate_paths content paths t).valid ≡ true)
      ↔ ((t.valid ≡ true) × All (IsInside content) paths)
unfolding validate_paths
validate_paths_iff content [] t = (λ h. (h, tt), λ h. h.0)
validate_paths_iff content (path ∷ paths) t =
    ground (arith, validate_paths_iff content paths t, escapes_root_iff content path)

first_valid : (t c : Topology) → (if not t.valid then t else c).valid ≡ (t.valid && c.valid)
first_valid t c = elim (Bool-cases t.valid) [ inl v ↦ rw v refl | inr n ↦ rw n refl ]

validate_with_valid :
    (t : Topology) (root content path : Text) (paths : List Text)
    → (is_empty root || is_empty content) ≡ false
    → (validate_with t root content (path ∷ paths)).valid
      ≡ (t.valid && (validate_paths content (path ∷ paths) t).valid)
unfolding validate_with
validate_with_valid t root content path paths f =
    rw (validate_with, f) (first_valid t (validate_paths content (path ∷ paths) t))

validate_with_iff :
    (t : Topology) (root content : Text) (paths : List Text)
    → ((validate_with t root content paths).valid ≡ true) ↔ (
        (paths ≢ [])
        × ((is_empty root || is_empty content) ≡ false)
        × (t.valid ≡ true)
        × All (IsInside content) paths)
unfolding validate_with
validate_with_iff t root content [] = (λ h. absurd cc, λ h. absurd (h.0 refl))
validate_with_iff t root content (path ∷ paths) = (
  λ h. elim (Bool-cases (is_empty root || is_empty content)) [
    | inl u ↦ absurd (cc (rw (u, validate_with) at h))
    | inr f ↦
        let both = sym (validate_with_valid t root content path paths f) ∙ h in
        let (v, rest) = (&&_iff t.valid (validate_paths content (path ∷ paths) t).valid).0 both in
        ((λ e. absurd cc), f, v, ((validate_paths_iff content (path ∷ paths) t).0 rest).1)
  ],
  λ (some_paths, f, v, b).
      validate_with_valid t root content path paths f
      ∙ (&&_iff t.valid (validate_paths content (path ∷ paths) t).valid).1
          (v, (validate_paths_iff content (path ∷ paths) t).1 (v, b)),
)

with_root :
    (d : Detail) (min max : ℕ) (root content : Text) (paths : List Text)
    → 1 ≤ min
    → ((validate_with (check_root d min max root content) root content paths).valid ≡ true) ↔ (
        (paths ≢ [])
        × ((is_empty root || is_empty content) ≡ false)
        × IsWithin min max root content
        × All (IsInside content) paths)
with_root d min max root content paths pos = (
  λ h.
      let (p, f, v, b) =
        (validate_with_iff (check_root d min max root content) root content paths).0 h in
      (p, f, ((check_root_iff d min max root content pos).0 v).1, b),
  λ (p, f, w, b).
      (validate_with_iff (check_root d min max root content) root content paths).1
        (p, f, (check_root_iff d min max root content pos).1 (f, w), b),
)

-- ValidateSeries, ValidateSeriesAtSource and ValidateMovie answer valid exactly where there are paths,
-- no root is empty, the content lies below the root by one or two elements, by two or three, and by
-- exactly one, and every path lies below the content.
pub validate_iff :
    (root content : Text) (paths : List Text)
    → (((validate_series root content paths).valid ≡ true) ↔ (
        (paths ≢ [])
        × ((is_empty root || is_empty content) ≡ false)
        × IsWithin 1 2 root content
        × All (IsInside content) paths))
      × (((validate_series_at_source root content paths).valid ≡ true) ↔ (
          (paths ≢ [])
          × ((is_empty root || is_empty content) ≡ false)
          × IsWithin 2 3 root content
          × All (IsInside content) paths))
      × (((validate_movie root content paths).valid ≡ true) ↔ (
          (paths ≢ [])
          × ((is_empty root || is_empty content) ≡ false)
          × IsWithin 1 1 root content
          × All (IsInside content) paths))
unfolding validate_series validate_series_at_source validate_movie validate_series_root
    validate_series_at_source_root validate_movie_root validate_root
validate_iff root content paths = (
  with_root series_outside 1 2 root content paths (omega arith),
  with_root series_outside 2 3 root content paths (omega arith),
  with_root movie_outside 1 1 root content paths (omega arith),
)
