-- ===== src/Download/Mapping.antt =====
-- internal/download/download.go: MapPath and UnmapPath.
use aninode.Prelude.{
  ℕ, suc, ◌⊎◌, inl, inr, Option-cases, Bool-cases, some-injective, ◌<◌, ◌≡◌, refl, sym, ap, ◌∙◌,
  Bool, true, false, ltb, Text, text_eq, some, List, [], ◌∷◌, ◌++◌, All, All-right, length, arith,
}
use aninode.ReleaseFilter.{is_empty}
use aninode.Paths.{
  dot, FilePath, starts_with_slash, parse_path, render, clean, render_rel, join, rel,
}
use aninode.Paths.Clean.{parse-clean}
use aninode.Paths.Below.{LiesBelow, rel_iff, escapes}
use aninode.Paths.Join.{IsPlain, parse-join, join-clean, rooted-IsPlain}
use aninode.Download.{
  PathMapping, source_of, target_of, is_usable, below, best_mapping, join_below, map_either,
  map_path, unmap_path,
}

abbrev pub IsRooted : Text → Type 0
IsRooted s = starts_with_slash s ≡ true

parse-rooted : (s : Text) → IsRooted s → (parse_path s).rooted ≡ true
unfolding parse_path
parse-rooted s h = h

clean-IsRooted : (s : Text) → IsRooted s → IsRooted (clean s)
unfolding clean render starts_with_slash
clean-IsRooted s h = let there = parse-rooted s h in rw (clean, render, there) refl

IsRooted-filled :
    (s : Text) → IsRooted s → (is_empty s ≡ false) × (text_eq s dot ≡ false) × (0 < length s)
unfolding starts_with_slash text_eq
IsRooted-filled [] h = absurd cc
IsRooted-filled (c ∷ s) h = ground arith

below_found :
    (remote path : Text) (r : List Text)
    → LiesBelow (parse_path remote) (parse_path path) r
    → below remote path ≡ some r
unfolding below
below_found remote path r h =
    let (e, n) = (rel_iff (parse_path remote) (parse_path path) r).1 h in rw (below, e, n) refl

found_below :
    (remote path : Text) (r : List Text)
    → below remote path ≡ some r
    → LiesBelow (parse_path remote) (parse_path path) r
unfolding below
found_below remote path r h = elim (Option-cases (rel (parse_path remote) (parse_path path))) [
  | inr n ↦ absurd (cc (rw (below, n) at h))
  | inl (q, e) ↦ elim (Bool-cases (escapes q)) [
    | inl t ↦ absurd (cc (rw (below, e, t) at h))
    | inr f ↦
        let same = some-injective (rw (below, e, f) at h) in
        (rel_iff (parse_path remote) (parse_path path) r).0 (rw (sym same) (e, f))
  ]
]

-- Where the loop looks at a mapping and the path lies below its side, the side is shorter than n.
abbrev pub IsBeaten : Bool → Text → ℕ → PathMapping → Type 0
IsBeaten backwards path n o =
    (r : List Text)
    → is_usable (clean (source_of backwards o)) (target_of backwards o) ≡ true
    → LiesBelow (parse_path (source_of backwards o)) (parse_path path) r
    → length (clean (source_of backwards o)) < n

-- The cleaned side of `m` is the longest of those that the path lies below, and the first of that
-- length.
abbrev pub IsBest : Bool → Text → List PathMapping → PathMapping → List PathMapping → Type 0
IsBest backwards path before m behind =
    All (IsBeaten backwards path (length (clean (source_of backwards m)))) before
    × All (IsBeaten backwards path (suc (length (clean (source_of backwards m))))) behind

-- What a round of the loop does.
round-cases :
    (backwards : Bool) (path : Text) (best : Text × Text) (o : PathMapping) (ms : List PathMapping)
    → (best_mapping backwards path best (o ∷ ms) ≡ best_mapping backwards path best ms)
      ⊎ ((r : List Text) × (is_usable (clean (source_of backwards o)) (target_of backwards o)
            ≡ true)
          × LiesBelow (parse_path (source_of backwards o)) (parse_path path) r
          × (length best.0 < length (clean (source_of backwards o)))
          × (best_mapping backwards path best (o ∷ ms)
              ≡ best_mapping backwards path
                  (clean (source_of backwards o), clean (target_of backwards o))
                  ms))
unfolding best_mapping
round-cases backwards path best o ms =
    let remote = clean (source_of backwards o) in
    elim (Bool-cases (is_usable remote (target_of backwards o))) [
      | inr n ↦ inl (rw (best_mapping, n) refl)
      | inl u ↦ elim (Option-cases (below remote path)) [
        | inr n ↦ inl (rw (best_mapping, u, n) refl)
        | inl (r, e) ↦ elim (Bool-cases (ltb (length best.0) (length remote))) [
          | inr n ↦ inl (rw (best_mapping, u, e, n) refl)
          | inl t ↦ inr (
            r,
            u,
            rw⁻¹ (parse-clean (source_of backwards o)) (found_below remote path r e),
            ground arith,
            rw (best_mapping, u, e, t) refl,
          )
        ]
      ]
    ]

-- Mappings that are beaten leave the loop with a shorter side.
best-before :
    (backwards : Bool) (path : Text) (n : ℕ) (best : Text × Text) (before ms : List PathMapping)
    → length best.0 < n
    → All (IsBeaten backwards path n) before
    → (best' : Text × Text) × (length best'.0 < n)
      × (best_mapping backwards path best (before ++ ms) ≡ best_mapping backwards path best' ms)
best-before backwards path n best [] ms short h = (best, short, refl)
best-before backwards path n best (o ∷ before) ms short h =
    elim (round-cases backwards path best o (before ++ ms)) [
      | inl e ↦
          let (best', short', e') = best-before backwards path n best before ms short h.1 in
          (best', short', e ∙ e')
      | inr (r, u, lies, more, e) ↦
          let (best', short', e') =
            best-before backwards path n
              (clean (source_of backwards o), clean (target_of backwards o)) before ms
              (h.0 r u lies) h.1 in
          (best', short', e ∙ e')
    ]

best-behind :
    (backwards : Bool) (path : Text) (best : Text × Text) (behind : List PathMapping)
    → All (IsBeaten backwards path (suc (length best.0))) behind
    → best_mapping backwards path best behind ≡ best
unfolding best_mapping
best-behind backwards path best [] h = refl
best-behind backwards path best (o ∷ behind) h = elim (round-cases backwards path best o behind) [
  | inl e ↦ e ∙ best-behind backwards path best behind h.1
  | inr (r, u, lies, more, e) ↦ let t = h.0 r u lies in absurd (omega (arith, t, more))
]

-- The loop takes a mapping whose side is longer than the one so far.
best-here :
    (backwards : Bool) (path : Text) (best : Text × Text) (m : PathMapping)
    (behind : List PathMapping) (r : List Text)
    → IsRooted (source_of backwards m)
    → IsRooted (target_of backwards m)
    → LiesBelow (parse_path (source_of backwards m)) (parse_path path) r
    → length best.0 < length (clean (source_of backwards m))
    → best_mapping backwards path best (m ∷ behind)
      ≡ best_mapping backwards path
          (clean (source_of backwards m), clean (target_of backwards m))
          behind
unfolding best_mapping is_usable
best-here backwards path best m behind r from to h short =
    let (filled, no_dot, long) =
      IsRooted-filled (clean (source_of backwards m))
        (clean-IsRooted (source_of backwards m) from) in
    let (filled', no_dot', long') = IsRooted-filled (target_of backwards m) to in
    let found =
      below_found (clean (source_of backwards m)) path r
        (rw (parse-clean (source_of backwards m)) h) in
    let longer : ltb (length best.0) (length (clean (source_of backwards m))) ≡ true =
      ground arith in
    rw (best_mapping, is_usable, no_dot, filled, filled', found, longer) refl

best_mapping-IsBest :
    (backwards : Bool) (path : Text) (before behind : List PathMapping) (m : PathMapping)
    (r : List Text)
    → IsRooted (source_of backwards m)
    → IsRooted (target_of backwards m)
    → LiesBelow (parse_path (source_of backwards m)) (parse_path path) r
    → IsBest backwards path before m behind
    → best_mapping backwards path ([], []) (before ++ (m ∷ behind))
      ≡ (clean (source_of backwards m), clean (target_of backwards m))
best_mapping-IsBest backwards path before behind m r from to h best =
    let (filled, no_dot, long) =
      IsRooted-filled (clean (source_of backwards m))
        (clean-IsRooted (source_of backwards m) from) in
    let (best', short, e) =
      best-before backwards path (length (clean (source_of backwards m))) ([], []) before
        (m ∷ behind) long best.0 in
    e
    ∙ best-here backwards path best' m behind r from to h short
    ∙ best-behind backwards path (clean (source_of backwards m), clean (target_of backwards m))
        behind best.1

-- A path below one side of the best mapping is moved to the other side, by the same elements.
map_best :
    (backwards : Bool) (path : Text) (before behind : List PathMapping) (m : PathMapping)
    (r : List Text)
    → IsRooted (source_of backwards m)
    → IsRooted (target_of backwards m)
    → LiesBelow (parse_path (source_of backwards m)) (parse_path path) r
    → IsBest backwards path before m behind
    → map_either backwards path (before ++ (m ∷ behind))
      ≡ join (clean (target_of backwards m)) (render_rel r)
unfolding map_either join_below
map_best backwards path before behind m r from to h is_best =
    let best = best_mapping-IsBest backwards path before behind m r from to h is_best in
    let (filled, no_dot, long) =
      IsRooted-filled (clean (source_of backwards m))
        (clean-IsRooted (source_of backwards m) from) in
    let found =
      ((rel_iff (parse_path (clean (source_of backwards m))) (parse_path path) r).1
        (rw (parse-clean (source_of backwards m)) h)).0 in
    rw (map_either, best, filled, found) refl

-- What a rooted path lies below it by are elements that lead down.
below-IsPlain :
    (root : FilePath) (path : Text) (r : List Text)
    → IsRooted path
    → LiesBelow root (parse_path path) r
    → All IsPlain r
below-IsPlain root path r rooted (same, parts, down) =
    let plain = rooted-IsPlain path rooted in All-right IsPlain root.parts r (rw parts at plain)

-- The elements of a mapped path.
mapped_parts :
    (to : Text) (r : List Text)
    → IsRooted to
    → All IsPlain r
    → parse_path (join (clean to) (render_rel r))
      ≡ record { rooted = (parse_path to).rooted; parts = (parse_path to).parts ++ r }
mapped_parts to r rooted plain =
    let parsed =
      parse-join (clean to) r (IsRooted-filled (clean to) (clean-IsRooted to rooted)).0 plain in
    rw⁻¹ (parse-clean to) parsed

LiesBelow-target :
    (root target : FilePath) (r : List Text)
    → LiesBelow root target r
    → record { rooted = root.rooted; parts = root.parts ++ r } ≡ target
LiesBelow-target root target r (same, parts, down) = rw (same, sym parts) refl

-- Where a mapping and a path are absolute, the path lies below the source side of the mapping, and
-- that side, cleaned, is the longest of those of the usable mappings that the path lies below, and
-- the first of that length, then MapPath, from the remote side, and UnmapPath, from the local side,
-- lead to the path that lies below the other side of the mapping by the same elements.
pub map_either-IsBest :
    (backwards : Bool) (before behind : List PathMapping) (m : PathMapping) (path : Text)
    (r : List Text)
    → IsRooted (source_of backwards m)
    → IsRooted (target_of backwards m)
    → IsRooted path
    → LiesBelow (parse_path (source_of backwards m)) (parse_path path) r
    → IsBest backwards path before m behind
    → LiesBelow
        (parse_path (target_of backwards m))
        (parse_path (map_either backwards path (before ++ (m ∷ behind))))
        r
map_either-IsBest backwards before behind m path r from to rooted below best =
    let plain = below-IsPlain (parse_path (source_of backwards m)) path r rooted below in
    let there = map_best backwards path before behind m r from to below best in
    let parts = mapped_parts (target_of backwards m) r to plain in
    rw (there, parts) (refl, refl, below.2)

-- Where a mapping and a path are absolute, the path lies below the remote side of the mapping, that
-- side is the best one of the mappings for the path, and the local side is the best one for what
-- MapPath makes of it, then UnmapPath leads from there back to the cleaned path. The best side is
-- the longest cleaned one of the usable mappings that the path lies below, and the first of that
-- length.
pub unmap_path-map_path :
    (before behind : List PathMapping) (m : PathMapping) (path : Text) (r : List Text)
    → IsRooted m.remote
    → IsRooted m.local
    → IsRooted path
    → LiesBelow (parse_path m.remote) (parse_path path) r
    → IsBest false path before m behind
    → IsBest true (map_path path (before ++ (m ∷ behind))) before m behind
    → unmap_path (map_path path (before ++ (m ∷ behind))) (before ++ (m ∷ behind)) ≡ clean path
unfolding map_path unmap_path source_of target_of clean
unmap_path-map_path before behind m path r remote local rooted below best best' =
    let plain = below-IsPlain (parse_path m.remote) path r rooted below in
    let moved = map_either-IsBest false before behind m path r remote local rooted below best in
    let back =
      map_best true (map_path path (before ++ (m ∷ behind))) before behind m r local remote moved
        best' in
    let cleaned =
      join-clean (clean m.remote) r
        (IsRooted-filled (clean m.remote) (clean-IsRooted m.remote remote)).0 plain in
    back
    ∙ cleaned
    ∙ ap (λ p. render (record { rooted = p.rooted; parts = p.parts ++ r })) (parse-clean m.remote)
    ∙ ap render (LiesBelow-target (parse_path m.remote) (parse_path path) r below)
