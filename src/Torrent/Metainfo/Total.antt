-- ===== src/Torrent/Metainfo/Total.antt =====
-- The loops of the package end: the fuel of the model is enough.
use aninode.Prelude.{
  ℕ, zero, suc, ◌<◌, ◌≢◌, inl, inr, Text, text_eq, codes, [], ◌∷◌, ◌||◌, length, Option, none, some,
  ◌==◌, arith, Bool-cases, if◌then◌else◌,
}
use aninode.Torrent.{ok, fail, ◌>>=◌, read_string, skip, out_of_fuel}
use aninode.Torrent.Fuel.{read_string-fuel, skip-fuel}
use aninode.Torrent.Files.{read_file_list}
use aninode.Torrent.Metainfo.{
  hex_encode, Info, set_name, read_info_field, info_loop, name_of, info_identity, slice, root_loop,
  identify, parse,
}
use aninode.Torrent.Progress.{
  Shortens, read_string-Shortens, skip-Shortens, Ends, after-Ends, field-Shortens, field-Ends,
}
use aninode.Torrent.Files.Total.{read_file_list-Shortens, read_file_list-Ends}
use aninode.Torrent.Metainfo.Entries.{value_rest}

read_info_field-Shortens :
    (key next : Text) (i : Info) → Shortens (λ r. r.1) next (read_info_field key next i)
unfolding read_info_field
read_info_field-Shortens key next i r h =
    elim (Bool-cases (text_eq key (codes "name") || text_eq key (codes "name.utf-8"))) [
      | inl e ↦
          field-Shortens (λ r. r.1) next (read_string next) (λ r. set_name key r.0 i)
            (read_string-Shortens next) r (rw e at h)
      | inr n ↦ elim (Bool-cases (text_eq key (codes "files"))) [
        | inl e ↦
            field-Shortens (λ r. r.1) next (read_file_list next) (λ r. record i { files = r.0 })
              (read_file_list-Shortens next) r (rw (n, e) at h)
        | inr m ↦
            field-Shortens (λ r. r) next (skip next) (λ r. i) (skip-Shortens next) r
              (rw (n, m) at h)
      ]
    ]

read_info_field-Ends : (key next : Text) (i : Info) → Ends (read_info_field key next i)
unfolding read_info_field
read_info_field-Ends key next i h =
    elim (Bool-cases (text_eq key (codes "name") || text_eq key (codes "name.utf-8"))) [
      | inl e ↦
          field-Ends (λ r. r.1) (read_string next) (λ r. set_name key r.0 i) (read_string-fuel next)
            (rw e at h)
      | inr n ↦ elim (Bool-cases (text_eq key (codes "files"))) [
        | inl e ↦
            field-Ends (λ r. r.1) (read_file_list next) (λ r. record i { files = r.0 })
              (read_file_list-Ends next) (rw (n, e) at h)
        | inr m ↦ field-Ends (λ r. r) (skip next) (λ r. i) (skip-fuel next) (rw (n, m) at h)
      ]
    ]

info_loop-Ends : (f : ℕ) (s : Text) (i : Info) → length s < f → Ends (info_loop f s i)
unfolding info_loop
info_loop-Ends zero s i le h = absurd (omega arith)
info_loop-Ends (suc f) [] i le h = cc
info_loop-Ends (suc f) (c ∷ s) i le h = elim (Bool-cases (c == b'e')) [
  | inl e ↦ absurd (cc (rw (e, info_loop) at h))
  | inr n ↦
      after-Ends (read_string (c ∷ s))
        (λ (key, next). read_info_field key next i >>= (λ (i', end). info_loop f end i'))
        (read_string-fuel (c ∷ s))
        (λ (key, next) read.
          after-Ends (read_info_field key next i) (λ (i', end). info_loop f end i')
            (read_info_field-Ends key next i)
            (λ (i', end) read'.
              let less = read_string-Shortens (c ∷ s) (key, next) read in
              let less' = read_info_field-Shortens key next i (i', end) read' in
              info_loop-Ends f end i' (omega arith)))
        (rw (n, info_loop) at h)
]

name_of-Ends : (i : Info) → Ends (name_of i)
unfolding name_of
name_of-Ends i h = ground arith

info_identity-Ends : (s : Text) → Ends (info_identity s)
unfolding info_identity
info_identity-Ends [] h = cc
info_identity-Ends (c ∷ s) h = elim (Bool-cases (c == b'd')) [
  | inl e ↦
      after-Ends (info_loop (suc (length s)) s (record { plain = []; utf8 = []; files = [] }))
        name_of
        (info_loop-Ends (suc (length s)) s (record { plain = []; utf8 = []; files = [] })
          (omega arith))
        (λ i read. name_of-Ends i) (rw e at h)
  | inr n ↦ absurd (cc (rw n at h))
]

root_loop-Ends : (f : ℕ) (s : Text) (info : Option Text) → length s < f → Ends (root_loop f s info)
unfolding root_loop
root_loop-Ends zero s info le h = absurd (omega arith)
root_loop-Ends (suc f) [] info le h = cc
root_loop-Ends (suc f) (c ∷ s) info le h = elim (Bool-cases (c == b'e')) [
  | inl e ↦ absurd (cc (rw (e, root_loop) at h))
  | inr n ↦
      after-Ends (read_string (c ∷ s)) (value_rest f info) (read_string-fuel (c ∷ s))
        (λ (key, next) read.
          after-Ends (skip next)
            (λ rest.
              root_loop f rest
                (if text_eq key (codes "info") then some (slice next rest) else info))
            (skip-fuel next)
            (λ rest skipped.
              let less = read_string-Shortens (c ∷ s) (key, next) read in
              let less' = skip-Shortens next rest skipped in
              root_loop-Ends f rest
                (if text_eq key (codes "info") then some (slice next rest) else info)
                (omega arith)))
        (rw (n, root_loop) at h)
]

module _ (sha1 : Text → Text) where
  identify-Ends : (found : Option Text) → Ends (identify sha1 found)
  unfolding identify
  identify-Ends none h = cc
  identify-Ends (some info) h =
      after-Ends (info_identity info)
        (λ (name, files).
          ok (record { name = name; files = files; info_hash = hex_encode (sha1 info) }))
        (info_identity-Ends info) (λ r read e. cc) h

  -- Parse ends on every input: none of its loops, and none of the readers they call, runs out of the
  -- fuel that the model gives them.
  pub parse-Ends : (s : Text) → parse sha1 s ≢ fail out_of_fuel
  unfolding parse
  parse-Ends [] h = cc
  parse-Ends (c ∷ s) h = elim (Bool-cases (c == b'd')) [
    | inl e ↦
        after-Ends (root_loop (suc (length s)) s none) (identify sha1)
          (root_loop-Ends (suc (length s)) s none (omega arith)) (λ found read. identify-Ends found)
          (rw e at h)
    | inr n ↦ absurd (cc (rw n at h))
  ]
