-- ===== src/Torrent/Files/Total.antt =====
-- The loops of readStringList and readFileList end: the fuel of the model is enough.
use aninode.Prelude.{
  ℕ, zero, suc, ◌<◌, ap, inl, inr, Text, text_eq, codes, List, [], ◌∷◌, ◌++◌, ◌||◌, length, ◌==◌,
  arith, Bool-cases,
}
use aninode.Torrent.{◌>>=◌, read_string, skip}
use aninode.Torrent.Pieces.{ok-injective}
use aninode.Torrent.Fuel.{read_string-fuel, skip-fuel}
use aninode.Torrent.Files.{
  string_list_loop, read_string_list, Paths, set_parts, read_file_field, file_fields, add_file,
  file_list_loop, read_file_list,
}
use aninode.Torrent.Progress.{
  Shortens, read_string-Shortens, skip-Shortens, after-Shortens, Ends, after-Ends, field-Shortens,
  field-Ends,
}

string_list_loop-Shortens :
    (f : ℕ) (s : Text) (out : List Text) → Shortens (λ r. r.1) s (string_list_loop f s out)
unfolding string_list_loop
string_list_loop-Shortens zero s out r h = cc
string_list_loop-Shortens (suc f) [] out r h = cc
string_list_loop-Shortens (suc f) (c ∷ s) out r h = elim (Bool-cases (c == b'e')) [
  | inl e ↦
      let last = ap (λ r. length r.1) (ok-injective (rw (e, string_list_loop) at h)) in omega arith
  | inr n ↦
      after-Shortens (λ r. r.1) (λ r. r.1) (c ∷ s) (read_string (c ∷ s))
        (λ (value, next). string_list_loop f next (out ++ value ∷ []))
        (read_string-Shortens (c ∷ s))
        (λ (value, next). string_list_loop-Shortens f next (out ++ value ∷ [])) r
        (rw (n, string_list_loop) at h)
]

string_list_loop-Ends :
    (f : ℕ) (s : Text) (out : List Text) → length s < f → Ends (string_list_loop f s out)
unfolding string_list_loop
string_list_loop-Ends zero s out le h = absurd (omega arith)
string_list_loop-Ends (suc f) [] out le h = cc
string_list_loop-Ends (suc f) (c ∷ s) out le h = elim (Bool-cases (c == b'e')) [
  | inl e ↦ absurd (cc (rw (e, string_list_loop) at h))
  | inr n ↦
      after-Ends (read_string (c ∷ s))
        (λ (value, next). string_list_loop f next (out ++ value ∷ [])) (read_string-fuel (c ∷ s))
        (λ (value, next) read.
          let less = read_string-Shortens (c ∷ s) (value, next) read in
          string_list_loop-Ends f next (out ++ value ∷ []) (omega arith))
        (rw (n, string_list_loop) at h)
]

read_string_list-Shortens : (s : Text) → Shortens (λ r. r.1) s (read_string_list s)
unfolding read_string_list
read_string_list-Shortens [] r h = cc
read_string_list-Shortens (c ∷ s) r h = elim (Bool-cases (c == b'l')) [
  | inl e ↦ let less = string_list_loop-Shortens (suc (length s)) s [] r (rw e at h) in omega arith
  | inr n ↦ absurd (cc (rw n at h))
]

read_string_list-Ends : (s : Text) → Ends (read_string_list s)
unfolding read_string_list
read_string_list-Ends [] h = cc
read_string_list-Ends (c ∷ s) h = elim (Bool-cases (c == b'l')) [
  | inl e ↦ string_list_loop-Ends (suc (length s)) s [] (omega arith) (rw e at h)
  | inr n ↦ absurd (cc (rw n at h))
]

read_file_field-Shortens :
    (key next : Text) (p : Paths) → Shortens (λ r. r.1) next (read_file_field key next p)
unfolding read_file_field
read_file_field-Shortens key next p r h =
    elim (Bool-cases (text_eq key (codes "path") || text_eq key (codes "path.utf-8"))) [
      | inl e ↦
          field-Shortens (λ r. r.1) next (read_string_list next) (λ r. set_parts key r.0 p)
            (read_string_list-Shortens next) r (rw e at h)
      | inr n ↦ field-Shortens (λ r. r) next (skip next) (λ r. p) (skip-Shortens next) r (rw n at h)
    ]

read_file_field-Ends : (key next : Text) (p : Paths) → Ends (read_file_field key next p)
unfolding read_file_field
read_file_field-Ends key next p h =
    elim (Bool-cases (text_eq key (codes "path") || text_eq key (codes "path.utf-8"))) [
      | inl e ↦
          field-Ends (λ r. r.1) (read_string_list next) (λ r. set_parts key r.0 p)
            (read_string_list-Ends next) (rw e at h)
      | inr n ↦ field-Ends (λ r. r) (skip next) (λ r. p) (skip-fuel next) (rw n at h)
    ]

file_fields-Shortens : (f : ℕ) (s : Text) (p : Paths) → Shortens (λ r. r.1) s (file_fields f s p)
unfolding file_fields
file_fields-Shortens zero s p r h = cc
file_fields-Shortens (suc f) [] p r h = cc
file_fields-Shortens (suc f) (c ∷ s) p r h = elim (Bool-cases (c == b'e')) [
  | inl e ↦ let last = ap (λ r. length r.1) (ok-injective (rw (e, file_fields) at h)) in omega arith
  | inr n ↦
      after-Shortens (λ r. r.1) (λ r. r.1) (c ∷ s) (read_string (c ∷ s))
        (λ (key, next). read_file_field key next p >>= (λ (p', end). file_fields f end p'))
        (read_string-Shortens (c ∷ s))
        (λ (key, next).
          after-Shortens (λ r. r.1) (λ r. r.1) next (read_file_field key next p)
            (λ (p', end). file_fields f end p') (read_file_field-Shortens key next p)
            (λ (p', end). file_fields-Shortens f end p'))
        r (rw (n, file_fields) at h)
]

file_fields-Ends : (f : ℕ) (s : Text) (p : Paths) → length s < f → Ends (file_fields f s p)
unfolding file_fields
file_fields-Ends zero s p le h = absurd (omega arith)
file_fields-Ends (suc f) [] p le h = cc
file_fields-Ends (suc f) (c ∷ s) p le h = elim (Bool-cases (c == b'e')) [
  | inl e ↦ absurd (cc (rw (e, file_fields) at h))
  | inr n ↦
      after-Ends (read_string (c ∷ s))
        (λ (key, next). read_file_field key next p >>= (λ (p', end). file_fields f end p'))
        (read_string-fuel (c ∷ s))
        (λ (key, next) read.
          after-Ends (read_file_field key next p) (λ (p', end). file_fields f end p')
            (read_file_field-Ends key next p)
            (λ (p', end) read'.
              let less = read_string-Shortens (c ∷ s) (key, next) read in
              let less' = read_file_field-Shortens key next p (p', end) read' in
              file_fields-Ends f end p' (omega arith)))
        (rw (n, file_fields) at h)
]

file_list_loop-Shortens :
    (f : ℕ) (s : Text) (out : List Text) → Shortens (λ r. r.1) s (file_list_loop f s out)
unfolding file_list_loop
file_list_loop-Shortens zero s out r h = cc
file_list_loop-Shortens (suc f) [] out r h = cc
file_list_loop-Shortens (suc f) (c ∷ s) out r h = elim (Bool-cases (c == b'e')) [
  | inl e ↦
      let last = ap (λ r. length r.1) (ok-injective (rw (e, file_list_loop) at h)) in omega arith
  | inr n ↦ elim (Bool-cases (c == b'd')) [
    | inr m ↦ absurd (cc (rw (n, m, file_list_loop) at h))
    | inl d ↦
        let less =
          after-Shortens (λ r. r.1) (λ r. r.1) s
            (file_fields (suc (length s)) s (record { plain = []; utf8 = [] }))
            (λ (p, rest). file_list_loop f rest (add_file out p))
            (file_fields-Shortens (suc (length s)) s (record { plain = []; utf8 = [] }))
            (λ (p, rest). file_list_loop-Shortens f rest (add_file out p)) r
            (rw (n, d, file_list_loop) at h) in
        omega arith
  ]
]

file_list_loop-Ends :
    (f : ℕ) (s : Text) (out : List Text) → length s < f → Ends (file_list_loop f s out)
unfolding file_list_loop
file_list_loop-Ends zero s out le h = absurd (omega arith)
file_list_loop-Ends (suc f) [] out le h = cc
file_list_loop-Ends (suc f) (c ∷ s) out le h = elim (Bool-cases (c == b'e')) [
  | inl e ↦ absurd (cc (rw (e, file_list_loop) at h))
  | inr n ↦ elim (Bool-cases (c == b'd')) [
    | inr m ↦ absurd (cc (rw (n, m, file_list_loop) at h))
    | inl d ↦
        after-Ends (file_fields (suc (length s)) s (record { plain = []; utf8 = [] }))
          (λ (p, rest). file_list_loop f rest (add_file out p))
          (file_fields-Ends (suc (length s)) s (record { plain = []; utf8 = [] }) (omega arith))
          (λ (p, rest) read.
            let less =
              file_fields-Shortens (suc (length s)) s (record { plain = []; utf8 = [] }) (p, rest)
                read in
            file_list_loop-Ends f rest (add_file out p) (omega arith))
          (rw (n, d, file_list_loop) at h)
  ]
]

pub read_file_list-Shortens : (s : Text) → Shortens (λ r. r.1) s (read_file_list s)
unfolding read_file_list
read_file_list-Shortens [] r h = cc
read_file_list-Shortens (c ∷ s) r h = elim (Bool-cases (c == b'l')) [
  | inl e ↦ let less = file_list_loop-Shortens (suc (length s)) s [] r (rw e at h) in omega arith
  | inr n ↦ absurd (cc (rw n at h))
]

pub read_file_list-Ends : (s : Text) → Ends (read_file_list s)
unfolding read_file_list
read_file_list-Ends [] h = cc
read_file_list-Ends (c ∷ s) h = elim (Bool-cases (c == b'l')) [
  | inl e ↦ file_list_loop-Ends (suc (length s)) s [] (omega arith) (rw e at h)
  | inr n ↦ absurd (cc (rw n at h))
]
