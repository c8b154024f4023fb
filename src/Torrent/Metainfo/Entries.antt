-- ===== src/Torrent/Metainfo/Entries.antt =====
-- The loop of Parse, against the entries of the root dictionary.
use aninode.Prelude.{
  ℕ, zero, suc, ◌-◌, ◌<◌, ◌≡◌, refl, sym, ap, ◌∙◌, ◌↔◌, inl, inr, false, Text, text_eq, codes, List,
  [], ◌∷◌, ◌++◌, length, take, length-append, take-append, Option, none, some, ◌==◌, ==_iff, arith,
  Bool-cases, if◌then◌else◌,
}
use aninode.Torrent.{Result, ok, ◌>>=◌, read_string, skip}
use aninode.Torrent.Grammar.{IsString, IsValue}
use aninode.Torrent.Strings.{read_string_sound, read_string_complete}
use aninode.Torrent.Pieces.{>>=-eq-ok, ok-injective, IsString-head}
use aninode.Torrent.Skip.{skip_iff}
use aninode.Torrent.Complete.{value_size}
use aninode.Torrent.Metainfo.{slice, root_loop}

-- The entries of a dictionary that a text spells: the body of each key, and the text of its value.
-- The dictionary ends at an `e`, with anything behind it, or with the text.
pub data HasEntries : List (Text × Text) → Text → Type 0 where
  closed : {t : Text} (rest : Text) → t ≡ b'e' ∷ rest → HasEntries [] t
  cut : {t : Text} → t ≡ [] → HasEntries [] t
  entry :
      {t : Text} {entries : List (Text × Text)} (key body value rest : Text)
      → IsString key body
      → IsValue value
      → HasEntries entries rest
      → t ≡ key ++ (value ++ rest)
      → HasEntries ((body, value) ∷ entries) t

-- The value of the last entry with the key `info`, or else the one found before.
unfoldable pub info_of : Option Text → List (Text × Text) → Option Text
info_of found [] = found
info_of found ((body, value) ∷ entries) =
    info_of (if text_eq body (codes "info") then some value else found) entries

slice-append : (v rest : Text) → slice (v ++ rest) rest ≡ v
unfolding slice
slice-append v rest =
    let size : length (v ++ rest) - length rest ≡ length v =
      let e = length-append v rest in omega arith in
    ap (λ n. take n (v ++ rest)) size ∙ take-append v rest

-- The rounds of the loop behind the key.
abbrev pub value_rest : ℕ → Option Text → Text × Text → Result (Option Text)
value_rest f info (key, next) = skip next >>= (λ rest.
    root_loop f rest (if text_eq key (codes "info") then some (slice next rest) else info))

root_loop_sound :
    (f : ℕ) (s : Text) (info found : Option Text)
    → root_loop f s info ≡ ok found
    → (entries : List (Text × Text)) × HasEntries entries s × (found ≡ info_of info entries)
unfolding root_loop info_of
root_loop_sound zero s info found h = cc
root_loop_sound (suc f) [] info found h = ([], cut refl, sym (ok-injective h))
root_loop_sound (suc f) (c ∷ s) info found h = elim (Bool-cases (c == b'e')) [
  | inl e ↦ (
    [],
    closed s (ap (λ d. d ∷ s) ((==_iff c b'e').0 e)),
    sym (ok-injective (rw (e, root_loop) at h)),
  )
  | inr n ↦
      let ((body, next), read_key, h') =
        >>=-eq-ok (read_string (c ∷ s)) (value_rest f info) (rw (n, root_loop) at h) in
      let (rest, skipped, h'') =
        >>=-eq-ok (skip next)
          (λ r. root_loop f r (if text_eq body (codes "info") then some (slice next r) else info))
          h' in
      let (key, wk, sk) = read_string_sound (c ∷ s) body next read_key in
      let (value, wv, sv) = (skip_iff next rest).0 skipped in
      let cut_out : slice next rest ≡ value = ap (λ t. slice t rest) sv ∙ slice-append value rest in
      let (entries, w, found_in) =
        root_loop_sound f rest
          (if text_eq body (codes "info") then some (slice next rest) else info) found h'' in
      (
        (body, value) ∷ entries,
        entry key body value rest wk wv w (sk ∙ ap (λ t. key ++ t) sv),
        found_in
            ∙ ap (λ v. info_of (if text_eq body (codes "info") then some v else info) entries)
                cut_out,
      )
]

root_loop_step :
    (f c : ℕ) (s body next rest : Text) (info : Option Text)
    → (c == b'e') ≡ false
    → read_string (c ∷ s) ≡ ok (body, next)
    → skip next ≡ ok rest
    → root_loop (suc f) (c ∷ s) info
      ≡ root_loop f rest (if text_eq body (codes "info") then some (slice next rest) else info)
unfolding root_loop
root_loop_step f c s body next rest info n k v = rw (n, root_loop) (rw k (rw v))

root_loop_complete :
    (f : ℕ) (s : Text) (info : Option Text) (entries : List (Text × Text))
    → HasEntries entries s
    → length s < f
    → root_loop f s info ≡ ok (info_of info entries)
unfolding root_loop info_of
root_loop_complete zero s info entries w h = absurd (omega arith)
root_loop_complete (suc f) s info entries (closed rest e) h = rw e
root_loop_complete (suc f) s info entries (cut e) h = rw e
root_loop_complete (suc f) s info entries (entry {entries = es} key body value rest wk wv w e) h =
    let (c, k, head, d) = IsString-head wk in
    let front : s ≡ c ∷ (k ++ (value ++ rest)) = e ∙ ap (λ t. t ++ (value ++ rest)) head in
    let read : read_string (c ∷ (k ++ (value ++ rest))) ≡ ok (body, value ++ rest) =
      ap read_string (sym front ∙ e) ∙ read_string_complete key body (value ++ rest) wk in
    let skipped = (skip_iff (value ++ rest) rest).1 (value, wv, refl) in
    let size = ap length e ∙ length-append key (value ++ rest) in
    let parts = length-append value rest in
    let some_byte = value_size wv in
    ap (λ t. root_loop (suc f) t info) front
    ∙ root_loop_step f c (k ++ (value ++ rest)) body (value ++ rest) rest info (ground arith) read
        skipped
    ∙ ap (λ v. root_loop f rest (if text_eq body (codes "info") then some v else info))
        (slice-append value rest)
    ∙ root_loop_complete f rest (if text_eq body (codes "info") then some value else info) es w
        (omega arith)

-- The loop of Parse ends without an error exactly where its input spells the entries of a
-- dictionary, and what it has then found is the text of the last value under the key `info`.
pub root_loop_iff :
    (s : Text) (found : Option Text)
    → (root_loop (suc (length s)) s none ≡ ok found)
      ↔ ((entries : List (Text × Text)) × HasEntries entries s × (found ≡ info_of none entries))
root_loop_iff s found = (
  root_loop_sound (suc (length s)) s none found,
  λ (entries, w, e). rw e (root_loop_complete (suc (length s)) s none entries w (omega arith)),
)
