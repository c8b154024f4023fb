-- ===== src/Torrent/Files.antt =====
-- readStringList and readFileList: the paths of a multi-file torrent. Each loop takes fuel; a round
-- reads at least one byte, so one more than the length of the text is enough.
pub mod Total
use aninode.Prelude.{
  ℕ, zero, suc, Bool, true, false, not, ◌||◌, if◌then◌else◌, ◌==◌, Text, text_eq, codes, List, [],
  ◌∷◌, ◌++◌, length,
}
use aninode.Torrent.{
  Result, ok, fail, out_of_fuel, ◌>>=◌, read_string, skip, path_not_list, unterminated_path,
  files_not_list, file_not_dictionary, unterminated_file, unterminated_files,
}

unfoldable pub string_list_loop : ℕ → Text → List Text → Result (List Text × Text)
string_list_loop zero s out = fail out_of_fuel
string_list_loop (suc f) [] out = fail unterminated_path
string_list_loop (suc f) (c ∷ s) out = elim (c == b'e') [
  | true ↦ ok (out, s)
  | false ↦ do (value, next) ← read_string (c ∷ s); string_list_loop f next (out ++ value ∷ [])
]

-- readStringList
unfoldable pub read_string_list : Text → Result (List Text × Text)
read_string_list [] = fail path_not_list
read_string_list (c ∷ s) =
    if not (c == b'l') then fail path_not_list else string_list_loop (suc (length s)) s []

-- strings.Join(parts, "/")
unfoldable pub join_slash : List Text → Text
join_slash [] = []
join_slash (p ∷ []) = p
join_slash (p ∷ q ∷ ps) = p ++ b'/' ∷ join_slash (q ∷ ps)

-- The local variables of one file entry.
pub record Paths : Type 0 where
  pub plain : List Text
  pub utf8 : List Text

-- The assignment of the case "path", "path.utf-8".
unfoldable pub set_parts : Text → List Text → Paths → Paths
set_parts key parts p =
    if text_eq key (codes "path.utf-8")
    then record p { utf8 = parts }
    else record p { plain = parts }

-- The part of the path loop for one key, whose value stands at the front of the text.
unfoldable pub read_file_field : Text → Text → Paths → Result (Paths × Text)
read_file_field key next p =
    if text_eq key (codes "path") || text_eq key (codes "path.utf-8")
    then (do (parts, end) ← read_string_list next; ok (set_parts key parts p, end))
    else do end ← skip next; ok (p, end)

-- The loop over the keys of one file entry, and the test behind it.
unfoldable pub file_fields : ℕ → Text → Paths → Result (Paths × Text)
file_fields zero s p = fail out_of_fuel
file_fields (suc f) [] p = fail unterminated_file
file_fields (suc f) (c ∷ s) p = elim (c == b'e') [
  | true ↦ ok (p, s)
  | false ↦ do
    (key, next) ← read_string (c ∷ s)
    (p', end) ← read_file_field key next p
    file_fields f end p'
]

-- parts, with the preference for path.utf-8
unfoldable pub file_parts : Paths → List Text
file_parts p = elim p.utf8 [ [] ↦ p.plain | u ∷ us ↦ u ∷ us ]

-- The end of the body of the loop over the files.
unfoldable pub add_file : List Text → Paths → List Text
add_file out p = elim (file_parts p) [ [] ↦ out | q ∷ qs ↦ out ++ join_slash (q ∷ qs) ∷ [] ]

unfoldable pub file_list_loop : ℕ → Text → List Text → Result (List Text × Text)
file_list_loop zero s out = fail out_of_fuel
file_list_loop (suc f) [] out = fail unterminated_files
file_list_loop (suc f) (c ∷ s) out = elim (c == b'e') [
  | true ↦ ok (out, s)
  | false ↦ elim (c == b'd') [
    | false ↦ fail file_not_dictionary
    | true ↦ do
      (p, rest) ← file_fields (suc (length s)) s (record { plain = []; utf8 = [] })
      file_list_loop f rest (add_file out p)
  ]
]

-- readFileList
unfoldable pub read_file_list : Text → Result (List Text × Text)
read_file_list [] = fail files_not_list
read_file_list (c ∷ s) =
    if not (c == b'l') then fail files_not_list else file_list_loop (suc (length s)) s []
