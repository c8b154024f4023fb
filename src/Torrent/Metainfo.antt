-- ===== src/Torrent/Metainfo.antt =====
-- infoIdentity and Parse: the identity that a .torrent file carries.
pub mod Entries
pub mod Parsed
pub mod Total
use Prim.Native.Nat.{◌/◌, ◌%◌}
use aninode.Prelude.{
  ℕ, zero, suc, ◌-◌, ◌+◌, Bool, true, false, not, ◌||◌, if◌then◌else◌, ltb, ◌==◌, Text, text_eq,
  codes, List, [], ◌∷◌, ◌++◌, Option, none, some, length, take,
}
use aninode.Torrent.{
  Result, ok, fail, out_of_fuel, ◌>>=◌, read_string, skip, root_not_dictionary, no_info,
  info_not_dictionary, no_name,
}
use aninode.Torrent.Files.{read_file_list}

-- The local variables of infoIdentity.
pub record Info : Type 0 where
  pub plain : Text
  pub utf8 : Text
  pub files : List Text

-- The assignment of the case "name", "name.utf-8".
unfoldable pub set_name : Text → Text → Info → Info
set_name key value i =
    if text_eq key (codes "name.utf-8")
    then record i { utf8 = value }
    else record i { plain = value }

-- The switch of infoIdentity.
unfoldable pub read_info_field : Text → Text → Info → Result (Info × Text)
read_info_field key next i =
    if text_eq key (codes "name") || text_eq key (codes "name.utf-8")
    then (do (value, end) ← read_string next; ok (set_name key value i, end))
    else if text_eq key (codes "files")
    then (do (values, end) ← read_file_list next; ok (record i { files = values }, end))
    else do end ← skip next; ok (i, end)

-- The loop of infoIdentity, which ends at `e` or at the end of the text.
unfoldable pub info_loop : ℕ → Text → Info → Result Info
info_loop zero s i = fail out_of_fuel
info_loop (suc f) [] i = ok i
info_loop (suc f) (c ∷ s) i = elim (c == b'e') [
  | true ↦ ok i
  | false ↦ do
    (key, next) ← read_string (c ∷ s)
    (i', end) ← read_info_field key next i
    info_loop f end i'
]

-- The end of infoIdentity.
unfoldable pub name_of : Info → Result (Text × List Text)
name_of i = elim i.utf8 [
  | u ∷ us ↦ ok (u ∷ us, i.files)
  | [] ↦ elim i.plain [ [] ↦ fail no_name | c ∷ cs ↦ ok (c ∷ cs, i.files) ]
]

-- infoIdentity
unfoldable pub info_identity : Text → Result (Text × List Text)
info_identity [] = fail info_not_dictionary
info_identity (c ∷ s) = if not (c == b'd') then fail info_not_dictionary else do
  i ← info_loop (suc (length s)) s (record { plain = []; utf8 = []; files = [] })
  name_of i

-- data[start:end], where `next` is the input from `start` on and `rest` that from `end` on.
unfoldable pub slice : Text → Text → Text
slice next rest = take (length next - length rest) next

-- The loop of Parse. The info dictionary that it has met last stands for infoStart and infoEnd.
unfoldable pub root_loop : ℕ → Text → Option Text → Result (Option Text)
root_loop zero s info = fail out_of_fuel
root_loop (suc f) [] info = ok info
root_loop (suc f) (c ∷ s) info = elim (c == b'e') [
  | true ↦ ok info
  | false ↦ do
    (key, next) ← read_string (c ∷ s)
    rest ← skip next
    root_loop f rest (if text_eq key (codes "info") then some (slice next rest) else info)
]

pub record Metadata : Type 0 where
  pub name : Text
  pub files : List Text
  pub info_hash : Text

hex_digit : ℕ → ℕ
hex_digit n = if ltb n 10 then n + b'0' else n - 10 + b'a'

-- hex.EncodeToString
unfoldable pub hex_encode : Text → Text
unfolding hex_digit
hex_encode [] = []
hex_encode (b ∷ bs) = hex_digit (b / 16) ∷ hex_digit (b % 16) ∷ hex_encode bs

-- `sha1` stands for crypto/sha1.
module _ (sha1 : Text → Text) where
  unfoldable pub identify : Option Text → Result Metadata
  identify none = fail no_info
  identify (some info) = do
    (name, files) ← info_identity info
    ok (record { name = name; files = files; info_hash = hex_encode (sha1 info) })

  -- Parse
  unfoldable pub parse : Text → Result Metadata
  unfolding identify
  parse [] = fail root_not_dictionary
  parse (c ∷ s) =
      if not (c == b'd')
      then fail root_not_dictionary
      else do info ← root_loop (suc (length s)) s none; identify info
