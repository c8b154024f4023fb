-- ===== src/Torrent.antt =====
-- internal/torrentmeta/meta.go: the reader of .torrent files. The Go functions take the whole input
-- and a position; here a position is the input from there on, and a function returns what is left
-- behind the text it has read, in place of the position of its end.
pub mod Strings
pub mod Grammar
pub mod Pieces
pub mod Sound
pub mod Complete
pub mod Skip
pub mod Fuel
pub mod Progress
pub mod Files
pub mod Metainfo
use aninode.Prelude.{
  ℕ, zero, suc, ◌+◌, ◌-◌, ◌*◌, ◌^◌, Bool, true, false, not, ◌&&◌, if◌then◌else◌, ltb, leb, ◌==◌,
  Text, text_eq, codes, List, [], ◌∷◌, ◌++◌, Option, none, some, length, take, drop,
}

-- The errors of the package, and `out_of_fuel`, which belongs to the model alone.
pub data Error : Type 0 where
  root_not_dictionary no_info info_not_dictionary no_name : Error
  files_not_list file_not_dictionary unterminated_file unterminated_files : Error
  path_not_list unterminated_path : Error
  unexpected_end unterminated_integer empty_integer unterminated_container : Error
  expected_string bad_length exceeds_input : Error
  out_of_fuel : Error

pub data Result {ℓ} (A : Type ℓ) : Type ℓ where
  ok : A → Result A
  fail : Error → Result A

infixl 5 ◌>>=◌
abbrev pub ◌>>=◌ {ℓ κ} : {A : Type ℓ} {B : Type κ} → Result A → (A → Result B) → Result B
ok a >>= f = f a
fail e >>= f = fail e

abbrev pub is_digit : ℕ → Bool
is_digit c = leb b'0' c && leb c b'9'

-- The largest value of `int`: strconv.Atoi refuses a number above it.
abbrev pub max_int : ℕ
max_int = 2 ^ 63 - 1

-- The loop that looks for the colon: the digits at the front, and what is behind them.
unfoldable pub span_digits : Text → Text × Text
span_digits [] = ([], [])
span_digits (c ∷ s) =
    let (ds, rest) = span_digits s in if is_digit c then (c ∷ ds, rest) else ([], c ∷ s)

-- The value of a text of digits, behind digits of value `n`.
unfoldable pub number : ℕ → Text → ℕ
number n [] = n
number n (c ∷ s) = number (n * 10 + (c - b'0')) s

-- readString behind the scan. `end < start` holds in Go where `start + n` wraps around, and then `n`
-- exceeds what is left of the input too, since a slice is never longer than `max_int`.
unfoldable pub read_body : Text → Text → Result (Text × Text)
read_body ds [] = fail bad_length
read_body ds (c ∷ start) =
    let n = number 0 ds in
    if not (c == b':')
    then fail bad_length
    else if ltb max_int n
    then fail bad_length
    else if ltb (length start) n
    then fail exceeds_input
    else ok (take n start, drop n start)

-- readString
unfoldable pub read_string : Text → Result (Text × Text)
read_string [] = fail expected_string
read_string (c ∷ s) =
    if not (is_digit c)
    then fail expected_string
    else let (ds, rest) = span_digits (c ∷ s) in read_body ds rest

-- What is behind the first `e`.
unfoldable pub after_e : Text → Option Text
after_e [] = none
after_e (c ∷ s) = let rest = after_e s in if c == b'e' then some s else rest

abbrev pub starts_with_e : Text → Bool
starts_with_e [] = false
starts_with_e (c ∷ s) = c == b'e'

-- The case 'i' of skipValue, behind the letter.
unfoldable pub skip_integer : Text → Result Text
skip_integer s = elim (after_e s) [
  | none ↦ fail unterminated_integer
  | some rest ↦ if starts_with_e s then fail empty_integer else ok rest
]

-- The cases of skipValue's switch.
pub data Kind : Type 0 where
  integer list dictionary other : Kind

unfoldable pub kind : ℕ → Kind
kind c =
    if c == b'i'
    then integer
    else if c == b'l'
    then list
    else if c == b'd'
    then dictionary
    else other

-- The key of a dictionary entry; a list has none.
unfoldable pub skip_key : Bool → Text → Result Text
skip_key true s = do (key, next) ← read_string s; ok next
skip_key false s = ok s

-- skipValue, and the loop of its container cases. Both take fuel.
unfoldable mutual
  pub skip_value : ℕ → Text → Result Text
  skip_value zero s = fail out_of_fuel
  skip_value (suc f) [] = fail unexpected_end
  skip_value (suc f) (c ∷ s) = elim (kind c) [
    | integer ↦ skip_integer s
    | list ↦ skip_items f false s
    | dictionary ↦ skip_items f true s
    | other ↦ skip_key true (c ∷ s)
  ]

  pub skip_items : ℕ → Bool → Text → Result Text
  skip_items zero in_dict s = fail out_of_fuel
  skip_items (suc f) in_dict [] = fail unterminated_container
  skip_items (suc f) in_dict (c ∷ s) = elim (c == b'e') [
    | true ↦ ok s
    | false ↦ do
      next ← skip_key in_dict (c ∷ s)
      rest ← skip_value f next
      skip_items f in_dict rest
  ]

-- Enough fuel for a text.
abbrev pub fuel : Text → ℕ
fuel s = 2 * length s + 1

unfoldable pub skip : Text → Result Text
skip s = skip_value (fuel s) s
