-- ===== src/Torrent/Grammar.antt =====
-- The texts that the reader takes for bencoded values, with no reading order in it.
use aninode.Prelude.{◌≤◌, ◌≢◌, ◌≡◌, Bool, true, false, Text, [], ◌∷◌, ◌++◌, All, ◌==◌, length}
use aninode.Torrent.{is_digit, max_int, number}

-- A byte string with this body: digits that say its length, a colon, the body.
pub record IsString (t body : Text) : Type 0 where
  pub digits : Text
  pub all_digits : All (λ c. is_digit c ≡ true) digits
  pub some_digits : digits ≢ []
  pub counted : number 0 digits ≡ length body
  pub in_range : length body ≤ max_int
  pub spelled : t ≡ digits ++ b':' ∷ body

-- The key of a dictionary entry is a byte string, and a list entry has none.
abbrev pub IsKey : Bool → Text → Type 0
IsKey true t = (body : Text) × IsString t body
IsKey false t = t ≡ []

mutual
  pub data IsValue : Text → Type 0 where
    integer :
        {t : Text} (digits : Text)
        → All (λ c. (c == b'e') ≡ false) digits
        → digits ≢ []
        → t ≡ b'i' ∷ (digits ++ b'e' ∷ [])
        → IsValue t
    list : {t : Text} (items : Text) → IsItems false items → t ≡ b'l' ∷ items → IsValue t
    dictionary : {t : Text} (items : Text) → IsItems true items → t ≡ b'd' ∷ items → IsValue t
    string : {t : Text} (body : Text) → IsString t body → IsValue t

  -- The entries of a container, with the `e` behind them.
  pub data IsItems : Bool → Text → Type 0 where
    end : {in_dict : Bool} {t : Text} → t ≡ b'e' ∷ [] → IsItems in_dict t
    item :
        {in_dict : Bool} {t : Text} (key value rest : Text)
        → IsKey in_dict key
        → IsValue value
        → IsItems in_dict rest
        → t ≡ key ++ (value ++ rest)
        → IsItems in_dict t
