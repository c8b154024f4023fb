-- ===== src/Torrent/Pieces.antt =====
-- The parts of skipValue: the scan of an integer, the key of an entry, the cases of the switch.
use aninode.Prelude.{
  ℕ, ◌≡◌, ◌≢◌, refl, ap, ◌∙◌, inl, inr, Bool, true, false, Text, [], ◌∷◌, ◌++◌, All, some, ◌==◌,
  arith, Bool-cases,
}
use aninode.Torrent.{
  Result, ok, fail, ◌>>=◌, is_digit, read_string, after_e, starts_with_e, skip_integer, Kind, kind,
  skip_key,
}
use aninode.Torrent.Grammar.{IsString, IsKey, IsValue, integer, list, dictionary, string}
use aninode.Torrent.Strings.{read_string_sound, read_string_complete}

-- What a successful reader and its continuation have returned.
pub >>=-eq-ok {ℓ κ} :
    {A : Type ℓ} {B : Type κ} {y : B} (reader : Result A) (next : A → Result B)
    → reader >>= next ≡ ok y
    → (x : A) × (reader ≡ ok x) × (next x ≡ ok y)
>>=-eq-ok (fail e) next done = cc
>>=-eq-ok (ok x) next done = (x, refl, done)

pub ok-injective {ℓ} : {A : Type ℓ} {a b : A} → ok a ≡ ok b → a ≡ b
ok-injective h = cc

-- The cases of the switch.
pub kind_integer : (c : ℕ) → kind c ≡ Kind.integer → c ≡ b'i'
unfolding kind
kind_integer c h = ground arith

pub kind_list : (c : ℕ) → kind c ≡ Kind.list → c ≡ b'l'
unfolding kind
kind_list c h = ground arith

pub kind_dictionary : (c : ℕ) → kind c ≡ Kind.dictionary → c ≡ b'd'
unfolding kind
kind_dictionary c h = ground arith

pub kind_digit : (c : ℕ) → is_digit c ≡ true → kind c ≡ Kind.other
unfolding kind
kind_digit c h = ground arith

-- The scan for the `e`.
after_e_sound :
    (s rest : Text)
    → after_e s ≡ some rest
    → (ds : Text) × All (λ c. (c == b'e') ≡ false) ds × (s ≡ ds ++ b'e' ∷ rest)
unfolding after_e
after_e_sound [] rest h = cc
after_e_sound (c ∷ s) rest h = elim (Bool-cases (c == b'e')) [
  | inl e ↦ ([], tt, ground (arith, rw e at h))
  | inr n ↦
      let (ds, all, split) = after_e_sound s rest (rw n at h) in
      (c ∷ ds, (n, all), ap (λ r. c ∷ r) split)
]

after_e_complete :
    (ds rest : Text) → All (λ c. (c == b'e') ≡ false) ds → after_e (ds ++ b'e' ∷ rest) ≡ some rest
unfolding after_e
after_e_complete [] rest h = refl
after_e_complete (d ∷ ds) rest h = rw h.0 (after_e_complete ds rest h.1)

skip_integer-tests :
    (s rest : Text) → skip_integer s ≡ ok rest → (after_e s ≡ some rest) × (starts_with_e s ≡ false)
unfolding skip_integer
skip_integer-tests s rest h = ground arith

pub skip_integer_sound :
    (s rest : Text)
    → skip_integer s ≡ ok rest
    → (ds : Text) × All (λ c. (c == b'e') ≡ false) ds × (ds ≢ []) × (s ≡ ds ++ b'e' ∷ rest)
skip_integer_sound s rest h =
    let (found, first) = skip_integer-tests s rest h in
    let (ds, all, split) = after_e_sound s rest found in
    (ds, all, λ e. cc (ap starts_with_e (split ∙ ap (λ d. d ++ b'e' ∷ rest) e), first), split)

pub skip_integer_complete :
    (ds rest : Text)
    → All (λ c. (c == b'e') ≡ false) ds
    → ds ≢ []
    → skip_integer (ds ++ b'e' ∷ rest) ≡ ok rest
unfolding skip_integer
skip_integer_complete [] rest h n = absurd (n refl)
skip_integer_complete (d ∷ ds) rest h n =
    rw (after_e_complete (d ∷ ds) rest h, skip_integer) (rw h.0)

pub skip_key_sound :
    (in_dict : Bool) (s next : Text)
    → skip_key in_dict s ≡ ok next
    → (key : Text) × IsKey in_dict key × (s ≡ key ++ next)
unfolding skip_key
skip_key_sound true s next h =
    let ((body, after), read, e) = >>=-eq-ok (read_string s) (λ r. ok r.1) h in
    let (t, w, split) = read_string_sound s body after read in
    (t, (body, w), split ∙ ap (λ r. t ++ r) (ok-injective e))
skip_key_sound false s next h = ([], refl, ok-injective h)

pub skip_key_complete :
    (in_dict : Bool) (key next : Text)
    → IsKey in_dict key
    → skip_key in_dict (key ++ next) ≡ ok next
unfolding skip_key
skip_key_complete true key next (body, w) = rw (read_string_complete key body next w)
skip_key_complete false key next e = rw e

-- A byte string begins with a digit.
string_head :
    (digits body : Text) {t : Text}
    → All (λ c. is_digit c ≡ true) digits
    → digits ≢ []
    → t ≡ digits ++ b':' ∷ body
    → (c : ℕ) × (s : Text) × (t ≡ c ∷ s) × (is_digit c ≡ true)
string_head [] body a n e = absurd (n refl)
string_head (d ∷ ds) body a n e = (d, ds ++ b':' ∷ body, e, a.0)

pub IsString-head :
    {t body : Text} → IsString t body → (c : ℕ) × (s : Text) × (t ≡ c ∷ s) × (is_digit c ≡ true)
IsString-head {body} w = string_head w.digits body w.all_digits w.some_digits w.spelled

-- A value begins with a byte that is no `e`.
pub value_head : {t : Text} → IsValue t → (c : ℕ) × (s : Text) × (t ≡ c ∷ s) × ((c == b'e') ≡ false)
value_head (integer ds a n e) = (b'i', ds ++ b'e' ∷ [], e, refl)
value_head (list is w e) = (b'l', is, e, refl)
value_head (dictionary is w e) = (b'd', is, e, refl)
value_head (string body w) = let (c, s, e, d) = IsString-head w in (c, s, e, ground arith)
