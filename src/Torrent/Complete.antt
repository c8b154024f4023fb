-- ===== src/Torrent/Complete.antt =====
-- skipValue on a text that the grammar produces.
use mathlib.Core.List.{append_assoc}
use aninode.Prelude.{
  ℕ, zero, suc, ◌+◌, ◌*◌, ◌<◌, ◌≡◌, ◌≢◌, refl, sym, ap, ◌∙◌, Bool, true, false, Text, [], ◌∷◌, ◌++◌,
  All, length, length-append, ◌==◌, arith,
}
use aninode.Torrent.{
  Result, ok, ◌>>=◌, is_digit, skip_integer, kind, skip_key, skip_value, skip_items,
}
use aninode.Torrent.Grammar.{
  IsString, IsKey, IsValue, integer, list, dictionary, string, IsItems, end, item,
}
use aninode.Torrent.Pieces.{
  kind_digit, skip_integer_complete, skip_key_complete, IsString-head, value_head,
}

-- What the loop does behind the key of an entry.
abbrev entry_rest : ℕ → Bool → Text → Result Text
entry_rest f in_dict next = skip_value f next >>= skip_items f in_dict

items_done :
    (f : ℕ) (in_dict : Bool) (rest : Text) → skip_items (suc f) in_dict (b'e' ∷ rest) ≡ ok rest
unfolding skip_value
items_done f in_dict rest = refl

items_step :
    (f c : ℕ) (in_dict : Bool) (s next : Text)
    → (c == b'e') ≡ false
    → skip_key in_dict (c ∷ s) ≡ ok next
    → skip_items (suc f) in_dict (c ∷ s) ≡ entry_rest f in_dict next
unfolding skip_value
items_step f c in_dict s next n k = rw (n, skip_items) (rw k)

-- The first byte of an entry is no `e`.
entry_head :
    (in_dict : Bool) (key value : Text)
    → IsKey in_dict key
    → IsValue value
    → (c : ℕ) × (s : Text) × (key ++ value ≡ c ∷ s) × ((c == b'e') ≡ false)
entry_head true key value (body, w) v =
    let (c, s, e, d) = IsString-head w in (c, s ++ value, ap (λ k. k ++ value) e, ground arith)
entry_head false key value k v =
    let (c, s, e, d) = value_head v in (c, s, ap (λ l. l ++ value) k ∙ e, d)

-- A value is not empty.
pub value_size : {t : Text} → IsValue t → 0 < length t
value_size v = let (c, s, e, n) = value_head v in let size = ap length e in omega arith

items_case_complete :
    (f : ℕ) (in_dict : Bool) (k v r rest : Text)
    → IsKey in_dict k
    → IsValue v
    → skip_value f (v ++ (r ++ rest)) ≡ ok (r ++ rest)
    → skip_items f in_dict (r ++ rest) ≡ ok rest
    → skip_items (suc f) in_dict ((k ++ (v ++ r)) ++ rest) ≡ ok rest
items_case_complete f in_dict k v r rest wk wv value_read items_read =
    let (c, s, e, n) = entry_head in_dict k v wk wv in
    let tail = r ++ rest in
    let head : k ++ (v ++ tail) ≡ c ∷ (s ++ tail) =
      sym (append_assoc k v tail) ∙ ap (λ l. l ++ tail) e in
    let key_read : skip_key in_dict (c ∷ (s ++ tail)) ≡ ok (v ++ tail) =
      ap (skip_key in_dict) (sym head) ∙ skip_key_complete in_dict k (v ++ tail) wk in
    ap (skip_items (suc f) in_dict)
      (append_assoc k (v ++ r) rest ∙ ap (λ l. k ++ l) (append_assoc v r rest) ∙ head)
    ∙ items_step f c in_dict (s ++ tail) (v ++ tail) n key_read
    ∙ ap (λ m. m >>= skip_items f in_dict) value_read
    ∙ items_read

-- The cases of the switch, on a text of the grammar.
integer_complete :
    (f : ℕ) (ds rest : Text)
    → All (λ c. (c == b'e') ≡ false) ds
    → ds ≢ []
    → skip_value (suc f) ((b'i' ∷ (ds ++ b'e' ∷ [])) ++ rest) ≡ ok rest
unfolding skip_value kind
integer_complete f ds rest a n =
    ap skip_integer (append_assoc ds (b'e' ∷ []) rest) ∙ skip_integer_complete ds rest a n

list_step : (f : ℕ) (s : Text) → skip_value (suc f) (b'l' ∷ s) ≡ skip_items f false s
unfolding skip_value kind
list_step f s = refl

dictionary_step : (f : ℕ) (s : Text) → skip_value (suc f) (b'd' ∷ s) ≡ skip_items f true s
unfolding skip_value kind
dictionary_step f s = refl

string_step :
    (f c : ℕ) (s : Text) → is_digit c ≡ true → skip_value (suc f) (c ∷ s) ≡ skip_key true (c ∷ s)
unfolding skip_value
string_step f c s d = rw (kind_digit c d, skip_value)

string_complete :
    (f : ℕ) (t body rest : Text) → IsString t body → skip_value (suc f) (t ++ rest) ≡ ok rest
string_complete f t body rest w =
    let (c, s, e, d) = IsString-head w in
    let head : t ++ rest ≡ c ∷ (s ++ rest) = ap (λ l. l ++ rest) e in
    ap (skip_value (suc f)) head
    ∙ string_step f c (s ++ rest) d
    ∙ ap (skip_key true) (sym head)
    ∙ skip_key_complete true t rest (body, w)

mutual
  pub skip_value_complete :
      (f : ℕ) (t rest : Text) → IsValue t → 2 * length t < f → skip_value f (t ++ rest) ≡ ok rest
  skip_value_complete zero t rest v h = absurd (omega arith)
  skip_value_complete (suc f) t rest (integer ds a n e) h = rw e (integer_complete f ds rest a n)
  skip_value_complete (suc f) t rest (list is w e) h =
      let size = ap length e in
      rw e (list_step f (is ++ rest) ∙ skip_items_complete f false is rest w (omega arith))
  skip_value_complete (suc f) t rest (dictionary is w e) h =
      let size = ap length e in
      rw e (dictionary_step f (is ++ rest) ∙ skip_items_complete f true is rest w (omega arith))
  skip_value_complete (suc f) t rest (string body w) h = string_complete f t body rest w

  skip_items_complete :
      (f : ℕ) (in_dict : Bool) (t rest : Text)
      → IsItems in_dict t
      → 2 * length t + 1 < f
      → skip_items f in_dict (t ++ rest) ≡ ok rest
  skip_items_complete zero in_dict t rest is h = absurd (omega arith)
  skip_items_complete (suc f) in_dict t rest (end e) h = rw e (items_done f in_dict rest)
  skip_items_complete (suc f) in_dict t rest (item k v r wk wv wr e) h =
      let size = ap length e ∙ length-append k (v ++ r) in
      let parts = length-append v r in
      let some_value = value_size wv in
      rw e (
        items_case_complete f in_dict k v r rest wk wv
          (skip_value_complete f v (r ++ rest) wv (omega arith))
          (skip_items_complete f in_dict r rest wr (omega arith)))
