-- ===== src/Torrent/Sound.antt =====
-- What skipValue has passed over when it returns.
use mathlib.Core.List.{append_assoc}
use aninode.Prelude.{
  ℕ, zero, suc, ◌≡◌, refl, sym, ap, ◌∙◌, inl, inr, Bool, true, false, Text, [], ◌∷◌, ◌++◌, ◌==◌,
  ==_iff, Bool-cases,
}
use aninode.Torrent.{Result, ok, ◌>>=◌, Kind, kind, skip_key, skip_value, skip_items}
use aninode.Torrent.Grammar.{IsValue, integer, list, dictionary, string, IsItems, end, item}
use aninode.Torrent.Pieces.{
  >>=-eq-ok, ok-injective, kind_integer, kind_list, kind_dictionary, skip_integer_sound,
  skip_key_sound,
}

-- What a reader promises of the text that it passes over.
abbrev pub Passes : (Text → Type 0) → Text → Text → Type 0
Passes P s rest = (t : Text) × P t × (s ≡ t ++ rest)

IsValue-case_sound :
    (f c : ℕ) (s rest : Text) (k : Kind)
    → kind c ≡ k
    → ((b : Bool) → skip_items f b s ≡ ok rest → Passes (IsItems b) s rest)
    → skip_value (suc f) (c ∷ s) ≡ ok rest
    → Passes IsValue (c ∷ s) rest
unfolding skip_value
IsValue-case_sound f c s rest Kind.integer e ih h =
    let (ds, a, n, split) = skip_integer_sound s rest (rw (e, skip_value) at h) in
    (
      b'i' ∷ (ds ++ b'e' ∷ []),
      integer ds a n refl,
      ap (λ d. d ∷ s) (kind_integer c e)
          ∙ ap (λ r. b'i' ∷ r) (split ∙ sym (append_assoc ds (b'e' ∷ []) rest)),
    )
IsValue-case_sound f c s rest Kind.list e ih h =
    let (t, w, split) = ih false (rw (e, skip_value) at h) in
    (b'l' ∷ t, list t w refl, ap (λ d. d ∷ s) (kind_list c e) ∙ ap (λ r. b'l' ∷ r) split)
IsValue-case_sound f c s rest Kind.dictionary e ih h =
    let (t, w, split) = ih true (rw (e, skip_value) at h) in
    (
      b'd' ∷ t,
      dictionary t w refl,
      ap (λ d. d ∷ s) (kind_dictionary c e) ∙ ap (λ r. b'd' ∷ r) split,
    )
IsValue-case_sound f c s rest Kind.other e ih h =
    let (t, (body, w), split) = skip_key_sound true (c ∷ s) rest (rw (e, skip_value) at h) in
    (t, string body w, split)

-- What the loop does behind the key of an entry.
abbrev entry_rest : ℕ → Bool → Text → Result Text
entry_rest f in_dict next = skip_value f next >>= skip_items f in_dict

IsItems-case_sound :
    (f c : ℕ) (in_dict : Bool) (s rest : Text)
    → ((a b : Text) → skip_value f a ≡ ok b → Passes IsValue a b)
    → ((a b : Text) → skip_items f in_dict a ≡ ok b → Passes (IsItems in_dict) a b)
    → skip_items (suc f) in_dict (c ∷ s) ≡ ok rest
    → Passes (IsItems in_dict) (c ∷ s) rest
unfolding skip_value
IsItems-case_sound f c in_dict s rest ihv ihi h = elim (Bool-cases (c == b'e')) [
  | inl e ↦ (
    b'e' ∷ [],
    end refl,
    ap (λ d. d ∷ s) ((==_iff c b'e').0 e)
        ∙ ap (λ r. b'e' ∷ r) (ok-injective (rw (e, skip_items) at h)),
  )
  | inr n ↦
      let (next, read_key, h') =
        >>=-eq-ok (skip_key in_dict (c ∷ s)) (entry_rest f in_dict) (rw (n, skip_items) at h) in
      let (rest', read_value, h'') = >>=-eq-ok (skip_value f next) (skip_items f in_dict) h' in
      let (k, wk, sk) = skip_key_sound in_dict (c ∷ s) next read_key in
      let (v, wv, sv) = ihv next rest' read_value in
      let (r, wr, sr) = ihi rest' rest h'' in
      (
        k ++ (v ++ r),
        item k v r wk wv wr refl,
        sk
            ∙ ap (λ t. k ++ t) (sv ∙ ap (λ t. v ++ t) sr ∙ sym (append_assoc v r rest))
            ∙ sym (append_assoc k (v ++ r) rest),
      )
]

mutual
  unfolding skip_value

  pub skip_value_sound : (f : ℕ) (s rest : Text) → skip_value f s ≡ ok rest → Passes IsValue s rest
  skip_value_sound zero s rest h = cc
  skip_value_sound (suc f) [] rest h = cc
  skip_value_sound (suc f) (c ∷ s) rest h =
      IsValue-case_sound f c s rest (kind c) refl (λ b. skip_items_sound f b s rest) h

  skip_items_sound :
      (f : ℕ) (in_dict : Bool) (s rest : Text)
      → skip_items f in_dict s ≡ ok rest
      → Passes (IsItems in_dict) s rest
  skip_items_sound zero in_dict s rest h = cc
  skip_items_sound (suc f) in_dict [] rest h = cc
  skip_items_sound (suc f) in_dict (c ∷ s) rest h =
      IsItems-case_sound f c in_dict s rest (skip_value_sound f) (skip_items_sound f in_dict) h
