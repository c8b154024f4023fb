-- ===== src/Torrent/Strings.antt =====
-- readString accepts exactly the byte strings of the grammar.
use mathlib.Core.List.{append_assoc}
use aninode.Prelude.{
  ℕ, ◌≤◌, ◌≡◌, ◌≢◌, refl, sym, ap, ◌∙◌, inl, inr, true, false, Text, [], ◌∷◌, ◌++◌, All, length,
  take, drop, length-append, take-append, drop-append, take-append-drop, length-take_le, ltb, arith,
  Bool-cases,
}
use aninode.Torrent.{ok, is_digit, max_int, span_digits, number, read_body, read_string}
use aninode.Torrent.Grammar.{IsString}

-- The scan splits the text, takes digits, and stops before one.
span_split : (s : Text) → (span_digits s).0 ++ (span_digits s).1 ≡ s
unfolding span_digits
span_split [] = refl
span_split (c ∷ s) = elim (Bool-cases (is_digit c)) [
  | inl d ↦ rw d (ap (λ r. c ∷ r) (span_split s))
  | inr n ↦ rw n
]

span-All : (s : Text) → All (λ c. is_digit c ≡ true) (span_digits s).0
unfolding span_digits
span-All [] = tt
span-All (c ∷ s) = elim (Bool-cases (is_digit c)) [ inl d ↦ rw d (d, span-All s) | inr n ↦ rw n tt ]

span_of :
    (ds : Text) (c : ℕ) (rest : Text)
    → All (λ c. is_digit c ≡ true) ds
    → is_digit c ≡ false
    → span_digits (ds ++ c ∷ rest) ≡ (ds, c ∷ rest)
unfolding span_digits
span_of [] c rest h n = rw n
span_of (d ∷ ds) c rest h n = rw (h.0, span_of ds c rest h.1 n)

read_body-tests :
    (ds : Text) (c : ℕ) (start body after : Text)
    → read_body ds (c ∷ start) ≡ ok (body, after)
    → (c ≡ b':')
      × (number 0 ds ≤ max_int)
      × (number 0 ds ≤ length start)
      × (take (number 0 ds) start ≡ body)
      × (drop (number 0 ds) start ≡ after)
unfolding read_body
read_body-tests ds c start body after h = ground arith

read_body_sound :
    (ds rest body after : Text)
    → read_body ds rest ≡ ok (body, after)
    → (rest ≡ b':' ∷ (body ++ after)) × (number 0 ds ≡ length body) × (length body ≤ max_int)
read_body_sound ds [] body after h = unfold read_body in cc
read_body_sound ds (c ∷ start) body after h =
    let (colon, small, fits, front, back) = read_body-tests ds c start body after h in
    let n = number 0 ds in
    let counted : n ≡ length body = sym (length-take_le n start fits) ∙ ap length front in
    (
      rw (← front, ← back) (rw (take-append-drop n start) (ap (λ d. d ∷ start) colon)),
      counted,
      rw counted at small,
    )

span_some : (c : ℕ) (s : Text) → is_digit c ≡ true → (span_digits (c ∷ s)).0 ≢ []
unfolding span_digits
span_some c s d = rw d (λ e. cc)

pub read_string_sound :
    (s body after : Text)
    → read_string s ≡ ok (body, after)
    → (t : Text) × IsString t body × (s ≡ t ++ after)
unfolding read_string
read_string_sound [] body after h = cc
read_string_sound (c ∷ s) body after h = elim (Bool-cases (is_digit c)) [
  | inl d ↦
      let ds = (span_digits (c ∷ s)).0 in
      let read = read_body_sound ds (span_digits (c ∷ s)).1 body after (rw d at h) in
      (
        ds ++ b':' ∷ body,
        record {
          digits = ds;
          all_digits = span-All (c ∷ s);
          some_digits = span_some c s d;
          counted = read.1;
          in_range = read.2;
          spelled = refl;
        },
        sym (span_split (c ∷ s))
            ∙ ap (λ r. ds ++ r) read.0
            ∙ sym (append_assoc ds (b':' ∷ body) after),
      )
  | inr n ↦ absurd (cc (rw n at h))
]

scanned :
    (ds start : Text)
    → All (λ c. is_digit c ≡ true) ds
    → ds ≢ []
    → read_string (ds ++ b':' ∷ start) ≡ read_body ds (b':' ∷ start)
scanned [] start h n = absurd (n refl)
scanned (d ∷ ds) start h n =
    let split = span_of (d ∷ ds) b':' start h refl in unfold read_string in rw h.0 (rw split)

read_body_complete :
    (ds body after : Text)
    → number 0 ds ≡ length body
    → length body ≤ max_int
    → read_body ds (b':' ∷ (body ++ after)) ≡ ok (body, after)
unfolding read_body
read_body_complete ds body after e h =
    let small : ltb max_int (length body) ≡ false = ground arith in
    let fits : ltb (length (body ++ after)) (length body) ≡ false =
      ground (arith, length-append body after) in
    rw e (rw small (rw fits (rw (take-append body after) (rw (drop-append body after)))))

-- A byte string of the grammar is read whole, and what is behind it is left.
pub read_string_complete :
    (t body after : Text) → IsString t body → read_string (t ++ after) ≡ ok (body, after)
read_string_complete t body after w =
    ap (λ s. read_string (s ++ after)) w.spelled
    ∙ ap read_string (append_assoc w.digits (b':' ∷ body) after)
    ∙ scanned w.digits (body ++ after) w.all_digits w.some_digits
    ∙ read_body_complete w.digits body after w.counted w.in_range
