-- ===== src/Torrent/Progress.antt =====
-- Readers that take something from their input, and loops that end.
use aninode.Prelude.{◌<◌, ◌≡◌, ◌≢◌, ap, ◌∙◌, inl, inr, Text, length, length-append, arith}
use aninode.Torrent.{Result, ok, fail, ◌>>=◌, read_string, skip, fuel, out_of_fuel}
use aninode.Torrent.Strings.{read_string_sound}
use aninode.Torrent.Pieces.{>>=-eq-ok, ok-injective, IsString-head}
use aninode.Torrent.Fuel.{>>=-eq-fail, skip_value-shorter}

-- A reader that leaves less than it is given.
abbrev pub Shortens {ℓ} : {A : Type ℓ} → (A → Text) → Text → Result A → Type ℓ
Shortens {A} behind s r = (a : A) → r ≡ ok a → length (behind a) < length s

pub read_string-Shortens : (s : Text) → Shortens (λ r. r.1) s (read_string s)
read_string-Shortens s (body, next) h =
    let (t, w, split) = read_string_sound s body next h in
    let size = ap length split ∙ length-append t next in
    let (c, k, head, d) = IsString-head w in let some_byte = ap length head in omega arith

pub skip-Shortens : (s : Text) → Shortens (λ r. r) s (skip s)
unfolding skip
skip-Shortens s rest h = skip_value-shorter (fuel s) s rest h

-- Two readers in a row.
pub after-Shortens {ℓ κ} :
    {A : Type ℓ} {B : Type κ} (behind_a : A → Text) (behind_b : B → Text) (s : Text) (m : Result A)
    (f : A → Result B)
    → Shortens behind_a s m
    → ((a : A) → Shortens behind_b (behind_a a) (f a))
    → Shortens behind_b s (m >>= f)
after-Shortens behind_a behind_b s m f hm hf b h =
    let (a, e, e') = >>=-eq-ok m f h in let first = hm a e in let second = hf a b e' in omega arith

-- A reader that does not run out of the fuel it is given, and two of them in a row.
abbrev pub Ends {ℓ} : {A : Type ℓ} → Result A → Type ℓ
Ends r = r ≢ fail out_of_fuel

pub after-Ends {ℓ κ} :
    {A : Type ℓ} {B : Type κ} (m : Result A) (f : A → Result B)
    → Ends m
    → ((a : A) → m ≡ ok a → Ends (f a))
    → Ends (m >>= f)
after-Ends m f hm hf h = elim (>>=-eq-fail m f h) [ inl e ↦ hm e | inr (a, read, e) ↦ hf a read e ]

-- The value of one field, and what is done with it.
pub field-Shortens {ℓ κ} :
    {A : Type ℓ} {B : Type κ} (behind : A → Text) (s : Text) (m : Result A) (store : A → B)
    → Shortens behind s m
    → Shortens {A = B × Text} (λ r. r.1) s (m >>= (λ a. ok (store a, behind a)))
field-Shortens behind s m store hm r h =
    let (a, read, e) = >>=-eq-ok m (λ a. ok (store a, behind a)) h in
    let less = hm a read in let same = ap (λ r. length r.1) (ok-injective e) in omega arith

pub field-Ends {ℓ κ} :
    {A : Type ℓ} {B : Type κ} (behind : A → Text) (m : Result A) (store : A → B)
    → Ends m
    → Ends {A = B × Text} (m >>= (λ a. ok (store a, behind a)))
field-Ends behind m store hm = after-Ends m (λ a. ok (store a, behind a)) hm (λ a read e. cc)
