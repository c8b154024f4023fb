-- ===== src/Rss/Flights/Kept.antt =====
-- internal/rss/metadata_cache.go: what every state keeps of its flights.
use aninode.Prelude.{
  ℕ, ◌<◌, ◌≡◌, ◌≢◌, ap, ◌∙◌, ◌⊎◌, inl, inr, ◌==◌, ==_iff, Text, arith, Option, none, some,
  Bool-cases, lookup,
}
use aninode.Torrent.Metainfo.{Metadata}
use aninode.Rss.Http.{Outcome}
use aninode.Rss.Metadata.{Cache}
use aninode.Rss.Flights.{Caller, waiting, owning, finished, State, set, retire}

pub set-same {ℓ} : {A : Type ℓ} (i : ℕ) (a : A) (f : ℕ → A) → set i a f i ≡ a
unfolding set
set-same i a f = ground arith

pub set-other {ℓ} : {A : Type ℓ} (i j : ℕ) (a : A) (f : ℕ → A) → i ≢ j → set i a f j ≡ f j
unfolding set
set-other i j a f h = ground arith

pub set-cases {ℓ} :
    {A : Type ℓ} (i j : ℕ) (a b : A) (f : ℕ → A)
    → set i a f j ≡ b
    → ((i ≡ j) × (a ≡ b)) ⊎ ((i ≢ j) × (f j ≡ b))
unfolding set
set-cases i j a b f h = elim (Bool-cases (i == j)) [
  | inl t ↦ inl (omega (arith, (==_iff i j).0 t), rw t at h)
  | inr n ↦ inr ((λ p. absurd (cc (n, (==_iff i j).1 p))), rw n at h)
]

-- Owners hold the flight of their URL, which is open, and no two of them the same; a flight of the map
-- has an owner; a waiting call has a flight that has ended, or an owner of it.
pub record IsSound (s : State) : Type 0 where
  pub owner_holds :
      (i : ℕ) (url : Text) (flight : ℕ)
      → s.callers i ≡ owning url flight
      → (lookup url s.flights ≡ some flight) × (s.results flight ≡ none) × (flight < s.fresh)
  pub has_owner :
      (url : Text) (flight : ℕ)
      → lookup url s.flights ≡ some flight
      → (j : ℕ) × (s.callers j ≡ owning url flight)
  pub waits_for :
      (i : ℕ) (url : Text) (flight : ℕ)
      → s.callers i ≡ waiting url flight
      → (flight < s.fresh)
        × (((result : Outcome Metadata) × (s.results flight ≡ some result))
            ⊎ ((j : ℕ) × (s.callers j ≡ owning url flight)))
  pub one_owner :
      (i j : ℕ) (url url' : Text) (flight : ℕ)
      → s.callers i ≡ owning url flight
      → s.callers j ≡ owning url' flight
      → i ≡ j

-- An owner other than the caller that moves is still one.
pub still_owner :
    (s : State) (i j : ℕ) (a : Caller) (url : Text) (flight : ℕ)
    → s.callers i ≢ owning url flight
    → s.callers j ≡ owning url flight
    → set i a s.callers j ≡ owning url flight
still_owner s i j a url flight h e = set-other i j a s.callers (λ p. h (ap s.callers p ∙ e)) ∙ e

-- A call that owns no flight comes to stand at `v`, where it owns none either.
pub move-IsSound :
    (s : State) (i : ℕ) (v : Caller) (c : Cache)
    → ((url : Text) (flight : ℕ) → s.callers i ≢ owning url flight)
    → ((url : Text) (flight : ℕ) → v ≢ owning url flight)
    → ((url : Text) (flight : ℕ)
        → v ≡ waiting url flight
        → (flight < s.fresh) × ((j : ℕ) × (s.callers j ≡ owning url flight)))
    → IsSound s
    → IsSound (record s { cache = c; callers = set i v s.callers })
move-IsSound s i v c free owns_none waits h = record {
  owner_holds = λ k url flight e. elim (set-cases i k v (owning url flight) s.callers e) [
    | inl (p, q) ↦ absurd (owns_none url flight q)
    | inr (p, q) ↦ h.owner_holds k url flight q
  ];
  has_owner = λ url flight e.
      let (j, owns) = h.has_owner url flight e in
      (j, still_owner s i j v url flight (free url flight) owns);
  waits_for = λ k url flight e. elim (set-cases i k v (waiting url flight) s.callers e) [
    | inl (p, q) ↦
        let (small, (j, owns)) = waits url flight q in
        (small, inr (j, still_owner s i j v url flight (free url flight) owns))
    | inr (p, q) ↦
        let (small, rest) = h.waits_for k url flight q in
        (
          small,
          elim rest [
            | inl closed ↦ inl closed
            | inr (j, owns) ↦ inr (j, still_owner s i j v url flight (free url flight) owns)
          ],
        )
  ];
  one_owner = λ k j url url' flight e e'. elim (set-cases i k v (owning url flight) s.callers e) [
    | inl (p, q) ↦ absurd (owns_none url flight q)
    | inr (p, q) ↦ elim (set-cases i j v (owning url' flight) s.callers e') [
      | inl (p', q') ↦ absurd (owns_none url' flight q')
      | inr (p', q') ↦ h.one_owner k j url url' flight q q'
    ]
  ];
}

pub retire-IsSound :
    (s : State) (i : ℕ) (result : Outcome Metadata)
    → ((url : Text) (flight : ℕ) → s.callers i ≢ owning url flight)
    → IsSound s
    → IsSound (retire i result s)
unfolding retire
retire-IsSound s i result free h =
    move-IsSound s i (finished result) s.cache free (λ url flight e. absurd cc)
      (λ url flight e. absurd cc) h

pub owning-injective : {u v : Text} {f g : ℕ} → owning u f ≡ owning v g → (u ≡ v) × (f ≡ g)
owning-injective e = (cc, cc)

-- The result of another flight stays.
pub other_result :
    (s : State) (n flight : ℕ) (r o : Option (Outcome Metadata))
    → n ≢ flight
    → s.results flight ≡ o
    → set n r s.results flight ≡ o
other_result s n flight r o h e = set-other n flight r s.results h ∙ e
