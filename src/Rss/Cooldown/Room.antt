-- ===== src/Rss/Cooldown/Room.antt =====
-- internal/rss/cooldown.go: lemmas on the map of hosts.
use aninode.Prelude.{
  ℕ, suc, ◌≤◌, ◌<◌, ◌≡◌, ◌≢◌, refl, sym, ◌⊎◌, inl, inr, ltb, leb, leb→le, Text, arith, some, List,
  [], ◌∷◌, All, In, length, Bool-cases, Option-cases, lookup, assign, IsMap, IsMap-delete,
  IsMap-assign, In-lookup, length-delete, length-assign_le, lookup-assign_same,
}
use aninode.Rss.Cooldown.{
  deadline, expire, is_sooner, find_soonest, max_hosts, make_room, extend, limit,
}

All-expire :
    (P : Text × ℕ → Type 0) (now : Text → ℕ) (hosts : List (Text × ℕ))
    → All P hosts
    → All P (expire now hosts)
unfolding expire
All-expire P now [] h = tt
All-expire P now ((key, until) ∷ hosts) h = elim (Bool-cases (ltb (now key) until)) [
  | inl t ↦ rw t (h.0, All-expire P now hosts h.1)
  | inr f ↦ rw f (All-expire P now hosts h.1)
]

IsMap-expire : (now : Text → ℕ) (hosts : List (Text × ℕ)) → IsMap hosts → IsMap (expire now hosts)
unfolding expire
IsMap-expire now [] h = tt
IsMap-expire now ((key, until) ∷ hosts) h = elim (Bool-cases (ltb (now key) until)) [
  | inl t ↦ rw t (All-expire (λ b. key ≢ b.0) now hosts h.0, IsMap-expire now hosts h.1)
  | inr f ↦ rw f (IsMap-expire now hosts h.1)
]

pub length-expire_le :
    (now : Text → ℕ) (hosts : List (Text × ℕ)) → length (expire now hosts) ≤ length hosts
unfolding expire
length-expire_le now [] = omega arith
length-expire_le now ((key, until) ∷ hosts) = ground (arith, length-expire_le now hosts)

find_soonest-In :
    (hosts : List (Text × ℕ)) (oldest : Text) (l : List (Text × ℕ)) (r : Text)
    → find_soonest hosts oldest l ≡ r
    → (r ≡ oldest) ⊎ ((t : ℕ) × In (r, t) l)
unfolding find_soonest
find_soonest-In hosts oldest [] r h = inl (sym h)
find_soonest-In hosts oldest ((key, until) ∷ rest) r h =
    elim (Bool-cases (is_sooner hosts oldest key until)) [
      | inl t ↦ elim (find_soonest-In hosts key rest r (rw (t, find_soonest) at h)) [
        | inl e ↦ inr (until, inl (rw e refl))
        | inr (u, i) ↦ inr (u, inr i)
      ]
      | inr f ↦ elim (find_soonest-In hosts oldest rest r (rw (f, find_soonest) at h)) [
        | inl e ↦ inl e
        | inr (u, i) ↦ inr (u, inr i)
      ]
    ]

find_soonest-found :
    (hosts : List (Text × ℕ)) (n : ℕ)
    → length hosts ≡ suc n
    → (t : ℕ) × (lookup (find_soonest hosts [] hosts) hosts ≡ some t)
unfolding find_soonest is_sooner
find_soonest-found [] n e = absurd (omega arith)
find_soonest-found ((key, until) ∷ rest) n e =
    elim (find_soonest-In ((key, until) ∷ rest) key rest _ refl) [
      | inl p ↦ In-lookup _ until ((key, until) ∷ rest) (inl (rw p refl))
      | inr (t, i) ↦ In-lookup _ t ((key, until) ∷ rest) (inr i)
    ]

-- What a map of hosts is always like.
abbrev pub IsBounded : List (Text × ℕ) → Type 0
IsBounded hosts = IsMap hosts × (length hosts ≤ max_hosts)

-- There is room for one more host, or the host is there.
make_room_lem :
    (host : Text) (hosts : List (Text × ℕ))
    → IsBounded hosts
    → IsBounded (make_room host hosts)
      × ((length (make_room host hosts) < max_hosts)
          ⊎ ((t : ℕ) × (lookup host (make_room host hosts) ≡ some t)))
unfolding make_room
make_room_lem host hosts (m, b) = elim (Option-cases (lookup host hosts)) [
  | inl (t, e) ↦ rw (make_room, e) ((m, b), inr (t, e))
  | inr e ↦ elim (Bool-cases (leb max_hosts (length hosts))) [
    | inr f ↦ rw (make_room, e, f) ((m, b), inl (ground arith))
    | inl l ↦
        let full : length hosts ≡ 128 = omega (arith, leb→le max_hosts (length hosts) l) in
        let (t, found) = find_soonest-found hosts 127 full in
        let shorter = length-delete (find_soonest hosts [] hosts) t hosts m found in
        rw (make_room, e, l)
          ((IsMap-delete (find_soonest hosts [] hosts) hosts m, omega arith), inl (omega arith))
  ]
]

length-assign_found :
    (host : Text) (retry_at t : ℕ) (hosts : List (Text × ℕ))
    → IsMap hosts
    → lookup host hosts ≡ some t
    → length (assign host retry_at hosts) ≡ length hosts
unfolding assign
length-assign_found host retry_at t hosts m e = omega (arith, length-delete host t hosts m e)

extend-IsBounded :
    (host : Text) (retry_at : ℕ) (hosts : List (Text × ℕ))
    → IsBounded hosts
    → (length hosts < max_hosts) ⊎ ((t : ℕ) × (lookup host hosts ≡ some t))
    → IsBounded (extend host retry_at hosts)
unfolding extend
extend-IsBounded host retry_at hosts (m, b) room =
    elim (Bool-cases (ltb (deadline host hosts) retry_at)) [
      | inr f ↦ rw f (m, b)
      | inl l ↦ rw l (
        IsMap-assign host retry_at hosts m,
        elim room [
          | inl few ↦ omega (arith, length-assign_le host retry_at hosts)
          | inr (t, e) ↦ omega (arith, length-assign_found host retry_at t hosts m e)
        ],
      )
    ]

pub limit-IsBounded :
    (now : Text → ℕ) (host : Text) (retry_at : ℕ) (hosts : List (Text × ℕ))
    → IsBounded hosts
    → IsBounded (limit now host retry_at hosts)
unfolding limit
limit-IsBounded now host retry_at hosts (m, b) =
    let (bounded, room) =
      make_room_lem host (expire now hosts)
        (IsMap-expire now hosts m, omega (arith, length-expire_le now hosts)) in
    extend-IsBounded host retry_at (make_room host (expire now hosts)) bounded room

pub extend-deadline :
    (host : Text) (retry_at : ℕ) (hosts : List (Text × ℕ))
    → retry_at ≤ deadline host (extend host retry_at hosts)
unfolding extend deadline
extend-deadline host retry_at hosts = elim (Bool-cases (ltb (deadline host hosts) retry_at)) [
  | inr f ↦ rw f (ground arith)
  | inl l ↦
      let there = lookup-assign_same host retry_at hosts in rw (l, deadline, there) (omega arith)
]
