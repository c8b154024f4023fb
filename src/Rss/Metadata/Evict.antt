-- ===== src/Rss/Metadata/Evict.antt =====
-- internal/rss/metadata_cache.go: lemmas on the loop of put.
use aninode.Prelude.{
  ℕ, zero, suc, ◌≤◌, ◌≡◌, refl, sym, ◌⊎◌, inl, inr, false, Text, pos_add, arith, some, List, [],
  ◌∷◌, In, length, Bool-cases, lookup, total, length-delete, In-lookup,
}
use aninode.Rss.Metadata.{
  Cache, Cached, max_bytes, is_older, find_oldest, is_full, evict, remove, remove_entry,
}
use aninode.Rss.Metadata.Sound.{IsSound, remove-IsSound, remove_found}

find_oldest-In :
    (oldest : Text) (expires : ℕ) (l : List (Text × Cached)) (r : Text)
    → find_oldest oldest expires l ≡ r
    → (r ≡ oldest) ⊎ ((v : Cached) × In (r, v) l)
unfolding find_oldest
find_oldest-In oldest expires [] r h = inl (sym h)
find_oldest-In oldest expires ((k, entry) ∷ rest) r h =
    elim (Bool-cases (is_older oldest expires k entry)) [
      | inl t ↦ elim (find_oldest-In k entry.expires rest r (rw (t, find_oldest) at h)) [
        | inl e ↦ inr (entry, inl (rw e refl))
        | inr (v, i) ↦ inr (v, inr i)
      ]
      | inr f ↦ elim (find_oldest-In oldest expires rest r (rw (f, find_oldest) at h)) [
        | inl e ↦ inl e
        | inr (v, i) ↦ inr (v, inr i)
      ]
    ]

-- Whatever entry the loop meets first, the search ends at one.
find_oldest-found :
    (x : Text × Cached) (l : List (Text × Cached))
    → (w : Cached) × (lookup (find_oldest [] 0 (x ∷ l)) (x ∷ l) ≡ some w)
unfolding find_oldest is_older
find_oldest-found (k, entry) l = elim (find_oldest-In k entry.expires l _ refl) [
  | inl e ↦ In-lookup (find_oldest k entry.expires l) entry ((k, entry) ∷ l) (inl (rw e refl))
  | inr (v, i) ↦ In-lookup (find_oldest k entry.expires l) v ((k, entry) ∷ l) (inr i)
]

-- A round of the loop.
unfoldable pub evict_one : Cache → Cache
evict_one c = remove (find_oldest [] 0 c.entries) c

oldest_found :
    (l : List (Text × Cached)) (n : ℕ)
    → length l ≡ suc n
    → (w : Cached) × (lookup (find_oldest [] 0 l) l ≡ some w)
oldest_found [] n e = absurd (omega arith)
oldest_found (x ∷ l) n e = find_oldest-found x l

length-evict_one :
    (c : Cache) (n : ℕ) → IsSound c → length c.entries ≡ suc n → length (evict_one c).entries ≡ n
unfolding evict_one remove_entry
length-evict_one c n h e =
    let key = find_oldest [] 0 c.entries in
    let (w, found) = oldest_found c.entries n e in
    let opened = remove_found c key w found in
    rw opened (omega (arith, length-delete key w c.entries h.0 found))

total_empty : (l : List (Text × Cached)) → length l ≡ 0 → total (λ e. e.size) l ≡ 0
unfolding total
total_empty [] e = refl
total_empty (x ∷ l) e = absurd (omega arith)

-- An empty cache has room for an entry that is not too large by itself.
not_full-empty :
    (c : Cache) (size : ℕ)
    → IsSound c
    → length c.entries ≡ 0
    → size ≤ max_bytes
    → is_full size c ≡ false
unfolding is_full
not_full-empty c size h e fits =
    let none_left = total_empty c.entries e in rw (h.2, none_left, pos_add 0 size, e) (ground arith)

-- The loop ends within as many rounds as there are entries, with room for the new one.
pub is_full-evict :
    (c : Cache) (size : ℕ) (fuel : ℕ)
    → IsSound c
    → size ≤ max_bytes
    → length c.entries ≡ fuel
    → is_full size (evict fuel size c) ≡ false
unfolding evict evict_one
is_full-evict c size zero h fits e = not_full-empty c size h e fits
is_full-evict c size (suc fuel) h fits e = elim (Bool-cases (is_full size c)) [
  | inl t ↦
      rw (evict, t)
        (is_full-evict (evict_one c) size fuel (remove-IsSound c _ h) fits
          (length-evict_one c fuel h e))
  | inr f ↦ rw (evict, f) f
]

pub evict-IsSound : (c : Cache) (size fuel : ℕ) → IsSound c → IsSound (evict fuel size c)
unfolding evict
evict-IsSound c size zero h = h
evict-IsSound c size (suc fuel) h = elim (Bool-cases (is_full size c)) [
  | inl t ↦
      rw (evict, t)
        (evict-IsSound (remove (find_oldest [] 0 c.entries) c) size fuel (remove-IsSound c _ h))
  | inr f ↦ rw (evict, f) h
]
