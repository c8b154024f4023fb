-- ===== src/Rss/Metadata/Reached.antt =====
-- internal/rss/metadata_cache.go: the caches that the operations lead to.
use aninode.Prelude.{
  ℕ, refl, inl, inr, Text, pos, -ℤ_parts, arith, Option, none, some, [], All-delete, Bool-cases,
  Option-cases, lookup, IsMap-delete, total, length-delete_le,
}
use aninode.ReleaseFilter.{is_empty}
use aninode.Torrent.Metainfo.{Metadata}
use aninode.Rss.Metadata.{Cache, remove, remove_entry, look, look_by_hash, answer_hash, put}
use aninode.Rss.Metadata.Sound.{IsSound, Indexes, remove-IsSound, remove_found, remove_missing}
use aninode.Rss.Metadata.Put.{IsBounded, put_lem}
use aninode.Rss.Metadata.Hits.{look-cases, look_by_hash_key, look_by_hash_nothing}

-- A cache in order, within its bounds.
abbrev pub IsGood : Cache → Type 0
IsGood c = IsSound c × IsBounded c

remove-IsGood : (key : Text) (c : Cache) → IsGood c → IsGood (remove key c)
unfolding remove_entry
remove-IsGood key c (s, b) = (
  remove-IsSound c key s,
  elim (Option-cases (lookup key c.entries)) [
    | inl (entry, found) ↦ rw (remove_found c key entry found) (
      omega (arith, length-delete_le key c.entries, b.0),
      omega (arith, -ℤ_parts c.bytes (pos entry.size), b.1),
    )
    | inr lacks ↦ rw (remove_missing c key lacks) b
  ],
)

look-IsGood : (now : ℕ) (key : Text) (c : Cache) → IsGood c → IsGood (look now key c).1
look-IsGood now key c g = elim (look-cases now key c) [
  | inl (entry, found, hit) ↦ rw hit g
  | inr (inl gone) ↦ rw gone (remove-IsGood key c g)
  | inr (inr gone) ↦ rw gone g
]

answer_hash-IsGood :
    (hash : Text) (found : Option Metadata) (c : Cache)
    → IsGood c
    → IsGood (answer_hash hash (found, c)).1
unfolding answer_hash
answer_hash-IsGood hash none c ((m, m', n, h), b) =
    ((m, IsMap-delete hash c.by_hash m', n, All-delete (Indexes c.entries) hash c.by_hash h), b)
answer_hash-IsGood hash (some value) c g = g

look_by_hash-IsGood :
    (now : ℕ) (hash : Text) (c : Cache) → IsGood c → IsGood (look_by_hash now hash c).1
look_by_hash-IsGood now hash c g = elim (Bool-cases (is_empty hash)) [
  | inl t ↦ rw (look_by_hash_nothing now hash c (inl t)) g
  | inr f ↦ elim (Option-cases (lookup hash c.by_hash)) [
    | inr lacks ↦ rw (look_by_hash_nothing now hash c (inr lacks)) g
    | inl (key, leads) ↦
        rw (look_by_hash_key now hash key c f leads)
          (answer_hash-IsGood hash (look now key c).0 (look now key c).1 (look-IsGood now key c g))
  ]
]

abbrev pub empty_cache : Cache
empty_cache = record { entries = []; by_hash = []; bytes = pos 0 }

-- The caches that a fetcher can have, at whatever times it is used.
pub data Reached : Cache → Type 0 where
  fresh : Reached empty_cache
  put_next :
      (now : ℕ) (key : Text) (value : Metadata) {c : Cache}
      → Reached c
      → Reached (put now key value c)
  look_next : (now : ℕ) (key : Text) {c : Cache} → Reached c → Reached (look now key c).1
  hash_next : (now : ℕ) (hash : Text) {c : Cache} → Reached c → Reached (look_by_hash now hash c).1

empty-IsGood : IsGood empty_cache
unfolding total
empty-IsGood = ((tt, tt, refl, tt), (omega arith, omega arith))

-- Every cache that puts and lookups lead to from the empty one has distinct keys, counts the bytes of
-- its entries right, leads from each hash to an entry with that hash, and stays within 2048 entries and
-- 16 MiB.
pub Reached-IsGood : {c : Cache} → Reached c → IsGood c
Reached-IsGood fresh = empty-IsGood
Reached-IsGood (put_next now key value {c} r) =
    let (s, b) = Reached-IsGood r in put_lem now key value c s b
Reached-IsGood (look_next now key {c} r) = look-IsGood now key c (Reached-IsGood r)
Reached-IsGood (hash_next now hash {c} r) = look_by_hash-IsGood now hash c (Reached-IsGood r)
