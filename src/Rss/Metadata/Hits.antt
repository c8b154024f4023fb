-- ===== src/Rss/Metadata/Hits.antt =====
-- internal/rss/metadata_cache.go: the outcomes of the lookups.
use aninode.Prelude.{
  ℕ, ◌+◌, ◌≤◌, ◌<◌, ◌≡◌, sym, ap, ◌∙◌, ◌⊎◌, inl, inr, true, false, Text, ltb, arith, none, some,
  length, Bool-cases, Option-cases, some-injective, lookup, lookup-assign_same, lookup-All,
}
use aninode.ReleaseFilter.{is_empty}
use aninode.Torrent.Metainfo.{Metadata}
use aninode.Rss.Metadata.{
  Cache, Cached, ttl, max_bytes, size_of, remove, look, look_by_hash, answer_hash, evict, store,
  put,
}
use aninode.Rss.Metadata.Sound.{IsSound, Indexes}

look_hit :
    (now : ℕ) (key : Text) (c : Cache) (entry : Cached)
    → lookup key c.entries ≡ some entry
    → ltb now entry.expires ≡ true
    → look now key c ≡ (some entry.value, c)
unfolding look
look_hit now key c entry found t = rw (look, found, t)

look_expired :
    (now : ℕ) (key : Text) (c : Cache) (entry : Cached)
    → lookup key c.entries ≡ some entry
    → ltb now entry.expires ≡ false
    → look now key c ≡ (none, remove key c)
unfolding look
look_expired now key c entry found t = rw (look, found, t)

look_missing :
    (now : ℕ) (key : Text) (c : Cache) → lookup key c.entries ≡ none → look now key c ≡ (none, c)
unfolding look
look_missing now key c lacks = rw (look, lacks)

put_found :
    (now : ℕ) (key : Text) (value : Metadata) (c : Cache)
    → ltb max_bytes (size_of key value) ≡ false
    → lookup key (put now key value c).entries
      ≡ some (record { value = value; expires = now + ttl; size = size_of key value })
unfolding put store
put_found now key value c f = rw f (
    lookup-assign_same key (record { value = value; expires = now + ttl; size = size_of key value })
      (evict (length (remove key c).entries) (size_of key value) (remove key c)).entries)

-- Metadata that put has stored, and that is not too large, is found under its key until it expires.
pub look-put :
    (now later : ℕ) (key : Text) (value : Metadata) (c : Cache)
    → size_of key value ≤ max_bytes
    → later < now + ttl
    → look later key (put now key value c) ≡ (some value, put now key value c)
look-put now later key value c fits h =
    look_hit later key (put now key value c)
      (record { value = value; expires = now + ttl; size = size_of key value })
      (put_found now key value c (ground arith)) (ground arith)

-- The three outcomes of a lookup.
pub look-cases :
    (now : ℕ) (key : Text) (c : Cache)
    → ((entry : Cached) × (lookup key c.entries ≡ some entry)
        × (look now key c ≡ (some entry.value, c)))
      ⊎ ((look now key c ≡ (none, remove key c)) ⊎ (look now key c ≡ (none, c)))
look-cases now key c = elim (Option-cases (lookup key c.entries)) [
  | inl (entry, found) ↦ elim (Bool-cases (ltb now entry.expires)) [
    | inl t ↦ inl (entry, found, look_hit now key c entry found t)
    | inr f ↦ inr (inl (look_expired now key c entry found f))
  ]
  | inr lacks ↦ inr (inr (look_missing now key c lacks))
]

pub look_by_hash_key :
    (now : ℕ) (hash key : Text) (c : Cache)
    → is_empty hash ≡ false
    → lookup hash c.by_hash ≡ some key
    → look_by_hash now hash c ≡ answer_hash hash (look now key c)
unfolding look_by_hash
look_by_hash_key now hash key c e k = rw (look_by_hash, e, k)

pub look_by_hash_nothing :
    (now : ℕ) (hash : Text) (c : Cache)
    → (is_empty hash ≡ true) ⊎ (lookup hash c.by_hash ≡ none)
    → look_by_hash now hash c ≡ (none, c)
unfolding look_by_hash
look_by_hash_nothing now hash c (inl e) = rw (look_by_hash, e)
look_by_hash_nothing now hash c (inr e) = rw (look_by_hash, e) (ground arith)

-- Where the cache is in order, metadata found by a hash has that computed hash, and the cache stays.
pub look_by_hash-found :
    (now : ℕ) (hash : Text) (c : Cache) (value : Metadata) (c' : Cache)
    → IsSound c
    → look_by_hash now hash c ≡ (some value, c')
    → (value.info_hash ≡ hash) × (c' ≡ c)
unfolding answer_hash
look_by_hash-found now hash c value c' s h = elim (Bool-cases (is_empty hash)) [
  | inl t ↦ absurd (cc (h, look_by_hash_nothing now hash c (inl t)))
  | inr f ↦ elim (Option-cases (lookup hash c.by_hash)) [
    | inr lacks ↦ absurd (cc (h, look_by_hash_nothing now hash c (inr lacks)))
    | inl (key, leads) ↦
        let opened = sym (look_by_hash_key now hash key c f leads) ∙ h in
        elim (look-cases now key c) [
          | inl (entry, found, hit) ↦
              let same = rw hit at opened in
              let (filled, (entry', found', hash')) =
                lookup-All (Indexes c.entries) hash key c.by_hash s.3 leads in
              (
                ap (λ v. v.info_hash) (sym (some-injective (ap (λ r. r.0) same)))
                    ∙ ap (λ e. e.value.info_hash) (some-injective (sym found ∙ found'))
                    ∙ hash',
                sym (ap (λ r. r.1) same),
              )
          | inr (inl gone) ↦ absurd (cc (rw gone at opened))
          | inr (inr gone) ↦ absurd (cc (rw gone at opened))
        ]
  ]
]
