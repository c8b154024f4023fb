-- ===== src/Rss/Metadata/Put.antt =====
-- internal/rss/metadata_cache.go: lemmas on put, for the order of the cache and its bounds.
use aninode.Prelude.{
  ℕ, zero, suc, ◌+◌, ◌≤◌, ◌≡◌, refl, ap, ◌∙◌, inl, inr, false, Text, pos, ◌+ℤ◌, ◌≤ℤ◌, ltb, ltb_ℤ→le,
  pos_add, arith, none, [], All, All-map, All-assign, total-assign, length-assign_le, length,
  Bool-cases, Option-cases, lookup, assign, total, IsMap-assign, lookup-assign_same,
  lookup-assign_other, lookup-delete_same, lookup-none-delete, found_neq,
}
use aninode.ReleaseFilter.{is_empty}
use aninode.Torrent.Metainfo.{Metadata}
use aninode.Rss.Metadata.{
  Cache, Cached, ttl, max_entries, max_bytes, size_of, is_full, find_oldest, remove, remove_entry,
  evict, store, put,
}
use aninode.Rss.Metadata.Sound.{IsSound, Indexes, remove-IsSound, remove_found, remove_missing}
use aninode.Rss.Metadata.Evict.{is_full-evict, evict-IsSound}

-- The bounds of the cache: 2048 entries and 16 MiB.
abbrev pub IsBounded : Cache → Type 0
IsBounded c = (length c.entries ≤ max_entries) × (c.bytes ≤ℤ pos max_bytes)

remove_lacks : (c : Cache) (key : Text) → lookup key (remove key c).entries ≡ none
unfolding remove_entry
remove_lacks c key = elim (Option-cases (lookup key c.entries)) [
  | inl (entry, found) ↦ rw (remove_found c key entry found) (lookup-delete_same key c.entries)
  | inr lacks ↦ rw (remove_missing c key lacks) lacks
]

remove_keeps_lack :
    (c : Cache) (key other : Text)
    → lookup key c.entries ≡ none
    → lookup key (remove other c).entries ≡ none
unfolding remove_entry
remove_keeps_lack c key other h = elim (Option-cases (lookup other c.entries)) [
  | inl (entry, found) ↦
      rw (remove_found c other entry found) (lookup-none-delete key other c.entries h)
  | inr lacks ↦ rw (remove_missing c other lacks) h
]

evict_keeps_lack :
    (c : Cache) (key : Text) (size fuel : ℕ)
    → lookup key c.entries ≡ none
    → lookup key (evict fuel size c).entries ≡ none
unfolding evict
evict_keeps_lack c key size zero h = h
evict_keeps_lack c key size (suc fuel) h = elim (Bool-cases (is_full size c)) [
  | inl t ↦
      rw (evict, t)
        (evict_keeps_lack (remove (find_oldest [] 0 c.entries) c) key size fuel
          (remove_keeps_lack c key (find_oldest [] 0 c.entries) h))
  | inr f ↦ rw (evict, f) h
]

abbrev new_entry : ℕ → Metadata → ℕ → Cached
new_entry now value size = record { value = value; expires = now + ttl; size = size }

-- The pairs of the hash table lead past the new entry.
Indexes-assign :
    (c : Cache) (key : Text) (e : Cached) (b : Text × Text)
    → lookup key c.entries ≡ none
    → Indexes c.entries b
    → Indexes (assign key e c.entries) b
Indexes-assign c key e b lacks (filled, (entry, found, same)) = (
  filled,
  (
    entry,
    lookup-assign_other b.1 key e c.entries (found_neq b.1 key entry c.entries found lacks) ∙ found,
    same,
  ),
)

store-Indexes :
    (now : ℕ) (key : Text) (value : Metadata) (size : ℕ) (c : Cache)
    → IsSound c
    → lookup key c.entries ≡ none
    → All
        (Indexes (assign key (new_entry now value size) c.entries))
        (store now key value size c).by_hash
unfolding store
store-Indexes now key value size c h lacks =
    let old =
      All-map _ _ c.by_hash (λ b i. Indexes-assign c key (new_entry now value size) b lacks i)
        h.3 in
    elim (Bool-cases (is_empty value.info_hash)) [
      | inl t ↦ rw t old
      | inr f ↦ rw f (
          All-assign (Indexes (assign key (new_entry now value size) c.entries)) value.info_hash key
            c.by_hash
            (
              f,
              (
                new_entry now value size,
                lookup-assign_same key (new_entry now value size) c.entries,
                refl,
              ),
            )
            old)
    ]

store-IsSound :
    (now : ℕ) (key : Text) (value : Metadata) (size : ℕ) (c : Cache)
    → IsSound c
    → lookup key c.entries ≡ none
    → IsSound (store now key value size c)
unfolding store
store-IsSound now key value size c h lacks = (
  IsMap-assign key (new_entry now value size) c.entries h.0,
  elim (Bool-cases (is_empty value.info_hash)) [
    | inl t ↦ rw t h.1
    | inr f ↦ rw f (IsMap-assign value.info_hash key c.by_hash h.1)
  ],
  rw
      (
        h.2,
        pos_add (total (λ e. e.size) c.entries) size,
        total-assign (λ e. e.size) key (new_entry now value size) c.entries lacks,
      )
      (ap pos (omega arith)),
  store-Indexes now key value size c h lacks,
)

pub put-IsSound :
    (now : ℕ) (key : Text) (value : Metadata) (c : Cache)
    → IsSound c
    → IsSound (put now key value c)
unfolding put
put-IsSound now key value c h = elim (Bool-cases (ltb max_bytes (size_of key value))) [
  | inl t ↦ rw t h
  | inr f ↦
      let rest = remove key c in
      rw f (
        store-IsSound now key value (size_of key value)
          (evict (length rest.entries) (size_of key value) rest)
          (evict-IsSound rest (size_of key value) (length rest.entries) (remove-IsSound c key h))
          (evict_keeps_lack rest key (size_of key value) (length rest.entries)
            (remove_lacks c key)))
]

store-IsBounded :
    (now : ℕ) (key : Text) (value : Metadata) (size : ℕ) (c : Cache)
    → is_full size c ≡ false
    → IsBounded (store now key value size c)
unfolding store is_full
store-IsBounded now key value size c h = (
  ground (arith, length-assign_le key (new_entry now value size) c.entries),
  ltb_ℤ→le (pos max_bytes) (c.bytes +ℤ pos size) (ground arith),
)

-- put keeps the cache in order and within 2048 entries and 16 MiB.
pub put_lem :
    (now : ℕ) (key : Text) (value : Metadata) (c : Cache)
    → IsSound c
    → IsBounded c
    → IsSound (put now key value c) × IsBounded (put now key value c)
unfolding put
put_lem now key value c h b = (
  put-IsSound now key value c h,
  elim (Bool-cases (ltb max_bytes (size_of key value))) [
    | inl t ↦ rw t b
    | inr f ↦
        let rest = remove key c in
        rw f (
          store-IsBounded now key value (size_of key value)
            (evict (length rest.entries) (size_of key value) rest)
            (is_full-evict rest (size_of key value) (length rest.entries) (remove-IsSound c key h)
              (ground arith) refl))
  ],
)
