-- ===== src/Rss/Metadata/Sound.antt =====
-- internal/rss/metadata_cache.go: what a cache keeps true of its three fields, and remove.
use aninode.Prelude.{
  ◌≡◌, ◌≢◌, sym, ap, ◌∙◌, inl, inr, false, not, ◌&&◌, Text, text_eq, text_eq_refl, pos, pos_sub,
  arith, none, some, List, All, All-map-In, All-delete, All-both, All-map, In, Bool-cases,
  Option-cases, some-injective, lookup, delete, total, IsMap, IsMap-delete, total-delete,
  delete-Lacks, lookup-delete_other, In-IsMap-lookup,
}
use aninode.ReleaseFilter.{is_empty}
use aninode.Rss.Metadata.{Cache, Cached, key_of, remove_entry, remove}

-- A pair of the hash table: its key is an entry, whose hash it is.
abbrev pub Indexes : List (Text × Cached) → Text × Text → Type 0
Indexes entries b =
    (is_empty b.0 ≡ false)
    × ((entry : Cached) × (lookup b.1 entries ≡ some entry) × (entry.value.info_hash ≡ b.0))

-- Keys are distinct, `bytes` is the sum of the sizes, and each hash leads to an entry with that hash.
abbrev pub IsSound : Cache → Type 0
IsSound c =
    IsMap c.entries
    × IsMap c.by_hash
    × (c.bytes ≡ pos (total (λ e. e.size) c.entries))
    × All (Indexes c.entries) c.by_hash

-- The pairs that are left lead to other entries.
Indexes-delete :
    (c : Cache) (key : Text) (b : Text × Text)
    → b.1 ≢ key
    → Indexes c.entries b
    → Indexes (delete key c.entries) b
Indexes-delete c key b h (filled, (entry, found, same)) =
    (filled, (entry, lookup-delete_other b.1 key c.entries h ∙ found, same))

-- A pair that leads to the entry has its hash.
same_hash :
    (c : Cache) (key : Text) (entry : Cached) (b : Text × Text)
    → lookup key c.entries ≡ some entry
    → Indexes c.entries b
    → b.1 ≡ key
    → entry.value.info_hash ≡ b.0
same_hash c key entry b found (filled, (other, found', same)) e =
    ap (λ x. x.value.info_hash)
      (some-injective (sym found ∙ sym (ap (λ k. lookup k c.entries) e) ∙ found'))
    ∙ same

-- The hash table leads from the hash of such a pair to its key.
key_of-same :
    (c : Cache) (b : Text × Text) (hash : Text)
    → IsMap c.by_hash
    → In b c.by_hash
    → hash ≡ b.0
    → key_of c hash ≡ b.1
unfolding key_of
key_of-same c b hash m i e = rw (e, key_of, In-IsMap-lookup b.0 b.1 c.by_hash m i)

remove_entry-Indexes :
    (c : Cache) (key : Text) (entry : Cached)
    → IsSound c
    → lookup key c.entries ≡ some entry
    → All (Indexes (delete key c.entries)) (remove_entry key entry c).by_hash
unfolding remove_entry key_of
remove_entry-Indexes c key entry (m, m', n, h) found =
    elim (Bool-cases
      (not (is_empty entry.value.info_hash) && text_eq (key_of c entry.value.info_hash) key)) [
        | inl t ↦ rw t (
            All-map _ _ (delete entry.value.info_hash c.by_hash)
              (λ b (i, other).
                Indexes-delete c key b (λ e. other (same_hash c key entry b found i e)) i)
              (All-both _ _ (delete entry.value.info_hash c.by_hash)
                (All-delete (Indexes c.entries) entry.value.info_hash c.by_hash h)
                (delete-Lacks entry.value.info_hash c.by_hash)))
        | inr f ↦ rw f (
            All-map-In _ _ c.by_hash
              (λ b i ix.
                Indexes-delete c key b
                  (λ e.
                    let same = same_hash c key entry b found ix e in
                    let leads = key_of-same c b entry.value.info_hash m' i same ∙ e in
                    absurd (ground (arith, rw (leads, same, ix.0, text_eq_refl key) at f)))
                  ix)
              h)
      ]

remove_entry-IsSound :
    (c : Cache) (key : Text) (entry : Cached)
    → IsSound c
    → lookup key c.entries ≡ some entry
    → IsSound (remove_entry key entry c)
unfolding remove_entry
remove_entry-IsSound c key entry (m, m', n, h) found = (
  IsMap-delete key c.entries m,
  elim (Bool-cases
      (not (is_empty entry.value.info_hash) && text_eq (key_of c entry.value.info_hash) key)) [
        | inl t ↦ rw t (IsMap-delete entry.value.info_hash c.by_hash m')
        | inr f ↦ rw f m'
      ],
  rw (n, total-delete (λ e. e.size) key entry c.entries m found)
      (pos_sub entry.size (total (λ e. e.size) (delete key c.entries))),
  remove_entry-Indexes c key entry (m, m', n, h) found,
)

pub remove_found :
    (c : Cache) (key : Text) (entry : Cached)
    → lookup key c.entries ≡ some entry
    → remove key c ≡ remove_entry key entry c
unfolding remove
remove_found c key entry e = rw (remove, e)

pub remove_missing : (c : Cache) (key : Text) → lookup key c.entries ≡ none → remove key c ≡ c
unfolding remove
remove_missing c key e = rw (remove, e)

pub remove-IsSound : (c : Cache) (key : Text) → IsSound c → IsSound (remove key c)
remove-IsSound c key h = elim (Option-cases (lookup key c.entries)) [
  | inl (entry, found) ↦
      rw (remove_found c key entry found) (remove_entry-IsSound c key entry h found)
  | inr lacks ↦ rw (remove_missing c key lacks) h
]
