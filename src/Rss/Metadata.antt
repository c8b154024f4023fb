-- ===== src/Rss/Metadata.antt =====
-- internal/rss/metadata_cache.go: the cache of parsed .torrent files, bounded in entries and bytes.
pub mod Evict
pub mod Sound
pub mod Put
pub mod Hits
pub mod Reached
use aninode.Prelude.{
  ℕ, zero, suc, ◌+◌, ◌*◌, ◌^◌, Bool, true, false, not, ◌&&◌, ◌||◌, if◌then◌else◌, Text, text_eq,
  text_lt, ltb, leb, ◌==◌, ℤ, pos, ◌+ℤ◌, ◌-ℤ◌, ltb_ℤ, Option, none, some, List, [], ◌∷◌, length,
  lookup, delete, assign,
}
use aninode.ReleaseFilter.{is_empty}
use aninode.Torrent.Metainfo.{Metadata}
use aninode.Rss.{second}

-- metadataTTL
abbrev pub ttl : ℕ
ttl = 6 * 3600 * second

-- metadataCacheEntries
abbrev pub max_entries : ℕ
max_entries = 2048

-- metadataCacheBytes
abbrev pub max_bytes : ℕ
max_bytes = 16 * 2 ^ 20

-- cachedMetadata
pub record Cached : Type 0 where
  pub value : Metadata
  pub expires : ℕ
  pub size : ℕ

-- metadataCache without the mutex and the flights
pub record Cache : Type 0 where
  pub entries : List (Text × Cached)
  pub by_hash : List (Text × Text)
  pub bytes : ℤ

-- c.byHash[hash], the empty string where there is none
unfoldable pub key_of : Cache → Text → Text
key_of c hash = elim (lookup hash c.by_hash) [ some key ↦ key | none ↦ [] ]

-- The part of remove behind the test for the entry.
unfoldable pub remove_entry : Text → Cached → Cache → Cache
remove_entry key entry c = record {
  entries = delete key c.entries;
  by_hash =
      if not (is_empty entry.value.info_hash) && text_eq (key_of c entry.value.info_hash) key
      then delete entry.value.info_hash c.by_hash
      else c.by_hash;
  bytes = c.bytes -ℤ pos entry.size;
}

-- remove
unfoldable pub remove : Text → Cache → Cache
remove key c = elim (lookup key c.entries) [ none ↦ c | some entry ↦ remove_entry key entry c ]

-- lookup: a copy of the value is the value.
unfoldable pub look : ℕ → Text → Cache → Option Metadata × Cache
look now url c = elim (lookup url c.entries) [
  | none ↦ (none, c)
  | some entry ↦ if not (ltb now entry.expires) then (none, remove url c) else (some entry.value, c)
]

-- if !ok { delete(c.byHash, infoHash) }
unfoldable pub answer_hash : Text → Option Metadata × Cache → Option Metadata × Cache
answer_hash hash (some value, c) = (some value, c)
answer_hash hash (none, c) = (none, record c { by_hash = delete hash c.by_hash })

-- CachedTorrentMetadataByHash, where the fetcher has a cache
unfoldable pub look_by_hash : ℕ → Text → Cache → Option Metadata × Cache
look_by_hash now hash c = if is_empty hash then (none, c) else elim (lookup hash c.by_hash) [
  | none ↦ (none, c)
  | some key ↦ answer_hash hash (look now key c)
]

unfoldable pub files_size : List Text → ℕ
files_size [] = 0
files_size (path ∷ files) = length path + 16 + files_size files

-- The size that put counts for an entry.
unfoldable pub size_of : Text → Metadata → ℕ
size_of key value =
    length key + length value.name + length value.info_hash + 128 + files_size value.files

-- The test with which the search for the oldest entry takes (k, entry).
unfoldable pub is_older : Text → ℕ → Text → Cached → Bool
is_older oldest expires k entry =
    is_empty oldest || ltb entry.expires expires || ((entry.expires == expires) && text_lt k oldest)

-- The search for the oldest entry: `oldest` and `expires` are the variables of the loop.
unfoldable pub find_oldest : Text → ℕ → List (Text × Cached) → Text
find_oldest oldest expires [] = oldest
find_oldest oldest expires ((k, entry) ∷ rest) = elim (is_older oldest expires k entry) [
  | true ↦ find_oldest k entry.expires rest
  | false ↦ find_oldest oldest expires rest
]

-- The condition of the loop of put.
unfoldable pub is_full : ℕ → Cache → Bool
is_full size c = leb max_entries (length c.entries) || ltb_ℤ (pos max_bytes) (c.bytes +ℤ pos size)

-- The loop of put. Fuel: each round removes one entry.
unfoldable pub evict : ℕ → ℕ → Cache → Cache
evict zero size c = c
evict (suc fuel) size c = elim (is_full size c) [
  | true ↦ evict fuel size (remove (find_oldest [] 0 c.entries) c)
  | false ↦ c
]

-- The part of put behind the loop.
unfoldable pub store : ℕ → Text → Metadata → ℕ → Cache → Cache
store now key value size c = record {
  entries = assign key (record { value = value; expires = now + ttl; size = size }) c.entries;
  by_hash =
      if not (is_empty value.info_hash) then assign value.info_hash key c.by_hash else c.by_hash;
  bytes = c.bytes +ℤ pos size;
}

-- put
unfoldable pub put : ℕ → Text → Metadata → Cache → Cache
put now key value c =
    let size = size_of key value in
    let rest = remove key c in
    if ltb max_bytes size
    then c
    else store now key value size (evict (length rest.entries) size rest)
