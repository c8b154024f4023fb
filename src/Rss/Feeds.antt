-- ===== src/Rss/Feeds.antt =====
-- internal/rss/feed_cache.go: the validators and the entries of the feeds. No map stands for a nil cache.
use aninode.Prelude.{
  ℕ, ◌&&◌, if◌then◌else◌, leb, Text, codes, Option, none, some, List, [], length, lookup, assign,
}
use aninode.ReleaseFilter.{is_empty}
use aninode.Rss.Documents.{Entry}

-- feedCacheEntries
abbrev pub max_feeds : ℕ
max_feeds = 128

pub record CachedFeed : Type 0 where
  pub etag : Text
  pub last_modified : Text
  pub entries : List Entry

abbrev pub FeedCache : Type 0
FeedCache = List (Text × CachedFeed)

-- validators: the zero value where the feed is not there
unfoldable pub validators : Option FeedCache → Text → Text × Text
validators none url = ([], [])
validators (some c) url = elim (lookup url c) [
  | none ↦ ([], [])
  | some entry ↦ (entry.etag, entry.last_modified)
]

-- notModified: a copy of the entries is the entries.
unfoldable pub not_modified : Option FeedCache → Text → Option (List Entry)
not_modified none url = none
not_modified (some c) url = elim (lookup url c) [ none ↦ none | some entry ↦ some entry.entries ]

-- put into a cache that is not nil
unfoldable pub put_feed : Text → (Text → Text) → List Entry → FeedCache → FeedCache
put_feed url header entries c =
    let etag = header (codes "ETag") in
    let modified = header (codes "Last-Modified") in
    let kept = if leb max_feeds (length c) then [] else c in
    if is_empty etag && is_empty modified
    then c
    else assign url (record { etag = etag; last_modified = modified; entries = entries }) kept

-- put
unfoldable pub put_feeds : Text → (Text → Text) → List Entry → Option FeedCache → Option FeedCache
put_feeds url header entries none = none
put_feeds url header entries (some c) = some (put_feed url header entries c)
