-- ===== src/Rss/Fetch/Cached.antt =====
-- internal/rss/feed.go and feed_cache.go: what a fetch leaves in the caches, and what a later one finds.
use aninode.Prelude.{
  ℕ, suc, ◌≤◌, ◌≡◌, refl, ◌⊎◌, inl, inr, true, false, ◌&&◌, leb, ◌==◌, Text, codes, map, arith,
  Option, none, some, List, [], length, Bool-cases, Option-cases, lookup, assign, IsMap,
  IsMap-assign, length-assign_le, lookup-assign_same,
}
use aninode.ReleaseFilter.{is_empty}
use aninode.Rss.Http.{Response, http_status, Outcome, Outcome-cases, done, failed}
use aninode.Rss.Cooldown.Kept.{AreBounded, read_request-AreBounded}
use aninode.Rss.Documents.{Entry, parse_feed}
use aninode.Rss.Feeds.{
  FeedCache, CachedFeed, max_feeds, validators, not_modified, put_feed, put_feeds,
}
use aninode.Rss.Fetch.{Fetcher, Library, World, read, receive, feed_request, fetch}

-- A cache of feeds within its bound; no cache is.
abbrev pub AreFew : Option FeedCache → Type 0
AreFew none = Unit
AreFew (some c) = IsMap c × (length c ≤ max_feeds)

assign-AreFew :
    (url : Text) (e : CachedFeed) (c : FeedCache)
    → IsMap c
    → suc (length c) ≤ max_feeds
    → AreFew (some (assign url e c))
assign-AreFew url e c m b = (IsMap-assign url e c m, omega (arith, length-assign_le url e c))

put_feed-AreFew :
    (url : Text) (header : Text → Text) (entries : List Entry) (c : FeedCache)
    → AreFew (some c)
    → AreFew (some (put_feed url header entries c))
unfolding put_feed
put_feed-AreFew url header entries c (m, b) =
    elim (Bool-cases
      (is_empty (header (codes "ETag")) && is_empty (header (codes "Last-Modified")))) [
        | inl t ↦ rw t (m, b)
        | inr f ↦ elim (Bool-cases (leb max_feeds (length c))) [
          | inl full ↦ rw (put_feed, f, full) (assign-AreFew url _ [] tt (omega arith))
          | inr room ↦ rw (put_feed, f, room) (assign-AreFew url _ c m (ground arith))
        ]
      ]

put_feeds-AreFew :
    (url : Text) (header : Text → Text) (entries : List Entry) (c : Option FeedCache)
    → AreFew c
    → AreFew (put_feeds url header entries c)
unfolding put_feeds
put_feeds-AreFew url header entries none h = tt
put_feeds-AreFew url header entries (some c) h = put_feed-AreFew url header entries c h

put_feed_found :
    (url : Text) (header : Text → Text) (entries : List Entry) (c : FeedCache)
    → (is_empty (header (codes "ETag")) && is_empty (header (codes "Last-Modified"))) ≡ false
    → lookup url (put_feed url header entries c)
      ≡ some (record {
        etag = header (codes "ETag");
        last_modified = header (codes "Last-Modified");
        entries = entries;
      })
unfolding put_feed
put_feed_found url header entries c f = rw f (lookup-assign_same url _ _)

validators-put :
    (url : Text) (header : Text → Text) (entries : List Entry) (c : FeedCache)
    → (is_empty (header (codes "ETag")) && is_empty (header (codes "Last-Modified"))) ≡ false
    → (validators (put_feeds url header entries (some c)) url
        ≡ (header (codes "ETag"), header (codes "Last-Modified")))
      × (not_modified (put_feeds url header entries (some c)) url ≡ some entries)
unfolding validators not_modified put_feeds
validators-put url header entries c f =
    let found = put_feed_found url header entries c f in
    (rw (validators, put_feeds, found) refl, rw (not_modified, put_feeds, found) refl)

module _ (lib : Library) where
  -- The reply to a request for which the server has nothing new.
  receive_304 :
      (url : Text) (response : Response) (f : Fetcher)
      → (response.status == 304) ≡ true
      → receive lib url (done response) f ≡ elim (not_modified f.feeds url) [
        | some entries ↦ (done entries, f)
        | none ↦ (failed (http_status (codes "feed") response.status 0), f)
      ]
  unfolding receive
  receive_304 url response f t = rw (receive, t)

  receive_200 :
      (url : Text) (response : Response) (f : Fetcher) (entries : List Entry)
      → response.status ≡ 200
      → parse_feed lib.to_lower lib.parse_layout lib.decoder response.body ≡ done entries
      → receive lib url (done response) f
        ≡ (done entries, record f { feeds = put_feeds url response.header entries f.feeds })
  unfolding receive
  receive_200 url response f entries t p = rw (receive, t, p)

  -- A reply leaves the fetcher as it is, or puts its entries into the feeds.
  receive-cases :
      (url : Text) (reply : Outcome Response) (f : Fetcher)
      → ((receive lib url reply f).1 ≡ f)
        ⊎ ((header : Text → Text) × (entries : List Entry) × ((receive lib url reply f).1
              ≡ record f { feeds = put_feeds url header entries f.feeds }))
  unfolding receive
  receive-cases url (failed e) f = inl refl
  receive-cases url (done response) f = elim (Bool-cases (response.status == 304)) [
    | inl t ↦ elim (Option-cases (not_modified f.feeds url)) [
      | inl (entries, e) ↦ inl (rw (receive, t, e) refl)
      | inr e ↦ inl (rw (receive, t, e) refl)
    ]
    | inr n ↦ elim (Bool-cases (response.status == 200)) [
      | inr g ↦ inl (rw (receive, n, g) refl)
      | inl t ↦
          elim (Outcome-cases
            (parse_feed lib.to_lower lib.parse_layout lib.decoder response.body)) [
              | inr (e, p) ↦ inl (rw (receive, n, t, p) refl)
              | inl (entries, p) ↦ inr (response.header, entries, rw (receive, n, t, p) refl)
            ]
    ]
  ]

  -- What a fetcher always keeps to: at most 128 feeds, and at most 128 hosts in cooldown.
  abbrev pub IsSmall : Fetcher → Type 0
  IsSmall f = AreFew f.feeds × AreBounded f.hosts

  receive-IsSmall :
      (url : Text) (reply : Outcome Response) (f : Fetcher)
      → IsSmall f
      → IsSmall (receive lib url reply f).1
  receive-IsSmall url reply f (few, bounded) = elim (receive-cases url reply f) [
    | inl e ↦ rw e (few, bounded)
    | inr (header, entries, e) ↦ rw e (put_feeds-AreFew url header entries f.feeds few, bounded)
  ]

  fetch_sent :
      (world : World) (url : Text) (f : Fetcher) (host : Text)
      → lib.new_request url ≡ done host
      → fetch lib world url f
        ≡ receive lib url
            (read lib world host (feed_request lib url f) f.hosts).0
            (record f { hosts = (read lib world host (feed_request lib url f) f.hosts).1 })
  unfolding fetch
  fetch_sent world url f host e = rw (fetch, e)

  -- Fetch keeps a fetcher within 128 feeds and 128 hosts in cooldown, whatever the server answers.
  pub fetch-IsSmall :
      (world : World) (url : Text) (f : Fetcher) → IsSmall f → IsSmall (fetch lib world url f).1
  unfolding fetch read
  fetch-IsSmall world url f (few, bounded) = elim (Outcome-cases (lib.new_request url)) [
    | inr (e, p) ↦ rw (fetch, p) (few, bounded)
    | inl (host, p) ↦ rw (fetch_sent world url f host p) (
        receive-IsSmall url _ _ (
          few,
          read_request-AreBounded lib.parse_int lib.parse_date world.early world.waiting world.clock
              (map lib.to_lower host) (world.send (feed_request lib url f)) f.hosts bounded,
        ))
  ]

  fetch_stored :
      (world : World) (url : Text) (f : Fetcher) (c : FeedCache) (host : Text) (response : Response)
      (hosts : Option (List (Text × ℕ))) (entries : List Entry)
      → f.feeds ≡ some c
      → lib.new_request url ≡ done host
      → read lib world host (feed_request lib url f) f.hosts ≡ (done response, hosts)
      → response.status ≡ 200
      → parse_feed lib.to_lower lib.parse_layout lib.decoder response.body ≡ done entries
      → (fetch lib world url f).1.feeds ≡ put_feeds url response.header entries (some c)
  fetch_stored world url f c host response hosts entries cached made sent status parsed =
      let opened = fetch_sent world url f host made in
      let received = receive_200 url response (record f { hosts = hosts }) entries status parsed in
      rw (opened, sent, received, cached) refl

  fetch_304 :
      (world : World) (url : Text) (f : Fetcher) (host : Text) (response : Response)
      (hosts : Option (List (Text × ℕ))) (entries : List Entry)
      → lib.new_request url ≡ done host
      → read lib world host (feed_request lib url f) f.hosts ≡ (done response, hosts)
      → response.status ≡ 304
      → not_modified f.feeds url ≡ some entries
      → (fetch lib world url f).0 ≡ done entries
  fetch_304 world url f host response hosts entries made sent status found =
      let opened = fetch_sent world url f host made in
      let received = receive_304 url response (record f { hosts = hosts }) (ground arith) in
      rw (opened, sent, received, found) refl

  -- Where a fetch has got entries with a validator, the next request for the feed names its
  -- validators, and when the server answers 304 to it, the entries are those of the earlier reply.
  pub fetch-not_modified :
      (first next : World) (url : Text) (f : Fetcher) (c : FeedCache) (host : Text)
      (response : Response) (hosts : Option (List (Text × ℕ))) (entries : List Entry)
      (response' : Response) (hosts' : Option (List (Text × ℕ)))
      → f.feeds ≡ some c
      → lib.new_request url ≡ done host
      → read lib first host (feed_request lib url f) f.hosts ≡ (done response, hosts)
      → response.status ≡ 200
      → parse_feed lib.to_lower lib.parse_layout lib.decoder response.body ≡ done entries
      → (is_empty (response.header (codes "ETag"))
          && is_empty (response.header (codes "Last-Modified")))
        ≡ false
      → read lib next host
          (feed_request lib url (fetch lib first url f).1)
          (fetch lib first url f).1.hosts
        ≡ (done response', hosts')
      → response'.status ≡ 304
      → ((feed_request lib url (fetch lib first url f).1).if_none_match
          ≡ response.header (codes "ETag"))
        × ((feed_request lib url (fetch lib first url f).1).if_modified_since
            ≡ response.header (codes "Last-Modified"))
        × ((fetch lib next url (fetch lib first url f).1).0 ≡ done entries)
  unfolding feed_request
  fetch-not_modified first next url f c host response hosts entries response' hosts' cached made
        sent status parsed filled sent' status' =
      let stored =
        fetch_stored first url f c host response hosts entries cached made sent status parsed in
      let (names, again) = validators-put url response.header entries c filled in
      (
        rw (stored, names) refl,
        rw (stored, names) refl,
        fetch_304 next url (fetch lib first url f).1 host response' hosts' entries made sent'
            status' (rw (stored) again),
      )
