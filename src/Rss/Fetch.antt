-- ===== src/Rss/Fetch.antt =====
-- internal/rss/feed.go: Fetch, FetchPage and fetchTorrentMetadata. The request and the server are
-- arguments: `new_request url` is the host of the request, or the error of http.NewRequestWithContext,
-- and `send request n` the result of call number n of client.Do.
pub mod Cached
use aninode.Prelude.{
  ℕ, Bool, true, false, not, ◌&&◌, if◌then◌else◌, ltb, ◌==◌, ℤ, Text, codes, Option, none, some,
  List, [], ◌∷◌, map, length,
}
use aninode.Torrent.{Result, ok, fail}
use aninode.Torrent.Metainfo.{Metadata, parse}
use aninode.Rss.Http.{
  Response, Failure, http_status, too_large, bad_torrent, Outcome, done, failed, Url,
  redact_request_error,
}
use aninode.Rss.Cooldown.{Clock, read_request}
use aninode.Rss.Documents.{Entry, Decoder, after, parse_feed}
use aninode.Rss.Feeds.{FeedCache, validators, not_modified, put_feeds}

pub record Request : Type 0 where
  pub url : Text
  pub accept : Text
  pub if_none_match : Text
  pub if_modified_since : Text

-- The caches of a Fetcher that Fetch uses.
pub record Fetcher : Type 0 where
  pub feeds : Option FeedCache
  pub hosts : Option (List (Text × ℕ))

-- What the code takes from other packages.
pub record Library : Type 0 where
  pub to_lower : ℕ → ℕ
  pub parse_int : Text → Option ℤ
  pub parse_date : Text → Option ℕ
  pub parse_layout : ℕ → Text → Option ℕ
  pub decoder : Decoder
  pub parse_url : Text → Option Url
  pub print_url : Url → Text
  pub sha1 : Text → Text
  pub new_request : Text → Outcome Text

-- The world around one call: the context at the start and during a wait, the clock, the server.
pub record World : Type 0 where
  pub early : Option Failure
  pub waiting : Option Failure
  pub clock : Clock
  pub send : Request → ℕ → Outcome Response

abbrev pub feed_accept : Text
feed_accept = codes "application/rss+xml, application/atom+xml, application/xml, text/xml;q=0.9"

abbrev page_accept : Text
page_accept = codes "text/html,application/xhtml+xml;q=0.9,*/*;q=0.8"

abbrev torrent_accept : Text
torrent_accept = codes "application/x-bittorrent, application/octet-stream;q=0.9"

module _ (lib : Library) where
  -- readRequest to the host of a request
  unfoldable pub read :
      World
      → Text
      → Request
      → Option (List (Text × ℕ))
      → Outcome Response × Option (List (Text × ℕ))
  read world host request hosts =
      read_request lib.parse_int lib.parse_date world.early world.waiting world.clock
        (map lib.to_lower host) (world.send request) hosts

  -- The part of Fetch behind readRequest.
  unfoldable pub receive : Text → Outcome Response → Fetcher → Outcome (List Entry) × Fetcher
  receive url (failed e) f = (failed (redact_request_error lib.parse_url lib.print_url e), f)
  receive url (done response) f =
      if response.status == 304
      then elim (not_modified f.feeds url) [
        | some entries ↦ (done entries, f)
        | none ↦ (failed (http_status (codes "feed") response.status 0), f)
      ]
      else if not (response.status == 200)
      then (failed (http_status (codes "feed") response.status 0), f)
      else elim (parse_feed lib.to_lower lib.parse_layout lib.decoder response.body) [
        | failed e ↦ (failed e, f)
        | done entries ↦
            (done entries, record f { feeds = put_feeds url response.header entries f.feeds })
      ]

  -- The request of Fetch; a header that is not set is empty.
  unfoldable pub feed_request : Text → Fetcher → Request
  feed_request url f = record {
    url = url;
    accept = feed_accept;
    if_none_match = (validators f.feeds url).0;
    if_modified_since = (validators f.feeds url).1;
  }

  -- Fetch
  unfoldable pub fetch : World → Text → Fetcher → Outcome (List Entry) × Fetcher
  fetch world url f = elim (lib.new_request url) [
    | failed e ↦ (failed e, f)
    | done host ↦
        let (reply, hosts) = read world host (feed_request url f) f.hosts in
        receive url reply (record f { hosts = hosts })
  ]

  abbrev plain_request : Text → Text → Request
  plain_request accept url = record {
    url = url;
    accept = accept;
    if_none_match = [];
    if_modified_since = [];
  }

  -- The body of a reply with status 200 that is not too large, for both functions below.
  unfoldable pub body_of : Text → ℕ → Outcome Response → Outcome Text
  body_of resource limit (failed e) = failed (redact_request_error lib.parse_url lib.print_url e)
  body_of resource limit (done response) =
      if not (response.status == 200)
      then failed (http_status resource response.status 0)
      else after response.body
          (λ body. if ltb limit (length body) then failed (too_large limit) else done body)

  -- maxPageSize
  abbrev max_page_size : ℕ
  max_page_size = 16777216

  -- FetchPage
  unfoldable pub fetch_page : World → Text → Fetcher → Outcome Text × Fetcher
  fetch_page world url f = elim (lib.new_request url) [
    | failed e ↦ (failed e, f)
    | done host ↦
        let (reply, hosts) = read world host (plain_request page_accept url) f.hosts in
        (body_of (codes "page") max_page_size reply, record f { hosts = hosts })
  ]

  -- maxTorrentSize
  abbrev max_torrent_size : ℕ
  max_torrent_size = 8388608

  -- return torrentmeta.Parse(data)
  unfoldable pub parse_torrent : Outcome Text → Outcome Metadata
  parse_torrent (failed e) = failed e
  parse_torrent (done body) = elim (parse lib.sha1 body) [
    | ok metadata ↦ done metadata
    | fail e ↦ failed bad_torrent
  ]

  -- fetchTorrentMetadata
  unfoldable pub fetch_torrent_metadata : World → Text → Fetcher → Outcome Metadata × Fetcher
  fetch_torrent_metadata world url f = elim (lib.new_request url) [
    | failed e ↦ (failed e, f)
    | done host ↦
        let (reply, hosts) = read world host (plain_request torrent_accept url) f.hosts in
        (
          parse_torrent (body_of (codes "torrent") max_torrent_size reply),
          record f { hosts = hosts },
        )
  ]
