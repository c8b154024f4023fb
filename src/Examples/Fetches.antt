-- ===== src/Examples/Fetches.antt =====
-- A fetcher that reads one feed twice, a host that asks to wait, and a cache of torrents: internal/rss.
use aninode.Prelude.{
  ◌≤◌, List, ℕ, ◌≡◌, refl, false, Text, codes, text_eq, ℤ, pos, arith, Option, none, some, List, [],
  ◌∷◌, ltb, leb, ◌+◌, ◌-◌, ◌&&◌, if◌then◌else◌, lookup, delete, assign, ◌+ℤ◌,
}
use aninode.Torrent.Metainfo.{Metadata}
use aninode.ReleaseFilter.{is_empty, trim_space, trim_left, is_space}
use aninode.Rss.Http.{
  Response, http_status, Outcome, done, failed, do_read_request, transient_gateway_status,
  too_many_requests,
}
use aninode.Rss.Cooldown.{
  Clock, deadline, expire, make_room, extend, limit, limit_hosts, rate_limit_deadline,
  after_seconds, at_date, read_request, send_request,
}
use aninode.Rss.Cooldown.Kept.{retry_at}
use aninode.Rss.Cooldown.Held.{Call, run_calls, run_calls-cooldown}
use aninode.Rss.Documents.{
  Entry, RssItem, Decoder, parse_feed, after, rss_entries, item_url, or_else, is_magnet,
  is_torrent_url, has_prefix, has_suffix, before_byte, parse_time, first_layout,
}
use aninode.Rss.Feeds.{validators, put_feeds, put_feed}
use aninode.Rss.Fetch.{Fetcher, Library, World, Request, read, receive, feed_request, fetch}
use aninode.Rss.Fetch.Cached.{IsSmall, fetch-IsSmall, fetch-not_modified}
use aninode.Rss.Metadata.{
  Cache, look, look_by_hash, answer_hash, put, remove, evict, store, size_of, files_size,
}
use aninode.Rss.Metadata.Reached.{
  Reached-IsGood, IsGood, empty_cache, put_next, look_next, hash_next, fresh,
}

abbrev sample : Metadata
sample = record { name = codes "a"; files = codes "a/b" ∷ []; info_hash = codes "64" }

-- Stored at time 5.
abbrev filled : Cache
filled = put 5 (codes "u") sample empty_cache

size_test : size_of (codes "u") sample ≡ 151
unfolding size_of files_size
size_test = refl

Reached-IsGood_example : IsGood (look_by_hash 9 (codes "64") (look 9 (codes "v") filled).1).1
Reached-IsGood_example =
    Reached-IsGood
      (hash_next 9 (codes "64") (look_next 9 (codes "v") (put_next 5 (codes "u") sample fresh)))

hash_test : look_by_hash 9 (codes "64") filled ≡ (some sample, filled)
unfolding look_by_hash answer_hash look put remove store evict size_of files_size assign lookup
    delete text_eq ◌+ℤ◌
hash_test = refl

-- The text of a number, for the digits of one decimal place.
abbrev one_digit : Text → Option ℤ
one_digit [] = none
one_digit (c ∷ s) = some (pos (c - b'0'))

abbrev no_date : Text → Option ℕ
no_date s = none

abbrev at : ℕ → Clock
at t = record { start = t; reply = t; sweep = (λ key. t) }

-- A server that asks to wait three seconds.
abbrev busy : ℕ → Outcome Response
busy n = done (record { status = 429; header = (λ name. codes "3"); body = done [] })

abbrev hosts_after : List (Text × ℕ)
hosts_after = (codes "h", 3000000007) ∷ []

busy_test :
    read_request one_digit no_date none none (at 7) (codes "h") busy (some [])
    ≡ (failed (http_status [] too_many_requests 3000000007), some hosts_after)
unfolding read_request send_request do_read_request transient_gateway_status rate_limit_deadline
    after_seconds at_date limit_hosts limit extend make_room expire deadline lookup assign delete
    trim_space trim_left is_space
busy_test = refl

deadline_test :
    retry_at one_digit no_date
      (record { status = 429; header = (λ name. codes "3"); body = done [] })
      (at 7)
    ≡ 3000000007
unfolding rate_limit_deadline after_seconds trim_space trim_left is_space
deadline_test = refl

reply_test :
    do_read_request none busy
    ≡ done (record { status = 429; header = (λ name. codes "3"); body = done [] })
unfolding do_read_request transient_gateway_status
reply_test = refl

free_test : ltb 7 (deadline (codes "h") []) ≡ false
unfolding deadline lookup
free_test = refl

-- In between, another host asks to wait, and a request to the first one is refused.
abbrev calls_between : List Call
calls_between =
    record { early = none; ctx = none; clock = at 8; host = codes "k"; send = busy }
    ∷ record { early = none; ctx = none; clock = at 9; host = codes "h"; send = busy }
    ∷ []

run_calls-cooldown_example :
    (after : List (Text × ℕ)) × (run_calls one_digit no_date calls_between (some hosts_after)
      ≡ some after)
    × (retry_at one_digit no_date
          (record { status = 429; header = (λ name. codes "3"); body = done [] })
          (at 7)
        ≤ deadline (codes "h") after)
    × (read_request one_digit no_date none none (at 10) (codes "h") busy (some after)
        ≡ (failed (http_status [] too_many_requests (deadline (codes "h") after)), some after))
run_calls-cooldown_example =
    run_calls-cooldown one_digit no_date none none (at 7) (at 10) (codes "h") busy busy []
      (record { status = 429; header = (λ name. codes "3"); body = done [] })
      (failed (http_status [] too_many_requests 3000000007)) hosts_after calls_between free_test
      reply_test refl busy_test (omega arith)
      (rw deadline_test (omega arith), (rw deadline_test (omega arith), tt))
      (rw deadline_test (omega arith))

-- A feed with one item.
abbrev item : RssItem
item = record {
  title = codes " t ";
  guid = codes "g";
  link = codes "l.torrent?x";
  pub_date = [];
  description = [];
  enclosure_url = [];
  magnet_uri = [];
}

abbrev one_feed : Decoder
one_feed = record {
  root = (λ body. done (codes "RSS"));
  rss = (λ body. done (item ∷ []));
  atom = (λ body. done []);
}

abbrev letters : ℕ → ℕ
letters c = if leb b'A' c && leb c b'Z' then c + 32 else c

abbrev library : Library
library = record {
  to_lower = letters;
  parse_int = one_digit;
  parse_date = no_date;
  parse_layout = (λ n s. none);
  decoder = one_feed;
  parse_url = (λ s. none);
  print_url = (λ u. u.rest);
  sha1 = (λ s. s);
  new_request = (λ url. done (codes "H"));
}

-- The entity tag of every reply is "e".
abbrev tagged : ℕ → Response
tagged status = record {
  status = status;
  header = (λ name. if text_eq name (codes "ETag") then codes "e" else []);
  body = done [];
}

-- A server that answers 304 to a request that names the tag.
abbrev server : Request → ℕ → Outcome Response
server request n =
    if text_eq request.if_none_match (codes "e") then done (tagged 304) else done (tagged 200)

abbrev world : World
world = record { early = none; waiting = none; clock = at 7; send = server }

abbrev new_fetcher : Fetcher
new_fetcher = record { feeds = some []; hosts = some [] }

abbrev entry_of_item : Entry
entry_of_item = record {
  title = codes "t";
  guid = codes "g";
  link = codes "l.torrent?x";
  download_url = codes "l.torrent?x";
  published_at = 0;
  description = [];
}

parse_feed_test : parse_feed letters (λ n s. none) one_feed (done []) ≡ done (entry_of_item ∷ [])
unfolding parse_feed after rss_entries item_url or_else is_magnet is_torrent_url has_prefix
    has_suffix before_byte parse_time first_layout text_eq trim_space trim_left is_space
parse_feed_test = refl

first_test :
    read library world (codes "H") (feed_request library (codes "u") new_fetcher) new_fetcher.hosts
    ≡ (done (tagged 200), some [])
unfolding read feed_request validators read_request send_request do_read_request
    transient_gateway_status deadline lookup text_eq
first_test = refl

tag_test :
    (is_empty ((tagged 200).header (codes "ETag"))
      && is_empty ((tagged 200).header (codes "Last-Modified")))
    ≡ false
unfolding text_eq
tag_test = refl

second_test :
    read library world
      (codes "H")
      (feed_request library (codes "u") (fetch library world (codes "u") new_fetcher).1)
      (fetch library world (codes "u") new_fetcher).1.hosts
    ≡ (done (tagged 304), some [])
unfolding fetch receive put_feeds put_feed assign delete parse_feed after read feed_request
    validators read_request send_request do_read_request transient_gateway_status deadline lookup
    text_eq
second_test = refl

fetch-IsSmall_example : IsSmall library (fetch library world (codes "u") new_fetcher).1
fetch-IsSmall_example =
    fetch-IsSmall library world (codes "u") new_fetcher ((tt, omega arith), (tt, omega arith))

fetch-not_modified_example :
    ((feed_request library
        (codes "u")
        (fetch library world (codes "u") new_fetcher).1).if_none_match
      ≡ (tagged 200).header (codes "ETag"))
    × ((feed_request library
          (codes "u")
          (fetch library world (codes "u") new_fetcher).1).if_modified_since
        ≡ (tagged 200).header (codes "Last-Modified"))
    × ((fetch library world (codes "u") (fetch library world (codes "u") new_fetcher).1).0
        ≡ done (entry_of_item ∷ []))
fetch-not_modified_example =
    fetch-not_modified library world world (codes "u") new_fetcher [] (codes "H") (tagged 200)
      (some []) (entry_of_item ∷ []) (tagged 304) (some []) refl refl first_test refl
      parse_feed_test tag_test second_test refl
