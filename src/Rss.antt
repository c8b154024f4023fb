-- ===== src/Rss.antt =====
-- internal/rss: the fetcher of feeds, and what it keeps in memory. Child modules: requests and their
-- replies, the cooldown of hosts, the cache of feeds, the entries of a feed, the fetcher that joins
-- these, the cache of torrent metadata, and the calls that share a request for it. A time is a number of
-- nanoseconds since Go's zero time, and each reading of the clock is an argument.
pub mod Http
pub mod Cooldown
pub mod Feeds
pub mod Documents
pub mod Fetch
pub mod Metadata
pub mod Flights
use aninode.Prelude.{ℕ}

-- time.Second
abbrev pub second : ℕ
second = 1000000000
