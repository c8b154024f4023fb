-- ===== src/Lib.antt =====
-- aninode is a Go program that keeps a media library: it watches feeds, decides which releases to
-- download, hands them to a download client and files the results away. This library models the parts
-- that decide. Paths are those of the repository.
--
-- The parts and the files that model them:
--   internal/torrentmeta/meta.go          Torrent: the reader of .torrent files
--   internal/episode/episode.go           Episode: episode intervals and the tests on them
--   internal/inventory/inventory.go       Inventory: the queries on what the library holds
--   internal/completeness/completeness.go Completeness: the episodes that a season lacks
--   internal/releasefilter/filter.go      ReleaseFilter: filters on releases and option sets
--   internal/release/release.go           Release: an observed release
--   internal/medianame/model.go           MediaName: the components of a media name
--   internal/catalog/catalog.go           Catalog: the projection of episodes, and the stable traits
--   internal/candidate/plan.go            Candidate: the evaluation of releases, their score, and the
--                                         choice among download candidates
--   internal/rss                          Rss: the fetcher of feeds and torrents, with its caches, the
--                                         cooldown of hosts and the calls that share a request
--   internal/download/download.go         Download: the mapping of paths between machines
--   internal/source/topology.go           Topology: where content lies and may lie
--   internal/observation/graph.go,        Ownership: which Entries own the files of a task
--   internal/claim/claim.go
--   internal/server/auth.go               Auth: the sign-in of the web interface
--   internal/organizer                    Organizer: the plan of what is linked where, how it is carried
--                                         out, and the removal of old names
--   (path/filepath of Go, on Unix)        Paths
-- The fetcher reads a feed (Rss.Fetch.fetch) and the .torrent files that it names (Rss.Flights), whose
-- identity comes from Torrent.Metainfo.parse. A pass over a feed parses names into Components and
-- evaluates each release for its Entry (Candidate.Evaluate.evaluate): the filters
-- (ReleaseFilter.reject_reason), then the projection of its episodes (Catalog.project). Candidate.Build
-- runs this over all Entries and their sources, Candidate.Bound over the results of a search for one
-- Entry, and selectBestByScore (Candidate.Select.select_best) settles the rest, with the score of
-- Candidate.Score. The inventory (Inventory.availability) says which keys are absent. Topology places
-- what is downloaded, behind the mapping of paths in Download, and Ownership finds the Entry of a task.
-- Organizer links the files of an Entry into the library.
--
-- How the code is read:
--   * A Go function or method keeps its name in snake_case; a loop is a function of its own, named for
--     what it does. `Prelude` holds what all parts share.
--   * Go's int is the type ℤ of Prelude.Int, without a bound: episode, season and revision numbers and
--     their sums are taken to stay within 64 bits. The length of a bencoded string is the exception:
--     `Torrent.read_body` refuses what strconv.Atoi refuses.
--   * A string is a list of numbers: bytes in Torrent, Auth and Rss.Metadata and in
--     the body of a reply, code points elsewhere.
--   * A map is a list of pairs, a set a list of its members, in the order in which a range loop happens
--     to visit them. The order is arbitrary, so what is proved of such a loop holds for every order.
--   * sort.SliceStable is `Prelude.Sorting.sort_stable`. sort.Slice and sort.Strings are read as the
--     same sort: elements that their comparisons do not tell apart are equal where they stand.
--   * The reader of .torrent files takes the input from a position on in place of the position. Its
--     recursion takes fuel: a round takes at least one byte, so one more than the length of the text is
--     enough for the loops, and one more than twice the length for skipValue, where a value and the loop
--     of a container each use one unit.
--   * `at` gives the zero value out of range, where Go panics; the indices of the code are in range.
--   * The map of groups in selectBestByScore has the parts of its key for a key, not their formatting.
--   * A time is a number of nanoseconds since Go's zero time; each reading of a clock is an argument.
--   * What holds a mutex is one step; Rss.Flights and Auth.Flow have relations of such steps for calls at
--     once. What a step meets outside (the clock, rand.Read, the outcome of a write) is an argument: any
--     value may come at any step. A loop that evicts takes as fuel the number of entries: each round
--     removes one.
--   * A cleaned path is the list of its elements, with or without a root (Paths). filepath.Rel is read as
--     its documentation has it: it fails where the working directory would have to be known.
--   * atomicfile.Write and atomicfile.Create may come to an error when the file is there (Auth.Saved). Of
--     the body of a reply the model has what io.ReadAll gives, an error included.
--   * client.Do, net/url, encoding/xml, time.Parse, http.ParseTime and strconv.ParseInt are parameters.
--   * The functions of Go's library that the sign-in calls are the fields of Auth.Primitives.
--   * crypto/sha1 and the table of unicode.ToLower are parameters; so are release.AcquisitionIdentity,
--     which parses URLs, medianame.TechnicalTraitsOf, a set of regular expressions, and the match of
--     titles in internal/naming.
--
-- Not modelled: parsing of media names (regular expressions), the scan of file systems, the HTTP
-- handlers but for the sign-in, the clients of downloaders, persistence and the jobs that tie them together; of internal/claim
-- all that parses names or looks at files; of internal/organizer the parsing of names and the set-up of a
-- planner; the analysis of movie bundles, and migration.
pub mod Prelude
pub mod MediaName
pub mod Episode
pub mod Inventory
pub mod Completeness
pub mod ReleaseFilter
pub mod Release
pub mod Catalog
pub mod Candidate
pub mod Torrent
pub mod Paths
pub mod Download
pub mod Topology
pub mod Ownership
pub mod Auth
pub mod Organizer
pub mod Rss
pub mod Examples
