-- ===== src/Rss/Documents.antt =====
-- internal/rss/feed.go: the entries of a decoded feed. encoding/xml and time.Parse are arguments of
-- what uses them.
use aninode.Prelude.{
  ℕ, Bool, true, false, not, ◌&&◌, ◌||◌, if◌then◌else◌, ltb, ◌==◌, Text, codes, text_eq, Option,
  none, some, List, [], ◌∷◌, map, reverse, length,
}
use aninode.ReleaseFilter.{is_empty, trim_space}
use aninode.Rss.Http.{too_large, unsupported_root, Outcome, done, failed}

pub record Entry : Type 0 where
  pub title : Text
  pub guid : Text
  pub link : Text
  pub download_url : Text
  pub published_at : ℕ
  pub description : Text

-- An item of rssDocument.
pub record RssItem : Type 0 where
  pub title : Text
  pub guid : Text
  pub link : Text
  pub pub_date : Text
  pub description : Text
  pub enclosure_url : Text
  pub magnet_uri : Text

pub record AtomLink : Type 0 where
  pub rel : Text
  pub href : Text

-- An entry of atomDocument.
pub record AtomItem : Type 0 where
  pub title : Text
  pub id : Text
  pub updated : Text
  pub summary : Text
  pub content : Text
  pub links : List AtomLink

-- strings.HasPrefix
unfoldable pub has_prefix : Text → Text → Bool
has_prefix s [] = true
has_prefix [] (c ∷ p) = false
has_prefix (d ∷ s) (c ∷ p) = d == c && has_prefix s p

-- strings.HasSuffix
unfoldable pub has_suffix : Text → Text → Bool
has_suffix s p = has_prefix (reverse s) (reverse p)

-- value[:strings.IndexByte(value, c)], the whole value where the byte does not occur
unfoldable pub before_byte : ℕ → Text → Text
before_byte c [] = []
before_byte c (d ∷ s) = let rest = before_byte c s in if d == c then [] else d ∷ rest

-- parseTime; `parse_layout n` stands for time.Parse with the layout number n of its list.
unfoldable pub first_layout : (ℕ → Text → Option ℕ) → Text → List ℕ → ℕ
first_layout parse_layout value [] = 0
first_layout parse_layout value (n ∷ layouts) = elim (parse_layout n value) [
  | some t ↦ t
  | none ↦ first_layout parse_layout value layouts
]

unfoldable pub parse_time : (ℕ → Text → Option ℕ) → Text → ℕ
parse_time parse_layout value =
    first_layout parse_layout (trim_space value) (0 ∷ 1 ∷ 2 ∷ 3 ∷ 4 ∷ 5 ∷ [])

module _ (to_lower : ℕ → ℕ) (parse_layout : ℕ → Text → Option ℕ) where
  -- strings.HasPrefix(strings.ToLower(strings.TrimSpace(value)), "magnet:")
  unfoldable pub is_magnet : Text → Bool
  is_magnet value = has_prefix (map to_lower (trim_space value)) (codes "magnet:")

  -- isTorrentURL
  unfoldable pub is_torrent_url : Text → Bool
  is_torrent_url value =
      let lower = map to_lower (trim_space value) in
      if is_empty lower then false else has_suffix (before_byte b'?' lower) (codes ".torrent")

  -- if downloadURL == "" && test { downloadURL = strings.TrimSpace(value) }
  unfoldable pub or_else : Text → Bool → Text → Text
  or_else url test value = if is_empty url && test then trim_space value else url

  -- The download URL of an item.
  unfoldable pub item_url : RssItem → Text
  item_url item =
      let enclosure = trim_space item.enclosure_url in
      let magnet = trim_space item.magnet_uri in
      let url = if not (is_empty magnet) then magnet else enclosure in
      let linked = or_else url (is_magnet item.link) item.link in
      let named = or_else linked (is_magnet item.guid) item.guid in
      or_else named (is_torrent_url item.link) item.link

  -- The loop of parseRSS.
  unfoldable pub rss_entries : List RssItem → List Entry
  rss_entries [] = []
  rss_entries (item ∷ items) =
      record {
        title = trim_space item.title;
        guid = trim_space item.guid;
        link = trim_space item.link;
        download_url = item_url item;
        published_at = parse_time parse_layout item.pub_date;
        description = trim_space item.description;
      }
      ∷ rss_entries items

  -- The loop over the links of an entry: pageURL and downloadURL.
  unfoldable pub atom_links : Text → Text → List AtomLink → Text × Text
  atom_links page download [] = (page, download)
  atom_links page download (link ∷ links) =
      let rel = map to_lower link.rel in
      elim (text_eq rel (codes "enclosure")) [
        | true ↦ atom_links page (trim_space link.href) links
        | false ↦ elim (is_empty page && (is_empty rel || text_eq rel (codes "alternate"))) [
          | true ↦ atom_links (trim_space link.href) download links
          | false ↦ atom_links page download links
        ]
      ]

  unfoldable pub atom_entry : AtomItem → Entry
  atom_entry item =
      let (page, download) = atom_links [] [] item.links in
      let summary = trim_space item.summary in
      record {
        title = trim_space item.title;
        guid = trim_space item.id;
        link = page;
        download_url = if is_empty download && is_torrent_url page then page else download;
        published_at = parse_time parse_layout item.updated;
        description = if is_empty summary then trim_space item.content else summary;
      }

  -- The loop of parseAtom.
  unfoldable pub atom_entries : List AtomItem → List Entry
  atom_entries items = map atom_entry items

-- xml.Unmarshal into the root, rssDocument and atomDocument.
pub record Decoder : Type 0 where
  pub root : Text → Outcome Text
  pub rss : Text → Outcome (List RssItem)
  pub atom : Text → Outcome (List AtomItem)

-- maxFeedSize
abbrev pub max_feed_size : ℕ
max_feed_size = 8388608

unfoldable pub after {ℓ κ} : {A : Type ℓ} {B : Type κ} → Outcome A → (A → Outcome B) → Outcome B
after (done a) f = f a
after (failed e) f = failed e

-- Parse of what io.ReadAll gives of the reader
unfoldable pub parse_feed :
    (ℕ → ℕ) → (ℕ → Text → Option ℕ) → Decoder → Outcome Text → Outcome (List Entry)
parse_feed to_lower parse_layout decoder (failed e) = failed e
parse_feed to_lower parse_layout decoder (done body) =
    if ltb max_feed_size (length body)
    then failed (too_large max_feed_size)
    else after (decoder.root body) (λ root.
      if text_eq (map to_lower root) (codes "rss")
      then after (decoder.rss body) (λ items. done (rss_entries to_lower parse_layout items))
      else if text_eq (map to_lower root) (codes "feed")
      then after (decoder.atom body) (λ items. done (atom_entries to_lower parse_layout items))
      else failed unsupported_root)
