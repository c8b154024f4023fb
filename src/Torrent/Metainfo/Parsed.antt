-- ===== src/Torrent/Metainfo/Parsed.antt =====
-- What Parse returns.
use aninode.Prelude.{
  suc, ◌≡◌, refl, sym, ap, ◌∙◌, ◌↔◌, inl, inr, Text, List, [], ◌∷◌, length, Option, none, some,
  ◌==◌, ==_iff, Bool-cases,
}
use aninode.Torrent.{ok, ◌>>=◌}
use aninode.Torrent.Pieces.{>>=-eq-ok, ok-injective}
use aninode.Torrent.Metainfo.{root_loop, info_identity, hex_encode, Metadata, identify, parse}
use aninode.Torrent.Metainfo.Entries.{HasEntries, info_of, root_loop_iff}

module _ (sha1 : Text → Text) where
  -- What the metadata say of the text of the info dictionary.
  abbrev pub Identifies : Text → Metadata → Type 0
  Identifies info m =
      (info_identity info ≡ ok (m.name, m.files)) × (m.info_hash ≡ hex_encode (sha1 info))

  identify_sound :
      (found : Option Text) (m : Metadata)
      → identify sha1 found ≡ ok m
      → (info : Text) × (found ≡ some info) × Identifies info m
  unfolding identify
  identify_sound none m h = cc
  identify_sound (some info) m h =
      let ((name, files), read, e) =
        >>=-eq-ok (info_identity info)
          (λ (name, files).
            ok (record { name = name; files = files; info_hash = hex_encode (sha1 info) }))
          h in
      let same = ok-injective e in
      (info, refl, (read ∙ ap (λ d. ok (d.name, d.files)) same, sym (ap (λ d. d.info_hash) same)))

  identify_complete :
      (info : Text) (m : Metadata) → Identifies info m → identify sha1 (some info) ≡ ok m
  unfolding identify
  identify_complete info m (read, hashed) =
      rw read (ap (λ h. ok (record { name = m.name; files = m.files; info_hash = h })) (sym hashed))

  parse_step :
      (s : Text) → parse sha1 (b'd' ∷ s) ≡ (root_loop (suc (length s)) s none >>= identify sha1)
  unfolding parse
  parse_step s = refl

  parse_head : (s : Text) (m : Metadata) → parse sha1 s ≡ ok m → (t : Text) × (s ≡ b'd' ∷ t)
  unfolding parse
  parse_head [] m h = cc
  parse_head (c ∷ s) m h = elim (Bool-cases (c == b'd')) [
    | inl e ↦ (s, ap (λ d. d ∷ s) ((==_iff c b'd').0 e))
    | inr n ↦ absurd (cc (rw n at h))
  ]

  -- Parse returns metadata exactly for the texts of a dictionary that has an entry `info`, and then
  -- they are what the last such entry says: name and files as infoIdentity reads them from the bytes
  -- of that value, and as info hash the digest, in hexadecimal, of exactly these bytes.
  pub parse_iff :
      (s : Text) (m : Metadata)
      → (parse sha1 s ≡ ok m) ↔ (
          (t : Text) × (entries : List (Text × Text)) × (info : Text) × (s ≡ b'd' ∷ t)
          × HasEntries entries t
          × (info_of none entries ≡ some info)
          × Identifies info m)
  parse_iff s m = (
    λ h.
        let (t, e) = parse_head s m h in
        let (found, looped, named) =
          >>=-eq-ok (root_loop (suc (length t)) t none) (identify sha1)
            (sym (parse_step t) ∙ ap (parse sha1) (sym e) ∙ h) in
        let (entries, w, last) = (root_loop_iff t found).0 looped in
        let (info, is_info, says) = identify_sound found m named in
        (t, entries, info, e, w, sym last ∙ is_info, says),
    λ (t, entries, info, e, w, last, says).
        ap (parse sha1) e
        ∙ parse_step t
        ∙ ap (λ l. l >>= identify sha1) ((root_loop_iff t (some info)).1 (entries, w, sym last))
        ∙ identify_complete info m says,
  )
