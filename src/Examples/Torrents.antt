-- ===== src/Examples/Torrents.antt =====
-- Bencoded texts: internal/torrentmeta.
use aninode.Prelude.{
  ◌≡◌, ◌≢◌, refl, ◌↔◌, List, [], ◌∷◌, ◌++◌, take, Text, text_eq, codes, none, some,
}
use aninode.Torrent.{
  ok, fail, out_of_fuel, unterminated_container, skip, skip_value, skip_key, kind, skip_integer,
  after_e, read_string, span_digits, number, read_body,
}
use aninode.Torrent.Grammar.{IsValue}
use aninode.Torrent.Skip.{skip_iff}
use aninode.Torrent.Files.{
  string_list_loop, read_string_list, join_slash, set_parts, read_file_field, file_fields,
  file_parts, add_file, file_list_loop, read_file_list,
}
use aninode.Torrent.Metainfo.{
  Metadata, root_loop, slice, info_identity, info_loop, read_info_field, set_name, name_of,
  hex_encode, identify, parse,
}
use aninode.Torrent.Metainfo.Entries.{HasEntries, info_of}
use aninode.Torrent.Metainfo.Parsed.{Identifies, parse_iff}
use aninode.Torrent.Metainfo.Total.{parse-Ends}

-- Stands for the digest: the first two bytes.
abbrev first_two : Text → Text
first_two s = take 2 s

abbrev values : Text
values = codes "l4:spami-3eexyz"

abbrev torrent : Text
torrent = codes "d3:agei7e4:infod5:filesld4:pathl1:a1:beee4:name2:hiee"

abbrev torrent_metadata : Metadata
torrent_metadata = record { name = codes "hi"; files = codes "a/b" ∷ []; info_hash = codes "6435" }

skip_test : skip values ≡ ok (codes "xyz")
unfolding skip skip_value skip_key kind skip_integer after_e read_string span_digits number
    read_body
skip_test = refl

cut_test : skip (codes "l4:spam") ≡ fail unterminated_container
unfolding skip skip_value skip_key kind skip_integer after_e read_string span_digits number
    read_body
cut_test = refl

parse_test : parse first_two torrent ≡ ok torrent_metadata
unfolding parse identify info_identity info_loop read_info_field set_name name_of hex_encode
    root_loop slice skip skip_value skip_key kind skip_integer after_e read_string span_digits
    number read_body string_list_loop read_string_list join_slash set_parts read_file_field
    file_fields file_parts add_file file_list_loop read_file_list text_eq
parse_test = refl

skip_iff_example :
    (skip values ≡ ok (codes "xyz")) ↔ ((t : Text) × IsValue t × (values ≡ t ++ codes "xyz"))
skip_iff_example = skip_iff values (codes "xyz")

parse_iff_example : (parse first_two torrent ≡ ok torrent_metadata) ↔ (
    (t : Text) × (entries : List (Text × Text)) × (info : Text) × (torrent ≡ b'd' ∷ t)
    × HasEntries entries t
    × (info_of none entries ≡ some info)
    × Identifies first_two info torrent_metadata)
parse_iff_example = parse_iff first_two torrent torrent_metadata

parse-Ends_example : parse first_two torrent ≢ fail out_of_fuel
parse-Ends_example = parse-Ends first_two torrent
