-- ===== src/Paths.antt =====
-- path/filepath on Unix, as far as the program uses it. A cleaned path is taken for its elements, in
-- `FilePath`; `clean` is the text of it.
pub mod Split
pub mod Clean
pub mod Below
pub mod Join
use aninode.Prelude.{
  ℕ, Bool, true, false, not, ◌&&◌, ◌||◌, if◌then◌else◌, ◌==◌, Text, text_eq, Option, none, some,
  List, [], ◌∷◌, ◌++◌, reverse, map,
}
use aninode.ReleaseFilter.{is_empty}

abbrev pub slash : ℕ
slash = b'/'

abbrev pub dot : Text
dot = b'.' ∷ []

abbrev pub dot_dot : Text
dot_dot = b'.' ∷ b'.' ∷ []

pub record FilePath : Type 0 where
  pub rooted : Bool
  pub parts : List Text

-- strings.Split(s, "/") behind the text `before` of the current element, which is reversed
unfoldable pub split_from : Text → Text → List Text
split_from before [] = reverse before ∷ []
split_from before (c ∷ s) = elim (c == slash) [
  | true ↦ reverse before ∷ split_from [] s
  | false ↦ split_from (c ∷ before) s
]

unfoldable pub split : Text → List Text
split s = split_from [] s

unfoldable pub starts_with_slash : Text → Bool
starts_with_slash [] = false
starts_with_slash (c ∷ s) = c == slash

-- `..` behind the elements of the stack, the last one first
unfoldable pub go_up : Bool → List Text → List Text
go_up rooted [] = if rooted then [] else dot_dot ∷ []
go_up rooted (e ∷ stack) = if text_eq e dot_dot then dot_dot ∷ e ∷ stack else stack

unfoldable pub push : Bool → List Text → Text → List Text
push rooted stack e =
    if is_empty e || text_eq e dot
    then stack
    else if text_eq e dot_dot
    then go_up rooted stack
    else e ∷ stack

unfoldable pub walk : Bool → List Text → List Text → List Text
walk rooted stack [] = stack
walk rooted stack (e ∷ es) = walk rooted (push rooted stack e) es

unfoldable pub parse_path : Text → FilePath
parse_path s = record {
  rooted = starts_with_slash s;
  parts = reverse (walk (starts_with_slash s) [] (split s));
}

unfoldable pub join_parts : List Text → Text
join_parts [] = []
join_parts (e ∷ []) = e
join_parts (e ∷ f ∷ es) = e ++ slash ∷ join_parts (f ∷ es)

unfoldable pub render : FilePath → Text
render p =
    if p.rooted
    then slash ∷ join_parts p.parts
    else elim p.parts [ [] ↦ dot | e ∷ es ↦ join_parts (e ∷ es) ]

-- filepath.Clean
unfoldable pub clean : Text → Text
clean s = render (parse_path s)

unfoldable pub bool_eq : Bool → Bool → Bool
bool_eq true b = b
bool_eq false b = not b

abbrev pub up : Text → Text
up e = dot_dot

-- filepath.Rel behind the test on the roots: what is left of both paths behind the elements they share.
-- It is an error when the base goes up further than is known.
unfoldable pub rel_parts : List Text → List Text → Option (List Text)
rel_parts [] target = some target
rel_parts (e ∷ base) [] = if text_eq e dot_dot then none else some (map up (e ∷ base))
rel_parts (e ∷ base) (f ∷ target) = elim (text_eq e f) [
  | true ↦ rel_parts base target
  | false ↦ if text_eq e dot_dot then none else some (map up (e ∷ base) ++ f ∷ target)
]

-- filepath.Rel of cleaned paths: the elements of the result, none of them for ".".
unfoldable pub rel : FilePath → FilePath → Option (List Text)
rel base target =
    if bool_eq base.rooted target.rooted then rel_parts base.parts target.parts else none

unfoldable pub drop_last : List Text → List Text
drop_last [] = []
drop_last (e ∷ []) = []
drop_last (e ∷ f ∷ es) = e ∷ drop_last (f ∷ es)

-- filepath.Dir of a cleaned path, as elements and as a text
unfoldable pub dir : FilePath → FilePath
dir p = record p { parts = drop_last p.parts }

unfoldable pub dir_text : Text → Text
dir_text s = render (dir (parse_path s))

-- The text of a result of Rel.
unfoldable pub render_rel : List Text → Text
render_rel r = render (record { rooted = false; parts = r })

-- filepath.Join of two elements
unfoldable pub join : Text → Text → Text
join a b = if is_empty a then (if is_empty b then [] else clean b) else clean (a ++ slash ∷ b)

unfoldable pub strip_slashes : Text → Text
strip_slashes [] = []
strip_slashes (c ∷ s) = let rest = strip_slashes s in if c == slash then rest else c ∷ s

unfoldable pub until_slash : Text → Text
until_slash [] = []
until_slash (c ∷ s) = let rest = until_slash s in if c == slash then [] else c ∷ rest

-- filepath.Base
unfoldable pub base : Text → Text
base s =
    let last = reverse (until_slash (strip_slashes (reverse s))) in
    if is_empty s then dot else if is_empty last then slash ∷ [] else last
