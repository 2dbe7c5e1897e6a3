-- ===== src/Storage/Disk/Paths.antt =====
-- What is used of `std::filesystem::path`, with the rules of POSIX: a path is the list of the parts
-- that its iterator goes through, "/" in front for an absolute one, and an empty part behind a
-- trailing slash. Core/Storage/DiskObjectStorage.cpp (`mapPath`).
use obsto_cpp.Base.{
  Bool, true, false, ◌&&◌, ◌||◌, not, List, [], ◌∷◌, ◌==◌, if◌then◌else◌, Option, none, some,
}
use obsto_cpp.Text.{Bytes, empty, equals}

abbrev pub FilePath : Type 0
FilePath = List Bytes

-- the names between the slashes, the empty ones too
unfoldable pub split_names : Bytes → List Bytes
split_names [] = [] ∷ []
split_names (c ∷ s) =
    let rest = split_names s in
    if c == b'/'
    then [] ∷ rest
    else elim rest [ [] ↦ (c ∷ []) ∷ [] | name ∷ more ↦ (c ∷ name) ∷ more ]

-- Empty names are no parts, but for one at the end.
unfoldable pub drop_empty : List Bytes → FilePath
drop_empty [] = []
drop_empty (name ∷ []) = name ∷ []
drop_empty (name ∷ other ∷ rest) =
    let parts = drop_empty (other ∷ rest) in if empty name then parts else name ∷ parts

-- a relative path from its text, which is not empty
unfoldable pub path_of : Bytes → FilePath
unfolding split_names drop_empty
path_of s = drop_empty (split_names s)

abbrev pub is_absolute : Bytes → Bool
is_absolute [] = false
is_absolute (c ∷ s) = c == b'/'

-- the path of any text: a slash in front, or several, is the root directory
unfoldable pub rooted_path : Bytes → FilePath
rooted_path [] = (b'/' ∷ []) ∷ []
rooted_path (c ∷ s) = if c == b'/' then rooted_path s else (b'/' ∷ []) ∷ path_of (c ∷ s)

unfoldable pub path_from : Bytes → FilePath
path_from [] = []
path_from (c ∷ s) = if c == b'/' then rooted_path s else path_of (c ∷ s)

abbrev pub dot : Bytes
dot = b'.' ∷ []

abbrev pub dot_dot : Bytes
dot_dot = b'.' ∷ b'.' ∷ []

abbrev pub slash : Bytes
slash = b'/' ∷ []

unfoldable pub has_dot_dot : FilePath → Bool
has_dot_dot [] = false
has_dot_dot (part ∷ rest) = equals part dot_dot || has_dot_dot rest

-- `root / requested`, for a relative path: a trailing slash of the root is none of the result.
unfoldable pub join : FilePath → FilePath → FilePath
join [] requested = requested
join (part ∷ []) requested = if empty part then requested else part ∷ requested
join (part ∷ other ∷ rest) requested = part ∷ join (other ∷ rest) requested

-- the last of the parts so far, which are kept in reverse
abbrev is_name : Bytes → Bool
is_name part = not (equals part dot_dot) && not (equals part slash)

abbrev ends_in_name : FilePath → Bool
ends_in_name [] = false
ends_in_name (part ∷ parts) = is_name part

abbrev is_rooted : FilePath → Bool
is_rooted [] = false
is_rooted (part ∷ parts) = equals part slash

abbrev drop_last_name : FilePath → FilePath
drop_last_name [] = []
drop_last_name (part ∷ parts) = parts

abbrev pub reverse_onto : FilePath → FilePath → FilePath
reverse_onto [] parts = parts
reverse_onto (part ∷ done) parts = reverse_onto done (part ∷ parts)

-- With a trailing slash where the last part was a dot, two dots or empty.
unfoldable pub normal_end : FilePath → Bool → FilePath
normal_end [] slashed = dot ∷ []
normal_end (part ∷ done) slashed =
    reverse_onto (part ∷ done) (if slashed && is_name part then [] ∷ [] else [])

unfoldable pub normal_from : FilePath → Bool → FilePath → FilePath
normal_from done slashed [] = normal_end done slashed
normal_from done slashed (part ∷ rest) = elim (empty part || equals part dot) [
  | true ↦ normal_from done true rest
  | false ↦ elim (equals part dot_dot) [
    | false ↦ normal_from (part ∷ done) false rest
    | true ↦ elim (ends_in_name done) [
      | true ↦ normal_from (drop_last_name done) true rest
      | false ↦ elim (is_rooted done) [
        | true ↦ normal_from done true rest
        | false ↦ normal_from (part ∷ done) false rest
      ]
    ]
  ]
]

-- `lexically_normal`
unfoldable pub lexically_normal : FilePath → FilePath
lexically_normal p = normal_from [] false p

-- `std::mismatch` ends at the end of the root.
unfoldable pub begins_with : FilePath → FilePath → Bool
begins_with [] target = true
begins_with (part ∷ root) [] = false
begins_with (part ∷ root) (other ∷ target) = equals part other && begins_with root target

abbrev pub within : FilePath → FilePath → Option FilePath
within root target = if begins_with root target then some target else none

unfoldable pub map_path : FilePath → Bytes → Option FilePath
map_path root s =
    if empty s
    then none
    else if is_absolute s
    then none
    else if has_dot_dot (path_of s)
    then none
    else within root (lexically_normal (join root (path_of s)))
