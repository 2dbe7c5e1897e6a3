-- ===== src/Storage/Disk/Files.antt =====
-- What is used of `std::filesystem` and of file streams, with the rules of POSIX: a file is a number
-- under which its bytes are kept, so that a stream stays with its file when another one takes the
-- name. There are no links, and a path is looked up by its text: the root is meant to have no dots in
-- it. A stream holds back up to `stream_buffer` bytes, whatever that number is, and writes them with
-- what comes next or when it is closed; what it held when a write failed is dropped.
-- `troubles` says which of the next operations fail for reasons outside (no space, no permission), and
-- how much of a write is done before; behind the end of the list none fails.
use obsto_cpp.Base.{
  ℕ, zero, suc, ◌+◌, ◌-◌, Bool, true, false, List, [], ◌∷◌, ◌++◌, if◌then◌else◌, Option, none, some,
  leb, length, take, drop, get_elem?,
}
use obsto_cpp.Text.{Bytes, codes, empty, equals}
use obsto_cpp.Text.Search.{starts_with}
use obsto_cpp.Storage.Table.{Table, find, assign, erase}
use obsto_cpp.Storage.Disk.Paths.{FilePath, slash}

pub data Node : Type 0 where
  directory : Node
  file : ℕ → Node

pub record FileSystem : Type 0 where
  pub nodes : Table Node
  pub contents : List Bytes
  pub troubles : List (Option ℕ)
  pub stream_buffer : ℕ

-- the text of a path
unfoldable pub native : FilePath → Bytes
native [] = []
native (part ∷ []) = part
native (part ∷ other ∷ rest) =
    let text = native (other ∷ rest) in
    if equals part slash then part ++ text else part ++ (b'/' ∷ text)

unfoldable pub parent_path : FilePath → FilePath
parent_path [] = []
parent_path (part ∷ []) = []
parent_path (part ∷ other ∷ rest) = part ∷ parent_path (other ∷ rest)

-- `path += ".tmp"`
unfoldable pub plus_tmp : FilePath → FilePath
plus_tmp [] = codes ".tmp" ∷ []
plus_tmp (part ∷ []) = (part ++ codes ".tmp") ∷ []
plus_tmp (part ∷ other ∷ rest) = part ∷ plus_tmp (other ∷ rest)

-- a slash at the end
unfoldable pub is_slashed : FilePath → Bool
is_slashed [] = false
is_slashed (part ∷ []) = empty part
is_slashed (part ∷ other ∷ rest) = is_slashed (other ∷ rest)

abbrev pub only_directory : Option Node → Option Node
only_directory (some directory) = some directory
only_directory (some (file i)) = none
only_directory none = none

-- the text of the path without that slash
unfoldable pub text_at : FilePath → Bytes
text_at p = if is_slashed p then native (parent_path p) else native p

-- With a slash at the end a path names a directory only.
unfoldable pub node_at : FilePath → FileSystem → Option Node
unfolding text_at
node_at p fs =
    let node = find (text_at p) fs.nodes in if is_slashed p then only_directory node else node

abbrev pub bytes_of : ℕ → List Bytes → Bytes
bytes_of i contents = elim (get_elem? contents i) [ none ↦ [] | some bytes ↦ bytes ]

unfoldable pub update : ℕ → Bytes → List Bytes → List Bytes
update i bytes [] = []
update zero bytes (old ∷ contents) = bytes ∷ contents
update (suc i) bytes (old ∷ contents) = old ∷ update i bytes contents

abbrev pub set_bytes : ℕ → Bytes → FileSystem → FileSystem
set_bytes i bytes fs = record fs { contents = update i bytes fs.contents }

abbrev pub next_trouble : List (Option ℕ) → Option ℕ
next_trouble [] = none
next_trouble (t ∷ troubles) = t

abbrev pub later_troubles : List (Option ℕ) → List (Option ℕ)
later_troubles [] = []
later_troubles (t ∷ troubles) = troubles

-- behind an operation that may have trouble
abbrev pub past : FileSystem → FileSystem
past fs = record fs { troubles = later_troubles fs.troubles }

abbrev pub has_trouble : FileSystem → Bool
has_trouble fs = elim (next_trouble fs.troubles) [ none ↦ false | some k ↦ true ]

abbrev pub add_node : FilePath → Node → FileSystem → FileSystem
add_node p node fs = record fs { nodes = assign (native p) node fs.nodes }

unfoldable pub make_directories : FilePath → FilePath → FileSystem → Bool × FileSystem
make_directories done [] fs = (true, fs)
make_directories done ([] ∷ rest) fs = make_directories done rest fs
make_directories done ((c ∷ name) ∷ rest) fs =
    let here = done ++ ((c ∷ name) ∷ []) in
    elim (find (native here) fs.nodes) [
      | some directory ↦ make_directories here rest fs
      | some (file i) ↦ (false, fs)
      | none ↦ elim (has_trouble fs) [
        | true ↦ (false, past fs)
        | false ↦ make_directories here rest (add_node here directory (past fs))
      ]
    ]

-- `create_directories(p, ec)`: `false` for an error
unfoldable pub create_directories : FilePath → FileSystem → Bool × FileSystem
create_directories [] fs = (false, fs)
create_directories (part ∷ rest) fs = make_directories [] (part ∷ rest) fs

-- `position`: where the bytes that are held back belong in the file
pub record Stream : Type 0 where
  pub inode : ℕ
  pub good : Bool
  pub position : ℕ
  pub held : Bytes

abbrev pub bad_stream : Stream
bad_stream = record { inode = 0; good = false; position = 0; held = [] }

abbrev pub stream_on : ℕ → Stream
stream_on i = record { inode = i; good = true; position = 0; held = [] }

abbrev pub new_file : FilePath → FileSystem → Stream × FileSystem
new_file p fs = (
  stream_on (length fs.contents),
  record (add_node p (file (length fs.contents)) fs) { contents = fs.contents ++ ([] ∷ []) },
)

abbrev pub truncated : FilePath → Option Node → Option Node → FileSystem → Stream × FileSystem
truncated p (some directory) above fs = (bad_stream, fs)
truncated p (some (file i)) above fs = (stream_on i, set_bytes i [] fs)
truncated p none (some directory) fs = new_file p fs
truncated p none (some (file i)) fs = (bad_stream, fs)
truncated p none none fs = (bad_stream, fs)

-- `std::ofstream(p, std::ios::binary | std::ios::trunc)`
unfoldable pub open_truncated : FilePath → FileSystem → Stream × FileSystem
open_truncated p fs =
    if has_trouble fs
    then (bad_stream, past fs)
    else if is_slashed p
    then (bad_stream, past fs)
    else truncated p (node_at p (past fs)) (node_at (parent_path p) (past fs)) (past fs)

abbrev pub zeros : ℕ → Bytes
zeros zero = []
zeros (suc n) = 0 ∷ zeros n

-- bytes written at a place of the file, behind zeros where the file is shorter
unfoldable pub write_at : ℕ → Bytes → Bytes → Bytes
write_at position bytes old =
    take position (old ++ zeros (position - length old))
    ++ (bytes ++ drop (position + length bytes) old)

abbrev pub written : Stream → Bytes → FileSystem → FileSystem
written stream bytes fs =
    set_bytes stream.inode (write_at stream.position bytes (bytes_of stream.inode fs.contents)) fs

abbrev pub write_or_fail : Option ℕ → Stream → Bytes → FileSystem → Stream × FileSystem
write_or_fail none stream bytes fs =
    (record stream { position = stream.position + length bytes }, written stream bytes fs)
write_or_fail (some k) stream bytes fs =
    (record stream { good = false }, written stream (take k bytes) fs)

abbrev pub write_good : Stream → Bytes → FileSystem → Stream × FileSystem
write_good stream bytes fs =
    if leb (length stream.held + length bytes) fs.stream_buffer
    then (record stream { held = stream.held ++ bytes }, fs)
    else write_or_fail (next_trouble fs.troubles) (record stream { held = [] })
        (stream.held ++ bytes) (past fs)

-- `stream.write`
unfoldable pub write : Stream → Bytes → FileSystem → Stream × FileSystem
write stream bytes fs = if stream.good then write_good stream bytes fs else (stream, fs)

-- what is held back is written
abbrev pub flush : Bytes → Stream → FileSystem → Stream × FileSystem
flush [] stream fs = (stream, fs)
flush (c ∷ held) stream fs =
    write_or_fail (next_trouble fs.troubles) (record stream { held = [] }) (c ∷ held) (past fs)

abbrev pub closed_behind : Stream × FileSystem → Stream × FileSystem
closed_behind (stream, fs) =
    if has_trouble fs then (record stream { good = false }, past fs) else (stream, past fs)

-- `stream.close()`
unfoldable pub close : Stream → FileSystem → Stream × FileSystem
close stream fs =
    if stream.good then closed_behind (flush stream.held stream fs) else (stream, past fs)

-- Is anything in the directory?
unfoldable pub has_children : Bytes → Table Node → Bool
has_children name [] = false
has_children name ((path, node) ∷ rest) =
    let others = has_children name rest in if starts_with (name ++ slash) path then true else others

abbrev pub erase_node : FilePath → FileSystem → FileSystem
erase_node p fs = record fs { nodes = erase (text_at p) fs.nodes }

abbrev pub removed : FilePath → Option Node → FileSystem → Bool × FileSystem
removed p none fs = (false, fs)
removed p (some (file i)) fs = (true, erase_node p fs)
removed p (some directory) fs =
    if has_children (text_at p) fs.nodes then (false, fs) else (true, erase_node p fs)

-- `remove(p, ec) && !ec`
unfoldable pub remove : FilePath → FileSystem → Bool × FileSystem
remove p fs = if has_trouble fs then (false, past fs) else removed p (node_at p (past fs)) (past fs)

abbrev pub renamed :
    FilePath → FilePath → Option Node → Option Node → FileSystem → Bool × FileSystem
renamed p q (some (file i)) (some directory) fs = (false, fs)
renamed p q (some (file i)) (some (file j)) fs = (true, add_node q (file i) (erase_node p fs))
renamed p q (some (file i)) none fs = (true, add_node q (file i) (erase_node p fs))
renamed p q (some directory) other fs = (false, fs)
renamed p q none other fs = (false, fs)

-- `rename(p, q, ec)`, of a file: `false` for an error
unfoldable pub rename : FilePath → FilePath → FileSystem → Bool × FileSystem
rename p q fs =
    if has_trouble fs
    then (false, past fs)
    else if is_slashed q
    then (false, past fs)
    else renamed p q (node_at p (past fs)) (node_at q (past fs)) (past fs)

-- what a `std::ifstream` reads from: a directory can be opened too, and gives nothing
pub data Source : Type 0 where
  closed : Source
  of_directory : Source
  of_file : ℕ → Source

abbrev pub source_at : Option Node → Source
source_at none = closed
source_at (some directory) = of_directory
source_at (some (file i)) = of_file i

-- `std::ifstream(p, std::ios::binary)`
unfoldable pub open_to_read : FilePath → FileSystem → Source × FileSystem
open_to_read p fs = (if has_trouble fs then closed else source_at (node_at p fs), past fs)

-- what `exists` and `is_regular_file` look at: `none` for an error too
unfoldable pub status : FilePath → FileSystem → Option Node × FileSystem
status p fs = (if has_trouble fs then none else node_at p fs, past fs)
