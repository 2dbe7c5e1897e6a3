-- ===== src/Storage/Disk.antt =====
-- Core/Storage/DiskObjectStorage.{h,cpp}: the objects as files below a root directory. The root is a
-- parameter, and the state is the file system. `beginPut` and `beginGet` are in Sessions.
pub mod Paths
pub mod Inside
pub mod Files
pub mod View
pub mod Sessions
pub mod Streams
pub mod Writing
pub mod Moves
pub mod Calm
pub mod Upload
pub mod Reading
pub mod Puts
pub mod Losses
use obsto_cpp.Base.{
  ℕ, ◌+◌, ◌-◌, min, Bool, true, false, not, ◌&&◌, List, [], ◌∷◌, ◌++◌, ◌==◌, if◌then◌else◌, Option,
  none, some, length, take, drop,
}
use obsto_cpp.Text.{Bytes, codes, empty, equals}
use obsto_cpp.Text.Search.{starts_with}
use obsto_cpp.Storage.Table.{Table}
use obsto_cpp.Storage.{
  PutResult, SetNxResult, ObjectStore, BeginPutResult, BeginGetResult, StreamingStore,
}
use Paths.{join, map_path}
use Files.{
  next_trouble, Node, directory, file, FileSystem, native, parent_path, plus_tmp, node_at, bytes_of,
  create_directories, Stream, open_truncated, write, close, remove, rename, Source, closed,
  of_directory, of_file, open_to_read,
}

-- the constructor; an error of `create_directories` is an exception, and `none`
unfoldable pub open_root : Paths.FilePath → FileSystem → Option FileSystem
open_root root fs = let (done, fs') = create_directories root fs in if done then some fs' else none

abbrev pub is_regular_file : Option Node → Bool
is_regular_file (some (file i)) = true
is_regular_file (some directory) = false
is_regular_file none = false

abbrev pub is_there : Option Node → Bool
is_there none = false
is_there (some node) = true

-- behind the last '/'
unfoldable pub filename_from : Bytes → Bytes → Bytes
filename_from name [] = name
filename_from name (c ∷ s) =
    if c == b'/' then filename_from [] s else filename_from (name ++ (c ∷ [])) s

-- from the last '.' on; `found` is what begins with the last one so far
unfoldable pub last_dot : Bytes → Bytes → Bytes
last_dot found [] = found
last_dot found (c ∷ s) = last_dot (if c == b'.' then c ∷ s else found) s

-- `extension()`: a name that only begins with a dot has none
abbrev pub extension_of : Bytes → Bytes
extension_of [] = []
extension_of (c ∷ s) = if equals (c ∷ s) (codes "..") then [] else last_dot [] s

unfoldable pub is_temp_file : Bytes → Bool
unfolding filename_from last_dot
is_temp_file text = equals (extension_of (filename_from [] text)) (codes ".tmp")

-- the text of a path below the root, seen from the root
unfoldable pub relative_key : Paths.FilePath → Bytes → Option Bytes
relative_key root text =
    let front = native (join root ([] ∷ [])) in
    if starts_with front text then some (drop (length front) text) else none

abbrev pub listed : Bytes → Node → Option Bytes → List Bytes → List Bytes
listed text (file i) (some key) names = if is_temp_file text then names else key ∷ names
listed text (file i) none names = names
listed text directory key names = names

-- the loop of `keys` over the entries below the root
unfoldable pub key_list : Paths.FilePath → Table Node → List Bytes
key_list root [] = []
key_list root ((text, node) ∷ rest) = listed text node (relative_key root text) (key_list root rest)

module _ (root : Paths.FilePath) where
  abbrev pub put_written : Stream × FileSystem → PutResult × FileSystem
  put_written (stream, fs) =
      (if stream.good then PutResult.ok else PutResult.invalid_path, (close stream fs).1)

  abbrev pub put_opened : Bytes → Stream × FileSystem → PutResult × FileSystem
  put_opened bytes (stream, fs) =
      if stream.good then put_written (write stream bytes fs) else (PutResult.invalid_path, fs)

  abbrev pub put_at : Paths.FilePath → Bytes → Bool × FileSystem → PutResult × FileSystem
  put_at target bytes (false, fs) = (PutResult.invalid_path, fs)
  put_at target bytes (true, fs) = put_opened bytes (open_truncated target fs)

  -- The stream is closed when it is destroyed, and what that comes to is lost.
  unfoldable pub put : Bytes → Bytes → FileSystem → PutResult × FileSystem
  put path bytes fs = elim (map_path root path) [
    | none ↦ (PutResult.invalid_path, fs)
    | some target ↦ put_at target bytes (create_directories (parent_path target) fs)
  ]

  -- what is copied of the file, up to an error, which is not looked at
  abbrev pub copied : Option ℕ → Bytes → Bytes
  copied none bytes = bytes
  copied (some k) bytes = take k bytes

  abbrev pub source_bytes : Source × FileSystem → Option Bytes
  source_bytes (closed, fs) = none
  source_bytes (of_directory, fs) = some []
  source_bytes (of_file i, fs) = some (copied (next_trouble fs.troubles) (bytes_of i fs.contents))

  -- The file system behind it is that from before, less its troubles: `get` is `const`.
  unfoldable pub get : Bytes → FileSystem → Option Bytes
  get path fs = elim (map_path root path) [
    | none ↦ none
    | some target ↦ source_bytes (open_to_read target fs)
  ]

  unfoldable pub del : Bytes → FileSystem → Bool × FileSystem
  del path fs = elim (map_path root path) [ none ↦ (false, fs) | some target ↦ remove target fs ]

  unfoldable pub keys : FileSystem → List Bytes
  keys fs = if is_there (node_at root fs) then key_list root fs.nodes else []

  unfoldable pub exists : Bytes → FileSystem → Bool
  exists path fs = elim (map_path root path) [
    | none ↦ false
    | some target ↦ is_regular_file (node_at target fs)
  ]

  -- `setnx` does not look at the stream behind the write.
  abbrev pub setnx_opened : Bytes → Stream × FileSystem → SetNxResult × FileSystem
  setnx_opened bytes (stream, fs) =
      if stream.good
      then (let (stream', fs') = write stream bytes fs in
          (SetNxResult.inserted, (close stream' fs').1))
      else (SetNxResult.invalid_path, fs)

  abbrev pub setnx_at : Paths.FilePath → Bytes → Bool × FileSystem → SetNxResult × FileSystem
  setnx_at target bytes (false, fs) = (SetNxResult.invalid_path, fs)
  setnx_at target bytes (true, fs) = setnx_opened bytes (open_truncated target fs)

  abbrev pub setnx_mapped : Paths.FilePath → Bytes → FileSystem → SetNxResult × FileSystem
  setnx_mapped target bytes fs =
      if is_there (node_at target fs)
      then (SetNxResult.already_exists, fs)
      else setnx_at target bytes (create_directories (parent_path target) fs)

  unfoldable pub setnx : Bytes → Bytes → FileSystem → SetNxResult × FileSystem
  setnx path bytes fs = elim (map_path root path) [
    | none ↦ (SetNxResult.invalid_path, fs)
    | some target ↦ setnx_mapped target bytes fs
  ]

  abbrev pub disk_store : ObjectStore FileSystem
  disk_store = record {
    put = put;
    get = get;
    del = del;
    keys = keys;
    exists = exists;
    setnx = setnx;
  }
