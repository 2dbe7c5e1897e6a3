-- ===== src/Storage/Disk/Sessions.antt =====
-- Core/Storage/Streaming/DiskWriteSession.{h,cpp} and DiskReadSession.{h,cpp}, and the methods
-- `beginPut` and `beginGet` of Core/Storage/DiskObjectStorage.cpp.
use obsto_cpp.Base.{
  ℕ, ◌+◌, Bool, true, false, [], ◌∷◌, ◌==◌, if◌then◌else◌, Option, none, some, length, take, drop,
}
use obsto_cpp.Text.{Bytes, empty}
use obsto_cpp.Storage.{PutResult, BeginPutResult, BeginGetResult, StreamingStore}
use obsto_cpp.Storage.Disk.Paths.{FilePath, map_path}
use obsto_cpp.Storage.Disk.Files.{
  Node, directory, file, FileSystem, parent_path, plus_tmp, bytes_of, create_directories, Stream,
  open_truncated, write, close, remove, rename, Source, closed, of_directory, of_file, open_to_read,
  status, has_trouble, past,
}

pub record DiskWriteSession : Type 0 where
  pub temp_path : FilePath
  pub final_path : FilePath
  pub stream : Stream
  pub is_finished : Bool

-- `at_end`: the stream has met the end of the file, or an error.
pub record DiskReadSession : Type 0 where
  pub source : Source
  pub position : ℕ
  pub at_end : Bool

-- the constructor of DiskWriteSession
unfoldable pub new_write_session : FilePath → FilePath → FileSystem → DiskWriteSession × FileSystem
new_write_session temp target fs =
    let (stream, fs') = open_truncated temp fs in
    (record { temp_path = temp; final_path = target; stream = stream; is_finished = false }, fs')

abbrev pub no_write : PutResult → BeginPutResult DiskWriteSession
no_write r = record { status = r; session = none }

abbrev pub begun_at : FilePath → Bool × FileSystem → BeginPutResult DiskWriteSession × FileSystem
begun_at target (false, fs) = (no_write PutResult.invalid_path, fs)
begun_at target (true, fs) =
    let (session, fs') = new_write_session (plus_tmp target) target fs in
    (record { status = PutResult.ok; session = some session }, fs')

unfoldable pub begin_put :
    FilePath → Bytes → ℕ → FileSystem → BeginPutResult DiskWriteSession × FileSystem
begin_put root path size fs = elim (map_path root path) [
  | none ↦ (no_write PutResult.invalid_path, fs)
  | some target ↦ begun_at target (create_directories (parent_path target) fs)
]

unfoldable pub write_chunk :
    DiskWriteSession → Bytes → FileSystem → Bool × DiskWriteSession × FileSystem
write_chunk w chunk fs =
    if w.stream.good
    then (let (stream, fs') = write w.stream chunk fs in
        (stream.good, record w { stream = stream }, fs'))
    else (false, w, fs)

-- what an unsuccessful end leaves
abbrev pub given_up : DiskWriteSession → FileSystem → PutResult × DiskWriteSession × FileSystem
given_up w fs = (PutResult.failed_to_write, w, (remove w.temp_path fs).1)

abbrev pub moved : DiskWriteSession → Bool × FileSystem → PutResult × DiskWriteSession × FileSystem
moved w (true, fs) = (PutResult.ok, record w { is_finished = true }, fs)
moved w (false, fs) = given_up w fs

abbrev pub closed_then :
    DiskWriteSession → Stream × FileSystem → PutResult × DiskWriteSession × FileSystem
closed_then w (stream, fs) =
    let w' = record w { stream = stream } in
    if stream.good then moved w' (rename w.temp_path w.final_path fs) else given_up w' fs

unfoldable pub finish : DiskWriteSession → FileSystem → PutResult × DiskWriteSession × FileSystem
finish w fs = closed_then w (close w.stream fs)

unfoldable pub abort : DiskWriteSession → FileSystem → DiskWriteSession × FileSystem
abort w fs =
    let (stream, fs') = close w.stream fs in
    (record w { stream = stream }, (remove w.temp_path fs').1)

abbrev pub nothing_found : BeginGetResult DiskReadSession
nothing_found = record { found = false; size = 0; session = none }

abbrev pub got_opened : ℕ → Source × FileSystem → BeginGetResult DiskReadSession × FileSystem
got_opened size (source, fs) = (
  record {
    found = true;
    size = size;
    session = some (record { source = source; position = 0; at_end = false });
  },
  fs,
)

-- `file_size`
abbrev pub got_sized : FilePath → ℕ → FileSystem → BeginGetResult DiskReadSession × FileSystem
got_sized target i fs =
    if has_trouble fs
    then (nothing_found, past fs)
    else got_opened (length (bytes_of i fs.contents)) (open_to_read target (past fs))

-- `is_regular_file`
abbrev pub got_regular :
    FilePath → Option Node × FileSystem → BeginGetResult DiskReadSession × FileSystem
got_regular target (some (file i), fs) = got_sized target i fs
got_regular target (some directory, fs) = (nothing_found, fs)
got_regular target (none, fs) = (nothing_found, fs)

-- `exists`
abbrev pub got_at :
    FilePath → Option Node × FileSystem → BeginGetResult DiskReadSession × FileSystem
got_at target (some node, fs) = got_regular target (status target fs)
got_at target (none, fs) = (nothing_found, fs)

unfoldable pub begin_get :
    FilePath → Bytes → FileSystem → BeginGetResult DiskReadSession × FileSystem
begin_get root path fs = elim (map_path root path) [
  | none ↦ (nothing_found, fs)
  | some target ↦ got_at target (status target fs)
]

-- what `m_file.read` gets, of the bytes that are left
abbrev pub chunk_got :
    DiskReadSession → ℕ → Bytes → FileSystem → Option Bytes × DiskReadSession × FileSystem
chunk_got r max [] fs = (none, record r { at_end = true }, fs)
chunk_got r max (c ∷ rest) fs =
    let got = take max (c ∷ rest) in
    (
      if empty got then none else some got,
      record r {
        position = r.position + length got;
        at_end = if length got == max then false else true;
      },
      fs,
    )

abbrev pub read_from :
    Source → DiskReadSession → ℕ → FileSystem → Option Bytes × DiskReadSession × FileSystem
read_from closed r max fs = (none, r, fs)
read_from of_directory r max fs = (none, record r { at_end = true }, fs)
read_from (of_file i) r max fs =
    if r.at_end
    then (none, r, fs)
    else if has_trouble fs
    then (none, record r { at_end = true }, past fs)
    else chunk_got r max (drop r.position (bytes_of i fs.contents)) (past fs)

unfoldable pub read_chunk :
    DiskReadSession → ℕ → FileSystem → Option Bytes × DiskReadSession × FileSystem
read_chunk r max fs = read_from r.source r max fs

abbrev pub disk_streaming : FilePath → StreamingStore FileSystem DiskWriteSession DiskReadSession
disk_streaming root = record {
  begin_put = begin_put root;
  begin_get = begin_get root;
  write_chunk = write_chunk;
  finish = finish;
  abort = abort;
  read_chunk = read_chunk;
}
