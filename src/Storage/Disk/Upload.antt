-- ===== src/Storage/Disk/Upload.antt =====
-- DiskObjectStorage::beginPut and Streaming/DiskWriteSession.cpp: whole uploads, and what becomes of
-- the files.
use obsto_cpp.Base.{Bool, true, false, ◌&&◌, List, [], ◌∷◌, ◌++◌, if◌then◌else◌, none, some, ◌≡◌}
use obsto_cpp.Text.{Bytes, equals}
use obsto_cpp.Storage.{PutResult, BeginPutResult}
use obsto_cpp.Storage.Disk.Sessions.{DiskWriteSession, write_chunk}
use obsto_cpp.Storage.Disk.Paths.{FilePath}
use obsto_cpp.Storage.Disk.Files.{FileSystem, native, plus_tmp}
use obsto_cpp.Storage.Disk.View.{file_at}
use obsto_cpp.Storage.Disk.Streams.{OnlyAt}
use obsto_cpp.Storage.Disk.Writing.{WritesIfGood}

-- the chunks of an upload, one after the other, whatever the answers are
unfoldable pub write_chunks :
    DiskWriteSession → List Bytes → FileSystem → DiskWriteSession × FileSystem
write_chunks w [] fs = (w, fs)
write_chunks w (chunk ∷ chunks) fs =
    let (done, w', fs') = write_chunk w chunk fs in write_chunks w' chunks fs'

-- the bytes of the chunks
unfoldable pub joined : List Bytes → Bytes
joined [] = []
joined (chunk ∷ chunks) = chunk ++ joined chunks

-- An upload to the path, which has these bytes so far.
record Uploads (target : FilePath) (before : FileSystem) (bytes : Bytes) (w : DiskWriteSession)
    (fs : FileSystem) : Type 0 where
  pub temp : w.temp_path ≡ plus_tmp target
  pub final : w.final_path ≡ target
  pub only : OnlyAt (native (plus_tmp target)) before fs
  pub writes : WritesIfGood (native (plus_tmp target)) w.stream bytes fs

abbrev Started : FileSystem → BeginPutResult DiskWriteSession × FileSystem → Type 0
Started before r = elim r.0.session [ none ↦ Unit | some w ↦ Uploads w.final_path before [] w r.1 ]

abbrev pub is_ok : PutResult → Bool
is_ok PutResult.ok = true
is_ok PutResult.invalid_path = false
is_ok PutResult.capacity_exceeded = false
is_ok PutResult.failed_to_write = false

-- The file of the object, where the upload is a success, has the bytes; all else is as before.
abbrev Finished :
    FilePath → Bytes → FileSystem → Bytes → PutResult × DiskWriteSession × FileSystem → Type 0
Finished target bytes before key r =
    file_at key r.2
    ≡ (if is_ok r.0 && equals (native target) key then some bytes else file_at key before)
