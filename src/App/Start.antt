-- ===== src/App/Start.antt =====
-- App/main.cpp: the parts put together.
use obsto_cpp.Base.{ℕ, ◌*◌, ◌%◌, ◌^◌, Bool, true, List, Option, none, some, if◌then◌else◌}
use obsto_cpp.Text.{Bytes}
use obsto_cpp.Storage.{ObjectStore, StreamingStore}
use obsto_cpp.Storage.Index.Rebuild.{new_index}
use obsto_cpp.Storage.Bounded.{
  Bounded, BoundedWriteSession, bounded_over, bounded_store, bounded_streaming,
}
use obsto_cpp.Storage.Disk.{open_root, disk_store}
use obsto_cpp.Storage.Disk.Sessions.{DiskWriteSession, DiskReadSession, disk_streaming}
use obsto_cpp.Storage.Disk.Paths.{FilePath, path_from}
use obsto_cpp.Storage.Disk.Files.{FileSystem}
use obsto_cpp.Detector.{Detector}
use obsto_cpp.Detector.Connection.{detector_sharing, detector_handler}
use obsto_cpp.Net.{ProtocolHandler}
use obsto_cpp.Net.Server.{Server, new_server}
use obsto_cpp.App.{ServerConfig, Parsed, parsed, exited, parse}

abbrev pub Storage : Type 0
Storage = Bounded FileSystem

abbrev pub Handler : Type 0
Handler = Detector Storage (BoundedWriteSession DiskWriteSession) DiskReadSession

-- `ended` is the end of the program, with its exit code.
pub data Main : Type 0 where
  ended : ℕ → Main
  serving : FilePath → Server Storage Handler → Main

module _ (root : FilePath) where
  abbrev pub storage : ObjectStore Storage
  storage = bounded_store (disk_store root)

  abbrev pub streaming :
      StreamingStore Storage (BoundedWriteSession DiskWriteSession) DiskReadSession
  streaming = bounded_streaming (disk_streaming root)

  abbrev pub handler : ProtocolHandler Handler
  handler = detector_handler storage streaming

-- `capacityMB * 1024 * 1024`, in `size_t`
abbrev pub capacity_bytes : ℕ → ℕ
capacity_bytes mb = mb * 1024 * 1024 % 2 ^ 64

-- behind the constructor of the storage; the first argument says whether the port can be bound
abbrev pub opened : Bool → ServerConfig → FilePath → Option FileSystem → Main
opened binds config root none = ended 1
opened binds config root (some fs) =
    let (index, fs') = new_index root fs in
    let s = bounded_over fs' index (capacity_bytes config.capacity_mb) in
    if binds then serving root (new_server (handler root) (detector_sharing true) s) else ended 1

abbrev pub configured : Bool → FileSystem → ServerConfig → Main
configured binds fs config =
    if config.show_help
    then ended 0
    else (let root = path_from config.storage_path in opened binds config root (open_root root fs))

abbrev pub after_parse : Bool → FileSystem → Parsed → Main
after_parse binds fs exited = ended 1
after_parse binds fs (parsed config) = configured binds fs config

unfoldable pub main : Bool → List Bytes → FileSystem → Main
main binds args fs = after_parse binds fs (parse args)
