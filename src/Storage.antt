-- ===== src/Storage.antt =====
-- Core/Storage: the results and the interfaces of the storages (IObjectStorage.h,
-- Streaming/IStreamingObjectStorage.h, IWriteSession.h, IReadSession.h, StreamingConfig.h). A method
-- takes the state of the storage and gives the new one back beside its result. The server runs
-- every handler on one thread (`ioContext.run()`), so the mutexes exclude nothing and are left out.
pub mod Table
pub mod Laws
pub mod Chunks
pub mod Memory
pub mod Index
pub mod Bounded
pub mod Disk
use obsto_cpp.Base.{ℕ, ◌*◌, Bool, Option, List}
use obsto_cpp.Text.{Bytes}

pub data PutResult : Type 0 where
  ok capacity_exceeded invalid_path failed_to_write : PutResult

pub data SetNxResult : Type 0 where
  inserted already_exists capacity_exceeded invalid_path : SetNxResult

-- `IObjectStorage`, over the state `S` of an implementation
pub record ObjectStore (S : Type 0) : Type 0 where
  pub put : Bytes → Bytes → S → PutResult × S
  pub get : Bytes → S → Option Bytes
  pub del : Bytes → S → Bool × S
  pub keys : S → List Bytes
  pub exists : Bytes → S → Bool
  pub setnx : Bytes → Bytes → S → SetNxResult × S

-- a null session is `none`
pub record BeginPutResult (W : Type 0) : Type 0 where
  pub status : PutResult
  pub session : Option W

pub record BeginGetResult (R : Type 0) : Type 0 where
  pub found : Bool
  pub size : ℕ
  pub session : Option R

-- `IStreamingObjectStorage`, with the methods of its sessions `W` (`IWriteSession`) and `R`
-- (`IReadSession`)
pub record StreamingStore (S W R : Type 0) : Type 0 where
  pub begin_put : Bytes → ℕ → S → BeginPutResult W × S
  pub begin_get : Bytes → S → BeginGetResult R × S
  pub write_chunk : W → Bytes → S → Bool × W × S
  pub finish : W → S → PutResult × W × S
  pub abort : W → S → W × S
  pub read_chunk : R → ℕ → S → Option Bytes × R × S

abbrev pub k_streaming_threshold : ℕ
k_streaming_threshold = 1024 * 1024

abbrev pub k_read_chunk_size : ℕ
k_read_chunk_size = 64 * 1024
