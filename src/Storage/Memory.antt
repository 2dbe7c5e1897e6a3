-- ===== src/Storage/Memory.antt =====
-- Core/Storage/ObjectStorage.{h,cpp}: the storage in memory.
pub mod Laws
use obsto_cpp.Base.{Bool, true, false, List, if◌then◌else◌, Option, none, some}
use obsto_cpp.Text.{Bytes, empty}
use obsto_cpp.Storage.Table.{Table, find, assign, erase, contains, keys_of}
use obsto_cpp.Storage.{PutResult, SetNxResult, ObjectStore}

pub record ObjectStorage : Type 0 where
  pub storage : Table Bytes

unfoldable pub put : Bytes → Bytes → ObjectStorage → PutResult × ObjectStorage
put path bytes m =
    if empty path
    then (PutResult.invalid_path, m)
    else (PutResult.ok, record { storage = assign path bytes m.storage })

unfoldable pub get : Bytes → ObjectStorage → Option Bytes
get path m = find path m.storage

-- `m_storage.erase(path) > 0`
unfoldable pub del : Bytes → ObjectStorage → Bool × ObjectStorage
del path m = (contains path m.storage, record { storage = erase path m.storage })

unfoldable pub keys : ObjectStorage → List Bytes
keys m = keys_of m.storage

unfoldable pub exists : Bytes → ObjectStorage → Bool
exists path m = contains path m.storage

-- `try_emplace` leaves an entry that is there as it is.
unfoldable pub setnx : Bytes → Bytes → ObjectStorage → SetNxResult × ObjectStorage
setnx path bytes m =
    if empty path
    then (SetNxResult.invalid_path, m)
    else if contains path m.storage
    then (SetNxResult.already_exists, m)
    else (SetNxResult.inserted, record { storage = assign path bytes m.storage })

abbrev pub memory_store : ObjectStore ObjectStorage
memory_store = record {
  put = put;
  get = get;
  del = del;
  keys = keys;
  exists = exists;
  setnx = setnx;
}
