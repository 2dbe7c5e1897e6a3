-- ===== src/Storage/Memory/Laws.antt =====
-- The storage in memory keeps the laws of the interface, and its answers say what it holds.
use obsto_cpp.Base.{true, false, if◌then◌else◌, none, some, ◌≡◌, ◌≢◌, arith}
use obsto_cpp.Text.{Bytes, equals, equals_iff}
use obsto_cpp.Storage.{PutResult, SetNxResult}
use obsto_cpp.Storage.Laws.{StoreLaws}
use obsto_cpp.Storage.Table.{find-assign, find-erase}
use obsto_cpp.Storage.Memory.{ObjectStorage, put, get, del, setnx, memory_store}

module _ (path bytes key : Bytes) (m : ObjectStorage) where
  put_ok :
      (put path bytes m).0 ≡ PutResult.ok
      → get key (put path bytes m).1 ≡ (if equals path key then some bytes else get key m)
  unfolding put get
  put_ok h = ground (arith, find-assign path key bytes m.storage)

  put_failed : (put path bytes m).0 ≢ PutResult.ok → get key (put path bytes m).1 ≡ get key m
  unfolding put get
  put_failed h = ground arith

  setnx_inserted :
      (setnx path bytes m).0 ≡ SetNxResult.inserted
      → (get path m ≡ none)
        × (get key (setnx path bytes m).1 ≡ (if equals path key then some bytes else get key m))
  unfolding setnx get
  setnx_inserted h = ground (arith, find-assign path key bytes m.storage)

  setnx_failed :
      (setnx path bytes m).0 ≢ SetNxResult.inserted → get key (setnx path bytes m).1 ≡ get key m
  unfolding setnx get
  setnx_failed h = ground arith

module _ (path key : Bytes) (m : ObjectStorage) where
  del_done :
      (del path m).0 ≡ true → get key (del path m).1 ≡ (if equals path key then none else get key m)
  unfolding del get
  del_done h = find-erase path key m.storage

  del_failed : (del path m).0 ≡ false → get key (del path m).1 ≡ get key m
  unfolding del get
  del_failed h = ground (arith, find-erase path key m.storage, equals_iff path key)

-- `ObjectStorage` keeps the laws of a storage: `put`, `del` and `setnx` change the object of their
-- path and no other where they succeed, and nothing where they fail; `setnx` succeeds only where
-- there was no object.
pub memory_laws : StoreLaws memory_store
memory_laws = record {
  put_ok = put_ok;
  put_failed = put_failed;
  del_done = del_done;
  del_failed = del_failed;
  setnx_inserted = setnx_inserted;
  setnx_failed = setnx_failed;
}
