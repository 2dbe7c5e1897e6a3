-- ===== src/Storage/Laws.antt =====
-- What a client of `IObjectStorage` relies on: the contents, as a map from paths to bytes, before
-- and behind each method. A method that answers with a failure has changed no contents.
use obsto_cpp.Base.{true, false, if◌then◌else◌, none, some, ◌≡◌, ◌≢◌}
use obsto_cpp.Text.{Bytes, equals}
use obsto_cpp.Storage.{PutResult, SetNxResult, ObjectStore}

pub record StoreLaws {S : Type 0} (store : ObjectStore S) : Type 0 where
  pub put_ok :
      (path bytes key : Bytes) (s : S)
      → (store.put path bytes s).0 ≡ PutResult.ok
      → store.get key (store.put path bytes s).1
        ≡ (if equals path key then some bytes else store.get key s)
  pub put_failed :
      (path bytes key : Bytes) (s : S)
      → (store.put path bytes s).0 ≢ PutResult.ok
      → store.get key (store.put path bytes s).1 ≡ store.get key s
  pub del_done :
      (path key : Bytes) (s : S)
      → (store.del path s).0 ≡ true
      → store.get key (store.del path s).1 ≡ (if equals path key then none else store.get key s)
  pub del_failed :
      (path key : Bytes) (s : S)
      → (store.del path s).0 ≡ false
      → store.get key (store.del path s).1 ≡ store.get key s
  pub setnx_inserted :
      (path bytes key : Bytes) (s : S)
      → (store.setnx path bytes s).0 ≡ SetNxResult.inserted
      → (store.get path s ≡ none)
        × (store.get key (store.setnx path bytes s).1
            ≡ (if equals path key then some bytes else store.get key s))
  pub setnx_failed :
      (path bytes key : Bytes) (s : S)
      → (store.setnx path bytes s).0 ≢ SetNxResult.inserted
      → store.get key (store.setnx path bytes s).1 ≡ store.get key s
