-- ===== src/Storage/Bounded/Agreement.antt =====
-- The sizes that the bounded storage counts are those of the objects in the inner storage.
use mathlib.Core.Option
use obsto_cpp.Base.{
  Bool, true, false, if◌then◌else◌, if_elim, none, some, length, ◌≡◌, ◌≢◌, refl, arith,
}
use obsto_cpp.Text.{Bytes, empty, equals}
use obsto_cpp.Storage.{PutResult, SetNxResult, ObjectStore}
use obsto_cpp.Storage.Laws.{StoreLaws}
use obsto_cpp.Storage.Index.{object_size-upsert, object_size-index_erase}
use obsto_cpp.Storage.Bounded.{
  Bounded, upsert_size, erase_size, size_of, would_fit, after_put, put, after_del, del, after_setnx,
  setnx, contains_path,
}
use obsto_cpp.Storage.Bounded.Ledger.{
  ledger-upsert_size, ledger-erase_size, ledger-inner, size_of-ledger, inner-upsert_size,
  inner-erase_size,
}

module _ {S : Type 0} (store : ObjectStore S) where
  -- For each path, the size counted is the length of the object there.
  abbrev pub Agrees : Bounded S → Type 0
  Agrees b = (key : Bytes) → size_of key b ≡ Option.map length (store.get key b.inner)

  module _ (b : Bounded S) (a : Agrees b) (path : Bytes) (s : S) where
    same-Agrees :
        ((key : Bytes) → store.get key s ≡ store.get key b.inner) → Agrees (record b { inner = s })
    same-Agrees same key =
        rw (size_of-ledger, ledger-inner, ← size_of-ledger b key, a key, same key)

    upsert-Agrees :
        (bytes : Bytes)
        → ((key : Bytes)
            → store.get key s ≡ (if equals path key then some bytes else store.get key b.inner))
        → Agrees (upsert_size path (length bytes) (record b { inner = s }))
    upsert-Agrees bytes stored key =
        rw
          (
            size_of-ledger,
            ledger-upsert_size,
            ledger-inner,
            inner-upsert_size,
            object_size-upsert,
            ← size_of-ledger b key,
            a key,
            stored key,
          )
          (ground arith)

    erase-Agrees :
        ((key : Bytes)
          → store.get key s ≡ (if equals path key then none else store.get key b.inner))
        → Agrees (erase_size path (record b { inner = s }))
    erase-Agrees erased key =
        rw
          (
            size_of-ledger,
            ledger-erase_size,
            ledger-inner,
            inner-erase_size,
            object_size-index_erase,
            ← size_of-ledger b key,
            a key,
            erased key,
          )
          (ground arith)

module _ {S : Type 0} (store : ObjectStore S) (laws : StoreLaws store) (b : Bounded S)
    (a : Agrees store b) where
  after_put-Agrees :
      (path bytes : Bytes) (r : PutResult) (s : S)
      → (r ≡ PutResult.ok
          → (key : Bytes)
          → store.get key s ≡ (if equals path key then some bytes else store.get key b.inner))
      → (r ≢ PutResult.ok → (key : Bytes) → store.get key s ≡ store.get key b.inner)
      → Agrees store (after_put path (length bytes) b (r, s)).1
  after_put-Agrees path bytes PutResult.ok s ok failed =
      upsert-Agrees store b a path s bytes (ok refl)
  after_put-Agrees path bytes PutResult.capacity_exceeded s ok failed =
      same-Agrees store b a path s (failed (λ e. cc))
  after_put-Agrees path bytes PutResult.invalid_path s ok failed =
      same-Agrees store b a path s (failed (λ e. cc))
  after_put-Agrees path bytes PutResult.failed_to_write s ok failed =
      same-Agrees store b a path s (failed (λ e. cc))

  -- `put` keeps the counted sizes those of the objects, on every branch, where the inner storage keeps
  -- the laws of a storage.
  pub put-Agrees : (path bytes : Bytes) → Agrees store (put store path bytes b).1
  unfolding put
  put-Agrees path bytes =
      let Keeps : PutResult × Bounded S → Type 0 = λ r. Agrees store r.1 in
      let (r, s) = store.put path bytes b.inner in
      if_elim Keeps (empty path) (λ _. a)
        λ _.
          if_elim Keeps (would_fit path (length bytes) b)
            (λ _.
              after_put-Agrees path bytes r s (λ h key. laws.put_ok path bytes key b.inner h)
                (λ h key. laws.put_failed path bytes key b.inner h))
            (λ _. a)

  after_setnx-Agrees :
      (path bytes : Bytes) (r : SetNxResult) (s : S)
      → (r ≡ SetNxResult.inserted
          → (key : Bytes)
          → store.get key s ≡ (if equals path key then some bytes else store.get key b.inner))
      → (r ≢ SetNxResult.inserted → (key : Bytes) → store.get key s ≡ store.get key b.inner)
      → Agrees store (after_setnx path (length bytes) b (r, s)).1
  after_setnx-Agrees path bytes SetNxResult.inserted s ok failed =
      upsert-Agrees store b a path s bytes (ok refl)
  after_setnx-Agrees path bytes SetNxResult.already_exists s ok failed =
      same-Agrees store b a path s (failed (λ e. cc))
  after_setnx-Agrees path bytes SetNxResult.capacity_exceeded s ok failed =
      same-Agrees store b a path s (failed (λ e. cc))
  after_setnx-Agrees path bytes SetNxResult.invalid_path s ok failed =
      same-Agrees store b a path s (failed (λ e. cc))

  -- `setnx` keeps the counted sizes those of the objects, on every branch, where the inner storage
  -- keeps the laws of a storage.
  pub setnx-Agrees : (path bytes : Bytes) → Agrees store (setnx store path bytes b).1
  unfolding setnx
  setnx-Agrees path bytes =
      let Keeps : SetNxResult × Bounded S → Type 0 = λ r. Agrees store r.1 in
      let (r, s) = store.setnx path bytes b.inner in
      if_elim Keeps (empty path) (λ _. a)
        λ _.
          if_elim Keeps (contains_path path b) (λ _. a)
            λ _.
              if_elim Keeps (would_fit path (length bytes) b)
                (λ _.
                  after_setnx-Agrees path bytes r s
                    (λ h key. (laws.setnx_inserted path bytes key b.inner h).1)
                    (λ h key. laws.setnx_failed path bytes key b.inner h))
                (λ _. a)

  after_del-Agrees :
      (path : Bytes) (r : Bool) (s : S)
      → (r ≡ true
          → (key : Bytes)
          → store.get key s ≡ (if equals path key then none else store.get key b.inner))
      → (r ≡ false → (key : Bytes) → store.get key s ≡ store.get key b.inner)
      → Agrees store (after_del path b (r, s)).1
  after_del-Agrees path true s done failed = erase-Agrees store b a path s (done refl)
  after_del-Agrees path false s done failed = same-Agrees store b a path s (failed refl)

  -- `del` keeps the counted sizes those of the objects, on every branch, where the inner storage keeps
  -- the laws of a storage.
  pub del-Agrees : (path : Bytes) → Agrees store (del store path b).1
  unfolding del
  del-Agrees path =
      let (r, s) = store.del path b.inner in
      after_del-Agrees path r s (λ h key. laws.del_done path key b.inner h)
        (λ h key. laws.del_failed path key b.inner h)
