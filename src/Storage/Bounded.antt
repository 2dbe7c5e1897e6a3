-- ===== src/Storage/Bounded.antt =====
-- Core/Storage/BoundedObjectStorage.{h,cpp} and Streaming/BoundedWriteSession.{h,cpp}: a storage
-- that wraps another one and bounds the sum of the object sizes. The inner storage is the parameter
-- `store`, and `streaming` is the result of the `dynamic_cast` to `IStreamingObjectStorage`.
pub mod Ledger
pub mod Capacity
pub mod Upload
pub mod Sessions
pub mod Agreement
pub mod Limits
use mathlib.Core.Option
use obsto_cpp.Base.{
  ℕ, ◌+◌, ◌≤◌, Bool, true, false, List, [], ◌∷◌, if◌then◌else◌, Option, none, some, leb, length,
}
use obsto_cpp.Text.{Bytes, empty}
use obsto_cpp.Storage.Table.{get_or, assign}
use obsto_cpp.Storage.Index.{
  Index, add64, sub64, object_size, index_contains, upsert, index_erase, entries,
}
use obsto_cpp.Storage.{
  PutResult, SetNxResult, ObjectStore, StreamingStore, BeginPutResult, BeginGetResult,
}

-- `persistency` is the object behind `m_persistency`, which only this storage writes to; `own` is
-- the pair `m_sizes`, `m_currentBytes`, which is used where that pointer is null.
pub record Bounded (S : Type 0) : Type 0 where
  pub inner : S
  pub persistency : Option Index
  pub own : Index
  pub max_bytes : ℕ

-- The closure `onAborted` holds the path and the size that the object had before; `onCommitted`
-- does nothing.
pub record BoundedWriteSession (W : Type 0) : Type 0 where
  pub inner : W
  pub path : Bytes
  pub previous_size : Option ℕ
  pub finalized : Bool
  pub bytes_written : ℕ

-- the two constructors
abbrev no_sizes : Index
no_sizes = record { sizes = []; total_bytes = 0 }

-- The loop copies the entries of the persistency, which have distinct keys.
abbrev copy_entries : List (Bytes × ℕ) → Index → Index
copy_entries [] own = own
copy_entries ((path, size) ∷ rest) own =
    copy_entries rest
      (record { sizes = assign path size own.sizes; total_bytes = add64 own.total_bytes size })

module _ {S : Type 0} where
  unfoldable pub bounded : S → ℕ → Bounded S
  bounded s max = record { inner = s; persistency = none; own = no_sizes; max_bytes = max }

  unfoldable pub bounded_over : S → Index → ℕ → Bounded S
  bounded_over s persistency max = record {
    inner = s;
    persistency = some persistency;
    own = copy_entries (entries persistency) no_sizes;
    max_bytes = max;
  }

module _ {S : Type 0} where
  unfoldable pub total_bytes : Bounded S → ℕ
  total_bytes b = elim b.persistency [ none ↦ b.own.total_bytes | some i ↦ i.total_bytes ]

  unfoldable pub size_of : Bytes → Bounded S → Option ℕ
  size_of path b = elim b.persistency [
    | none ↦ object_size path b.own
    | some i ↦ object_size path i
  ]

  unfoldable pub contains_path : Bytes → Bounded S → Bool
  contains_path path b = elim b.persistency [
    | none ↦ index_contains path b.own
    | some i ↦ index_contains path i
  ]

  unfoldable pub upsert_size : Bytes → ℕ → Bounded S → Bounded S
  upsert_size path size b = elim b.persistency [
    | none ↦ record b { own = upsert path size b.own }
    | some i ↦ record b { persistency = some (upsert path size i) }
  ]

  unfoldable pub erase_size : Bytes → Bounded S → Bounded S
  erase_size path b = elim b.persistency [
    | none ↦ record b { own = (index_erase path b.own).1 }
    | some i ↦ record b { persistency = some (index_erase path i).1 }
  ]

  -- `totalBytes() - existingSize + incomingBytes <= m_maxBytes`, in `size_t`
  unfoldable pub would_fit : Bytes → ℕ → Bounded S → Bool
  would_fit path incoming b =
      let existing = get_or (size_of path b) 0 in
      leb (add64 (sub64 (total_bytes b) existing) incoming) b.max_bytes

module _ {S : Type 0} where
  -- behind `m_innerStorage->put`: the size is counted if the write succeeded
  abbrev after_put : Bytes → ℕ → Bounded S → PutResult × S → PutResult × Bounded S
  after_put path size b (PutResult.ok, s) =
      (PutResult.ok, upsert_size path size (record b { inner = s }))
  after_put path size b (PutResult.capacity_exceeded, s) =
      (PutResult.capacity_exceeded, record b { inner = s })
  after_put path size b (PutResult.invalid_path, s) =
      (PutResult.invalid_path, record b { inner = s })
  after_put path size b (PutResult.failed_to_write, s) =
      (PutResult.failed_to_write, record b { inner = s })

  abbrev after_del : Bytes → Bounded S → Bool × S → Bool × Bounded S
  after_del path b (false, s) = (false, record b { inner = s })
  after_del path b (true, s) = (true, erase_size path (record b { inner = s }))

  abbrev after_setnx : Bytes → ℕ → Bounded S → SetNxResult × S → SetNxResult × Bounded S
  after_setnx path size b (SetNxResult.inserted, s) =
      (SetNxResult.inserted, upsert_size path size (record b { inner = s }))
  after_setnx path size b (SetNxResult.already_exists, s) =
      (SetNxResult.already_exists, record b { inner = s })
  after_setnx path size b (SetNxResult.capacity_exceeded, s) =
      (SetNxResult.capacity_exceeded, record b { inner = s })
  after_setnx path size b (SetNxResult.invalid_path, s) =
      (SetNxResult.invalid_path, record b { inner = s })

module _ {S : Type 0} (store : ObjectStore S) where
  unfoldable pub put : Bytes → Bytes → Bounded S → PutResult × Bounded S
  put path bytes b =
      if empty path
      then (PutResult.invalid_path, b)
      else if would_fit path (length bytes) b
      then after_put path (length bytes) b (store.put path bytes b.inner)
      else (PutResult.capacity_exceeded, b)

  unfoldable pub get : Bytes → Bounded S → Option Bytes
  get path b = store.get path b.inner

  unfoldable pub del : Bytes → Bounded S → Bool × Bounded S
  del path b = after_del path b (store.del path b.inner)

  unfoldable pub keys : Bounded S → List Bytes
  keys b = store.keys b.inner

  unfoldable pub exists : Bytes → Bounded S → Bool
  exists path b = store.exists path b.inner

  unfoldable pub setnx : Bytes → Bytes → Bounded S → SetNxResult × Bounded S
  setnx path bytes b =
      if empty path
      then (SetNxResult.invalid_path, b)
      else if contains_path path b
      then (SetNxResult.already_exists, b)
      else if would_fit path (length bytes) b
      then after_setnx path (length bytes) b (store.setnx path bytes b.inner)
      else (SetNxResult.capacity_exceeded, b)

  abbrev pub bounded_store : ObjectStore (Bounded S)
  bounded_store = record {
    put = put;
    get = get;
    del = del;
    keys = keys;
    exists = exists;
    setnx = setnx;
  }

module _ {W : Type 0} where
  abbrev refused : PutResult → BeginPutResult (BoundedWriteSession W)
  refused r = record { status = r; session = none }

  -- The inner session is moved into the new one; the inner storage gives one with `Ok`.
  abbrev opened : Bytes → Option ℕ → Option W → BeginPutResult (BoundedWriteSession W)
  opened path previous session = record {
    status = PutResult.ok;
    session =
        Option.map
          (λ w. record {
            inner = w;
            path = path;
            previous_size = previous;
            finalized = false;
            bytes_written = 0;
          })
          session;
  }

module _ {S W : Type 0} where
  -- behind `m_innerStreaming->beginPut`
  abbrev pub begun :
      Bytes
      → ℕ
      → Bounded S
      → PutResult
      → Option W
      → S
      → BeginPutResult (BoundedWriteSession W) × Bounded S
  begun path size b PutResult.ok session s =
      (opened path (size_of path b) session, upsert_size path size (record b { inner = s }))
  begun path size b PutResult.capacity_exceeded session s =
      (refused PutResult.capacity_exceeded, record b { inner = s })
  begun path size b PutResult.invalid_path session s =
      (refused PutResult.invalid_path, record b { inner = s })
  begun path size b PutResult.failed_to_write session s =
      (refused PutResult.failed_to_write, record b { inner = s })

module _ {S W R : Type 0} where
  unfoldable pub begin_put :
      Option (StreamingStore S W R)
      → Bytes
      → ℕ
      → Bounded S
      → BeginPutResult (BoundedWriteSession W) × Bounded S
  begin_put none path size b = (refused PutResult.invalid_path, b)
  begin_put (some st) path size b =
      if would_fit path size b
      then (let (r, s) = st.begin_put path size b.inner in begun path size b r.status r.session s)
      else (refused PutResult.capacity_exceeded, b)

  unfoldable pub begin_get :
      Option (StreamingStore S W R) → Bytes → Bounded S → BeginGetResult R × Bounded S
  begin_get none path b = (record { found = false; size = 0; session = none }, b)
  begin_get (some st) path b = let (r, s) = st.begin_get path b.inner in (r, record b { inner = s })

module _ {S : Type 0} where
  -- the closure `onAborted`
  unfoldable pub on_aborted : Bytes → Option ℕ → Bounded S → Bounded S
  on_aborted path none b = erase_size path b
  on_aborted path (some size) b = upsert_size path size b

module _ {S W : Type 0} where
  -- behind `m_inner->finish()`
  abbrev finished : BoundedWriteSession W → Bounded S → PutResult → Bounded S
  finished w b PutResult.ok = b
  finished w b PutResult.capacity_exceeded = on_aborted w.path w.previous_size b
  finished w b PutResult.invalid_path = on_aborted w.path w.previous_size b
  finished w b PutResult.failed_to_write = on_aborted w.path w.previous_size b

module _ {S W R : Type 0} (st : StreamingStore S W R) where
  unfoldable pub write_chunk :
      BoundedWriteSession W → Bytes → Bounded S → Bool × BoundedWriteSession W × Bounded S
  write_chunk w chunk b =
      let (done, inner, s) = st.write_chunk w.inner chunk b.inner in
      (
        done,
        record w { inner = inner; bytes_written = add64 w.bytes_written (length chunk) },
        record b { inner = s },
      )

  unfoldable pub finish :
      BoundedWriteSession W → Bounded S → PutResult × BoundedWriteSession W × Bounded S
  finish w b =
      if w.finalized
      then (PutResult.failed_to_write, w, b)
      else let (r, inner, s) = st.finish w.inner b.inner in
        (r, record w { inner = inner; finalized = true }, finished w (record b { inner = s }) r)

  unfoldable pub abort : BoundedWriteSession W → Bounded S → BoundedWriteSession W × Bounded S
  abort w b =
      if w.finalized
      then (w, b)
      else let (inner, s) = st.abort w.inner b.inner in
        (
          record w { inner = inner; finalized = true },
          on_aborted w.path w.previous_size (record b { inner = s }),
        )

  unfoldable pub read_chunk : R → ℕ → Bounded S → Option Bytes × R × Bounded S
  read_chunk r max b =
      let (chunk, r', s) = st.read_chunk r max b.inner in (chunk, r', record b { inner = s })

  abbrev pub bounded_streaming : StreamingStore (Bounded S) (BoundedWriteSession W) R
  bounded_streaming = record {
    begin_put = begin_put (some st);
    begin_get = begin_get (some st);
    write_chunk = write_chunk;
    finish = finish;
    abort = abort;
    read_chunk = read_chunk;
  }
