-- ===== src/Storage/Bounded/Upload.antt =====
-- A streamed write through `BoundedWriteSession`: what it reserves, and what becomes of the
-- reservation at its end.
use obsto_cpp.Base.{
  ℕ, false, List, [], ◌∷◌, if◌then◌else◌, if_elim, Option, none, some, ◌≡◌, arith, ◌∙◌,
}
use obsto_cpp.Text.{Bytes, equals, equals_iff}
use obsto_cpp.Storage.Index.{upsert, object_size-upsert, object_size-index_erase}
use obsto_cpp.Storage.{PutResult, StreamingStore, BeginPutResult}
use obsto_cpp.Storage.Bounded.{
  Bounded, BoundedWriteSession, size_of, would_fit, begun, begin_put, on_aborted, write_chunk,
  finish, finished, abort,
}
use obsto_cpp.Storage.Bounded.Ledger.{
  ledger, ledger-upsert_size, ledger-erase_size, ledger-inner, size_of-ledger,
}

-- The object sizes that two states count are the same.
abbrev pub SameSizes : {S : Type 0} → Bounded S → Bounded S → Type 0
SameSizes b c = (key : Bytes) → size_of key b ≡ size_of key c

module _ {S W R : Type 0} (st : StreamingStore S W R) where
  -- the chunks of an upload, in order; the caller stops at the first that fails
  unfoldable pub write_all :
      List Bytes → BoundedWriteSession W → Bounded S → BoundedWriteSession W × Bounded S
  write_all [] w b = (w, b)
  write_all (chunk ∷ chunks) w b = let r = write_chunk st w chunk b in write_all chunks r.1 r.2

-- An upload of `path` that began at `b`, announced `size` bytes and is not finalized.
pub record IsUploading {S W : Type 0} (b : Bounded S) (path : Bytes) (size : ℕ)
    (w : BoundedWriteSession W) (c : Bounded S) : Type 0 where
  pub on_path : w.path ≡ path
  pub remembers : w.previous_size ≡ size_of path b
  pub is_open : w.finalized ≡ false
  pub reserved : ledger c ≡ upsert path size (ledger b)

module _ {S W : Type 0} (b : Bounded S) (path : Bytes) (size : ℕ) where
  begun-IsUploading :
      (status : PutResult) (session : Option W) (s : S) {w : BoundedWriteSession W}
      → (begun path size b status session s).0.session ≡ some w
      → IsUploading b path size w (begun path size b status session s).1
  begun-IsUploading PutResult.ok session s h = record {
    on_path = ground arith;
    remembers = ground arith;
    is_open = ground arith;
    reserved = ledger-upsert_size (record b { inner = s }) path size ∙ rw (ledger-inner b s);
  }
  begun-IsUploading PutResult.capacity_exceeded session s h = cc
  begun-IsUploading PutResult.invalid_path session s h = cc
  begun-IsUploading PutResult.failed_to_write session s h = cc

module _ {S W R : Type 0} (st : StreamingStore S W R) (b : Bounded S) (path : Bytes)
    (size : ℕ) where
  -- A session that `beginPut` hands out has its announced size counted.
  pub begin_put-IsUploading :
      {w : BoundedWriteSession W}
      → (begin_put (some st) path size b).0.session ≡ some w
      → IsUploading b path size w (begin_put (some st) path size b).1
  unfolding begin_put
  begin_put-IsUploading {w} =
      let (r, s) = st.begin_put path size b.inner in
      if_elim
        (λ (r : BeginPutResult (BoundedWriteSession W) × Bounded S).
          r.0.session ≡ some w → IsUploading b path size w r.1)
        (would_fit path size b) (λ _. begun-IsUploading b path size r.status r.session s)
        (λ _ h. cc)

  write_chunk-IsUploading :
      (chunk : Bytes) (w : BoundedWriteSession W) (c : Bounded S)
      → IsUploading b path size w c
      → IsUploading b path size (write_chunk st w chunk c).1 (write_chunk st w chunk c).2
  unfolding write_chunk
  write_chunk-IsUploading chunk w c u = record {
    on_path = u.on_path;
    remembers = u.remembers;
    is_open = u.is_open;
    reserved = rw ledger-inner u.reserved;
  }

  -- Chunks do not change what is counted.
  pub write_all-IsUploading :
      (chunks : List Bytes) (w : BoundedWriteSession W) (c : Bounded S)
      → IsUploading b path size w c
      → IsUploading b path size (write_all st chunks w c).0 (write_all st chunks w c).1
  unfolding write_all
  write_all-IsUploading [] w c u = u
  write_all-IsUploading (chunk ∷ chunks) w c u =
      write_all-IsUploading chunks _ _ (write_chunk-IsUploading chunk w c u)

-- The closure `onAborted` puts back what was counted before.
on_aborted-SameSizes :
    {S : Type 0} (b : Bounded S) (path : Bytes) (size : ℕ) (previous : Option ℕ) (c : Bounded S)
    → previous ≡ size_of path b
    → ledger c ≡ upsert path size (ledger b)
    → SameSizes (on_aborted path previous c) b
unfolding on_aborted
on_aborted-SameSizes b path size none c e l key =
    rw
      (
        size_of-ledger, size_of-ledger, ledger-erase_size, l, object_size-index_erase,
        object_size-upsert,
      )
      (ground (arith, e ∙ size_of-ledger b path, equals_iff path key))
on_aborted-SameSizes b path size (some old) c e l key =
    rw
      (
        size_of-ledger, size_of-ledger, ledger-upsert_size, l, object_size-upsert,
        object_size-upsert,
      )
      (ground (arith, e ∙ size_of-ledger b path, equals_iff path key))

-- The size of each object once `path` is stored with `size` bytes, from those of `b`.
abbrev pub stored_size : {S : Type 0} → Bounded S → Bytes → ℕ → Bytes → Option ℕ
stored_size b path size key = if equals path key then some size else size_of key b

-- What is counted behind `finish`, by its result.
abbrev pub finished_size : {S : Type 0} → Bounded S → Bytes → ℕ → Bytes → PutResult → Option ℕ
finished_size b path size key PutResult.ok = stored_size b path size key
finished_size b path size key _ = size_of key b

module _ {S W R : Type 0} (st : StreamingStore S W R) (b : Bounded S) (path : Bytes) (size : ℕ)
    (w : BoundedWriteSession W) (c : Bounded S) (u : IsUploading b path size w c) where
  failed-sizes : (s : S) → SameSizes (on_aborted w.path w.previous_size (record c { inner = s })) b
  failed-sizes s = rw u.on_path (
      on_aborted-SameSizes b path size w.previous_size (record c { inner = s }) u.remembers
        (rw ledger-inner u.reserved))

  finished-sizes :
      (r : PutResult) (s : S) (key : Bytes)
      → size_of key (finished w (record c { inner = s }) r) ≡ finished_size b path size key r
  finished-sizes PutResult.ok s key =
      rw (size_of-ledger, ledger-inner, u.reserved, object_size-upsert) (rw size_of-ledger)
  finished-sizes PutResult.capacity_exceeded s key = failed-sizes s key
  finished-sizes PutResult.invalid_path s key = failed-sizes s key
  finished-sizes PutResult.failed_to_write s key = failed-sizes s key

  -- `finish` keeps the announced size if the inner session succeeds, and otherwise puts back the
  -- sizes from before the upload.
  pub finish-sizes :
      (key : Bytes)
      → size_of key (finish st w c).2 ≡ finished_size b path size key (finish st w c).0
  unfolding finish
  finish-sizes key = let r = st.finish w.inner c.inner in rw u.is_open (finished-sizes r.0 r.2 key)

  pub abort-sizes : SameSizes (abort st w c).1 b
  unfolding abort
  abort-sizes key = rw u.is_open (failed-sizes (st.abort w.inner c.inner).1 key)
