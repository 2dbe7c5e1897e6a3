-- ===== src/Storage/Bounded/Limits.antt =====
-- Where the capacity bound fails.
use obsto_cpp.Base.{
  ℕ, ◌+◌, ◌^◌, ◌≤◌, ◌<◌, true, false, if_elim, none, some, length, ◌≡◌, ◌≢◌, arith, ◌∙◌, sym,
}
use obsto_cpp.Text.{Bytes, equals_iff, equals_refl, empty}
use obsto_cpp.Storage.Index.{Index, object_size, upsert, object_size-upsert}
use obsto_cpp.Storage.{PutResult, ObjectStore, StreamingStore}
use obsto_cpp.Storage.Bounded.{
  Bounded, BoundedWriteSession, size_of, would_fit, put, after_put, abort, on_aborted,
}
use obsto_cpp.Storage.Bounded.Ledger.{
  ledger, IsWithin, used, used-upsert, total_bytes-ledger, size_of-ledger, ledger-upsert_size,
  ledger-inner,
}
use obsto_cpp.Storage.Bounded.Upload.{IsUploading}

-- In a storage that is within its capacity, an announced size below 2^64 with which the sum reaches
-- 2^64 passes the test of a path that is not counted.
pub would_fit_wraps :
    {S : Type 0} (b : Bounded S) (path : Bytes) (size : ℕ)
    → IsWithin b
    → size_of path b ≡ none
    → size < 2 ^ 64
    → 2 ^ 64 ≤ used (ledger b) + size
    → would_fit path size b ≡ true
unfolding would_fit
would_fit_wraps b path size v new h wraps =
    rw (total_bytes-ledger b, new) (ground (arith, v.counted.counted, v.within, v.max_lt))

-- What a successful `put` does to the sizes that are counted.
module _ {S : Type 0} (store : ObjectStore S) (b : Bounded S) where
  abbrev Counts : Bytes → ℕ → PutResult × Bounded S → Type 0
  Counts path size r = r.0 ≡ PutResult.ok → ledger r.1 ≡ upsert path size (ledger b)

  after_put-Counts :
      (path : Bytes) (size : ℕ) (r : PutResult) (s : S)
      → Counts path size (after_put path size b (r, s))
  after_put-Counts path size PutResult.ok s h = rw (ledger-upsert_size, ledger-inner)
  after_put-Counts path size PutResult.capacity_exceeded s h = cc
  after_put-Counts path size PutResult.invalid_path s h = cc
  after_put-Counts path size PutResult.failed_to_write s h = cc

  pub ledger-put :
      (path bytes : Bytes)
      → (put store path bytes b).0 ≡ PutResult.ok
      → ledger (put store path bytes b).1 ≡ upsert path (length bytes) (ledger b)
  unfolding put
  ledger-put path bytes =
      let (r, s) = store.put path bytes b.inner in
      if_elim (Counts path (length bytes)) (empty path) (λ _ h. cc)
        λ _.
          if_elim (Counts path (length bytes)) (would_fit path (length bytes) b)
            (λ _. after_put-Counts path (length bytes) r s) (λ _ h. cc)

ledger-abort :
    {S W R : Type 0} (st : StreamingStore S W R) (w : BoundedWriteSession W) (c : Bounded S)
    {old : ℕ}
    → w.finalized ≡ false
    → w.previous_size ≡ some old
    → ledger (abort st w c).1 ≡ upsert w.path old (ledger c)
unfolding abort on_aborted
ledger-abort st w c open_w was = rw (open_w, was, on_aborted, ledger-upsert_size, ledger-inner)

-- The sums along an overwriting upload, a `put` elsewhere, and the abort.
used-upsert_thrice :
    (path other : Bytes) (old size n : ℕ) (i : Index)
    → object_size path i ≡ some old
    → object_size other i ≡ none
    → path ≢ other
    → used (upsert path old (upsert other n (upsert path size i))) ≡ used i + n
used-upsert_thrice path other old size n i was new differ =
    let j = upsert path size i in
    let k = upsert other n j in
    ground (
      arith,
      used-upsert path size i,
      used-upsert other n j,
      used-upsert path old k,
      object_size-upsert path other size i,
      object_size-upsert other path n j,
      object_size-upsert path path size i,
      equals_iff path other,
      equals_iff other path,
      equals_refl path,
    )

-- While an upload over an object is open, a `put` of another path that was not counted succeeds, and
-- the upload is then aborted: the sum is that from before the upload and the new object, whatever the
-- capacity.
pub abort-used :
    {S W R : Type 0} (store : ObjectStore S) (st : StreamingStore S W R) (b c : Bounded S)
    (path other bytes : Bytes) (old size : ℕ) (w : BoundedWriteSession W)
    → IsUploading b path size w c
    → size_of path b ≡ some old
    → size_of other b ≡ none
    → path ≢ other
    → (put store other bytes c).0 ≡ PutResult.ok
    → used (ledger (abort st w (put store other bytes c).1).1) ≡ used (ledger b) + length bytes
abort-used store st b c path other bytes old size w u was new differ stored =
    rw
      (
        ledger-abort st w (put store other bytes c).1 u.is_open (u.remembers ∙ was),
        u.on_path,
        ledger-put store c other bytes stored,
        u.reserved,
      )
      (used-upsert_thrice path other old size (length bytes) (ledger b)
        (sym (size_of-ledger b path) ∙ was) (sym (size_of-ledger b other) ∙ new) differ)
