-- ===== src/Storage/Bounded/Capacity.antt =====
-- The capacity bound, over any inner storage.
use obsto_cpp.Base.{
  ℕ, ◌+◌, ◌^◌, ◌≤◌, ◌<◌, Bool, true, false, if_elim, Option, none, some, leb→le, length, ◌≡◌, arith,
  ◌∙◌, sym,
}
use obsto_cpp.Text.{Bytes, empty}
use obsto_cpp.Storage.Index.{upsert, upsert-IsCounted, index_erase-IsCounted}
use obsto_cpp.Storage.{PutResult, SetNxResult, ObjectStore, StreamingStore, BeginPutResult}
use obsto_cpp.Storage.Bounded.{
  Bounded, BoundedWriteSession, upsert_size, erase_size, would_fit, after_put, put, after_del, del,
  after_setnx, setnx, contains_path, begun, begin_put,
}
use obsto_cpp.Storage.Bounded.Ledger.{
  ledger, ledger-upsert_size, ledger-erase_size, ledger-inner, max_bytes-upsert_size,
  max_bytes-erase_size, used, IsWithin, used-index_erase, would_fit_lem,
}

module _ {S : Type 0} (b : Bounded S) (v : IsWithin b) where
  -- The inner state has no part in the invariant.
  inner-IsWithin : (s : S) → IsWithin (record b { inner = s })
  inner-IsWithin s = record {
    counted = rw (ledger-inner b s) v.counted;
    within = rw (ledger-inner b s) v.within;
    max_lt = v.max_lt;
  }

  erase_size-IsWithin : (path : Bytes) → IsWithin (erase_size path b)
  erase_size-IsWithin path = record {
    counted = rw (ledger-erase_size b path) (index_erase-IsCounted path (ledger b) v.counted);
    within =
        rw (ledger-erase_size b path, max_bytes-erase_size b path)
          (omega (arith, used-index_erase path (ledger b) v.counted, v.within));
    max_lt = rw (max_bytes-erase_size b path) v.max_lt;
  }

  upsert_size-IsWithin :
      (path : Bytes) (size : ℕ)
      → used (upsert path size (ledger b)) ≤ b.max_bytes
      → IsWithin (upsert_size path size b)
  upsert_size-IsWithin path size h = record {
    counted = rw (ledger-upsert_size b path size) (upsert-IsCounted path size (ledger b) v.counted);
    within = rw (ledger-upsert_size b path size, max_bytes-upsert_size b path size) h;
    max_lt = rw (max_bytes-upsert_size b path size) v.max_lt;
  }

-- A size that passed the test may be counted, whatever the inner storage became.
counted-IsWithin :
    {S : Type 0} (b : Bounded S) (s : S) (path : Bytes) (size : ℕ)
    → IsWithin b
    → used (ledger b) + size < 2 ^ 64
    → would_fit path size b ≡ true
    → IsWithin (upsert_size path size (record b { inner = s }))
counted-IsWithin b s path size v h fits =
    upsert_size-IsWithin (record b { inner = s }) (inner-IsWithin b v s) path size
      (rw (ledger-inner b s) (leb→le _ _ (sym (would_fit_lem b v path size h) ∙ fits)))

module _ {S : Type 0} (store : ObjectStore S) (b : Bounded S) (v : IsWithin b) where
  after_put-IsWithin :
      (path : Bytes) (size : ℕ) (r : PutResult × S)
      → used (ledger b) + size < 2 ^ 64
      → would_fit path size b ≡ true
      → IsWithin (after_put path size b r).1
  after_put-IsWithin path size (PutResult.ok, s) h fits = counted-IsWithin b s path size v h fits
  after_put-IsWithin path size (PutResult.capacity_exceeded, s) h fits = inner-IsWithin b v s
  after_put-IsWithin path size (PutResult.invalid_path, s) h fits = inner-IsWithin b v s
  after_put-IsWithin path size (PutResult.failed_to_write, s) h fits = inner-IsWithin b v s

  -- `put` keeps the running sum right and within the capacity, over any inner storage and whatever
  -- that answers, where the sum and the new size do not reach 2^64.
  pub put-IsWithin :
      (path bytes : Bytes)
      → used (ledger b) + length bytes < 2 ^ 64
      → IsWithin (put store path bytes b).1
  unfolding put
  put-IsWithin path bytes h =
      if_elim (λ (r : PutResult × Bounded S). IsWithin r.1) (empty path) (λ _. v)
        λ _.
          if_elim (λ (r : PutResult × Bounded S). IsWithin r.1) (would_fit path (length bytes) b)
            (after_put-IsWithin path (length bytes) (store.put path bytes b.inner) h) (λ _. v)

  after_setnx-IsWithin :
      (path : Bytes) (size : ℕ) (r : SetNxResult × S)
      → used (ledger b) + size < 2 ^ 64
      → would_fit path size b ≡ true
      → IsWithin (after_setnx path size b r).1
  after_setnx-IsWithin path size (SetNxResult.inserted, s) h fits =
      counted-IsWithin b s path size v h fits
  after_setnx-IsWithin path size (SetNxResult.already_exists, s) h fits = inner-IsWithin b v s
  after_setnx-IsWithin path size (SetNxResult.capacity_exceeded, s) h fits = inner-IsWithin b v s
  after_setnx-IsWithin path size (SetNxResult.invalid_path, s) h fits = inner-IsWithin b v s

  -- `setnx` keeps the running sum right and within the capacity, over any inner storage and whatever
  -- that answers, where the sum and the new size do not reach 2^64.
  pub setnx-IsWithin :
      (path bytes : Bytes)
      → used (ledger b) + length bytes < 2 ^ 64
      → IsWithin (setnx store path bytes b).1
  unfolding setnx
  setnx-IsWithin path bytes h =
      let Keeps : SetNxResult × Bounded S → Type 0 = λ r. IsWithin r.1 in
      if_elim Keeps (empty path) (λ _. v)
        λ _.
          if_elim Keeps (contains_path path b) (λ _. v)
            λ _.
              if_elim Keeps (would_fit path (length bytes) b)
                (after_setnx-IsWithin path (length bytes) (store.setnx path bytes b.inner) h)
                (λ _. v)

  after_del-IsWithin : (path : Bytes) (r : Bool × S) → IsWithin (after_del path b r).1
  after_del-IsWithin path (false, s) = inner-IsWithin b v s
  after_del-IsWithin path (true, s) = erase_size-IsWithin _ (inner-IsWithin b v s) path

  -- `del` keeps the running sum right and within the capacity, over any inner storage and whatever
  -- that answers.
  pub del-IsWithin : (path : Bytes) → IsWithin (del store path b).1
  unfolding del
  del-IsWithin path = after_del-IsWithin path (store.del path b.inner)

module _ {S W : Type 0} (b : Bounded S) (v : IsWithin b) where
  begun-IsWithin :
      (path : Bytes) (size : ℕ) (status : PutResult) (session : Option W) (s : S)
      → used (ledger b) + size < 2 ^ 64
      → would_fit path size b ≡ true
      → IsWithin (begun path size b status session s).1
  begun-IsWithin path size PutResult.ok o s h fits = counted-IsWithin b s path size v h fits
  begun-IsWithin path size PutResult.capacity_exceeded o s h fits = inner-IsWithin b v s
  begun-IsWithin path size PutResult.invalid_path o s h fits = inner-IsWithin b v s
  begun-IsWithin path size PutResult.failed_to_write o s h fits = inner-IsWithin b v s

module _ {S W R : Type 0} (b : Bounded S) (v : IsWithin b) where
  -- `beginPut`, which counts the announced size at once, keeps the running sum right and within the
  -- capacity, whatever the inner storage answers, where the sum and the announced size do not reach
  -- 2^64.
  pub begin_put-IsWithin :
      (streaming : Option (StreamingStore S W R)) (path : Bytes) (size : ℕ)
      → used (ledger b) + size < 2 ^ 64
      → IsWithin (begin_put streaming path size b).1
  unfolding begin_put
  begin_put-IsWithin none path size h = v
  begin_put-IsWithin (some st) path size h =
      let (r, s) = st.begin_put path size b.inner in
      if_elim (λ (r : BeginPutResult (BoundedWriteSession W) × Bounded S). IsWithin r.1)
        (would_fit path size b) (begun-IsWithin b v path size r.status r.session s h) (λ _. v)
