-- ===== src/Storage/Bounded/Ledger.antt =====
-- The sizes that the storage goes by: those of the persistency, or its own. Each operation acts on
-- them as `StoragePersistency` does.
use obsto_cpp.Base.{ℕ, ◌+◌, ◌^◌, ◌≤◌, ◌<◌, none, some, leb, ◌≡◌, refl, arith}
use obsto_cpp.Text.{Bytes}
use obsto_cpp.Storage.Table.{get_or, total, find-le-total, total-assign, total-erase}
use obsto_cpp.Storage.Index.{Index, object_size, upsert, index_erase, IsCounted}
use obsto_cpp.Storage.Bounded.{Bounded, total_bytes, size_of, upsert_size, erase_size, would_fit}

module _ {S : Type 0} where
  unfoldable pub ledger : Bounded S → Index
  ledger b = elim b.persistency [ none ↦ b.own | some i ↦ i ]

  module _ (b : Bounded S) where
    pub total_bytes-ledger : total_bytes b ≡ (ledger b).total_bytes
    unfolding total_bytes ledger
    total_bytes-ledger = ground arith

    pub size_of-ledger : (path : Bytes) → size_of path b ≡ object_size path (ledger b)
    unfolding size_of ledger
    size_of-ledger path = ground arith

    pub ledger-upsert_size :
        (path : Bytes) (size : ℕ) → ledger (upsert_size path size b) ≡ upsert path size (ledger b)
    unfolding upsert_size ledger
    ledger-upsert_size path size = ground arith

    pub ledger-erase_size :
        (path : Bytes) → ledger (erase_size path b) ≡ (index_erase path (ledger b)).1
    unfolding erase_size ledger
    ledger-erase_size path = ground arith

    pub ledger-inner : (s : S) → ledger (record b { inner = s }) ≡ ledger b
    unfolding ledger
    ledger-inner s = refl

    pub max_bytes-upsert_size :
        (path : Bytes) (size : ℕ) → (upsert_size path size b).max_bytes ≡ b.max_bytes
    unfolding upsert_size
    max_bytes-upsert_size path size = ground arith

    pub max_bytes-erase_size : (path : Bytes) → (erase_size path b).max_bytes ≡ b.max_bytes
    unfolding erase_size
    max_bytes-erase_size path = ground arith

    pub inner-upsert_size : (path : Bytes) (size : ℕ) → (upsert_size path size b).inner ≡ b.inner
    unfolding upsert_size
    inner-upsert_size path size = ground arith

    pub inner-erase_size : (path : Bytes) → (erase_size path b).inner ≡ b.inner
    unfolding erase_size
    inner-erase_size path = ground arith

-- The sum of the sizes of an index, with no wrap.
abbrev pub used : Index → ℕ
used i = total i.sizes

-- The running sum is right, and the sizes together stay within the capacity.
pub record IsWithin {S : Type 0} (b : Bounded S) : Type 0 where
  pub counted : IsCounted (ledger b)
  pub within : used (ledger b) ≤ b.max_bytes
  pub max_lt : b.max_bytes < 2 ^ 64

pub used-upsert :
    (path : Bytes) (size : ℕ) (i : Index)
    → used (upsert path size i) + get_or (object_size path i) 0 ≡ used i + size
unfolding upsert object_size
used-upsert path size i = ground (arith, total-assign path size i.sizes)

pub used-index_erase :
    (path : Bytes) (i : Index)
    → IsCounted i
    → used (index_erase path i).1 + get_or (object_size path i) 0 ≡ used i
unfolding index_erase object_size
used-index_erase path i c = ground (arith, total-erase path i.sizes c.distinct)

object_size-le-used : (path : Bytes) (i : Index) → get_or (object_size path i) 0 ≤ used i
unfolding object_size
object_size-le-used path i = find-le-total path i.sizes

module _ {S : Type 0} (b : Bounded S) (v : IsWithin b) where
  -- Where the sum does not wrap, the test is the one that the code means.
  pub would_fit_lem :
      (path : Bytes) (incoming : ℕ)
      → used (ledger b) + incoming < 2 ^ 64
      → would_fit path incoming b ≡ leb (used (upsert path incoming (ledger b))) b.max_bytes
  unfolding would_fit
  would_fit_lem path incoming h =
      rw (total_bytes-ledger b, size_of-ledger b path)
        (ground (
          arith,
          v.counted.counted,
          v.within,
          v.max_lt,
          used-upsert path incoming (ledger b),
          object_size-le-used path (ledger b),
        ))
