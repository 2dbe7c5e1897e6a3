-- ===== src/Storage/Index.antt =====
-- Core/Storage/Persistency/StoragePersistency.{h,cpp}: the index of object sizes and their sum, a
-- `size_t` of 64 bits. Index/Rebuild has `rebuildIndexUnlocked`, which walks the directory.
pub mod Rebuild
pub mod Rebuilt
use obsto_cpp.Base.{
  ℕ, ◌+◌, ◌-◌, ◌%◌, ◌^◌, Bool, true, false, List, if◌then◌else◌, Option, none, some, ◌≡◌, arith,
  Option-cases, inl, inr,
}
use obsto_cpp.Text.{Bytes, equals, equals_iff}
use obsto_cpp.Storage.Table.{
  Table, find, assign, erase, contains, keys_of, IsDistinct, find-assign, find-erase,
  assign-IsDistinct, erase-IsDistinct, total, total-assign, total-erase,
}

-- `size_t` sums and differences
abbrev pub add64 : ℕ → ℕ → ℕ
add64 a b = (a + b) % 2 ^ 64

abbrev pub sub64 : ℕ → ℕ → ℕ
sub64 a b = (a + (2 ^ 64 - b % 2 ^ 64)) % 2 ^ 64

pub record Index : Type 0 where
  pub sizes : Table ℕ
  pub total_bytes : ℕ

unfoldable pub index_keys : Index → List Bytes
index_keys i = keys_of i.sizes

unfoldable pub entries : Index → List (Bytes × ℕ)
entries i = i.sizes

unfoldable pub object_size : Bytes → Index → Option ℕ
object_size path i = find path i.sizes

unfoldable pub index_contains : Bytes → Index → Bool
index_contains path i = contains path i.sizes

unfoldable pub upsert : Bytes → ℕ → Index → Index
upsert path size i = elim (find path i.sizes) [
  | none ↦ record { sizes = assign path size i.sizes; total_bytes = add64 i.total_bytes size }
  | some old ↦ record {
    sizes = assign path size i.sizes;
    total_bytes = add64 (sub64 i.total_bytes old) size;
  }
]

unfoldable pub index_erase : Bytes → Index → Bool × Index
index_erase path i = elim (find path i.sizes) [
  | none ↦ (false, i)
  | some old ↦ (true, record { sizes = erase path i.sizes; total_bytes = sub64 i.total_bytes old })
]

-- The keys are distinct, and the running sum is the sum of the sizes, modulo 2^64.
pub record IsCounted (i : Index) : Type 0 where
  pub distinct : IsDistinct i.sizes
  pub counted : i.total_bytes ≡ total i.sizes % 2 ^ 64

-- `upsert` keeps the keys distinct and the running sum that of the sizes modulo 2^64, whether the
-- key is new or not.
pub upsert-IsCounted :
    (path : Bytes) (size : ℕ) (i : Index) → IsCounted i → IsCounted (upsert path size i)
unfolding upsert
upsert-IsCounted path size i c = elim (Option-cases (find path i.sizes)) [
  | inl new ↦
      rw (new, upsert)
        (record {
          distinct = assign-IsDistinct path size i.sizes c.distinct;
          counted = ground (arith, total-assign path size i.sizes);
        })
  | inr (old, e) ↦
      rw (e, upsert)
        (record {
          distinct = assign-IsDistinct path size i.sizes c.distinct;
          counted = ground (arith, total-assign path size i.sizes);
        })
]

-- `erase` keeps the keys distinct and the running sum that of the sizes modulo 2^64.
pub index_erase-IsCounted :
    (path : Bytes) (i : Index) → IsCounted i → IsCounted (index_erase path i).1
unfolding index_erase
index_erase-IsCounted path i c = elim (Option-cases (find path i.sizes)) [
  | inl e ↦ rw (e, index_erase) c
  | inr (old, e) ↦
      rw (e, index_erase)
        (record {
          distinct = erase-IsDistinct path i.sizes c.distinct;
          counted = ground (arith, total-erase path i.sizes c.distinct);
        })
]

-- The sizes that `upsert` and `erase` leave.
pub object_size-upsert :
    (path key : Bytes) (size : ℕ) (i : Index)
    → object_size key (upsert path size i)
      ≡ (if equals path key then some size else object_size key i)
unfolding object_size upsert
object_size-upsert path key size i = ground (arith, find-assign path key size i.sizes)

pub object_size-index_erase :
    (path key : Bytes) (i : Index)
    → object_size key (index_erase path i).1 ≡ (if equals path key then none else object_size key i)
unfolding object_size index_erase
object_size-index_erase path key i =
    ground (arith, find-erase path key i.sizes, equals_iff path key)
