-- ===== src/Tests/Storage.antt =====
-- The storages on concrete input.
use obsto_cpp.Base.{◌+◌, ◌-◌, ◌^◌, [], ◌∷◌, none, some, ◌≡◌, ◌≢◌, refl, arith, true, false}
use obsto_cpp.Text.{Bytes, codes, equals, equals_iff}
use obsto_cpp.Storage.Table.{find, assign}
use obsto_cpp.Storage.Index.{Index, IsCounted, upsert, upsert-IsCounted, object_size}
use obsto_cpp.Storage.Memory.{ObjectStorage, memory_store, put, get}
use obsto_cpp.Storage.Memory.Laws.{memory_laws}
use obsto_cpp.Storage.Bounded
use obsto_cpp.Storage.Bounded.{
  Bounded, BoundedWriteSession, bounded, size_of, upsert_size, would_fit, begin_put, total_bytes,
  abort, finish,
}
use obsto_cpp.Storage.Bounded.Ledger.{ledger, used, IsWithin}
use obsto_cpp.Storage.Bounded.Capacity.{put-IsWithin, begin_put-IsWithin}
use obsto_cpp.Storage.Bounded.Agreement.{Agrees, put-Agrees}
use obsto_cpp.Storage.Bounded.Upload.{IsUploading, finished_size, write_all}
use obsto_cpp.Storage.Bounded.Sessions.{abort_restores, finish_sizes}
use obsto_cpp.Storage.Bounded.Limits.{would_fit_wraps, abort-used}
use obsto_cpp.Tests.{memory_streaming}

abbrev two_files : Index
two_files = record { sizes = (codes "a", 5) ∷ (codes "b", 7) ∷ []; total_bytes = 12 }

two_files-IsCounted : IsCounted two_files
unfolding find equals
two_files-IsCounted = record { distinct = (refl, (refl, tt)); counted = refl }

upsert-IsCounted_example : IsCounted (upsert (codes "a") 9 two_files)
upsert-IsCounted_example = upsert-IsCounted (codes "a") 9 two_files two_files-IsCounted

-- An object of five bytes, in a storage for ten.
abbrev five : Bytes
five = codes "01234"

abbrev small : Bounded ObjectStorage
small = record {
  inner = record { storage = (codes "a", five) ∷ [] };
  persistency = none;
  own = record { sizes = (codes "a", 5) ∷ []; total_bytes = 5 };
  max_bytes = 10;
}

small-IsWithin : IsWithin small
unfolding ledger find
small-IsWithin = record {
  counted = record { distinct = (refl, tt); counted = refl };
  within = omega arith;
  max_lt = omega arith;
}

small-Agrees : Agrees memory_store small
unfolding size_of object_size get find
small-Agrees key = ground arith

put-IsWithin_example : IsWithin (Bounded.put memory_store (codes "b") five small).1
unfolding ledger
put-IsWithin_example = put-IsWithin memory_store small small-IsWithin (codes "b") five (omega arith)

begin_put-IsWithin_example : IsWithin (begin_put (some memory_streaming) (codes "b") 4 small).1
unfolding ledger
begin_put-IsWithin_example =
    begin_put-IsWithin small small-IsWithin (some memory_streaming) (codes "b") 4 (omega arith)

put-Agrees_example : Agrees memory_store (Bounded.put memory_store (codes "b") five small).1
put-Agrees_example = put-Agrees memory_store memory_laws small small-Agrees (codes "b") five

-- An upload that overwrites the object by two bytes.
abbrev overwriting : BoundedWriteSession (Bytes × Bytes)
overwriting = record {
  inner = (codes "a", []);
  path = codes "a";
  previous_size = some 5;
  finalized = false;
  bytes_written = 0;
}

overwriting_begins :
    (begin_put (some memory_streaming) (codes "a") 2 small).0.session ≡ some overwriting
unfolding begin_put would_fit total_bytes size_of object_size find equals
overwriting_begins = refl

abort_restores_example :
    size_of
      (codes "a")
      (abort memory_streaming
        (write_all memory_streaming
          (codes "xy" ∷ [])
          overwriting
          (begin_put (some memory_streaming) (codes "a") 2 small).1).0
        (write_all memory_streaming
          (codes "xy" ∷ [])
          overwriting
          (begin_put (some memory_streaming) (codes "a") 2 small).1).1).1
    ≡ size_of (codes "a") small
abort_restores_example =
    abort_restores memory_streaming small (codes "a") 2 overwriting (codes "xy" ∷ [])
      overwriting_begins (codes "a")

finish_sizes_example :
    let r =
      finish memory_streaming
        (write_all memory_streaming
          (codes "xy" ∷ [])
          overwriting
          (begin_put (some memory_streaming) (codes "a") 2 small).1).0
        (write_all memory_streaming
          (codes "xy" ∷ [])
          overwriting
          (begin_put (some memory_streaming) (codes "a") 2 small).1).1 in
    size_of (codes "a") r.2 ≡ finished_size small (codes "a") 2 (codes "a") r.0
finish_sizes_example =
    finish_sizes memory_streaming small (codes "a") 2 overwriting (codes "xy" ∷ [])
      overwriting_begins (codes "a")

would_fit_wraps_example : would_fit (codes "b") (2 ^ 64 - 1) small ≡ true
unfolding ledger size_of object_size find equals
would_fit_wraps_example =
    would_fit_wraps small (codes "b") (2 ^ 64 - 1) small-IsWithin refl (omega arith) (omega arith)

abbrev eight : Bytes
eight = codes "01234567"

overwriting-IsUploading :
    IsUploading small (codes "a") 2 overwriting (upsert_size (codes "a") 2 small)
unfolding size_of object_size find equals ledger upsert_size upsert assign
overwriting-IsUploading = record {
  on_path = refl;
  remembers = refl;
  is_open = refl;
  reserved = refl;
}

a-ne-b : ◌≢◌ {A = Bytes} (codes "a") (codes "b")
unfolding equals
a-ne-b e = let h : false ≡ true = (equals_iff (codes "a") (codes "b")).1 e in cc h

-- Thirteen bytes are counted in a storage for ten.
abort-used_example :
    used (
      ledger
        (abort memory_streaming overwriting
          (Bounded.put memory_store (codes "b") eight (upsert_size (codes "a") 2 small)).1).1)
    ≡ used (ledger small) + 8
unfolding size_of object_size find equals upsert_size upsert assign Bounded.put would_fit
    total_bytes put
abort-used_example =
    abort-used memory_store memory_streaming small (upsert_size (codes "a") 2 small) (codes "a")
      (codes "b") eight 5 2 overwriting overwriting-IsUploading refl refl a-ne-b refl
