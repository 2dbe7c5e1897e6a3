-- ===== src/Storage/Chunks.antt =====
-- What a read session gives until it gives no more.
use obsto_cpp.Base.{length, ◌<◌, ◌≤◌, ◌++◌, [], none, some, ◌≡◌}
use obsto_cpp.Text.{Bytes}
use obsto_cpp.Storage.{StreamingStore, k_read_chunk_size}

pub data Chunks {S W R : Type 0} (st : StreamingStore S W R) : R → S → Bytes → S → Type 0 where
  end :
      {r r' : R} {s s' : S}
      → st.read_chunk r k_read_chunk_size s ≡ (none, r', s')
      → Chunks st r s [] s'
  chunk :
      {r r' : R} {s s1 s' : S} {c rest bytes : Bytes}
      → st.read_chunk r k_read_chunk_size s ≡ (some c, r', s1)
      → Chunks st r' s1 rest s'
      → bytes ≡ c ++ rest
      → Chunks st r s bytes s'

-- Each chunk has a byte at least, and at most as many as are asked for.
abbrev pub ChunksFit :
    {S W R : Type 0} {st : StreamingStore S W R} {r : R} {s s' : S} {bytes : Bytes}
    → Chunks st r s bytes s'
    → Type 0
ChunksFit (end e) = Unit {0}
ChunksFit (chunk {c = c} e later whole) =
    (0 < length c) × (length c ≤ k_read_chunk_size) × ChunksFit later
