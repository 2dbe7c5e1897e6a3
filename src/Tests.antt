-- ===== src/Tests.antt =====
-- Runs of the model on concrete inputs, over the storage in memory with a streaming interface that
-- keeps the bytes of an upload in its session.
pub mod Resp
mod Storage
mod Http
mod App
mod Net
mod Disk
mod Start
use obsto_cpp.Base.{
  ℕ, Bool, true, false, List, [], ◌∷◌, ◌++◌, Option, none, some, length, take, drop,
}
use obsto_cpp.Text.{Bytes}
use obsto_cpp.Storage.{PutResult, ObjectStore, StreamingStore, BeginGetResult}
use obsto_cpp.Storage.Memory.{ObjectStorage, put, get}

abbrev pub found_object : Option Bytes → BeginGetResult Bytes
found_object none = record { found = false; size = 0; session = none }
found_object (some bytes) = record { found = true; size = length bytes; session = some bytes }

abbrev pub next_chunk : Bytes → ℕ → Option Bytes
next_chunk [] n = none
next_chunk (c ∷ s) n = some (take n (c ∷ s))

abbrev pub memory_streaming : StreamingStore ObjectStorage (Bytes × Bytes) Bytes
memory_streaming = record {
  begin_put = λ path size m. (record { status = PutResult.ok; session = some (path, []) }, m);
  begin_get = λ path m. (found_object (get path m), m);
  write_chunk = λ w chunk m. (true, (w.0, w.1 ++ chunk), m);
  finish = λ w m. ((put w.0 w.1 m).0, w, (put w.0 w.1 m).1);
  abort = λ w m. (w, m);
  read_chunk = λ r n m. (next_chunk r n, drop n r, m);
}
