-- ===== src/Storage/Disk/Losses.antt =====
-- DiskObjectStorage::put: bytes that are held back until the stream is destroyed.
use obsto_cpp.Base.{
  ℕ, ◌+◌, ◌≤◌, if_elim, subst, true, false, [], ◌∷◌, append-nil, some, length, take, leb, ◌≡◌, refl,
  sym, ◌∙◌, ap, arith,
}
use obsto_cpp.Text.{Bytes}
use obsto_cpp.Storage.{PutResult}
use obsto_cpp.Storage.Disk.{put, put_opened}
use obsto_cpp.Storage.Disk.Paths.{FilePath, map_path}
use obsto_cpp.Storage.Disk.Files.{
  FileSystem, native, parent_path, bytes_of, past, has_trouble, next_trouble, stream_on, update,
  create_directories, Stream, open_truncated, write_at, write, closed_behind, close, written,
}
use obsto_cpp.Storage.Disk.View.{
  file_at, WellFormed, SameFiles, create_directories-SameFiles, bytes_of-update,
}
use obsto_cpp.Storage.Disk.Writing.{write_at-end}
use obsto_cpp.Storage.Disk.Streams.{OnlyAt, Writes, open_truncated-Opens}

closed_behind-contents :
    (stream : Stream) (fs : FileSystem) (text : Bytes)
    → file_at text (closed_behind (stream, fs)).1 ≡ file_at text fs
closed_behind-contents stream fs text =
    let Same : Stream × FileSystem → Type 0 = λ r. file_at text r.1 ≡ file_at text fs in
    if_elim Same (has_trouble fs) (λ _. refl) (λ _. refl)

abbrev Opened : Bytes → FileSystem → Stream × FileSystem → Type 0
Opened text fs r = OnlyAt text fs r.1 × (r.0.good ≡ true → Writes text r.0 [] r.1)

module _ (text : Bytes) (i k : ℕ) (fs : FileSystem) (w : WellFormed fs)
    (at : Writes text (stream_on i) [] fs) (failing : next_trouble fs.troubles ≡ some k) where
  -- The file is empty, so that what is written is all that it has.
  written-file_at :
      (bytes : Bytes) → file_at text (written (stream_on i) bytes (past fs)) ≡ some bytes
  written-file_at bytes =
      let new : bytes_of i (update i (write_at 0 bytes (bytes_of i fs.contents)) fs.contents)
          ≡ write_at 0 bytes (bytes_of i fs.contents) =
        bytes_of-update i _ fs.contents (w.has_bytes text i at.on_file) in
      let none_old : bytes_of i fs.contents ≡ [] = sym (append-nil _) ∙ at.holds in
      rw (at.on_file) (ap some (new ∙ rw none_old (write_at-end [] bytes)))

  abbrev holding : Bytes → Stream
  holding bytes = record { inode = i; good = true; position = 0; held = bytes }

  closes-file_at :
      (c : ℕ) (rest : Bytes)
      → file_at text (close (holding (c ∷ rest)) fs).1 ≡ some (take k (c ∷ rest))
  unfolding close
  closes-file_at c rest = rw (failing) (
      closed_behind-contents (record { inode = i; good = false; position = 0; held = [] })
        (written (stream_on i) (take k (c ∷ rest)) (past fs)) text
      ∙ written-file_at (take k (c ∷ rest)))

  opened_loses :
      (root : FilePath) (c : ℕ) (rest : Bytes)
      → length (c ∷ rest) ≤ fs.stream_buffer
      → let (r, fs') = put_opened root (c ∷ rest) (stream_on i, fs) in
        (r ≡ PutResult.ok) × (file_at text fs' ≡ some (take k (c ∷ rest)))
  unfolding write
  opened_loses root c rest short =
      let fits : leb (0 + length (c ∷ rest)) fs.stream_buffer ≡ true = ground arith in
      rw (fits) (refl, closes-file_at c rest)

-- Where each file has bytes and one name, the directories are there or are made, the file opens, the
-- bytes fit what a stream holds back, and the next write to the file fails: a put of the bytes answers
-- `Ok`, and the file has only the bytes that were written before the failure.
pub put_loses :
    (root : FilePath) (path : Bytes) (c : ℕ) (rest : Bytes) (target : FilePath)
    (fs made opened : FileSystem) (i k : ℕ)
    → WellFormed fs
    → map_path root path ≡ some target
    → create_directories (parent_path target) fs ≡ (true, made)
    → open_truncated target made ≡ (stream_on i, opened)
    → length (c ∷ rest) ≤ opened.stream_buffer
    → next_trouble opened.troubles ≡ some k
    → let (r, fs') = put root path (c ∷ rest) fs in
      (r ≡ PutResult.ok) × (file_at (native target) fs' ≡ some (take k (c ∷ rest)))
unfolding put
put_loses root path c rest target fs made opened i k wf mapped makes opens short failing =
    let same : SameFiles fs made =
      subst (λ r. SameFiles fs r.1) makes
        (create_directories-SameFiles (parent_path target) fs wf) in
    let (only, writes) =
      subst (Opened (native target) made) opens
        (open_truncated-Opens target made same.well_formed) in
    rw (put, mapped, makes, opens)
      (opened_loses (native target) i k opened only.well_formed (writes refl) failing root c rest
        short)
