-- ===== src/Storage/Disk/Puts.antt =====
-- DiskObjectStorage::put: what it writes, and what it leaves.
use obsto_cpp.Base.{
  ℕ, Bool, Bool-cases, true, false, [], if_elim, Option, none, some, ◌≡◌, refl, sym, ◌∙◌, ap, inl,
  inr,
}
use obsto_cpp.Text.{Bytes}
use obsto_cpp.Storage.{PutResult}
use obsto_cpp.Storage.Table.{find}
use obsto_cpp.Storage.Disk.{put, put_at, put_opened, put_written, get, source_bytes}
use obsto_cpp.Storage.Disk.Paths.{FilePath, map_path}
use obsto_cpp.Storage.Disk.Files.{
  Node, directory, file, FileSystem, native, is_slashed, text_at, node_at, source_at, open_to_read,
  parent_path, past, has_trouble, create_directories, Stream, open_truncated, write, close,
}
use obsto_cpp.Storage.Disk.View.{file_at, file_bytes, WellFormed, create_directories-SameFiles}
use obsto_cpp.Storage.Disk.Streams.{OnlyAt, OnlyAt-trans, open_truncated-Opens}
use obsto_cpp.Storage.Disk.Writing.{WritesIfGood, write-OnlyAt, close-OnlyAt, Stored}
use obsto_cpp.Storage.Disk.Calm.{
  IsCalm, past-IsCalm, no_trouble, none_next, create_directories-IsCalm, open_truncated-IsCalm,
  write-Succeeds, close-Succeeds,
}

-- At most the file with this text has changed, and where nothing fails and the answer is `ok`, it has
-- the bytes.
abbrev HasPut : Bytes → Bytes → FileSystem → PutResult × FileSystem → Type 0
HasPut text bytes before r =
    OnlyAt text before r.1
    × (IsCalm before → IsCalm r.1 × (r.0 ≡ PutResult.ok → file_at text r.1 ≡ some bytes))

Stored-file_at :
    (text : Bytes) (i : ℕ) (bytes : Bytes) (fs : FileSystem)
    → Stored text i bytes fs
    → file_at text fs ≡ some bytes
Stored-file_at text i bytes fs at = rw (at.on_file) (ap some at.holds)

module _ (root : FilePath) (text bytes : Bytes) where
  put_written-HasPut :
      (stream : Stream) (fs : FileSystem)
      → WellFormed fs
      → WritesIfGood text stream bytes fs
      → HasPut text bytes fs (put_written root (stream, fs))
  put_written-HasPut stream fs w writes =
      let (only, stored) = close-OnlyAt text fs w stream bytes writes in
      let (closed_stream, fs') = close stream fs in
      let Done : PutResult → Type 0 = λ r. HasPut text bytes fs (r, fs') in
      if_elim Done stream.good
        (λ good. (
          only,
          λ calm.
              let (still, later) = close-Succeeds stream fs calm in
              (
                later,
                λ _. Stored-file_at text closed_stream.inode bytes fs' (stored (still ∙ good)),
              ),
        ))
        (λ bad. (only, λ calm. ((close-Succeeds stream fs calm).1, λ e. cc)))

  -- The changes before, and what is put behind them.
  HasPut-behind :
      (before fs : FileSystem) (r : PutResult × FileSystem)
      → OnlyAt text before fs
      → (IsCalm before → IsCalm fs)
      → HasPut text bytes fs r
      → HasPut text bytes before r
  HasPut-behind before fs r only keeps (later, puts) =
      (OnlyAt-trans text before fs r.1 only later, λ calm. puts (keeps calm))

  put_opened-HasPut :
      (stream : Stream) (fs : FileSystem)
      → WellFormed fs
      → WritesIfGood text stream [] fs
      → HasPut text bytes fs (put_opened root bytes (stream, fs))
  put_opened-HasPut stream fs w writes =
      if_elim (HasPut text bytes fs) stream.good
        (λ good.
          let (only, writes') = write-OnlyAt text fs w stream [] bytes writes in
          let (stream', fs') = write stream bytes fs in
          HasPut-behind fs fs' (put_written root (stream', fs')) only
            (λ calm. (write-Succeeds stream bytes fs calm).1)
            (put_written-HasPut stream' fs' only.well_formed writes'))
        (λ bad. (record { well_formed = w; others = λ key h. refl }, λ calm. (calm, λ e. cc)))

put_at-HasPut :
    (root target : FilePath) (bytes : Bytes) (r : Bool × FileSystem)
    → WellFormed r.1
    → HasPut (native target) bytes r.1 (put_at root target bytes r)
put_at-HasPut root target bytes (false, fs) w =
    (record { well_formed = w; others = λ key h. refl }, λ calm. (calm, λ e. cc))
put_at-HasPut root target bytes (true, fs) w =
    let (only, writes) = open_truncated-Opens target fs w in
    let (stream, fs') = open_truncated target fs in
    HasPut-behind root (native target) bytes fs fs' (put_opened root bytes (stream, fs')) only
      (open_truncated-IsCalm target fs)
      (put_opened-HasPut root (native target) bytes stream fs' only.well_formed writes)

put-HasPut :
    (root : FilePath) (path bytes : Bytes) (target : FilePath) (fs : FileSystem)
    → WellFormed fs
    → map_path root path ≡ some target
    → HasPut (native target) bytes fs (put root path bytes fs)
unfolding put
put-HasPut root path bytes target fs wf mapped =
    let made = create_directories (parent_path target) fs in
    let same = create_directories-SameFiles (parent_path target) fs wf in
    rw (put, mapped)
      (HasPut-behind root (native target) bytes fs made.1 (put_at root target bytes made)
        (record { well_formed = same.well_formed; others = λ key h. same.same key })
        (create_directories-IsCalm (parent_path target) fs)
        (put_at-HasPut root target bytes made same.well_formed))

put_opened-bad :
    (root : FilePath) (bytes : Bytes) (r : Stream × FileSystem)
    → r.0.good ≡ false
    → (put_opened root bytes r).0 ≡ PutResult.invalid_path
put_opened-bad root bytes (stream, fs) bad = rw (bad) refl

slashed_opens_bad :
    (p : FilePath) (fs : FileSystem) → is_slashed p ≡ true → (open_truncated p fs).0.good ≡ false
unfolding open_truncated
slashed_opens_bad p fs slashed =
    let Bad : Stream × FileSystem → Type 0 = λ r. r.0.good ≡ false in
    if_elim Bad (has_trouble fs) (λ _. refl) (λ _. rw (slashed) refl)

put_at-slashed :
    (root target : FilePath) (bytes : Bytes) (r : Bool × FileSystem)
    → is_slashed target ≡ true
    → (put_at root target bytes r).0 ≡ PutResult.invalid_path
put_at-slashed root target bytes (false, fs) slashed = refl
put_at-slashed root target bytes (true, fs) slashed =
    put_opened-bad root bytes (open_truncated target fs) (slashed_opens_bad target fs slashed)

put-slashed :
    (root : FilePath) (path bytes : Bytes) (target : FilePath) (fs : FileSystem)
    → map_path root path ≡ some target
    → is_slashed target ≡ true
    → (put root path bytes fs).0 ≡ PutResult.invalid_path
unfolding put
put-slashed root path bytes target fs mapped slashed =
    rw (put, mapped)
      (put_at-slashed root target bytes (create_directories (parent_path target) fs) slashed)

read_bytes :
    (root : FilePath) (node : Option Node) (bytes : Bytes) (fs : FileSystem)
    → IsCalm fs
    → file_bytes fs.contents node ≡ some bytes
    → source_bytes root (source_at node, fs) ≡ some bytes
read_bytes root none bytes fs calm h = cc
read_bytes root (some directory) bytes fs calm h = cc
read_bytes root (some (file i)) bytes fs calm h = rw (none_next fs calm) h

-- Where each file has bytes and one name, and no operation on the file system fails for a reason
-- outside: if a put answers `Ok`, a get of the same key gives the bytes that were put.
pub get-put :
    (root : FilePath) (path bytes : Bytes) (target : FilePath) (fs : FileSystem)
    → WellFormed fs
    → map_path root path ≡ some target
    → fs.troubles ≡ []
    → (put root path bytes fs).0 ≡ PutResult.ok
    → get root path (put root path bytes fs).1 ≡ some bytes
unfolding get open_to_read node_at text_at
get-put root path bytes target fs wf mapped calm done =
    let (only, puts) = put-HasPut root path bytes target fs wf mapped in
    let (later, stored) = puts calm in
    let fs' = (put root path bytes fs).1 in
    elim (Bool-cases (is_slashed target)) [
      | inl slashed ↦
          let refused : (put root path bytes fs).0 ≡ PutResult.invalid_path =
            put-slashed root path bytes target fs mapped slashed in
          let never : PutResult.ok ≡ PutResult.invalid_path = sym done ∙ refused in cc
      | inr unslashed ↦
          rw (get, mapped, no_trouble fs' later, unslashed)
            (read_bytes root (find (native target) fs'.nodes) bytes (past fs')
              (past-IsCalm fs' later) (stored done))
    ]
