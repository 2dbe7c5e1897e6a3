-- ===== src/Storage/Disk/Reading.antt =====
-- DiskObjectStorage::beginGet and Streaming/DiskReadSession.cpp: a file read to its end.
use obsto_cpp.Base.{
  ℕ, zero, suc, ◌≤◌, ◌<◌, none, ◌==◌, Bool, Bool-cases, true, false, [], ◌∷◌, ◌++◌, append_assoc,
  if◌then◌else◌, some, length, take, drop, drop-length, length-append, ◌≡◌, refl, sym, ◌∙◌, ap,
  arith, inl, inr,
}
use obsto_cpp.Text.{Bytes}
use obsto_cpp.Storage.Chunks.{Chunks, end, chunk, ChunksFit}
use obsto_cpp.Storage.Disk.Calm.{IsCalm, no_trouble, calm_is_past}
use obsto_cpp.Storage.Disk.Sessions.{DiskReadSession, begin_get, read_chunk, disk_streaming}
use obsto_cpp.Storage.Disk.Paths.{FilePath, map_path}
use obsto_cpp.Storage.Disk.Files.{
  FileSystem, file, of_file, node_at, bytes_of, open_to_read, status,
}

take_then_drop : (n : ℕ) (s : Bytes) → s ≡ take n s ++ drop n s
take_then_drop zero s = refl
take_then_drop (suc n) [] = refl
take_then_drop (suc n) (c ∷ s) = ap (λ t. c ∷ t) (take_then_drop n s)

short_take : (n : ℕ) (s : Bytes) → (length (take n s) == n) ≡ false → drop n s ≡ []
short_take zero s h = cc
short_take (suc n) [] h = refl
short_take (suc n) (c ∷ s) h = short_take n s (ground (arith, h))

length-drop-suc : (n : ℕ) (c : ℕ) (s : Bytes) → length (drop (suc n) (c ∷ s)) ≤ length s
length-drop-suc zero c s = omega arith
length-drop-suc (suc n) c [] = omega arith
length-drop-suc (suc n) c (d ∷ s) = let h = length-drop-suc n d s in omega arith

-- of the bytes `front ++ rest`, the first ones are read
abbrev session_at : ℕ → ℕ → Bool → DiskReadSession
session_at i position stop = record { source = of_file i; position = position; at_end = stop }

length-take : (n : ℕ) (s : Bytes) → length (take n s) ≤ n
length-take zero s = omega arith
length-take (suc n) [] = omega arith
length-take (suc n) (c ∷ s) = let h = length-take n s in omega arith

module _ (i : ℕ) (fs : FileSystem) (calm : IsCalm fs) where
  -- `rest` is what is left of the file
  abbrev Left : Bytes → Bytes → Type 0
  Left front rest = bytes_of i fs.contents ≡ front ++ rest

  read_more :
      (n c : ℕ) (front rest : Bytes)
      → Left front (c ∷ rest)
      → let got = take (suc n) (c ∷ rest) in
        read_chunk (session_at i (length front) false) (suc n) fs ≡ (
          some got,
          session_at i (length (front ++ got)) (if length got == suc n then false else true),
          fs,
        )
  unfolding read_chunk
  read_more n c front rest left =
      let at : drop (length front) (bytes_of i fs.contents) ≡ c ∷ rest =
        ap (drop (length front)) left ∙ drop-length front (c ∷ rest) in
      rw (no_trouble fs calm, at, length-append front (c ∷ take n rest), calm_is_past fs calm) refl

  read_none :
      (n : ℕ) (front : Bytes)
      → Left front []
      → read_chunk (session_at i (length front) false) n fs
        ≡ (none, session_at i (length front) true, fs)
  unfolding read_chunk
  read_none n front left =
      let at : drop (length front) (bytes_of i fs.contents) ≡ [] =
        ap (drop (length front)) left ∙ drop-length front [] in
      rw (no_trouble fs calm, at, calm_is_past fs calm) refl

  abbrev Gives : FilePath → ℕ → Bytes → Type 0
  Gives root position rest =
      (cs : Chunks (disk_streaming root) (session_at i position false) fs rest fs) × ChunksFit cs

  reads-Left :
      (root : FilePath) (fuel : ℕ) (front rest : Bytes)
      → length rest ≤ fuel
      → Left front rest
      → Gives root (length front) rest
  unfolding read_chunk
  reads-Left root fuel front [] short left =
      (end {r' = session_at i (length front) true} {s' = fs} (read_none 65536 front left), tt)
  reads-Left root zero front (c ∷ rest) short left = elim short [ ]
  reads-Left root (suc fuel) front (c ∷ rest) short left =
      let got : Bytes = take (suc 65535) (c ∷ rest) in
      let later : Bytes = drop (suc 65535) (c ∷ rest) in
      let whole : c ∷ rest ≡ got ++ later = take_then_drop (suc 65535) (c ∷ rest) in
      let left' : Left (front ++ got) later =
        left ∙ ap (λ b. front ++ b) whole ∙ sym (append_assoc front got later) in
      let some_bytes : 0 < length got = omega arith in
      let fits : length got ≤ suc 65535 = length-take (suc 65535) (c ∷ rest) in
      let read = read_more 65535 c front rest left in
      elim (Bool-cases (length got == suc 65535)) [
        | inl full ↦
            let (cs, fit) =
              reads-Left root fuel (front ++ got) later
                (omega (arith, length-drop-suc 65535 c rest)) left' in
            (
              chunk {r' = session_at i (length (front ++ got)) false} (rw full at read) cs whole,
              (some_bytes, fits, fit),
            )
        | inr part ↦
            let all : later ≡ [] = short_take (suc 65535) (c ∷ rest) part in
            (
              chunk {r' = session_at i (length (front ++ got)) true} {rest = []} (rw part at read)
                  (end {r' = session_at i (length (front ++ got)) true} refl)
                  (whole ∙ ap (λ b. got ++ b) all),
              (some_bytes, fits, tt),
            )
      ]

opened :
    (target : FilePath) (i : ℕ) (fs : FileSystem)
    → node_at target fs ≡ some (file i)
    → IsCalm fs
    → open_to_read target fs ≡ (of_file i, fs)
unfolding open_to_read
opened target i fs at calm = rw (no_trouble fs calm, at, calm_is_past fs calm) refl

looked_at :
    (target : FilePath) (i : ℕ) (fs : FileSystem)
    → node_at target fs ≡ some (file i)
    → IsCalm fs
    → status target fs ≡ (some (file i), fs)
unfolding status
looked_at target i fs at calm = rw (no_trouble fs calm, at, calm_is_past fs calm) refl

-- Where a key is mapped to a regular file, no operation on the file system fails for a reason outside,
-- and nothing else happens meanwhile: the object is found, with the length of the file, and its read
-- session gives the bytes of the file, to the end, in chunks of at least one byte and at most 64 KiB.
pub file_is_read :
    (root : FilePath) (path : Bytes) (target : FilePath) (i : ℕ) (fs : FileSystem)
    → map_path root path ≡ some target
    → node_at target fs ≡ some (file i)
    → fs.troubles ≡ []
    → (r : DiskReadSession) × (begin_get root path fs
        ≡ (record { found = true; size = length (bytes_of i fs.contents); session = some r }, fs))
      × (cs : Chunks (disk_streaming root) r fs (bytes_of i fs.contents) fs) × ChunksFit cs
unfolding begin_get
file_is_read root path target i fs mapped at calm =
    let looked = looked_at target i fs at calm in
    let opens = opened target i fs at calm in
    let (cs, fit) =
      reads-Left i fs calm root (length (bytes_of i fs.contents)) [] (bytes_of i fs.contents)
        (omega arith) refl in
    (
      session_at i 0 false,
      rw (begin_get, mapped, looked, looked, no_trouble fs calm, calm_is_past fs calm, opens) refl,
      cs,
      fit,
    )
