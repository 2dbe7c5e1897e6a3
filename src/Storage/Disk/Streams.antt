-- ===== src/Storage/Disk/Streams.antt =====
-- A stream that is opened to write a file, and the other files.
use obsto_cpp.Base.{
  ℕ, Bool-cases, true, false, List, [], ◌∷◌, ◌++◌, append-nil, sym, if◌then◌else◌, if_elim, Option,
  Option-cases, none, some, length, length-append, ◌≡◌, ◌≢◌, inl, inr, refl, ◌∙◌, ap, arith,
}
use obsto_cpp.Text.{Bytes, equals, equals_iff, equals_refl}
use obsto_cpp.Storage.Table.{find, find-assign}
use obsto_cpp.Storage.Disk.Paths.{FilePath}
use obsto_cpp.Storage.Disk.Files.{
  Node, directory, file, FileSystem, native, parent_path, is_slashed, text_at, node_at, bytes_of,
  set_bytes, past, has_trouble, Stream, bad_stream, new_file, truncated, open_truncated,
}
use obsto_cpp.Storage.Disk.View.{
  file_at, WellFormed, past-WellFormed, length-update, bytes_of-update, bytes_of-update_other,
  bytes_of-append,
}

-- All files but one are the same.
pub record OnlyAt (text : Bytes) (fs fs' : FileSystem) : Type 0 where
  pub well_formed : WellFormed fs'
  pub others : (key : Bytes) → key ≢ text → file_at key fs' ≡ file_at key fs

pub unchanged-OnlyAt : (text : Bytes) (fs : FileSystem) → WellFormed fs → OnlyAt text fs (past fs)
unchanged-OnlyAt text fs w = record { well_formed = past-WellFormed fs w; others = λ key h. refl }

pub OnlyAt-trans :
    (text : Bytes) (a b c : FileSystem) → OnlyAt text a b → OnlyAt text b c → OnlyAt text a c
OnlyAt-trans text a b c s t = record {
  well_formed = t.well_formed;
  others = λ key h. t.others key h ∙ s.others key h;
}

module _ (text : Bytes) (fs : FileSystem) (w : WellFormed fs) where
  set_bytes-others :
      (i : ℕ) (b : Bytes) (key : Bytes)
      → find text fs.nodes ≡ some (file i)
      → key ≢ text
      → file_at key (set_bytes i b fs) ≡ file_at key fs
  set_bytes-others i b key at other = elim (Option-cases (find key fs.nodes)) [
    | inl e ↦ rw e refl
    | inr (directory, e) ↦ rw e refl
    | inr (file j, e) ↦ rw e (
        ap some (
          bytes_of-update_other i j b fs.contents
            (λ same. other (w.one_name key text j e (at ∙ ap (λ k. some (file k)) same)))))
  ]

  pub set_bytes-OnlyAt :
      (i : ℕ) (b : Bytes) → find text fs.nodes ≡ some (file i) → OnlyAt text fs (set_bytes i b fs)
  set_bytes-OnlyAt i b at = record {
    well_formed = record {
      has_bytes = λ key j e. rw (length-update i b fs.contents) (w.has_bytes key j e);
      one_name = w.one_name;
    };
    others = λ key other. set_bytes-others i b key at other;
  }

-- The stream is at the end of its file: these bytes are what the file has, and what is held back.
pub record Writes (text : Bytes) (stream : Stream) (bytes : Bytes) (fs : FileSystem) : Type 0 where
  pub on_file : find text fs.nodes ≡ some (file stream.inode)
  pub holds : bytes_of stream.inode fs.contents ++ stream.held ≡ bytes
  pub at_end : stream.position ≡ length (bytes_of stream.inode fs.contents)

bytes_of-last : (contents : List Bytes) → bytes_of (length contents) (contents ++ ([] ∷ [])) ≡ []
bytes_of-last [] = refl
bytes_of-last (b ∷ contents) = bytes_of-last contents

module _ (p : FilePath) (fs : FileSystem) (w : WellFormed fs) where
  abbrev Opens : Stream × FileSystem → Type 0
  Opens r = OnlyAt (native p) fs r.1 × (r.0.good ≡ true → Writes (native p) r.0 [] r.1)

  new_file-find :
      (key : Bytes)
      → find key (new_file p fs).1.nodes
        ≡ (if equals (native p) key then some (file (length fs.contents)) else find key fs.nodes)
  new_file-find key = find-assign (native p) key (file (length fs.contents)) fs.nodes

  new_file-WellFormed : WellFormed (new_file p fs).1
  new_file-WellFormed = record {
    has_bytes = λ key i e.
        ground
          (arith, e, new_file-find key, w.has_bytes key i, length-append fs.contents ([] ∷ []));
    one_name = λ key other i e f. ground (
      arith,
      e,
      f,
      new_file-find key,
      new_file-find other,
      w.has_bytes key i,
      w.has_bytes other i,
      w.one_name key other i,
      equals_iff (native p) key,
      equals_iff (native p) other,
    );
  }

  new_file-others : (key : Bytes) → key ≢ native p → file_at key (new_file p fs).1 ≡ file_at key fs
  new_file-others key other =
      let apart : equals (native p) key ≡ false = ground (arith, equals_iff (native p) key) in
      elim (Option-cases (find key fs.nodes)) [
        | inl e ↦ rw (new_file-find key, apart, e) refl
        | inr (directory, e) ↦ rw (new_file-find key, apart, e) refl
        | inr (file j, e) ↦
            rw (new_file-find key, apart, e)
              (ap some (bytes_of-append j fs.contents ([] ∷ []) (w.has_bytes key j e)))
      ]

  new_file-Opens : Opens (new_file p fs)
  new_file-Opens = (
    record { well_formed = new_file-WellFormed; others = new_file-others },
    λ good. record {
      on_file = rw (new_file-find (native p), equals_refl (native p)) refl;
      holds = append-nil _ ∙ bytes_of-last fs.contents;
      at_end = sym (ap (λ (b : Bytes). length b) (bytes_of-last fs.contents));
    },
  )

  bad-Opens : Opens (bad_stream, fs)
  bad-Opens = (record { well_formed = w; others = λ key h. refl }, λ good. cc)

  truncated-Opens :
      (node above : Option Node)
      → find (native p) fs.nodes ≡ node
      → Opens (truncated p node above fs)
  truncated-Opens (some directory) above at = bad-Opens
  truncated-Opens (some (file i)) above at = (
    set_bytes-OnlyAt (native p) fs w i [] at,
    λ good. record {
      on_file = at;
      holds = append-nil _ ∙ bytes_of-update i [] fs.contents (w.has_bytes (native p) i at);
      at_end = sym (
          ap (λ (b : Bytes). length b)
            (bytes_of-update i [] fs.contents (w.has_bytes (native p) i at)));
    },
  )
  truncated-Opens none (some directory) at = new_file-Opens
  truncated-Opens none (some (file i)) at = bad-Opens
  truncated-Opens none none at = bad-Opens

open_past :
    (p : FilePath) (fs : FileSystem) (w : WellFormed fs)
    → Opens p (past fs) (past-WellFormed fs w) (open_truncated p fs)
unfolding open_truncated node_at text_at
open_past p fs w =
    let w' = past-WellFormed fs w in
    let Fine : Stream × FileSystem → Type 0 =
      λ r. OnlyAt (native p) (past fs) r.1 × (r.0.good ≡ true → Writes (native p) r.0 [] r.1) in
    if_elim Fine (has_trouble fs) (λ _. bad-Opens p (past fs) w')
      λ _. elim (Bool-cases (is_slashed p)) [
        | inl e ↦ rw e (bad-Opens p (past fs) w')
        | inr e ↦ rw e (
            truncated-Opens p (past fs) w' (find (native p) fs.nodes)
              (node_at (parent_path p) (past fs)) refl)
      ]

pub from_past :
    (text : Bytes) (fs fs' : FileSystem) → OnlyAt text (past fs) fs' → OnlyAt text fs fs'
from_past text fs fs' o = record { well_formed = o.well_formed; others = o.others }

-- Opening a stream to write changes at most the file that it opens; if the stream is good, that file
-- is there and empty.
pub open_truncated-Opens :
    (p : FilePath) (fs : FileSystem)
    → WellFormed fs
    → let (stream, fs') = open_truncated p fs in
      OnlyAt (native p) fs fs' × (stream.good ≡ true → Writes (native p) stream [] fs')
open_truncated-Opens p fs w =
    let (only, writes) = open_past p fs w in
    (from_past (native p) fs (open_truncated p fs).1 only, writes)
