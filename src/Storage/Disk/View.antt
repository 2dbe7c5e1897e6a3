-- ===== src/Storage/Disk/View.antt =====
-- The regular files by their paths, and what the operations on the file system do to them.
use obsto_cpp.Base.{
  ℕ, zero, suc, ◌<◌, Bool-cases, List, [], ◌∷◌, ◌++◌, Option, Option-cases, none, some, length, ◌≡◌,
  ◌≢◌, inl, inr, refl, ◌∙◌, ap, arith,
}
use obsto_cpp.Text.{Bytes, equals_iff}
use obsto_cpp.Storage.Table.{find, find-assign}
use obsto_cpp.Storage.Disk.Paths.{FilePath}
use obsto_cpp.Storage.Disk.Files.{
  Node, directory, file, FileSystem, native, bytes_of, update, past, has_trouble, add_node,
  make_directories, create_directories,
}

abbrev pub file_bytes : List Bytes → Option Node → Option Bytes
file_bytes contents none = none
file_bytes contents (some directory) = none
file_bytes contents (some (file i)) = some (bytes_of i contents)

-- the bytes of the regular file at a path, given by its text
abbrev pub file_at : Bytes → FileSystem → Option Bytes
file_at key fs = file_bytes fs.contents (find key fs.nodes)

-- A file has bytes, and one name.
pub record WellFormed (fs : FileSystem) : Type 0 where
  pub has_bytes : (key : Bytes) (i : ℕ) → find key fs.nodes ≡ some (file i) → i < length fs.contents
  pub one_name :
      (key other : Bytes) (i : ℕ)
      → find key fs.nodes ≡ some (file i)
      → find other fs.nodes ≡ some (file i)
      → key ≡ other

pub past-WellFormed : (fs : FileSystem) → WellFormed fs → WellFormed (past fs)
past-WellFormed fs w = record { has_bytes = w.has_bytes; one_name = w.one_name }

pub length-update : (i : ℕ) (b : Bytes) (c : List Bytes) → length (update i b c) ≡ length c
unfolding update
length-update i b [] = refl
length-update zero b (old ∷ c) = refl
length-update (suc i) b (old ∷ c) = ap suc (length-update i b c)

pub bytes_of-update :
    (i : ℕ) (b : Bytes) (c : List Bytes) → i < length c → bytes_of i (update i b c) ≡ b
unfolding update
bytes_of-update i b [] h = elim h [ ]
bytes_of-update zero b (old ∷ c) h = refl
bytes_of-update (suc i) b (old ∷ c) h = bytes_of-update i b c (omega arith)

pub bytes_of-update_other :
    (i j : ℕ) (b : Bytes) (c : List Bytes) → i ≢ j → bytes_of j (update i b c) ≡ bytes_of j c
unfolding update
bytes_of-update_other i j b [] h = refl
bytes_of-update_other zero zero b (old ∷ c) h = absurd (h refl)
bytes_of-update_other zero (suc j) b (old ∷ c) h = refl
bytes_of-update_other (suc i) zero b (old ∷ c) h = refl
bytes_of-update_other (suc i) (suc j) b (old ∷ c) h =
    bytes_of-update_other i j b c (λ e. h (ap suc e))

pub bytes_of-append : (i : ℕ) (c d : List Bytes) → i < length c → bytes_of i (c ++ d) ≡ bytes_of i c
bytes_of-append i [] d h = elim h [ ]
bytes_of-append zero (x ∷ c) d h = refl
bytes_of-append (suc i) (x ∷ c) d h = bytes_of-append i c d (omega arith)

-- A new directory, where nothing was, is no file.
add_directory-file_at :
    (p : FilePath) (fs : FileSystem) (key : Bytes)
    → find (native p) fs.nodes ≡ none
    → file_at key (add_node p directory fs) ≡ file_at key fs
add_directory-file_at p fs key h =
    ground (arith, find-assign (native p) key directory fs.nodes, equals_iff (native p) key)

add_directory-WellFormed :
    (p : FilePath) (fs : FileSystem) → WellFormed fs → WellFormed (add_node p directory fs)
add_directory-WellFormed p fs w = record {
  has_bytes = λ key i e.
      w.has_bytes key i (ground (arith, e, find-assign (native p) key directory fs.nodes));
  one_name = λ key other i e f.
      w.one_name key other i (ground (arith, e, find-assign (native p) key directory fs.nodes))
        (ground (arith, f, find-assign (native p) other directory fs.nodes));
}

-- The files are the same.
pub record SameFiles (fs fs' : FileSystem) : Type 0 where
  pub well_formed : WellFormed fs'
  pub same : (key : Bytes) → file_at key fs' ≡ file_at key fs

SameFiles-trans : (a b c : FileSystem) → SameFiles a b → SameFiles b c → SameFiles a c
SameFiles-trans a b c s t = record {
  well_formed = t.well_formed;
  same = λ key. t.same key ∙ s.same key;
}

make_directories-SameFiles :
    (done rest : FilePath) (fs : FileSystem)
    → WellFormed fs
    → SameFiles fs (make_directories done rest fs).1
unfolding make_directories
make_directories-SameFiles done [] fs w = record { well_formed = w; same = λ key. refl }
make_directories-SameFiles done ([] ∷ rest) fs w = make_directories-SameFiles done rest fs w
make_directories-SameFiles done ((c ∷ name) ∷ rest) fs w =
    let part : Bytes = c ∷ name in
    elim (Option-cases (find (native (done ++ (part ∷ []))) fs.nodes)) [
      | inr (directory, e) ↦
          rw (make_directories, e) (make_directories-SameFiles (done ++ (part ∷ [])) rest fs w)
      | inr (file i, e) ↦ rw (make_directories, e) (record { well_formed = w; same = λ key. refl })
      | inl e ↦ elim (Bool-cases (has_trouble fs)) [
        | inl t ↦
            rw (make_directories, e, t)
              (record { well_formed = past-WellFormed fs w; same = λ key. refl })
        | inr t ↦
            let here : FilePath = done ++ (part ∷ []) in
            let fs' : FileSystem = add_node here directory (past fs) in
            let w' = add_directory-WellFormed here (past fs) (past-WellFormed fs w) in
            rw (make_directories, e, t)
              (SameFiles-trans fs fs' (make_directories here rest fs').1
                (record {
                  well_formed = w';
                  same = λ key. add_directory-file_at here (past fs) key e;
                })
                (make_directories-SameFiles here rest fs' w'))
      ]
    ]

-- Making directories leaves the files as they are, where it succeeds and where it fails.
pub create_directories-SameFiles :
    (p : FilePath) (fs : FileSystem) → WellFormed fs → SameFiles fs (create_directories p fs).1
unfolding create_directories
create_directories-SameFiles [] fs w = record { well_formed = w; same = λ key. refl }
create_directories-SameFiles (part ∷ rest) fs w = make_directories-SameFiles [] (part ∷ rest) fs w
