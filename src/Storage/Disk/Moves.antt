-- ===== src/Storage/Disk/Moves.antt =====
-- Removing and renaming a file, and the other files.
use obsto_cpp.Base.{
  ℕ, ◌+◌, Bool, Bool-cases, true, false, [], ◌∷◌, ◌++◌, if◌then◌else◌, if_elim, Option, none, some,
  length, ◌≡◌, ◌≢◌, inl, inr, refl, ap, arith, length-append,
}
use obsto_cpp.Text.{Bytes, codes, equals, equals_iff}
use obsto_cpp.Storage.Table.{find, find-assign, find-erase}
use obsto_cpp.Storage.Disk.Paths.{FilePath, slash}
use obsto_cpp.Storage.Disk.Files.{
  Node, directory, file, FileSystem, native, plus_tmp, is_slashed, text_at, node_at, past,
  has_trouble, add_node, erase_node, has_children, removed, remove, renamed, rename, bytes_of,
}
use obsto_cpp.Storage.Disk.View.{file_at}

pub plus_tmp-is_slashed : (p : FilePath) → is_slashed (plus_tmp p) ≡ false
unfolding plus_tmp is_slashed
plus_tmp-is_slashed [] = refl
plus_tmp-is_slashed ([] ∷ []) = refl
plus_tmp-is_slashed ((c ∷ part) ∷ []) = refl
plus_tmp-is_slashed (part ∷ [] ∷ []) = refl
plus_tmp-is_slashed (part ∷ (c ∷ other) ∷ []) = refl
plus_tmp-is_slashed (part ∷ other ∷ next ∷ rest) = plus_tmp-is_slashed (other ∷ next ∷ rest)

slash_text : Bytes → Bytes → Bytes
slash_text part text = if equals part slash then part ++ text else part ++ (b'/' ∷ text)

length-slash_text :
    (part longer text : Bytes)
    → length longer ≡ length text + 4
    → length (slash_text part longer) ≡ length (slash_text part text) + 4
unfolding slash_text
length-slash_text part longer text h = ground (
  arith,
  h,
  length-append part longer,
  length-append part text,
  length-append part (b'/' ∷ longer),
  length-append part (b'/' ∷ text),
)

-- The temporary name is longer than the name of the object.
native-plus_tmp :
    (part : Bytes) (p : FilePath)
    → length (native (plus_tmp (part ∷ p))) ≡ length (native (part ∷ p)) + 4
unfolding plus_tmp native slash_text
native-plus_tmp part [] = length-append part (codes ".tmp")
native-plus_tmp part (other ∷ []) =
    length-slash_text part (other ++ codes ".tmp") other (length-append other (codes ".tmp"))
native-plus_tmp part (other ∷ next ∷ rest) =
    length-slash_text part (native (plus_tmp (other ∷ next ∷ rest))) (native (other ∷ next ∷ rest))
      (native-plus_tmp other (next ∷ rest))

-- The temporary file is not the object's file.
pub temp-apart : (p : FilePath) → native p ≢ native (plus_tmp p)
unfolding plus_tmp native
temp-apart [] e = let same : ◌≡◌ {A = ℕ} 0 4 = ap (λ (s : Bytes). length s) e in omega arith
temp-apart (part ∷ p) e =
    let longer = native-plus_tmp part p in
    let same : length (native (part ∷ p)) ≡ length (native (plus_tmp (part ∷ p))) = ap length e in
    omega arith

module _ (p : FilePath) (fs : FileSystem) (unslashed : is_slashed p ≡ false) (key : Bytes)
    (other : key ≢ native p) where
  apart : equals (native p) key ≡ false
  apart = ground (arith, equals_iff (native p) key)

  erase_node-others : file_at key (erase_node p fs) ≡ file_at key fs
  unfolding text_at
  erase_node-others = rw (unslashed, find-erase (native p) key fs.nodes, apart) refl

  removed-others : (node : Option Node) → file_at key (removed p node fs).1 ≡ file_at key fs
  removed-others none = refl
  removed-others (some (file i)) = erase_node-others
  removed-others (some directory) =
      let Same : Bool × FileSystem → Type 0 = λ r. file_at key r.1 ≡ file_at key fs in
      if_elim Same (has_children (text_at p) fs.nodes) (λ _. refl) (λ _. erase_node-others)

-- Removing a file leaves the others.
pub remove-others :
    (p : FilePath) (fs : FileSystem)
    → is_slashed p ≡ false
    → (key : Bytes) → key ≢ native p
    → file_at key (remove p fs).1 ≡ file_at key fs
unfolding remove
remove-others p fs unslashed key other =
    let Same : Bool × FileSystem → Type 0 = λ r. file_at key r.1 ≡ file_at key fs in
    if_elim Same (has_trouble fs) (λ _. refl)
      (λ _. removed-others p (past fs) unslashed key other (node_at p (past fs)))

-- What a move of the file with these bytes does to the other files.
abbrev pub MovesTo : FilePath → Bytes → FileSystem → Bytes → Bool × FileSystem → Type 0
MovesTo q bytes fs key r = file_at key r.1 ≡ (
    if r.0 then (if equals (native q) key then some bytes else file_at key fs) else file_at key fs)

module _ (p q : FilePath) (fs : FileSystem) (i : ℕ) (unslashed : is_slashed p ≡ false)
    (at : find (native p) fs.nodes ≡ some (file i)) (key : Bytes) (other : key ≢ native p) where
  moved-others :
      MovesTo q (bytes_of i fs.contents) fs key (true, add_node q (file i) (erase_node p fs))
  moved-others = elim (Bool-cases (equals (native q) key)) [
    | inl e ↦ rw (find-assign (native q) key (file i) (erase_node p fs).nodes, e) refl
    | inr e ↦
        rw (find-assign (native q) key (file i) (erase_node p fs).nodes, e)
          (erase_node-others p fs unslashed key other)
  ]

  renamed-others :
      (there : Option Node)
      → MovesTo q (bytes_of i fs.contents) fs key (renamed p q (some (file i)) there fs)
  renamed-others none = moved-others
  renamed-others (some (file j)) = moved-others
  renamed-others (some directory) = refl

-- A rename of a file gives its bytes to the new name, or changes nothing.
pub rename-others :
    (p q : FilePath) (fs : FileSystem) (i : ℕ)
    → is_slashed p ≡ false
    → find (native p) fs.nodes ≡ some (file i)
    → (key : Bytes) → key ≢ native p
    → MovesTo q (bytes_of i fs.contents) fs key (rename p q fs)
unfolding rename node_at text_at
rename-others p q fs i unslashed at key other =
    if_elim (MovesTo q (bytes_of i fs.contents) fs key) (has_trouble fs) (λ _. refl)
      λ _.
        if_elim (MovesTo q (bytes_of i fs.contents) fs key) (is_slashed q) (λ _. refl)
          λ _.
            rw (unslashed, at)
              (renamed-others p q (past fs) i unslashed at key other (node_at q (past fs)))
