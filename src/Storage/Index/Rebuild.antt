-- ===== src/Storage/Index/Rebuild.antt =====
-- Core/Storage/Persistency/StoragePersistency.cpp: the index made anew from the files below the root.
-- The walk goes through the nodes of the file system in their order, and has no trouble: no directory
-- is unreadable and no file size is unknown.
use obsto_cpp.Base.{ℕ, ◌||◌, List, [], ◌∷◌, if◌then◌else◌, Option, none, some, length}
use obsto_cpp.Text.{Bytes, equals}
use obsto_cpp.Storage.Table.{Table, find, assign}
use obsto_cpp.Storage.Index.{Index, add64}
use obsto_cpp.Storage.Disk.{is_there, is_temp_file, relative_key}
use obsto_cpp.Storage.Disk.Paths.{FilePath, dot, path_of, has_dot_dot, lexically_normal}
use obsto_cpp.Storage.Disk.Files.{
  Node, directory, file, FileSystem, native, node_at, bytes_of, create_directories,
}

-- `toRelativeKey`, behind `std::filesystem::relative`
abbrev pub normal_key : Bytes → Option Bytes
normal_key relative =
    let normalized = lexically_normal (path_of relative) in
    if equals (native normalized) dot || has_dot_dot normalized
    then none
    else some (native normalized)

unfoldable pub to_relative_key : FilePath → Bytes → Option Bytes
to_relative_key root text = elim (relative_key root text) [
  | none ↦ none
  | some relative ↦ normal_key relative
]

abbrev pub sized : ℕ → Option Bytes → Option (Bytes × ℕ)
sized size none = none
sized size (some key) = some (key, size)

-- the key and the size of a file that the loop comes to, if it is to be counted
abbrev pub indexed : FilePath → List Bytes → Bytes → Node → Option (Bytes × ℕ)
indexed root contents text directory = none
indexed root contents text (file i) =
    if is_temp_file text
    then none
    else sized (length (bytes_of i contents)) (to_relative_key root text)

-- `m_sizes.emplace`, which leaves a key that is there, and the sum
abbrev pub emplaced : ℕ → Bytes → Table ℕ → Option ℕ → Table ℕ
emplaced size key sizes none = assign key size sizes
emplaced size key sizes (some old) = sizes

abbrev pub emplace : Option (Bytes × ℕ) → Index → Index
emplace none i = i
emplace (some (key, size)) i = record {
  sizes = emplaced size key i.sizes (find key i.sizes);
  total_bytes = add64 i.total_bytes size;
}

unfoldable pub rebuild_from : FilePath → List Bytes → Table Node → Index → Index
rebuild_from root contents [] i = i
rebuild_from root contents ((text, node) ∷ rest) i =
    rebuild_from root contents rest (emplace (indexed root contents text node) i)

abbrev pub empty_index : Index
empty_index = record { sizes = []; total_bytes = 0 }

-- `refresh`
unfoldable pub rebuild_index : FilePath → FileSystem → Index
rebuild_index root fs =
    if is_there (node_at root fs)
    then rebuild_from root fs.contents fs.nodes empty_index
    else empty_index

-- the constructor, which looks at no error of `create_directories`
unfoldable pub new_index : FilePath → FileSystem → Index × FileSystem
new_index root fs = let (done, fs') = create_directories root fs in (rebuild_index root fs', fs')
