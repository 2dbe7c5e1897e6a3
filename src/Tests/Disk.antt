-- ===== src/Tests/Disk.antt =====
-- The storage on disk on concrete input.
use obsto_cpp.Base.{
  [], ◌∷◌, ◌++◌, if◌then◌else◌, none, some, true, false, length, ◌≡◌, refl, ap, arith,
}
use obsto_cpp.Text.{Bytes, codes, equals, equals_iff}
use obsto_cpp.Storage.{PutResult}
use obsto_cpp.Storage.Chunks.{Chunks, ChunksFit}
use obsto_cpp.Storage.Table
use obsto_cpp.Storage.Disk.{open_root, is_there, is_temp_file, relative_key}
use obsto_cpp.Storage.Disk.Sessions.{
  DiskWriteSession, DiskReadSession, begin_get, write_chunk, finish, disk_streaming,
}
use obsto_cpp.Text.Search.{starts_with}
use obsto_cpp.Storage.Index.{IsCounted, object_size}
use obsto_cpp.Storage.Index.Rebuild.{to_relative_key, rebuild_index}
use obsto_cpp.Storage.Index.Rebuilt.{front, length_of, AllNormal, rebuild_index_lem}
use obsto_cpp.Storage.Disk.Paths.{
  rooted_path, FilePath, path_of, has_dot_dot, split_names, drop_empty, join, map_path,
  lexically_normal, normal_from, normal_end, begins_with,
}
use obsto_cpp.Storage.Disk.Inside.{IsTail, AllPlain, names, map_path_lem, slashed_root_refuses}
use obsto_cpp.Storage.Disk.Files.{
  stream_on, directory, file, FileSystem, native, parent_path, is_slashed, text_at, node_at,
  make_directories, create_directories, open_truncated, update, write, write_at, close, rename,
}
use obsto_cpp.Storage.Disk.View.{file_at, WellFormed}
use obsto_cpp.Storage.Disk.Upload.{write_chunks}
use obsto_cpp.Storage.Disk.{put, get}
use obsto_cpp.Storage.Disk.Puts.{get-put}
use obsto_cpp.Storage.Disk.Losses.{put_loses}
use obsto_cpp.Storage.Disk.Reading.{file_is_read}
use obsto_cpp.Storage.Disk.Paths.{path_from}

abbrev pub root : FilePath
root = codes "/" ∷ codes "data" ∷ []

root-AllPlain : AllPlain root
unfolding equals
root-AllPlain =
    (record { no_dot = refl; no_dot_dot = refl }, (record { no_dot = refl; no_dot_dot = refl }, tt))

no_dots : has_dot_dot (path_of (codes "a/./b")) ≡ false
unfolding has_dot_dot path_of split_names drop_empty equals
no_dots = refl

map_path_lem_example :
    (tail : FilePath) × IsTail tail
    × (map_path root (codes "a/./b") ≡ some (root ++ (names (path_of (codes "a/./b")) ++ tail)))
map_path_lem_example =
    map_path_lem (codes "/") (codes "data" ∷ []) (codes "a/./b") root-AllPlain refl refl no_dots

a_named : names (path_of (codes "a")) ≡ codes "a" ∷ []
unfolding path_of split_names drop_empty equals
a_named = refl

slashed_root_refuses_example : map_path (root ++ ([] ∷ [])) (codes "a") ≡ none
slashed_root_refuses_example =
    slashed_root_refuses (codes "/") (codes "data" ∷ []) (codes "a") (codes "a") [] root-AllPlain
      a_named

-- A directory with one file.
abbrev pub disk : FileSystem
disk = record {
  nodes = (codes "/", directory) ∷ (codes "/data", directory) ∷ (codes "/data/a", file 0) ∷ [];
  contents = codes "old" ∷ [];
  troubles = [];
  stream_buffer = 4;
}

disk-WellFormed : WellFormed disk
unfolding Table.find
disk-WellFormed = record {
  has_bytes = λ key i e. ground (arith, e);
  one_name = λ key other i e f.
      ground (arith, e, f, equals_iff (codes "/data/a") key, equals_iff (codes "/data/a") other);
}

abbrev a_path : FilePath
a_path = root ++ (codes "a" ∷ [])

-- the upload of an object, whose temporary file is new
abbrev uploading : DiskWriteSession
uploading = record {
  temp_path = root ++ (codes "a.tmp" ∷ []);
  final_path = a_path;
  stream = record { inode = 1; good = true; position = 0; held = [] };
  is_finished = false;
}

abbrev disk_behind : FileSystem
disk_behind = record {
  nodes =
      (codes "/", directory)
      ∷ (codes "/data", directory)
      ∷ (codes "/data/a", file 0)
      ∷ (codes "/data/a.tmp", file 1)
      ∷ [];
  contents = codes "old" ∷ [] ∷ [];
  troubles = [];
  stream_buffer = 4;
}

upload_succeeds :
    let (w', fs') = write_chunks uploading (codes "ne" ∷ codes "w" ∷ []) disk_behind in
    let (r, w'', done) = finish w' fs' in
    (r ≡ PutResult.ok) × (file_at (codes "/data/a") done ≡ some (codes "new"))
unfolding write_chunks write_chunk write write_at update finish close rename node_at text_at
    is_slashed native equals Table.find Table.assign Table.erase
upload_succeeds = (refl, refl)

a_mapped : map_path root (codes "a") ≡ some a_path
unfolding map_path path_of split_names drop_empty has_dot_dot join lexically_normal normal_from
    normal_end begins_with equals
a_mapped = refl

a_there : node_at a_path disk ≡ some (file 0)
unfolding node_at text_at is_slashed native Table.find equals
a_there = refl

file_is_read_example :
    (r : DiskReadSession) × (begin_get root (codes "a") disk
      ≡ (record { found = true; size = length (codes "old"); session = some r }, disk))
    × (cs : Chunks (disk_streaming root) r disk (codes "old") disk) × ChunksFit cs
file_is_read_example = file_is_read root (codes "a") a_path 0 disk a_mapped a_there refl

a_only : (key : Bytes) → some (codes "a") ≡ some key → codes "/data/a" ≡ codes "/data/" ++ key
a_only key e = let same : codes "a" ≡ key = cc in ap (λ (b : Bytes). codes "/data/" ++ b) same

b_mapped : map_path root (codes "b") ≡ some (root ++ (codes "b" ∷ []))
unfolding map_path path_of split_names drop_empty has_dot_dot join lexically_normal normal_from
    normal_end begins_with equals
b_mapped = refl

abbrev b_path : FilePath
b_path = root ++ (codes "b" ∷ [])

b_put : (put root (codes "b") (codes "new") disk).0 ≡ PutResult.ok
unfolding put map_path path_of split_names drop_empty has_dot_dot join lexically_normal normal_from
    normal_end begins_with create_directories make_directories native parent_path is_slashed text_at
    node_at open_truncated write write_at update close Table.find Table.assign equals
b_put = refl

get-put_example :
    get root (codes "b") (put root (codes "b") (codes "new") disk).1 ≡ some (codes "new")
get-put_example =
    get-put root (codes "b") (codes "new") b_path disk disk-WellFormed b_mapped refl b_put

-- The second operation to come fails, with one byte written.
abbrev shaky : FileSystem
shaky = record disk { troubles = none ∷ some 1 ∷ [] }

shaky-WellFormed : WellFormed shaky
shaky-WellFormed = record {
  has_bytes = disk-WellFormed.has_bytes;
  one_name = disk-WellFormed.one_name;
}

abbrev shaky_opened : FileSystem
shaky_opened = record {
  nodes =
      (codes "/", directory)
      ∷ (codes "/data", directory)
      ∷ (codes "/data/a", file 0)
      ∷ (codes "/data/b", file 1)
      ∷ [];
  contents = codes "old" ∷ [] ∷ [];
  troubles = some 1 ∷ [];
  stream_buffer = 4;
}

b_makes : create_directories (parent_path b_path) shaky ≡ (true, shaky)
unfolding create_directories make_directories native parent_path Table.find equals
b_makes = refl

b_opens : open_truncated b_path shaky ≡ (stream_on 1, shaky_opened)
unfolding open_truncated native parent_path is_slashed text_at node_at Table.find Table.assign
    equals
b_opens = refl

put_loses_example :
    let (r, fs') = put root (codes "b") (codes "new") shaky in
    (r ≡ PutResult.ok) × (file_at (native b_path) fs' ≡ some (codes "n"))
put_loses_example =
    put_loses root (codes "b") b'n' (codes "ew") b_path shaky shaky shaky_opened 1 1
      shaky-WellFormed b_mapped b_makes b_opens (omega arith) refl

disk-AllNormal : AllNormal root disk.nodes
unfolding to_relative_key relative_key starts_with join native path_of split_names drop_empty
    lexically_normal normal_from normal_end has_dot_dot equals
disk-AllNormal = ((λ key e. cc), ((λ key e. cc), ((λ key e. a_only key e), tt)))

a_keyed : to_relative_key root (front root ++ codes "a") ≡ some (codes "a")
unfolding to_relative_key relative_key starts_with join native path_of split_names drop_empty
    lexically_normal normal_from normal_end has_dot_dot equals
a_keyed = refl

root_there : is_there (node_at root disk) ≡ true
unfolding node_at text_at is_slashed native Table.find equals
root_there = refl

disk-IsDistinct : Table.IsDistinct disk.nodes
unfolding Table.find equals
disk-IsDistinct = (refl, (refl, (refl, tt)))

rebuild_index_lem_example :
    IsCounted (rebuild_index root disk)
    × (object_size (codes "a") (rebuild_index root disk) ≡ (
        if is_temp_file (front root ++ codes "a")
        then none
        else length_of (file_at (front root ++ codes "a") disk)))
rebuild_index_lem_example =
    rebuild_index_lem root disk root_there disk-IsDistinct disk-AllNormal (codes "a") a_keyed

-- A root with a dot in front refuses its keys too.
dotted_root_refuses : map_path (path_from (codes "./data")) (codes "a") ≡ none
unfolding map_path path_from path_of split_names drop_empty has_dot_dot join lexically_normal
    normal_from normal_end begins_with equals
dotted_root_refuses = refl

-- Two keys of one file.
one_file : map_path root (codes "b//a") ≡ map_path root (codes "./b/a")
unfolding map_path path_of split_names drop_empty has_dot_dot join lexically_normal normal_from
    normal_end begins_with equals
one_file = refl

-- The slash behind the name of a root makes no second directory.
slashed_root_opens : open_root (path_from (codes "/data/")) disk ≡ some disk
unfolding open_root path_from rooted_path path_of split_names drop_empty create_directories
    make_directories native Table.find equals
slashed_root_opens = refl
