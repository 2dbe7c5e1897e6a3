-- ===== src/Storage/Index/Rebuilt.antt =====
-- The index that is made anew, and what is on the disk.
use obsto_cpp.Base.{
  ℕ, Bool-cases, true, false, List, [], ◌∷◌, ◌++◌, if◌then◌else◌, if_elim, Option, Option-cases,
  none, some, length, ◌≡◌, ◌≢◌, ◌⊎◌, inl, inr, refl, sym, ◌∙◌, ap, arith,
}
use obsto_cpp.Text.{Bytes, equals, equals_iff, equals_refl}
use obsto_cpp.Storage.Table.{Table, find, find-assign, IsDistinct, assign-IsDistinct, total-assign}
use obsto_cpp.Storage.Index.{Index, IsCounted, object_size}
use obsto_cpp.Storage.Index.Rebuild.{
  to_relative_key, indexed, emplace, rebuild_from, empty_index, rebuild_index,
}
use obsto_cpp.Storage.Disk.{is_there, is_temp_file}
use obsto_cpp.Storage.Disk.Paths.{FilePath, join}
use obsto_cpp.Storage.Disk.Files.{Node, directory, file, FileSystem, native, node_at}
use obsto_cpp.Storage.Disk.View.{file_at, file_bytes}

abbrev pub length_of : Option Bytes → Option ℕ
length_of none = none
length_of (some bytes) = some (length bytes)

abbrev or_else : Option ℕ → Option ℕ → Option ℕ
or_else none b = b
or_else (some n) b = some n

or_else_assoc : (a b c : Option ℕ) → or_else (or_else a b) c ≡ or_else a (or_else b c)
or_else_assoc none b c = refl
or_else_assoc (some n) b c = refl

or_else-none : (a : Option ℕ) → or_else a none ≡ a
or_else-none none = refl
or_else-none (some n) = refl

abbrev size_for : Bytes → Option (Bytes × ℕ) → Option ℕ
size_for key none = none
size_for key (some (k, n)) = if equals k key then some n else none

emplace-find :
    (key : Bytes) (e : Option (Bytes × ℕ)) (i : Index)
    → find key (emplace e i).sizes ≡ or_else (find key i.sizes) (size_for key e)
emplace-find key none i = elim (Option-cases (find key i.sizes)) [
  | inl e ↦ rw e refl
  | inr (n, e) ↦ rw e refl
]
emplace-find key (some (k, n)) i = ground (arith, find-assign k key n i.sizes, equals_iff k key)

-- the text in front of the keys below the root
abbrev pub front : FilePath → Bytes
front root = native (join root ([] ∷ []))

-- The names of the files are in normal form: their keys are what stands behind the root.
abbrev pub AllNormal : FilePath → Table Node → Type 0
AllNormal root [] = Unit {0}
AllNormal root ((text, node) ∷ rest) =
    ((key : Bytes) → to_relative_key root text ≡ some key → text ≡ front root ++ key)
    × AllNormal root rest

module _ (root : FilePath) (contents : List Bytes) where
  first_size : Bytes → Table Node → Option ℕ
  first_size key [] = none
  first_size key ((text, node) ∷ rest) =
      or_else (size_for key (indexed root contents text node)) (first_size key rest)

  rebuild_from-find :
      (key : Bytes) (nodes : Table Node) (i : Index)
      → find key (rebuild_from root contents nodes i).sizes
        ≡ or_else (find key i.sizes) (first_size key nodes)
  unfolding rebuild_from first_size
  rebuild_from-find key [] i = elim (Option-cases (find key i.sizes)) [
    | inl e ↦ rw e refl
    | inr (n, e) ↦ rw e refl
  ]
  rebuild_from-find key ((text, node) ∷ rest) i =
      let e = indexed root contents text node in
      rebuild_from-find key rest (emplace e i)
      ∙ ap (λ o. or_else o (first_size key rest)) (emplace-find key e i)
      ∙ or_else_assoc (find key i.sizes) (size_for key e) (first_size key rest)

  -- the size that is to be counted of the node with this text
  abbrev size_of_node : Bytes → Option Node → Option ℕ
  size_of_node text node = if is_temp_file text then none else length_of (file_bytes contents node)

  size_of_nothing : (text : Bytes) → size_of_node text none ≡ none
  size_of_nothing text =
      if_elim (λ (o : Option ℕ). o ≡ none) (is_temp_file text) (λ _. refl) (λ _. refl)

  size_for-here :
      (key text : Bytes) (node : Node)
      → to_relative_key root text ≡ some key
      → size_for key (indexed root contents text node) ≡ size_of_node text (some node)
  size_for-here key text directory e = sym (size_of_nothing text)
  size_for-here key text (file i) e = ground (arith, e, equals_refl key)

  size_for-elsewhere :
      (key text : Bytes) (node : Node)
      → ((k : Bytes) → to_relative_key root text ≡ some k → text ≡ front root ++ k)
      → text ≢ front root ++ key
      → size_for key (indexed root contents text node) ≡ none
  size_for-elsewhere key text directory normal other = refl
  size_for-elsewhere key text (file i) normal other =
      if_elim (λ (e : Option (Bytes × ℕ)). size_for key e ≡ none) (is_temp_file text) (λ _. refl)
        λ _. elim (Option-cases (to_relative_key root text)) [
          | inl e ↦ rw e refl
          | inr (k, e) ↦
              let differ : k ≢ key = λ same. other (normal k e ∙ ap (λ b. front root ++ b) same) in
              let no : equals k key ≡ false = ground (arith, equals_iff k key) in rw (e, no) refl
        ]

  first_size-on_disk :
      (key : Bytes) (nodes : Table Node)
      → AllNormal root nodes
      → IsDistinct nodes
      → to_relative_key root (front root ++ key) ≡ some key
      → first_size key nodes ≡ size_of_node (front root ++ key) (find (front root ++ key) nodes)
  unfolding first_size find
  first_size-on_disk key [] normal distinct keyed = sym (size_of_nothing (front root ++ key))
  first_size-on_disk key ((text, node) ∷ rest) normal distinct keyed =
      let later = first_size-on_disk key rest normal.1 distinct.1 keyed in
      elim (Bool-cases (equals text (front root ++ key))) [
        | inl e ↦
            let same : text ≡ front root ++ key =
              ground (arith, e, equals_iff text (front root ++ key)) in
            let gone : find (front root ++ key) rest ≡ none = rw same at distinct.0 in
            let nothing : first_size key rest ≡ none =
              later
              ∙ ap (size_of_node (front root ++ key)) gone
              ∙ size_of_nothing (front root ++ key) in
            let here = size_for-here key (front root ++ key) node keyed in
            rw (e, nothing, same, here)
              (or_else-none (size_of_node (front root ++ key) (some node)))
        | inr e ↦
            let other : text ≢ front root ++ key =
              ground (arith, e, equals_iff text (front root ++ key)) in
            rw (e, size_for-elsewhere key text node normal.0 other) later
      ]

  -- Each key is new to the index, or is not met any more.
  abbrev IsFresh : Table Node → Index → Type 0
  IsFresh nodes i = (key : Bytes) → (find key i.sizes ≡ none) ⊎ (first_size key nodes ≡ none)

  emplace-IsCounted :
      (e : Option (Bytes × ℕ)) (i : Index)
      → IsCounted i
      → ((key : Bytes) → (find key i.sizes ≡ none) ⊎ (size_for key e ≡ none))
      → IsCounted (emplace e i)
  emplace-IsCounted none i c fresh = c
  emplace-IsCounted (some (key, size)) i c fresh =
      let missing : find key i.sizes ≡ none = ground (arith, fresh key, equals_refl key) in
      rw (missing) (record {
        distinct = assign-IsDistinct key size i.sizes c.distinct;
        counted = ground (arith, c.counted, total-assign key size i.sizes);
      })

  indexed-keyed :
      (key text : Bytes) (node : Node) (n : ℕ)
      → size_for key (indexed root contents text node) ≡ some n
      → to_relative_key root text ≡ some key
  indexed-keyed key text directory n h = cc
  indexed-keyed key text (file i) n h = elim (Option-cases (to_relative_key root text)) [
    | inl e ↦ ground (arith, h, e)
    | inr (k, e) ↦
        let same : k ≡ key = ground (arith, h, e, equals_iff k key) in e ∙ ap (λ b. some b) same
  ]

  met_once :
      (key text : Bytes) (node : Node) (rest : Table Node) (n : ℕ)
      → AllNormal root ((text, node) ∷ rest)
      → IsDistinct ((text, node) ∷ rest)
      → size_for key (indexed root contents text node) ≡ some n
      → first_size key rest ≡ none
  met_once key text node rest n normal distinct h =
      let keyed = indexed-keyed key text node n h in
      let at : text ≡ front root ++ key = normal.0 key keyed in
      let gone : find (front root ++ key) rest ≡ none = rw at at distinct.0 in
      first_size-on_disk key rest normal.1 distinct.1 (rw at at keyed)
      ∙ ap (size_of_node (front root ++ key)) gone
      ∙ size_of_nothing (front root ++ key)

  rest-IsFresh :
      (text : Bytes) (node : Node) (rest : Table Node) (i : Index)
      → AllNormal root ((text, node) ∷ rest)
      → IsDistinct ((text, node) ∷ rest)
      → IsFresh ((text, node) ∷ rest) i
      → IsFresh rest (emplace (indexed root contents text node) i)
  unfolding first_size
  rest-IsFresh text node rest i normal distinct fresh key =
      let e = indexed root contents text node in
      elim (Option-cases (size_for key e)) [
        | inr (n, h) ↦ inr (met_once key text node rest n normal distinct h)
        | inl h ↦
            let found : find key (emplace e i).sizes ≡ or_else (find key i.sizes) none =
              emplace-find key e i ∙ ap (or_else (find key i.sizes)) h in
            elim (fresh key) [
              | inl new ↦ inl (found ∙ or_else-none (find key i.sizes) ∙ new)
              | inr over ↦ inr (rw h at over)
            ]
      ]

  here_fresh :
      (text : Bytes) (node : Node) (rest : Table Node) (i : Index)
      → IsFresh ((text, node) ∷ rest) i
      → (key : Bytes)
      → (find key i.sizes ≡ none) ⊎ (size_for key (indexed root contents text node) ≡ none)
  unfolding first_size
  here_fresh text node rest i fresh key =
      elim (Option-cases (size_for key (indexed root contents text node))) [
        | inl h ↦ inr h
        | inr (n, h) ↦ elim (fresh key) [
          | inl new ↦ inl new
          | inr over ↦ let never : some n ≡ none = rw h at over in cc
        ]
      ]

  rebuild_from-IsCounted :
      (nodes : Table Node) (i : Index)
      → AllNormal root nodes
      → IsDistinct nodes
      → IsFresh nodes i
      → IsCounted i
      → IsCounted (rebuild_from root contents nodes i)
  unfolding rebuild_from
  rebuild_from-IsCounted [] i normal distinct fresh c = c
  rebuild_from-IsCounted ((text, node) ∷ rest) i normal distinct fresh c =
      rebuild_from-IsCounted rest (emplace (indexed root contents text node) i) normal.1 distinct.1
        (rest-IsFresh text node rest i normal distinct fresh)
        (emplace-IsCounted (indexed root contents text node) i c
          (here_fresh text node rest i fresh))

-- Where no two nodes have one name and the names are in normal form, and the root is there: the index
-- that is made anew is consistent, that is, its keys are distinct and its running sum is the sum of
-- the sizes modulo 2^64, and it has, for each key that is in normal form, the size of the file below
-- the root that has it, if that is there and no temporary file, and nothing otherwise.
pub rebuild_index_lem :
    (root : FilePath) (fs : FileSystem)
    → is_there (node_at root fs) ≡ true
    → IsDistinct fs.nodes
    → AllNormal root fs.nodes
    → (key : Bytes) → to_relative_key root (front root ++ key) ≡ some key
    → IsCounted (rebuild_index root fs)
      × (object_size key (rebuild_index root fs) ≡ (
          if is_temp_file (front root ++ key)
          then none
          else length_of (file_at (front root ++ key) fs)))
unfolding rebuild_index object_size find
rebuild_index_lem root fs there distinct normal key keyed = rw (there) (
  rebuild_from-IsCounted root fs.contents fs.nodes empty_index normal distinct (λ k. inl refl)
      (record { distinct = tt; counted = refl }),
  rebuild_from-find root fs.contents key fs.nodes empty_index
      ∙ first_size-on_disk root fs.contents key fs.nodes normal distinct keyed,
)
