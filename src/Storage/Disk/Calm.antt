-- ===== src/Storage/Disk/Calm.antt =====
-- Operations on a file system that has no trouble to come.
use obsto_cpp.Base.{
  ℕ, ◌+◌, false, [], ◌∷◌, ◌++◌, if_elim, Option, Option-cases, none, some, length, leb, ◌≡◌, refl,
  sym, ◌∙◌, ap, inl, inr,
}
use obsto_cpp.Text.{Bytes}
use obsto_cpp.Storage.Table.{find}
use obsto_cpp.Storage.Disk.Paths.{FilePath}
use obsto_cpp.Storage.Disk.Files.{
  Node, directory, file, FileSystem, native, parent_path, is_slashed, node_at, past, next_trouble,
  later_troubles, has_trouble, add_node, make_directories, create_directories, Stream, truncated,
  open_truncated, write_or_fail, write, flush, closed_behind, close,
}

abbrev pub IsCalm : FileSystem → Type 0
IsCalm fs = fs.troubles ≡ []

pub past-IsCalm : (fs : FileSystem) → IsCalm fs → IsCalm (past fs)
past-IsCalm fs calm = ap later_troubles calm

pub calm_is_past : (fs : FileSystem) → IsCalm fs → past fs ≡ fs
calm_is_past fs calm = ap (λ t. record fs { troubles = t }) (past-IsCalm fs calm ∙ sym calm)

pub no_trouble : (fs : FileSystem) → IsCalm fs → has_trouble fs ≡ false
no_trouble fs calm = rw calm refl

pub none_next : (fs : FileSystem) → IsCalm fs → next_trouble fs.troubles ≡ none
none_next fs calm = ap next_trouble calm

make_directories-IsCalm :
    (done rest : FilePath) (fs : FileSystem) → IsCalm fs → IsCalm (make_directories done rest fs).1
unfolding make_directories
make_directories-IsCalm done [] fs calm = calm
make_directories-IsCalm done ([] ∷ rest) fs calm = make_directories-IsCalm done rest fs calm
make_directories-IsCalm done ((c ∷ name) ∷ rest) fs calm =
    let here : FilePath = done ++ ((c ∷ name) ∷ []) in
    elim (Option-cases (find (native here) fs.nodes)) [
      | inr (directory, e) ↦ rw (make_directories, e) (make_directories-IsCalm here rest fs calm)
      | inr (file i, e) ↦ rw (make_directories, e) calm
      | inl e ↦
          rw (make_directories, e, no_trouble fs calm)
            (make_directories-IsCalm here rest (add_node here directory (past fs))
              (past-IsCalm fs calm))
    ]

pub create_directories-IsCalm :
    (p : FilePath) (fs : FileSystem) → IsCalm fs → IsCalm (create_directories p fs).1
unfolding create_directories
create_directories-IsCalm [] fs calm = calm
create_directories-IsCalm (part ∷ rest) fs calm = make_directories-IsCalm [] (part ∷ rest) fs calm

truncated-troubles :
    (p : FilePath) (node above : Option Node) (fs : FileSystem)
    → (truncated p node above fs).1.troubles ≡ fs.troubles
truncated-troubles p (some directory) above fs = refl
truncated-troubles p (some (file i)) above fs = refl
truncated-troubles p none (some directory) fs = refl
truncated-troubles p none (some (file i)) fs = refl
truncated-troubles p none none fs = refl

pub open_truncated-IsCalm :
    (p : FilePath) (fs : FileSystem) → IsCalm fs → IsCalm (open_truncated p fs).1
unfolding open_truncated
open_truncated-IsCalm p fs calm =
    let Calm : Stream × FileSystem → Type 0 = λ r. IsCalm r.1 in
    let later = past-IsCalm fs calm in
    if_elim Calm (has_trouble fs) (λ _. later)
      λ _.
        if_elim Calm (is_slashed p) (λ _. later)
          λ _.
            truncated-troubles p (node_at p (past fs)) (node_at (parent_path p) (past fs)) (past fs)
            ∙ later

-- Nothing fails, and there is no trouble to come.
abbrev pub Succeeds : Stream → Stream × FileSystem → Type 0
Succeeds stream r = (r.0.good ≡ stream.good) × IsCalm r.1

write_or_fail-Succeeds :
    (t : Option ℕ) (stream : Stream) (run : Bytes) (fs : FileSystem)
    → t ≡ none
    → IsCalm fs
    → Succeeds stream (write_or_fail t stream run fs)
write_or_fail-Succeeds none stream run fs e calm = (refl, calm)
write_or_fail-Succeeds (some k) stream run fs e calm = cc

pub write-Succeeds :
    (stream : Stream) (bytes : Bytes) (fs : FileSystem)
    → IsCalm fs
    → Succeeds stream (write stream bytes fs)
unfolding write
write-Succeeds stream bytes fs calm =
    if_elim (Succeeds stream) stream.good
      (λ _.
        if_elim (Succeeds stream) (leb (length stream.held + length bytes) fs.stream_buffer)
          (λ _. (refl, calm))
          (λ _.
            write_or_fail-Succeeds (next_trouble fs.troubles) (record stream { held = [] })
              (stream.held ++ bytes) (past fs) (none_next fs calm) (past-IsCalm fs calm)))
      (λ _. (refl, calm))

flush-Succeeds :
    (held : Bytes) (stream : Stream) (fs : FileSystem)
    → IsCalm fs
    → Succeeds stream (flush held stream fs)
flush-Succeeds [] stream fs calm = (refl, calm)
flush-Succeeds (c ∷ held) stream fs calm =
    write_or_fail-Succeeds (next_trouble fs.troubles) (record stream { held = [] }) (c ∷ held)
      (past fs) (none_next fs calm) (past-IsCalm fs calm)

closed_behind-Succeeds :
    (stream : Stream) (fs : FileSystem) → IsCalm fs → Succeeds stream (closed_behind (stream, fs))
closed_behind-Succeeds stream fs calm = rw (no_trouble fs calm) (refl, past-IsCalm fs calm)

pub close-Succeeds :
    (stream : Stream) (fs : FileSystem) → IsCalm fs → Succeeds stream (close stream fs)
unfolding close
close-Succeeds stream fs calm =
    if_elim (Succeeds stream) stream.good
      (λ _.
        let (good, later) = flush-Succeeds stream.held stream fs calm in
        let (good', end) =
          closed_behind-Succeeds (flush stream.held stream fs).0 (flush stream.held stream fs).1
            later in
        (good' ∙ good, end))
      (λ _. (refl, past-IsCalm fs calm))
