-- ===== src/Storage/Disk/Writing.antt =====
-- Writing to a stream and closing it, and the other files.
use obsto_cpp.Base.{
  ℕ, zero, suc, ◌+◌, ◌-◌, ◌≤◌, true, [], ◌∷◌, ◌++◌, append-nil, append_assoc, sym, ◌∙◌, subst, leb,
  if_elim, Option, none, some, length, take, drop, length-append, ◌≡◌, refl, ap, arith,
}
use obsto_cpp.Text.{Bytes}
use obsto_cpp.Storage.Table.{find}
use obsto_cpp.Storage.Disk.Files.{
  file, FileSystem, bytes_of, update, set_bytes, past, has_trouble, next_trouble, Stream, write_at,
  write_or_fail, write_good, write, flush, closed_behind, close,
}
use obsto_cpp.Storage.Disk.View.{WellFormed, past-WellFormed, bytes_of-update}
use obsto_cpp.Storage.Disk.Streams.{
  OnlyAt, OnlyAt-trans, unchanged-OnlyAt, Writes, set_bytes-OnlyAt, from_past,
}

drop_behind : (n : ℕ) (s : Bytes) → length s ≤ n → drop n s ≡ []
drop_behind zero [] h = refl
drop_behind (suc n) [] h = refl
drop_behind zero (c ∷ s) h = elim h [ ]
drop_behind (suc n) (c ∷ s) h = drop_behind n s (omega arith)

take_whole : (s : Bytes) → take (length s) s ≡ s
take_whole [] = refl
take_whole (c ∷ s) = ap (λ t. c ∷ t) (take_whole s)

pub write_at-end : (old bytes : Bytes) → write_at (length old) bytes old ≡ old ++ bytes
unfolding write_at
write_at-end old bytes =
    let none_between : length old - length old ≡ 0 = omega arith in
    rw
      (
        none_between,
        append-nil old,
        take_whole old,
        drop_behind (length old + length bytes) old (omega arith),
        append-nil bytes,
      )
      refl

module _ (text : Bytes) (fs : FileSystem) (w : WellFormed fs) (stream : Stream) (bytes : Bytes)
    (at : Writes text stream bytes fs) where
  write_some :
      (chunk : Bytes)
      → OnlyAt text fs (
          set_bytes stream.inode
            (write_at stream.position chunk (bytes_of stream.inode fs.contents))
            fs)
  write_some chunk = set_bytes-OnlyAt text fs w stream.inode _ at.on_file

  abbrev old_bytes : Bytes
  old_bytes = bytes_of stream.inode fs.contents

  write_all :
      (run : Bytes) (fs' : FileSystem)
      → fs'.nodes ≡ fs.nodes
      → fs'.contents
        ≡ update stream.inode
            (write_at stream.position run (bytes_of stream.inode fs.contents))
            fs.contents
      → Writes text
          (record stream { position = stream.position + length run; held = [] })
          (bytes_of stream.inode fs.contents ++ run)
          fs'
  write_all run fs' nodes contents =
      let new : bytes_of stream.inode fs'.contents ≡ old_bytes ++ run =
        rw (contents, at.at_end, write_at-end old_bytes run)
          (bytes_of-update stream.inode (old_bytes ++ run) fs.contents
            (w.has_bytes text stream.inode at.on_file)) in
      record {
        on_file = rw nodes at.on_file;
        holds = append-nil _ ∙ new;
        at_end = rw new (omega (arith, at.at_end, length-append old_bytes run));
      }

past_at :
    (text : Bytes) (fs : FileSystem) (stream : Stream) (bytes : Bytes)
    → Writes text stream bytes fs
    → Writes text stream bytes (past fs)
past_at text fs stream bytes at = record {
  on_file = at.on_file;
  holds = at.holds;
  at_end = at.at_end;
}

-- What is known of a stream that may have failed.
abbrev pub WritesIfGood : Bytes → Stream → Bytes → FileSystem → Type 0
WritesIfGood text stream bytes fs = stream.good ≡ true → Writes text stream bytes fs

module _ (text : Bytes) (fs : FileSystem) (w : WellFormed fs) (stream : Stream)
    (bytes : Bytes) where
  abbrev Wrote : Bytes → Stream × FileSystem → Type 0
  Wrote all r = OnlyAt text fs r.1 × WritesIfGood text r.0 all r.1

  write_or_fail-Wrote :
      (t : Option ℕ) (run : Bytes)
      → Writes text stream bytes fs
      → Wrote
          (bytes_of stream.inode fs.contents ++ run)
          (write_or_fail t (record stream { held = [] }) run (past fs))
  write_or_fail-Wrote none run at = (
    from_past text fs _ (
        write_some text (past fs) (past-WellFormed fs w) stream bytes
          (past_at text fs stream bytes at) run),
    λ good. write_all text fs w stream bytes at run _ refl refl,
  )
  write_or_fail-Wrote (some k) run at = (
    from_past text fs _ (
        write_some text (past fs) (past-WellFormed fs w) stream bytes
          (past_at text fs stream bytes at) (take k run)),
    λ good. cc,
  )

  write_good-Wrote :
      (chunk : Bytes)
      → Writes text stream bytes fs
      → Wrote (bytes ++ chunk) (write_good stream chunk fs)
  write_good-Wrote chunk at =
      let old = bytes_of stream.inode fs.contents in
      let whole : old ++ (stream.held ++ chunk) ≡ bytes ++ chunk =
        sym (append_assoc old stream.held chunk) ∙ ap (λ (b : Bytes). b ++ chunk) at.holds in
      if_elim (Wrote (bytes ++ chunk)) (leb (length stream.held + length chunk) fs.stream_buffer)
        (λ _. (
          record { well_formed = w; others = λ key h. refl },
          λ _. record { on_file = at.on_file; holds = whole; at_end = at.at_end },
        ))
        (λ _.
          subst
            (λ b. Wrote b (
              write_or_fail (next_trouble fs.troubles) (record stream { held = [] })
                (stream.held ++ chunk) (past fs)))
            whole (write_or_fail-Wrote (next_trouble fs.troubles) (stream.held ++ chunk) at))

-- Writing changes at most the file of the stream; if the stream is good behind it, the file and what
-- is held back have the bytes from before and the new ones.
pub write-OnlyAt :
    (text : Bytes) (fs : FileSystem) (w : WellFormed fs) (stream : Stream) (bytes chunk : Bytes)
    → WritesIfGood text stream bytes fs
    → let (stream', fs') = write stream chunk fs in
      OnlyAt text fs fs' × WritesIfGood text stream' (bytes ++ chunk) fs'
unfolding write
write-OnlyAt text fs w stream bytes chunk at =
    if_elim (Wrote text fs w stream bytes (bytes ++ chunk)) stream.good
      (λ good. write_good-Wrote text fs w stream bytes chunk (at good))
      (λ bad. (record { well_formed = w; others = λ key h. refl }, λ good. cc))

flush-OnlyAt :
    (text : Bytes) (fs : FileSystem) (w : WellFormed fs) (stream : Stream) (bytes held : Bytes)
    → stream.held ≡ held
    → Writes text stream bytes fs
    → Wrote text fs w stream bytes bytes (flush held stream fs)
flush-OnlyAt text fs w stream bytes [] e at =
    (record { well_formed = w; others = λ key h. refl }, λ good. at)
flush-OnlyAt text fs w stream bytes (c ∷ held) e at =
    let old = bytes_of stream.inode fs.contents in
    let whole : old ++ (c ∷ held) ≡ bytes = ap (λ (b : Bytes). old ++ b) (sym e) ∙ at.holds in
    subst (λ b. Wrote text fs w stream bytes b (flush (c ∷ held) stream fs)) whole
      (write_or_fail-Wrote text fs w stream bytes (next_trouble fs.troubles) (c ∷ held) at)

write_or_fail-held :
    (t : Option ℕ) (stream : Stream) (run : Bytes) (fs : FileSystem)
    → (write_or_fail t (record stream { held = [] }) run fs).0.held ≡ []
write_or_fail-held none stream run fs = refl
write_or_fail-held (some k) stream run fs = refl

flush-held :
    (held : Bytes) (stream : Stream) (fs : FileSystem)
    → stream.held ≡ held
    → (flush held stream fs).0.held ≡ []
flush-held [] stream fs e = e
flush-held (c ∷ held) stream fs e =
    write_or_fail-held (next_trouble fs.troubles) stream (c ∷ held) (past fs)

-- The file has these bytes.
pub record Stored (text : Bytes) (i : ℕ) (bytes : Bytes) (fs : FileSystem) : Type 0 where
  pub on_file : find text fs.nodes ≡ some (file i)
  pub holds : bytes_of i fs.contents ≡ bytes

abbrev pub Closes : Bytes → FileSystem → Bytes → Stream × FileSystem → Type 0
Closes text fs bytes r = OnlyAt text fs r.1 × (r.0.good ≡ true → Stored text r.0.inode bytes r.1)

closed_behind-Closes :
    (text : Bytes) (fs : FileSystem) (bytes : Bytes) (stream : Stream) (fs' : FileSystem)
    → stream.held ≡ []
    → OnlyAt text fs fs'
    → WritesIfGood text stream bytes fs'
    → Closes text fs bytes (closed_behind (stream, fs'))
closed_behind-Closes text fs bytes stream fs' nothing only writes =
    let later =
      OnlyAt-trans text fs fs' (past fs') only (unchanged-OnlyAt text fs' only.well_formed) in
    if_elim (Closes text fs bytes) (has_trouble fs') (λ _. (later, λ good. cc))
      (λ _. (
        later,
        λ good.
            let at = writes good in
            record { on_file = at.on_file; holds = sym (append-nil _) ∙ (rw nothing at at.holds) },
      ))

-- Closing changes at most the file of the stream; if the stream is good behind it, the file has all
-- the bytes.
pub close-OnlyAt :
    (text : Bytes) (fs : FileSystem) (w : WellFormed fs) (stream : Stream) (bytes : Bytes)
    → WritesIfGood text stream bytes fs
    → Closes text fs bytes (close stream fs)
unfolding close
close-OnlyAt text fs w stream bytes at =
    if_elim (Closes text fs bytes) stream.good
      (λ good.
        let (only, writes) = flush-OnlyAt text fs w stream bytes stream.held refl (at good) in
        closed_behind-Closes text fs bytes (flush stream.held stream fs).0
          (flush stream.held stream fs).1 (flush-held stream.held stream fs refl) only writes)
      (λ bad. (unchanged-OnlyAt text fs w, λ good. cc))
