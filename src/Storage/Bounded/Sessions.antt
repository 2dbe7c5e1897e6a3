-- ===== src/Storage/Bounded/Sessions.antt =====
-- Whole uploads: `beginPut`, any chunks, and an end.
use obsto_cpp.Base.{ℕ, true, List, some, ◌≡◌, arith}
use obsto_cpp.Text.{Bytes}
use obsto_cpp.Storage.{PutResult, StreamingStore}
use obsto_cpp.Storage.Bounded.{Bounded, BoundedWriteSession, size_of, begin_put, finish, abort}
use obsto_cpp.Storage.Bounded.Upload.{
  write_all, IsUploading, begin_put-IsUploading, write_all-IsUploading, finished_size, finish-sizes,
  abort-sizes,
}

module _ {S W R : Type 0} (st : StreamingStore S W R) (b : Bounded S) (path : Bytes) (size : ℕ)
    (w : BoundedWriteSession W) (chunks : List Bytes)
    (given : (begin_put (some st) path size b).0.session ≡ some w) where
  -- the session and the storage behind `beginPut` and the chunks
  abbrev pub uploaded : BoundedWriteSession W × Bounded S
  uploaded = write_all st chunks w (begin_put (some st) path size b).1

  written : IsUploading b path size uploaded.0 uploaded.1
  written =
      write_all-IsUploading st b path size chunks w _ (begin_put-IsUploading st b path size given)

  -- An upload that `beginPut` gave a session for, given any chunks and is then aborted leaves every counted size
  -- as it was before the upload.
  pub abort_restores :
      (key : Bytes) → size_of key (abort st uploaded.0 uploaded.1).1 ≡ size_of key b
  abort_restores = abort-sizes st b path size uploaded.0 uploaded.1 written

  -- An upload that `beginPut` gave a session for, given any chunks and is then finished counts the announced
  -- size if the inner session succeeded, and otherwise leaves every counted size as it was before the
  -- upload.
  pub finish_sizes :
      (key : Bytes)
      → size_of key (finish st uploaded.0 uploaded.1).2
        ≡ finished_size b path size key (finish st uploaded.0 uploaded.1).0
  finish_sizes = finish-sizes st b path size uploaded.0 uploaded.1 written

module _ {S W R : Type 0} (st : StreamingStore S W R) where
  finalized_over :
      (w : BoundedWriteSession W) (d : Bounded S)
      → w.finalized ≡ true
      → (finish st w d ≡ (PutResult.failed_to_write, w, d)) × (abort st w d ≡ (w, d))
  unfolding finish abort
  finalized_over w d h = (rw h, rw h)

  -- A session that was finished is over: whatever the storage has become since, `finish` fails and
  -- `abort` does nothing, and neither changes the storage.
  pub finish_once :
      (w : BoundedWriteSession W) (c d : Bounded S)
      → let w' = (finish st w c).1 in
        (finish st w' d ≡ (PutResult.failed_to_write, w', d)) × (abort st w' d ≡ (w', d))
  finish_once w c d = finalized_over (finish st w c).1 d (unfold finish in ground arith)

  -- A session that was aborted is over: whatever the storage has become since, `finish` fails and
  -- another `abort` does nothing, and neither changes the storage.
  pub abort_once :
      (w : BoundedWriteSession W) (c d : Bounded S)
      → let w' = (abort st w c).0 in
        (finish st w' d ≡ (PutResult.failed_to_write, w', d)) × (abort st w' d ≡ (w', d))
  abort_once w c d = finalized_over (abort st w c).0 d (unfold abort in ground arith)
