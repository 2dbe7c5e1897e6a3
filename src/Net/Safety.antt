-- ===== src/Net/Safety.antt =====
-- Sessions that are closing.
use obsto_cpp.Base.{Bool, true, false, [], ◌∷◌, ◌++◌, ◌≡◌, ◌≢◌, refl}
use obsto_cpp.Text.{Bytes}
use obsto_cpp.Outcome.{returned, Allows, Allows-returned, Allows-bind}
use obsto_cpp.Net.{
  ProtocolHandler, Pending, reading, writing, posted, draining, over, Session, Event, read_done,
  received_then_thrown, read_failed, write_done, write_failed, post_run, drain_done, drain_failed,
  idle_elapsed, idle_expired, nothing_to_write, to_write, do_write, received, written, on_written,
  on_posted, handle, CanCome, bytes_read, bytes_read_thrown, Step, completes, Reach, here, next,
}

-- Nothing is to be read any more, but to be dropped.
abbrev pub IsClosing : Pending → Type 0
IsClosing reading = ⊥
IsClosing (writing bytes keep) = keep ≡ false
IsClosing (posted keep) = keep ≡ false
IsClosing draining = Unit
IsClosing over = Unit

module _ {H : Type 0} (p : ProtocolHandler H) where
  abbrev Closes : Session H → Type 0
  Closes s = IsClosing s.pending

  nothing_to_write-Closes : (more : Bool) (s : Session H) → Closes (nothing_to_write p more false s)
  nothing_to_write-Closes true s = refl
  nothing_to_write-Closes false s = tt

  to_write-Closes : (s : Session H) (r : Bytes × H) → Closes (to_write p false s r)
  to_write-Closes s ([], h) =
      nothing_to_write-Closes (p.has_more_to_send h) (record s { handler = h })
  to_write-Closes s (c ∷ bytes, h) = refl

  do_write-Closes : (throws : Bool) (s : Session H) → Allows Closes (do_write p throws false s)
  unfolding do_write
  do_write-Closes true s = tt
  do_write-Closes false s =
      Allows-bind Closes (p.take_outgoing_bytes s.handler) _ (to_write-Closes s)

  written-Closes :
      (more throws : Bool) (s : Session H) → Allows Closes (written p more throws false s)
  written-Closes true throws s = do_write-Closes throws s
  written-Closes false throws s = tt

  on_written-Closes :
      (throws : Bool) (s : Session H) (q : Pending)
      → IsClosing q
      → s.pending ≡ q
      → Allows Closes (on_written p throws s q)
  on_written-Closes throws s (writing bytes true) c e = cc
  on_written-Closes throws s (writing bytes false) c e =
      written-Closes (p.has_more_to_send s.handler) throws (record s { output = s.output ++ bytes })
  on_written-Closes throws s reading c e = absurd c
  on_written-Closes throws s (posted keep) c e = rw e c
  on_written-Closes throws s draining c e = rw e tt
  on_written-Closes throws s over c e = rw e tt

  on_posted-Closes :
      (throws : Bool) (s : Session H) (q : Pending)
      → IsClosing q
      → s.pending ≡ q
      → Allows Closes (on_posted p throws s q)
  on_posted-Closes throws s (posted true) c e = cc
  on_posted-Closes throws s (posted false) c e = do_write-Closes throws s
  on_posted-Closes throws s reading c e = absurd c
  on_posted-Closes throws s (writing bytes keep) c e = rw e c
  on_posted-Closes throws s draining c e = rw e tt
  on_posted-Closes throws s over c e = rw e tt

  -- A completion that may come while the session closes leaves it so.
  handle-Closes :
      (e : Event) (s : Session H) → CanCome s e → Closes s → Allows Closes (handle p e s)
  unfolding handle
  handle-Closes (read_done bytes throws) s (bytes_read b t r o n m) c = absurd (rw r at c)
  handle-Closes (received_then_thrown bytes) s (bytes_read_thrown b r o n m) c = absurd (rw r at c)
  handle-Closes read_failed s m c = tt
  handle-Closes (write_done throws) s m c = on_written-Closes throws s s.pending c refl
  handle-Closes write_failed s m c = tt
  handle-Closes (post_run throws) s m c = on_posted-Closes throws s s.pending c refl
  handle-Closes drain_done s m c = tt
  handle-Closes drain_failed s m c = tt
  handle-Closes idle_elapsed s m c = c
  handle-Closes idle_expired s m c = c

  Step-Closes : {s t : Session H} → Closes s → Step p s t → Closes t
  Step-Closes {s} c (completes e m eq) =
      Allows-returned Closes (handle p e s) (handle-Closes e s m c) eq

  Reach-Closes : {s t : Session H} → Closes s → Reach p s t → Closes t
  Reach-Closes c here = c
  Reach-Closes c (next r st) = Step-Closes (Reach-Closes c r) st

  -- Where `onBytesReceived` has refused the bytes that were read: whatever completes from then on, the
  -- session never reads for the handler again.
  pub refused_never_reads :
      (s t u : Session H) (h : H) (bytes : Bytes)
      → p.on_bytes_received s.handler bytes ≡ returned (false, h)
      → handle p (read_done bytes false) s ≡ returned t
      → Reach p t u
      → u.pending ≢ reading
  unfolding handle
  refused_never_reads s t u h bytes refused read r e =
      let first : Closes t =
        Allows-returned Closes (received p false (record s { idle_wait = false }) (false, h))
          (do_write-Closes false (record s { idle_wait = false; handler = h }))
          (rw refused at read) in
      rw e at (Reach-Closes first r)
