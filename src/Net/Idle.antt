-- ===== src/Net/Idle.antt =====
-- How long the idle timer of a session is in force.
use obsto_cpp.Base.{Bool, true, false, [], ◌∷◌, ◌++◌, ◌≡◌, ◌≢◌, ◌⊎◌, inl, inr, sym, ◌∙◌, refl, ap}
use obsto_cpp.Text.{Bytes}
use obsto_cpp.Outcome.{Outcome, ◌>>=◌, Allows, Allows-returned, Allows-bind}
use obsto_cpp.Net.{
  ProtocolHandler, Pending, reading, writing, posted, draining, over, Session, Event, read_done,
  received_then_thrown, read_failed, write_done, write_failed, post_run, drain_done, drain_failed,
  idle_elapsed, idle_expired, after_write, nothing_to_write, to_write, do_write, received, written,
  on_written, on_posted, handle, CanCome, bytes_written, posted_run, drained, no_drain, idle,
  completes, Reach, here, next, start,
}

module _ {H : Type 0} (p : ProtocolHandler H) where
  abbrev NotWaiting : Session H → Type 0
  NotWaiting s = s.idle_wait ≡ false

  after_write-NotWaiting :
      (keep : Bool) (s : Session H) → NotWaiting s → NotWaiting (after_write keep s)
  after_write-NotWaiting true s w = w
  after_write-NotWaiting false s w = refl

  nothing_to_write-NotWaiting :
      (more keep : Bool) (s : Session H)
      → NotWaiting s
      → NotWaiting (nothing_to_write p more keep s)
  nothing_to_write-NotWaiting true keep s w = w
  nothing_to_write-NotWaiting false keep s w = after_write-NotWaiting keep s w

  to_write-NotWaiting :
      (keep : Bool) (s : Session H) (r : Bytes × H)
      → NotWaiting s
      → NotWaiting (to_write p keep s r)
  to_write-NotWaiting keep s ([], h) w =
      nothing_to_write-NotWaiting (p.has_more_to_send h) keep (record s { handler = h }) w
  to_write-NotWaiting keep s (c ∷ bytes, h) w = w

  do_write-NotWaiting :
      (throws keep : Bool) (s : Session H)
      → NotWaiting s
      → Allows NotWaiting (do_write p throws keep s)
  unfolding do_write
  do_write-NotWaiting true keep s w = refl
  do_write-NotWaiting false keep s w =
      Allows-bind NotWaiting (p.take_outgoing_bytes s.handler) _
        (λ r. to_write-NotWaiting keep s r w)

  received-NotWaiting :
      (throws : Bool) (s : Session H) (o : Outcome (Bool × H))
      → NotWaiting s
      → Allows NotWaiting (o >>= received p throws s)
  received-NotWaiting throws s o w =
      Allows-bind NotWaiting o _
        (λ r. do_write-NotWaiting throws r.0 (record s { handler = r.1 }) w)

  written-NotWaiting :
      (more throws keep : Bool) (s : Session H)
      → NotWaiting s
      → Allows NotWaiting (written p more throws keep s)
  written-NotWaiting true throws keep s w = do_write-NotWaiting throws keep s w
  written-NotWaiting false throws keep s w = after_write-NotWaiting keep s w

  on_written-NotWaiting :
      (throws : Bool) (s : Session H) (q : Pending)
      → NotWaiting s
      → Allows NotWaiting (on_written p throws s q)
  on_written-NotWaiting throws s (writing bytes keep) w =
      written-NotWaiting (p.has_more_to_send s.handler) throws keep
        (record s { output = s.output ++ bytes }) w
  on_written-NotWaiting throws s reading w = w
  on_written-NotWaiting throws s (posted keep) w = w
  on_written-NotWaiting throws s draining w = w
  on_written-NotWaiting throws s over w = w

  on_posted-NotWaiting :
      (throws : Bool) (s : Session H) (q : Pending)
      → NotWaiting s
      → Allows NotWaiting (on_posted p throws s q)
  on_posted-NotWaiting throws s (posted keep) w = do_write-NotWaiting throws keep s w
  on_posted-NotWaiting throws s reading w = w
  on_posted-NotWaiting throws s (writing bytes keep) w = w
  on_posted-NotWaiting throws s draining w = w
  on_posted-NotWaiting throws s over w = w

  -- The timer is not waited for, or nothing but a read has been started and no expiry is queued.
  abbrev Quiet : Session H → Type 0
  Quiet s = NotWaiting s ⊎ ((s.pending ≡ reading) × (s.expiry_queued ≡ false))

  waiting_done :
      (s : Session H) (q : Pending) → Quiet s → s.pending ≡ q → q ≢ reading → NotWaiting s
  waiting_done s q (inl w) e n = w
  waiting_done s q (inr r) e n = absurd (n (sym e ∙ r.0))

  handle-NotWaiting :
      (e : Event) (s : Session H) → Quiet s → CanCome s e → Allows NotWaiting (handle p e s)
  unfolding handle
  handle-NotWaiting (read_done bytes true) s q m = refl
  handle-NotWaiting (read_done bytes false) s q m =
      received-NotWaiting false (record s { idle_wait = false })
        (p.on_bytes_received s.handler bytes) refl
  handle-NotWaiting (received_then_thrown bytes) s q m =
      received-NotWaiting true (record s { idle_wait = false })
        (p.on_bytes_received s.handler bytes) refl
  handle-NotWaiting read_failed s q m = refl
  handle-NotWaiting (write_done throws) s q (bytes_written bytes keep t e o) =
      on_written-NotWaiting throws s s.pending (waiting_done s (writing bytes keep) q e (λ x. cc))
  handle-NotWaiting write_failed s q m = refl
  handle-NotWaiting (post_run throws) s q (posted_run keep t e) =
      on_posted-NotWaiting throws s s.pending (waiting_done s (posted keep) q e (λ x. cc))
  handle-NotWaiting drain_done s q (drained e o) = waiting_done s draining q e (λ x. cc)
  handle-NotWaiting drain_failed s q (no_drain e) = waiting_done s draining q e (λ x. cc)
  handle-NotWaiting idle_elapsed s q m = refl
  handle-NotWaiting idle_expired s (inl w) (idle e) = w
  handle-NotWaiting idle_expired s (inr r) (idle e) = let never : true ≡ false = sym e ∙ r.1 in cc

  quiet : (h : H) (s : Session H) → (s ≡ start h) ⊎ NotWaiting s → Quiet s
  unfolding start
  quiet h s (inl e) =
      inr (ap (λ (t : Session H). t.pending) e, ap (λ (t : Session H). t.expiry_queued) e)
  quiet h s (inr w) = inl w

  -- In every session that is reached from a new one, other than the new one itself, no wait on the
  -- idle timer is pending: only before the first completion can it run out.
  pub idle_wait_once :
      (h : H) (s : Session H) → Reach p (start h) s → (s ≡ start h) ⊎ (s.idle_wait ≡ false)
  idle_wait_once h s here = inl refl
  idle_wait_once h s (next {t} r (completes e m eq)) = inr (
      Allows-returned NotWaiting (handle p e t)
        (handle-NotWaiting e t (quiet h t (idle_wait_once h t r)) m) eq)
