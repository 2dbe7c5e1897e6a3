-- ===== src/Net.antt =====
-- Core/Net/Session.{h,cpp}: a connection, as the completion handlers that asio calls. asio itself is
-- not modelled: an event says which operation has completed, and how. What is relied on of it: one
-- completion for each operation that is started, and those of a closed socket with an error;
-- `expires_after` and `cancel` drop the wait that is pending on the timer, unless it has run out.
pub mod Server
pub mod Safety
pub mod Idle
pub mod Delivery
pub mod Total
use obsto_cpp.Base.{ℕ, ◌+◌, ◌≤◌, ◌<◌, Bool, true, false, List, [], ◌∷◌, ◌++◌, length, ◌≡◌}
use obsto_cpp.Text.{Bytes, empty}
use obsto_cpp.Outcome.{Outcome, returned, null_session, out_of_fuel, ◌>>=◌}

-- `IProtocolHandler`
pub record ProtocolHandler (H : Type 0) : Type 0 where
  pub on_bytes_received : H → Bytes → Outcome (Bool × H)
  pub take_outgoing_bytes : H → Outcome (Bytes × H)
  pub has_more_to_send : H → Bool

-- The operation that has been started and whose completion is to come. The Boolean is
-- `keepGoingAfterWrite`; `over` has none, and the session is destroyed.
pub data Pending : Type 0 where
  reading : Pending
  writing : Bytes → Bool → Pending
  posted : Bool → Pending
  draining : Pending
  over : Pending

-- `idle_wait`: a wait on `m_idleTimer` is pending. `expiry_queued`: the timer has run out, and the
-- completion of the wait is queued, which nothing drops any more. `output` is what has been written to
-- the socket.
pub record Session (H : Type 0) : Type 0 where
  pub handler : H
  pub is_open : Bool
  pub idle_wait : Bool
  pub expiry_queued : Bool
  pub pending : Pending
  pub output : Bytes

abbrev pub buffer_size : ℕ
buffer_size = 4096

-- A completion. The Boolean says whether the first method of the handler that is called throws, and
-- `received_then_thrown` that `takeOutgoingBytes` does behind `onBytesReceived`. A handler that throws
-- is destroyed with its session, here in the state from before the call; what it has done to a storage
-- that it shares is left open in Server.
pub data Event : Type 0 where
  read_done : Bytes → Bool → Event
  received_then_thrown : Bytes → Event
  read_failed : Event
  write_done : Bool → Event
  write_failed : Event
  post_run : Bool → Event
  drain_done : Event
  drain_failed : Event
  idle_elapsed : Event
  idle_expired : Event

module _ {H : Type 0} where
  abbrev pub arm_idle_timer : Session H → Session H
  arm_idle_timer s = record s { idle_wait = true }

  -- `m_idleTimer.expires_after` and `m_idleTimer.cancel` drop the pending wait, and start none.
  abbrev pub drop_wait : Session H → Session H
  drop_wait s = record s { idle_wait = false }

  abbrev pub close_socket : Session H → Session H
  close_socket s = record s { is_open = false }

  abbrev pub do_read : Session H → Session H
  do_read s = record s { pending = reading }

  abbrev pub drain_and_close : Session H → Session H
  drain_and_close s = record s { pending = draining }

  unfoldable pub start : H → Session H
  start h = do_read (
      arm_idle_timer (record {
        handler = h;
        is_open = true;
        idle_wait = false;
        expiry_queued = false;
        pending = over;
        output = [];
      }))

  -- an exception of the handler, or an error of the socket
  abbrev pub thrown : Session H → Session H
  thrown s = record (close_socket (drop_wait s)) { pending = over }

  abbrev pub failed : Session H → Session H
  failed s = record (drop_wait s) { pending = over }

  abbrev pub after_write : Bool → Session H → Session H
  after_write true s = do_read s
  after_write false s = drain_and_close (drop_wait s)

module _ {H : Type 0} (p : ProtocolHandler H) where
  -- with the bytes that the handler gave
  abbrev pub nothing_to_write : Bool → Bool → Session H → Session H
  nothing_to_write true keep s = record s { pending = posted keep }
  nothing_to_write false keep s = after_write keep s

  abbrev pub to_write : Bool → Session H → Bytes × H → Session H
  to_write keep s ([], h) = nothing_to_write (p.has_more_to_send h) keep (record s { handler = h })
  to_write keep s (c ∷ bytes, h) = record s { handler = h; pending = writing (c ∷ bytes) keep }

  -- The first argument says whether `takeOutgoingBytes` throws.
  unfoldable pub do_write : Bool → Bool → Session H → Outcome (Session H)
  do_write true keep s = returned (thrown s)
  do_write false keep s = p.take_outgoing_bytes s.handler >>= λ r. returned (to_write keep s r)

  abbrev pub received : Bool → Session H → Bool × H → Outcome (Session H)
  received take_throws s (keep, h) = do_write take_throws keep (record s { handler = h })

  abbrev pub written : Bool → Bool → Bool → Session H → Outcome (Session H)
  written true throws keep s = do_write throws keep s
  written false throws keep s = returned (after_write keep s)

  abbrev pub on_written : Bool → Session H → Pending → Outcome (Session H)
  on_written throws s (writing bytes keep) =
      written (p.has_more_to_send s.handler) throws keep (record s { output = s.output ++ bytes })
  on_written throws s reading = returned s
  on_written throws s (posted keep) = returned s
  on_written throws s draining = returned s
  on_written throws s over = returned s

  abbrev pub on_posted : Bool → Session H → Pending → Outcome (Session H)
  on_posted throws s (posted keep) = do_write throws keep s
  on_posted throws s reading = returned s
  on_posted throws s (writing bytes keep) = returned s
  on_posted throws s draining = returned s
  on_posted throws s over = returned s

  -- what the session does on a completion
  unfoldable pub handle : Event → Session H → Outcome (Session H)
  handle (read_done bytes true) s = returned (thrown (drop_wait s))
  handle (read_done bytes false) s =
      p.on_bytes_received s.handler bytes >>= received false (drop_wait s)
  handle (received_then_thrown bytes) s =
      p.on_bytes_received s.handler bytes >>= received true (drop_wait s)
  handle read_failed s = returned (failed s)
  handle (write_done throws) s = on_written throws s s.pending
  handle write_failed s = returned (failed s)
  handle (post_run throws) s = on_posted throws s s.pending
  handle drain_done s = returned (drain_and_close s)
  handle drain_failed s = returned (record s { pending = over })
  handle idle_elapsed s = returned (record s { idle_wait = false; expiry_queued = true })
  handle idle_expired s = returned (record (close_socket s) { expiry_queued = false })

-- the completions that may come next
pub data CanCome {H : Type 0} (s : Session H) : Event → Type 0 where
  bytes_read :
      (bytes : Bytes) (throws : Bool)
      → s.pending ≡ reading
      → s.is_open ≡ true
      → 0 < length bytes
      → length bytes ≤ buffer_size
      → CanCome s (read_done bytes throws)
  bytes_read_thrown :
      (bytes : Bytes)
      → s.pending ≡ reading
      → s.is_open ≡ true
      → 0 < length bytes
      → length bytes ≤ buffer_size
      → CanCome s (received_then_thrown bytes)
  no_read : s.pending ≡ reading → CanCome s read_failed
  bytes_written :
      (bytes : Bytes) (keep throws : Bool)
      → s.pending ≡ writing bytes keep
      → s.is_open ≡ true
      → CanCome s (write_done throws)
  no_write : (bytes : Bytes) (keep : Bool) → s.pending ≡ writing bytes keep → CanCome s write_failed
  posted_run : (keep throws : Bool) → s.pending ≡ posted keep → CanCome s (post_run throws)
  drained : s.pending ≡ draining → s.is_open ≡ true → CanCome s drain_done
  no_drain : s.pending ≡ draining → CanCome s drain_failed
  elapsed : s.idle_wait ≡ true → CanCome s idle_elapsed
  idle : s.expiry_queued ≡ true → CanCome s idle_expired

-- one completion
pub data Step {H : Type 0} (p : ProtocolHandler H) (s t : Session H) : Type 0 where
  completes : (e : Event) → CanCome s e → handle p e s ≡ returned t → Step p s t

pub data Reach {H : Type 0} (p : ProtocolHandler H) (s : Session H) : Session H → Type 0 where
  here : Reach p s s
  next : {t u : Session H} → Reach p s t → Step p t u → Reach p s u
