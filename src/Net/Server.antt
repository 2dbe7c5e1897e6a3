-- ===== src/Net/Server.antt =====
-- Core/Net/Server.{h,cpp}: the sessions of the connections that were accepted. Their handlers refer to
-- one storage: it is a field of the server, and is put into a handler for the time of its call.
use obsto_cpp.Base.{Bool, true, false, List, [], ◌∷◌, ◌++◌, ◌≡◌}
use obsto_cpp.Outcome.{returned}
use obsto_cpp.Net.{
  ProtocolHandler, Session, Event, read_done, received_then_thrown, read_failed, write_done,
  write_failed, post_run, drain_done, drain_failed, idle_elapsed, idle_expired, CanCome, handle,
  start,
}

-- how a handler refers to the storage, and `HandlerFactory`
pub record Sharing (S H : Type 0) : Type 0 where
  pub storage_of : H → S
  pub with_storage : S → H → H
  pub make_handler : S → H

pub record Server (S H : Type 0) : Type 0 where
  pub storage : S
  pub sessions : List (Session H)

-- Does the handler throw?
abbrev pub throws : Event → Bool
throws (read_done bytes thrown) = thrown
throws (received_then_thrown bytes) = true
throws read_failed = false
throws (write_done thrown) = thrown
throws write_failed = false
throws (post_run thrown) = thrown
throws drain_done = false
throws drain_failed = false
throws idle_elapsed = false
throws idle_expired = false

module _ {S H : Type 0} (p : ProtocolHandler H) (sharing : Sharing S H) where
  -- the constructor
  abbrev pub new_server : S → Server S H
  new_server s = record { storage = s; sessions = [] }

  abbrev pub at_storage : S → Session H → Session H
  at_storage s session = record session { handler = sharing.with_storage s session.handler }

  -- the completion of `async_accept` with no error; with an error nothing changes
  unfoldable pub accept : Server S H → Server S H
  accept v = record v { sessions = v.sessions ++ (start (sharing.make_handler v.storage) ∷ []) }

  -- A connection is accepted, or an operation of one session completes. Where the handler throws in
  -- it, what it has done to the storage by then stays, and is not known.
  pub data ServerStep (v w : Server S H) : Type 0 where
    accepts : w ≡ accept v → ServerStep v w
    serves :
        (before after : List (Session H)) (s t : Session H) (e : Event) (left : S)
        → v.sessions ≡ before ++ (s ∷ after)
        → CanCome s e
        → handle p e (at_storage v.storage s) ≡ returned t
        → (throws e ≡ false → left ≡ sharing.storage_of t.handler)
        → w ≡ record { storage = left; sessions = before ++ (t ∷ after) }
        → ServerStep v w

  pub data ServerReach (v : Server S H) : Server S H → Type 0 where
    here : ServerReach v v
    next : {w x : Server S H} → ServerReach v w → ServerStep w x → ServerReach v x
