-- ===== src/Net/Total.antt =====
-- Sessions over a handler that stays ready, in a server.
use obsto_cpp.Base.{Bool, true, false, List, [], ◌∷◌, ◌++◌, ◌≡◌}
use obsto_cpp.Text.{Bytes}
use obsto_cpp.Outcome.{◌>>=◌, Returns, Returns-returned, Returns-bind}
use obsto_cpp.Net.{
  ProtocolHandler, Pending, reading, writing, posted, draining, over, Session, Event, read_done,
  received_then_thrown, read_failed, write_done, write_failed, post_run, drain_done, drain_failed,
  idle_elapsed, idle_expired, after_write, nothing_to_write, to_write, do_write, received, written,
  on_written, on_posted, handle, start,
}
use obsto_cpp.Net.Server.{
  Sharing, Server, new_server, at_storage, accept, ServerStep, accepts, serves, ServerReach, here,
  next,
}

-- A handler that is ready answers each call, and is ready behind it, whatever the storage has become
-- meanwhile; a new one is ready.
pub record HandlerLaws {S H : Type 0} (p : ProtocolHandler H) (sharing : Sharing S H)
    (Ready : H → Type 0) : Type 0 where
  pub receives :
      (h : H) (bytes : Bytes)
      → Ready h
      → Returns (λ (r : Bool × H). Ready r.1) (p.on_bytes_received h bytes)
  pub sends : (h : H) → Ready h → Returns (λ (r : Bytes × H). Ready r.1) (p.take_outgoing_bytes h)
  pub shares : (s : S) (h : H) → Ready h → Ready (sharing.with_storage s h)
  pub begins : (s : S) → Ready (sharing.make_handler s)

module _ {S H : Type 0} (p : ProtocolHandler H) (sharing : Sharing S H) (Ready : H → Type 0)
    (laws : HandlerLaws p sharing Ready) where
  abbrev Good : Session H → Type 0
  Good s = Ready s.handler

  after_write-Good : (keep : Bool) (s : Session H) → Good s → Good (after_write keep s)
  after_write-Good true s g = g
  after_write-Good false s g = g

  nothing_to_write-Good :
      (more keep : Bool) (s : Session H) → Good s → Good (nothing_to_write p more keep s)
  nothing_to_write-Good true keep s g = g
  nothing_to_write-Good false keep s g = after_write-Good keep s g

  to_write-Good :
      (keep : Bool) (s : Session H) (r : Bytes × H) → Ready r.1 → Good (to_write p keep s r)
  to_write-Good keep s ([], h) g =
      nothing_to_write-Good (p.has_more_to_send h) keep (record s { handler = h }) g
  to_write-Good keep s (c ∷ bytes, h) g = g

  do_write-Good :
      (throws keep : Bool) (s : Session H) → Good s → Returns Good (do_write p throws keep s)
  unfolding do_write
  do_write-Good true keep s g = g
  do_write-Good false keep s g =
      Returns-bind (λ (r : Bytes × H). Ready r.1) Good (p.take_outgoing_bytes s.handler) _
        (laws.sends s.handler g) (λ r v. to_write-Good keep s r v)

  received-Good :
      (throws : Bool) (s : Session H) (bytes : Bytes)
      → Good s
      → Returns Good (p.on_bytes_received s.handler bytes >>= received p throws s)
  received-Good throws s bytes g =
      Returns-bind (λ (r : Bool × H). Ready r.1) Good (p.on_bytes_received s.handler bytes) _
        (laws.receives s.handler bytes g)
        (λ r v. do_write-Good throws r.0 (record s { handler = r.1 }) v)

  written-Good :
      (more throws keep : Bool) (s : Session H)
      → Good s
      → Returns Good (written p more throws keep s)
  written-Good true throws keep s g = do_write-Good throws keep s g
  written-Good false throws keep s g = after_write-Good keep s g

  on_written-Good :
      (throws : Bool) (s : Session H) (q : Pending)
      → Good s
      → Returns Good (on_written p throws s q)
  on_written-Good throws s (writing bytes keep) g =
      written-Good (p.has_more_to_send s.handler) throws keep
        (record s { output = s.output ++ bytes }) g
  on_written-Good throws s reading g = g
  on_written-Good throws s (posted keep) g = g
  on_written-Good throws s draining g = g
  on_written-Good throws s over g = g

  on_posted-Good :
      (throws : Bool) (s : Session H) (q : Pending) → Good s → Returns Good (on_posted p throws s q)
  on_posted-Good throws s (posted keep) g = do_write-Good throws keep s g
  on_posted-Good throws s reading g = g
  on_posted-Good throws s (writing bytes keep) g = g
  on_posted-Good throws s draining g = g
  on_posted-Good throws s over g = g

  handle-Good : (e : Event) (s : Session H) → Good s → Returns Good (handle p e s)
  unfolding handle
  handle-Good (read_done bytes true) s g = g
  handle-Good (read_done bytes false) s g =
      received-Good false (record s { idle_wait = false }) bytes g
  handle-Good (received_then_thrown bytes) s g =
      received-Good true (record s { idle_wait = false }) bytes g
  handle-Good read_failed s g = g
  handle-Good (write_done throws) s g = on_written-Good throws s s.pending g
  handle-Good write_failed s g = g
  handle-Good (post_run throws) s g = on_posted-Good throws s s.pending g
  handle-Good drain_done s g = g
  handle-Good drain_failed s g = g
  handle-Good idle_elapsed s g = g
  handle-Good idle_expired s g = g

  -- every session of the list is good
  abbrev AllGood : List (Session H) → Type 0
  AllGood [] = Unit {0}
  AllGood (s ∷ rest) = Good s × AllGood rest

  AllGood-append : (a b : List (Session H)) → AllGood a → AllGood b → AllGood (a ++ b)
  AllGood-append [] b g h = h
  AllGood-append (s ∷ a) b g h = (g.0, AllGood-append a b g.1 h)

  AllGood-split : (a b : List (Session H)) → AllGood (a ++ b) → AllGood a × AllGood b
  AllGood-split [] b g = (tt, g)
  AllGood-split (s ∷ a) b g = let (l, r) = AllGood-split a b g.1 in ((g.0, l), r)

  ServerStep-AllGood :
      {v w : Server S H} → AllGood v.sessions → ServerStep p sharing v w → AllGood w.sessions
  unfolding accept start
  ServerStep-AllGood {v} g (accepts e) =
      rw e (AllGood-append v.sessions _ g (laws.begins v.storage, tt))
  ServerStep-AllGood {v} g (serves before after s t e left at m eq kept w) =
      let (l, r) = AllGood-split before (s ∷ after) (rw at at g) in
      let good =
        handle-Good e (at_storage p sharing v.storage s) (laws.shares v.storage s.handler r.0) in
      rw w (AllGood-append before (t ∷ after) l (Returns-returned Good _ good eq, r.1))

  ServerReach-AllGood :
      {v w : Server S H} → AllGood v.sessions → ServerReach p sharing v w → AllGood w.sessions
  ServerReach-AllGood g here = g
  ServerReach-AllGood g (next r st) = ServerStep-AllGood (ServerReach-AllGood g r) st

  -- In every state that the server comes to, whatever completes in whatever session, in whatever
  -- order: the call returns.
  pub reached-Returns :
      (storage : S) (v : Server S H) (before after : List (Session H)) (s : Session H) (e : Event)
      → ServerReach p sharing (new_server p sharing storage) v
      → v.sessions ≡ before ++ (s ∷ after)
      → Returns Good (handle p e (at_storage p sharing v.storage s))
  reached-Returns storage v before after s e r at =
      let all : AllGood (before ++ (s ∷ after)) = rw (← at) (ServerReach-AllGood tt r) in
      handle-Good e (at_storage p sharing v.storage s)
        (laws.shares v.storage s.handler (AllGood-split before (s ∷ after) all).1.0)
