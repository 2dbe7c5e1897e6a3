-- ===== src/Resp/Handler/Total.antt =====
-- `onBytesReceived` always returns: its recursion ends, and no session pointer is null.
use obsto_cpp.Base.{
  ℕ, zero, suc, ◌+◌, ◌≤◌, ◌<◌, Bool, true, false, List, [], ◌++◌, if_elim, Option, length, drop,
  ◌≡◌, refl, arith, length-append,
}
use obsto_cpp.Text.{Bytes}
use obsto_cpp.Outcome.{returned, null_session, out_of_fuel, ◌>>=◌, Returns}
use obsto_cpp.Storage.{ObjectStore, StreamingStore}
use obsto_cpp.Resp.Parser.{ParseResult, complete, incomplete, error}
use obsto_cpp.Resp.Handler.Header.{set_header}
use obsto_cpp.Resp.Handler.Commands.{
  Handler, State, parsing_commands, streaming_value, discarding_rejected_value, process_commands,
}
use obsto_cpp.Resp.Handler.Ready.{SessionLaws, ReadyIn, IsReady, process_commands-IsReady}
use obsto_cpp.Resp.Handler.{
  Answer, try_begin_streaming_set_value, parsed, parse_commands, try_streaming, receive, on_bytes,
  on_bytes_received,
}
use obsto_cpp.Resp.Handler.Upload.{
  Good, GoesOn, continue_streaming_value-Good, continue_discarding_value-Good,
  begin_streaming_value-Good,
}

module _ {S W R : Type 0} (store : ObjectStore S) (st : StreamingStore S W R)
    (laws : SessionLaws st) (n : ℕ) (again : Handler S W R → Bytes → Answer S W R)
    (goes_on : GoesOn n again) where
  try_streaming-Good :
      (h : Handler S W R)
      → IsReady h
      → h.state ≡ parsing_commands
      → length h.incoming ≤ n
      → Good (try_streaming store st again h)
  unfolding try_begin_streaming_set_value
  try_streaming-Good h v parsing fits =
      if_elim Good h.has_streaming
        (λ _.
          begin_streaming_value-Good store st laws n again goes_on h (set_header h.incoming) v
            parsing fits)
        (λ _. v)

  drop_nil : (k : ℕ) → drop {A = ℕ} k [] ≡ []
  drop_nil zero = refl
  drop_nil (suc k) = refl

  -- Taking bytes off the buffer, or clearing it, keeps the handler ready.
  shorter-ReadyIn :
      (state : State) (session : Option W) (incoming : Bytes) (value discard k : ℕ)
      → ReadyIn state session incoming value discard
      → ReadyIn state session (drop k incoming) value discard
        × ReadyIn state session [] value discard
  shorter-ReadyIn parsing_commands session incoming value discard k v = (v, v)
  shorter-ReadyIn streaming_value session incoming value discard k v =
      ((v.0, rw v.1 (drop_nil k), v.2), (v.0, refl, v.2))
  shorter-ReadyIn discarding_rejected_value session incoming value discard k v =
      ((v.0, rw v.1 (drop_nil k), v.2), (v.0, refl, v.2))

  parsed-Good :
      (h : Handler S W R) (r : ParseResult) (commands : List Bytes) (consumed : ℕ)
      → IsReady h
      → Good (parsed store st h (r, commands, consumed))
  parsed-Good h complete commands consumed v =
      let k = process_commands store st commands h in
      let w = process_commands-IsReady store st laws commands h v in
      record {
        upload = (shorter-ReadyIn k.state k.session k.incoming _ _ consumed w.upload).0;
        reading = w.reading;
      }
  parsed-Good h incomplete commands consumed v = v
  parsed-Good h error commands consumed v = record {
    upload = (shorter-ReadyIn h.state h.session h.incoming _ _ 0 v.upload).1;
    reading = v.reading;
  }

  parse_commands-Good : (o : Answer S W R) → Good o → Good (o >>= parse_commands store st)
  parse_commands-Good (returned (true, h)) v = v
  parse_commands-Good (returned (false, h)) v = parsed-Good h _ _ _ v
  parse_commands-Good null_session v = v
  parse_commands-Good out_of_fuel v = v

  receive-Good :
      (h : Handler S W R) (bytes : Bytes) (state : State)
      → h.state ≡ state
      → IsReady h
      → length h.incoming + length bytes ≤ n
      → Good (receive store st again h bytes state)
  receive-Good h bytes streaming_value e v fits =
      continue_streaming_value-Good store st laws n again goes_on h bytes v e (omega arith)
  receive-Good h bytes discarding_rejected_value e v fits =
      continue_discarding_value-Good store st laws n again goes_on h bytes v e (omega arith)
  receive-Good h bytes parsing_commands e v fits =
      let ready : ReadyIn parsing_commands h.session h.incoming
          (h.value_remaining + h.trailing_remaining) h.discard_remaining =
        rw e at v.upload in
      parse_commands-Good _ (
        try_streaming-Good (record h { incoming = h.incoming ++ bytes })
          (record { upload = rw e ready; reading = v.reading }) e
          (omega (arith, length-append h.incoming bytes)))

module _ {S W R : Type 0} (store : ObjectStore S) (st : StreamingStore S W R)
    (laws : SessionLaws st) where
  on_bytes-Good :
      (fuel : ℕ) (h : Handler S W R) (bytes : Bytes)
      → IsReady h
      → length h.incoming + length bytes < fuel
      → Good (on_bytes store st fuel h bytes)
  unfolding on_bytes
  on_bytes-Good zero h bytes v fits = elim fits [ ]
  on_bytes-Good (suc fuel) h bytes v fits =
      receive-Good store st laws fuel (on_bytes store st fuel)
        (λ k more w e short. on_bytes-Good fuel k more w (rw e (omega arith))) h bytes h.state refl
        v (omega arith)

  -- Where the storage gives a session with each `Ok` and each object it finds: whatever bytes arrive,
  -- a handler that is ready returns, and is ready for the next call. The recursion ends, and no null
  -- session is used.
  pub on_bytes_received-IsReady :
      (h : Handler S W R) (bytes : Bytes)
      → IsReady h
      → Returns (λ (r : Bool × Handler S W R). IsReady r.1) (on_bytes_received store st h bytes)
  unfolding on_bytes_received
  on_bytes_received-IsReady h bytes v =
      on_bytes-Good (suc (length h.incoming + length bytes)) h bytes v (omega arith)
