-- ===== src/Resp/Handler/Sending.antt =====
-- A streamed GET: what the handler sends.
use obsto_cpp.Base.{
  true, false, [], ◌∷◌, ◌++◌, append_assoc, none, some, ◌≡◌, refl, ◌∙◌, ap, subst, length,
}
use obsto_cpp.Text.{Bytes, crlf, codes, equals, to_upper}
use obsto_cpp.Storage.{ObjectStore, StreamingStore}
use obsto_cpp.Storage.Chunks.{Chunks, end, chunk}
use obsto_cpp.Resp.Handler.Commands.{Handler, process_commands, handle_command, find_command}
use obsto_cpp.Resp.Reply
use obsto_cpp.Text.Decimal.{to_string}
use obsto_cpp.Resp.Handler.{
  pump_read_session, take_outgoing_bytes, has_more_to_send, on_bytes_received,
}
use obsto_cpp.Net.{ProtocolHandler}
use obsto_cpp.Net.Delivery.{Sends, last, more}

module _ {S W R : Type 0} (store : ObjectStore S) (st : StreamingStore S W R) where
  abbrev pub resp_handler : ProtocolHandler (Handler S W R)
  resp_handler = record {
    on_bytes_received = on_bytes_received store st;
    take_outgoing_bytes = take_outgoing_bytes store st;
    has_more_to_send = has_more_to_send store st;
  }

  -- the handler behind the read session
  abbrev pub read_out : Handler S W R → S → Handler S W R
  read_out h s = record h {
    storage = s;
    outgoing = [];
    streaming_read = false;
    read_session = none;
  }

  -- With nothing queued, the chunks are what is sent, and a line end behind them.
  pumps :
      (h : Handler S W R) {r : R} {s s' : S} {bytes : Bytes}
      → Chunks st r s bytes s'
      → h.storage ≡ s
      → h.streaming_read ≡ true
      → h.read_session ≡ some r
      → h.outgoing ≡ []
      → Sends resp_handler h (bytes ++ crlf) (read_out h s')
  unfolding take_outgoing_bytes pump_read_session has_more_to_send
  pumps h (end {r' = r'} e) at reading opened none_queued =
      last (rw (none_queued, reading, opened, at, e) refl) refl
  pumps h (chunk {r' = r'} {s1 = s1} {c = c} {rest = rest} e chunks whole) at reading opened
        none_queued =
      more {k = record h { storage = s1; read_session = some r'; outgoing = [] }} {bytes = c}
        (rw (none_queued, reading, opened, at, e) refl) reading
        (pumps (record h { storage = s1; read_session = some r'; outgoing = [] }) chunks refl
          reading refl refl)
        (ap (λ (b : Bytes). b ++ crlf) whole ∙ append_assoc c rest (crlf))

  -- what is queued goes first
  pumps_behind :
      (h : Handler S W R) (queued : Bytes) {r : R} {s' : S} {bytes : Bytes}
      → Chunks st r h.storage bytes s'
      → h.streaming_read ≡ true
      → h.read_session ≡ some r
      → h.outgoing ≡ queued
      → Sends resp_handler h (queued ++ (bytes ++ crlf)) (read_out h s')
  unfolding take_outgoing_bytes pump_read_session has_more_to_send
  pumps_behind h [] chunks reading opened e = pumps h chunks refl reading opened e
  pumps_behind h (c ∷ queued) chunks reading opened e =
      more {k = record h { outgoing = [] }} {bytes = c ∷ queued} (rw e refl) reading
        (pumps (record h { outgoing = [] }) chunks refl reading opened refl) refl

  -- Over a storage with a streaming interface: where a GET, its name in any case, finds an object
  -- whose announced size is the length of what its read session gives, what is sent in all, behind
  -- what was queued before, is the bulk string that a GET without streaming replies with.
  pub get-Sends :
      (h : Handler S W R) (name key : Bytes) (r : R) (s s' : S) (bytes : Bytes)
      → h.has_streaming ≡ true
      → to_upper name ≡ codes "GET"
      → st.begin_get key h.storage
        ≡ (record { found = true; size = length bytes; session = some r }, s)
      → Chunks st r s bytes s'
      → Sends resp_handler
          (process_commands store st (name ∷ key ∷ []) h)
          (h.outgoing ++ Reply.bulk_string bytes)
          (read_out (process_commands store st (name ∷ key ∷ []) h) s')
  unfolding process_commands handle_command find_command equals Reply.bulk_string
  get-Sends h name key r s s' bytes streaming gets found chunks =
      let head : Bytes = b'$' ∷ (to_string (length bytes) ++ crlf) in
      let k : Handler S W R = record h {
        has_streaming = true;
        outgoing = h.outgoing ++ head;
        storage = s;
        read_session = some r;
        streaming_read = true;
      } in
      let whole : (h.outgoing ++ head) ++ (bytes ++ crlf)
          ≡ h.outgoing ++ (b'$' ∷ (to_string (length bytes) ++ (crlf ++ (bytes ++ crlf)))) =
        simp append_assoc in
      let sends = pumps_behind k (h.outgoing ++ head) chunks refl refl refl in
      rw (gets, streaming, found) (subst (λ b. Sends resp_handler k b (read_out k s')) whole sends)
