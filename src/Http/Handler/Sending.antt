-- ===== src/Http/Handler/Sending.antt =====
-- A streamed GET: what the handler sends.
use obsto_cpp.Base.{
  true, false, [], ◌∷◌, ◌++◌, append_assoc, none, some, ◌≡◌, refl, ◌∙◌, ap, subst, length,
}
use obsto_cpp.Text.{Bytes, codes}
use obsto_cpp.Storage.{ObjectStore, StreamingStore}
use obsto_cpp.Storage.Chunks.{Chunks, end, chunk}
use obsto_cpp.Http.Handler.Requests.{Handler, key_of, handle_get_path, build_response, stream_head}
use obsto_cpp.Http.Message.{StatusCode, status_number, get_status_code_str}
use obsto_cpp.Text.Decimal.{to_string}
use obsto_cpp.Http.Handler.{
  pump_read_session, take_outgoing_bytes, has_more_to_send, on_bytes_received,
}
use obsto_cpp.Net.{ProtocolHandler}
use obsto_cpp.Net.Delivery.{Sends, last, more}

ok_number : to_string 200 ≡ codes "200"
unfolding to_string
ok_number = refl

module _ {S W R : Type 0} (store : ObjectStore S) (st : StreamingStore S W R) where
  abbrev pub http_handler : ProtocolHandler (Handler S W R)
  http_handler = record {
    on_bytes_received = on_bytes_received store st;
    take_outgoing_bytes = take_outgoing_bytes store st;
    has_more_to_send = has_more_to_send store st;
  }

  -- the handler behind the read session
  abbrev pub read_out : Handler S W R → S → Handler S W R
  read_out h s = record h {
    storage = s;
    outgoing = [];
    streaming_read = false;
    read_session = none;
  }

  -- With nothing queued, the chunks are what is sent.
  pumps :
      (h : Handler S W R) {r : R} {s s' : S} {bytes : Bytes}
      → Chunks st r s bytes s'
      → h.storage ≡ s
      → h.streaming_read ≡ true
      → h.read_session ≡ some r
      → h.outgoing ≡ []
      → Sends http_handler h (bytes) (read_out h s')
  unfolding take_outgoing_bytes pump_read_session has_more_to_send
  pumps h (end {r' = r'} e) at reading opened none_queued =
      last (rw (none_queued, reading, opened, at, e) refl) refl
  pumps h (chunk {r' = r'} {s1 = s1} {c = c} {rest = rest} e chunks whole) at reading opened
        none_queued =
      more {k = record h { storage = s1; read_session = some r'; outgoing = [] }} {bytes = c}
        (rw (none_queued, reading, opened, at, e) refl) reading
        (pumps (record h { storage = s1; read_session = some r'; outgoing = [] }) chunks refl
          reading refl refl)
        (whole)

  -- what is queued goes first
  pumps_behind :
      (h : Handler S W R) (queued : Bytes) {r : R} {s' : S} {bytes : Bytes}
      → Chunks st r h.storage bytes s'
      → h.streaming_read ≡ true
      → h.read_session ≡ some r
      → h.outgoing ≡ queued
      → Sends http_handler h (queued ++ (bytes)) (read_out h s')
  unfolding take_outgoing_bytes pump_read_session has_more_to_send
  pumps_behind h [] chunks reading opened e = pumps h chunks refl reading opened e
  pumps_behind h (c ∷ queued) chunks reading opened e =
      more {k = record h { outgoing = [] }} {bytes = c ∷ queued} (rw e refl) reading
        (pumps (record h { outgoing = [] }) chunks refl reading opened refl) refl

  stream_head_lem :
      (bytes : Bytes)
      → stream_head store st (length bytes) ++ bytes
        ≡ build_response StatusCode.ok bytes (codes "application/octet-stream")
  unfolding build_response status_number get_status_code_str
  stream_head_lem bytes = rw ok_number refl

  -- Over a storage with a streaming interface: where a GET finds an object whose announced size is the
  -- length of what its read session gives, what is sent in all, behind what was queued before, is the
  -- response that a GET without streaming gives.
  pub get_path-Sends :
      (h : Handler S W R) (path : Bytes) (r : R) (s s' : S) (bytes : Bytes)
      → h.has_streaming ≡ true
      → st.begin_get (key_of path) h.storage
        ≡ (record { found = true; size = length bytes; session = some r }, s)
      → Chunks st r s bytes s'
      → let (response, k) = handle_get_path store st path h in
        (response ≡ [])
        × Sends http_handler k
            (h.outgoing ++ build_response StatusCode.ok bytes (codes "application/octet-stream"))
            (read_out k s')
  unfolding handle_get_path
  get_path-Sends h path r s s' bytes streaming found chunks =
      let k : Handler S W R = record h {
        has_streaming = true;
        outgoing = h.outgoing ++ stream_head store st (length bytes);
        storage = s;
        read_session = some r;
        streaming_read = true;
      } in
      let whole : (h.outgoing ++ stream_head store st (length bytes)) ++ bytes
          ≡ h.outgoing ++ build_response StatusCode.ok bytes (codes "application/octet-stream") =
        append_assoc h.outgoing (stream_head store st (length bytes)) bytes
        ∙ ap (λ b. h.outgoing ++ b) (stream_head_lem bytes) in
      let sends =
        pumps_behind k (h.outgoing ++ stream_head store st (length bytes)) chunks refl refl refl in
      rw (streaming, found) (refl, subst (λ b. Sends http_handler k b (read_out k s')) whole sends)
