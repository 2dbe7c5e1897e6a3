-- ===== src/Http/Handler/Total.antt =====
-- `onBytesReceived` always returns: its recursion ends, and no session pointer is null.
use obsto_cpp.Base.{
  ℕ, zero, suc, ◌+◌, ◌≤◌, ◌<◌, Bool, ◌&&◌, [], ◌++◌, if_elim, length, drop, ◌≡◌, ◌∙◌, refl, arith,
  length-drop, length-append,
}
use obsto_cpp.Text.{Bytes, equals, codes}
use obsto_cpp.Outcome.{Returns}
use obsto_cpp.Storage.{ObjectStore, StreamingStore}
use obsto_cpp.Resp.Handler.Ready.{SessionLaws}
use obsto_cpp.Http.Message.{HttpRequest, no_request}
use obsto_cpp.Http.Parser.{ParseResult, complete, incomplete, error, parse, parse_headers_only}
use obsto_cpp.Http.Handler.Requests.{
  State, parsing_headers, streaming_body, Handler, process_request, key_of,
}
use obsto_cpp.Http.Handler.Ready.{ReadyIn, IsReady, process_request-SameUpload}
use obsto_cpp.Http.Handler.{
  Answer, announced_length, streamed_length, wants_streaming, begin_streaming_body, parsed,
  headers_seen, receive, on_bytes, on_bytes_received,
}
use obsto_cpp.Http.Handler.Upload.{Good, GoesOn, continue_streaming_body-Good, begin_of_length-Good}

module _ {S W R : Type 0} (store : ObjectStore S) (st : StreamingStore S W R)
    (laws : SessionLaws st) (n : ℕ) (again : Handler S W R → Bytes → Answer S W R)
    (goes_on : GoesOn n again) where
  parsed-Good :
      (h : Handler S W R) (r : ParseResult) (request : HttpRequest) (consumed : ℕ)
      → IsReady h
      → h.state ≡ parsing_headers
      → Good (parsed store st h (r, request, consumed))
  parsed-Good h complete request consumed v e =
      let k = process_request store st request h in
      let same = process_request-SameUpload store st laws h v.reading request in
      let closed : ReadyIn parsing_headers h.session h.incoming h.body_remaining =
        rw e at v.upload in
      record {
        upload = rw (same.same_state ∙ e, same.same_session) closed;
        reading = same.still_reading;
      }
  parsed-Good h incomplete request consumed v e = v
  parsed-Good h error request consumed v e =
      let closed : ReadyIn parsing_headers h.session h.incoming h.body_remaining =
        rw e at v.upload in
      record { upload = rw e closed; reading = v.reading }

  headers_seen-Good :
      (h : Handler S W R) (r : ParseResult) (request : HttpRequest) (consumed : ℕ)
      → IsReady h
      → h.state ≡ parsing_headers
      → length h.incoming ≤ n
      → Good (headers_seen store st again h (r, request, consumed))
  unfolding wants_streaming begin_streaming_body
  headers_seen-Good h incomplete request consumed v e fits =
      let r = parse h.incoming no_request in parsed-Good h r.0 r.1 r.2 v e
  headers_seen-Good h error request consumed v e fits =
      let r = parse h.incoming no_request in parsed-Good h r.0 r.1 r.2 v e
  headers_seen-Good h complete request consumed v e fits =
      let r = parse h.incoming no_request in
      let closed : ReadyIn parsing_headers h.session h.incoming h.body_remaining =
        rw e at v.upload in
      if_elim Good
        (equals request.method (codes "PUT")
          && (h.has_streaming && streamed_length (announced_length request)))
        (λ wants.
          begin_of_length-Good store st laws n again goes_on (record h { incoming = [] })
            (key_of request.path) (drop consumed h.incoming) (announced_length request)
            (record { upload = rw e closed; reading = v.reading }) refl (ground arith)
            (omega (arith, length-drop consumed h.incoming)))
        (λ _. parsed-Good h r.0 r.1 r.2 v e)

  receive-Good :
      (h : Handler S W R) (bytes : Bytes) (state : State)
      → h.state ≡ state
      → IsReady h
      → length h.incoming + length bytes ≤ n
      → Good (receive store st again h bytes state)
  receive-Good h bytes streaming_body e v fits =
      continue_streaming_body-Good store st laws n again goes_on h bytes v e (omega arith)
  receive-Good h bytes parsing_headers e v fits =
      let closed : ReadyIn parsing_headers h.session h.incoming h.body_remaining =
        rw e at v.upload in
      let r = parse_headers_only (h.incoming ++ bytes) no_request in
      headers_seen-Good (record h { incoming = h.incoming ++ bytes }) r.0 r.1 r.2
        (record { upload = rw e closed; reading = v.reading }) e
        (omega (arith, length-append h.incoming bytes))

module _ {S W R : Type 0} (store : ObjectStore S) (st : StreamingStore S W R)
    (laws : SessionLaws st) where
  on_bytes-Good :
      (fuel : ℕ) (h : Handler S W R) (bytes : Bytes)
      → IsReady h
      → length h.incoming + length bytes < fuel
      → Good (on_bytes store st fuel h bytes)
  unfolding on_bytes
  on_bytes-Good zero h bytes v fits = elim fits [ ]
  on_bytes-Good (suc fuel) h bytes v fits =
      receive-Good store st laws fuel (on_bytes store st fuel)
        (λ k more w e short. on_bytes-Good fuel k more w (rw e (omega arith))) h bytes h.state refl
        v (omega arith)

  -- Where the storage gives a session with each `Ok` and each object it finds: whatever bytes arrive,
  -- a handler that is ready returns, and is ready for the next call. The recursion ends, and no null
  -- session is used.
  pub http_on_bytes_received-IsReady :
      (h : Handler S W R) (bytes : Bytes)
      → IsReady h
      → Returns (λ (r : Bool × Handler S W R). IsReady r.1) (on_bytes_received store st h bytes)
  unfolding on_bytes_received
  http_on_bytes_received-IsReady h bytes v =
      on_bytes-Good (suc (length h.incoming + length bytes)) h bytes v (omega arith)
