-- ===== src/Http/Handler.antt =====
-- Core/Protocol/Http/HttpProtocolHandler.{h,cpp}. The storage that the handler refers to is the field
-- `storage`; its methods are the parameters `store` and `st`. `has_streaming` is
-- `m_streamingStorage != nullptr`. `leftoverBody` is a view into `m_incomingBuffer`, which is cleared
-- before the view is used: the bytes are taken to stay as they were, as they do where `clear` keeps the
-- memory and the view begins behind the first byte.
pub mod Requests
pub mod Ready
pub mod Upload
pub mod Total
pub mod Outgoing
pub mod Sending
pub mod Objects
use obsto_cpp.Base.{
  ℕ, zero, suc, ◌+◌, ◌-◌, min, Bool, true, false, ◌&&◌, List, [], ◌++◌, ◌==◌, ltb, if◌then◌else◌,
  Option, none, some, length, take, drop,
}
use obsto_cpp.Text.{Bytes, codes, empty, equals}
use obsto_cpp.Outcome.{Outcome, returned, null_session, out_of_fuel, ◌>>=◌}
use obsto_cpp.Storage.{
  PutResult, ObjectStore, StreamingStore, k_streaming_threshold, k_read_chunk_size,
}
use obsto_cpp.Storage.Table
use obsto_cpp.Http.Message.{HttpRequest, no_request, Method, method_text, StatusCode}
use obsto_cpp.Http.Parser.{
  ParseResult, complete, incomplete, error, parse, parse_headers_only, parse_content_length,
}
use Requests.{
  State, parsing_headers, streaming_body, Handler, queue_response, build_response, text_plain,
  key_of, process_request,
}

abbrev pub Answer : Type 0 → Type 0 → Type 0 → Type 0
Answer S W R = Outcome (Bool × Handler S W R)

-- the Content-Length of the headers: none, or a text with its value if that is valid
pub data Announced : Type 0 where
  absent invalid : Announced
  announced : ℕ → Announced

abbrev valid : Option ℕ → Announced
valid none = invalid
valid (some n) = announced n

unfoldable pub announced_length : HttpRequest → Announced
announced_length request = elim (Table.find (codes "content-length") request.headers) [
  | none ↦ absent
  | some value ↦ valid (parse_content_length value)
]

abbrev streamed_length : Announced → Bool
streamed_length absent = ltb k_streaming_threshold 0
streamed_length invalid = false
streamed_length (announced n) = ltb k_streaming_threshold n

module _ {S W R : Type 0} (store : ObjectStore S) (st : StreamingStore S W R) where
  -- `wantsStreaming`
  unfoldable pub wants_streaming : Handler S W R → HttpRequest → Bool
  wants_streaming h request =
      equals request.method (codes "PUT")
      && (h.has_streaming && streamed_length (announced_length request))

  -- The `switch` of `finishStreamingBody` has no case for `FailedToWrite`.
  abbrev pub finish_response : PutResult → Handler S W R → Handler S W R
  finish_response PutResult.ok h = queue_response h (build_response StatusCode.ok [] text_plain)
  finish_response PutResult.capacity_exceeded h = queue_response h (
      build_response StatusCode.insufficient_storage (codes "Storage capacity exceeded") text_plain)
  finish_response PutResult.invalid_path h =
      queue_response h (build_response StatusCode.bad_request (codes "Invalid path") text_plain)
  finish_response PutResult.failed_to_write h = h

  -- `m_activeSession` of the handler is the second argument.
  unfoldable pub finish_streaming_body : Handler S W R → Option W → Outcome (Handler S W R)
  finish_streaming_body h none = null_session
  finish_streaming_body h (some w) =
      let (result, w', s) = st.finish w h.storage in
      returned (finish_response result (record h { storage = s; session = none }))

  -- `again` is `onBytesReceived`, for what stands behind the body.
  module _ (again : Handler S W R → Bytes → Answer S W R) where
    abbrev pub go_on : Handler S W R → Bytes → Answer S W R
    go_on h bytes = elim (empty bytes) [ true ↦ returned (true, h) | false ↦ again h bytes ]

    abbrev pub body_consumed : Handler S W R → Bytes → Answer S W R
    body_consumed h bytes =
        if h.body_remaining == 0
        then (finish_streaming_body h h.session >>= λ h'.
            go_on (record h' { state = parsing_headers }) bytes)
        else returned (true, h)

    abbrev pub chunk_written : Handler S W R → Bytes → Bool × W × S → Answer S W R
    chunk_written h bytes (true, w, s) =
        let to_consume = min (length bytes) h.body_remaining in
        body_consumed
          (record h {
            storage = s;
            session = some w;
            body_remaining = h.body_remaining - to_consume;
          })
          (drop to_consume bytes)
    chunk_written h bytes (false, w, s) =
        let (w', s') = st.abort w s in
        returned (
          false,
          queue_response (record h { storage = s'; session = none; state = parsing_headers })
              (build_response StatusCode.internal_server_error (codes "Write failed") text_plain),
        )

    abbrev pub write_body : Handler S W R → Bytes → Option W → Answer S W R
    write_body h bytes none = null_session
    write_body h bytes (some w) =
        chunk_written h bytes
          (st.write_chunk w (take (min (length bytes) h.body_remaining) bytes) h.storage)

    unfoldable pub continue_streaming_body : Handler S W R → Bytes → Answer S W R
    unfolding finish_streaming_body
    continue_streaming_body h bytes = write_body h bytes h.session

    abbrev pub refused : Handler S W R → StatusCode → Bytes → Answer S W R
    refused h status body =
        returned (false, queue_response h (build_response status body text_plain))

    abbrev pub body_begun : Handler S W R → Bytes → ℕ → Bytes → PutResult → Option W → Answer S W R
    body_begun h key size leftover PutResult.ok session =
        let h' = record h {
          session = session;
          body_remaining = size;
          pending_put_key = key;
          state = streaming_body;
        } in
        elim (empty leftover) [
          | true ↦ returned (true, h')
          | false ↦ continue_streaming_body h' leftover
        ]
    body_begun h key size leftover PutResult.capacity_exceeded session =
        refused h StatusCode.insufficient_storage (codes "Storage capacity exceeded")
    body_begun h key size leftover PutResult.invalid_path session =
        refused h StatusCode.bad_request (codes "Invalid path")
    body_begun h key size leftover PutResult.failed_to_write session =
        refused h StatusCode.internal_server_error (codes "Unknown error")

    abbrev pub begin_of_length : Handler S W R → Bytes → Bytes → Announced → Answer S W R
    begin_of_length h key leftover absent =
        refused h StatusCode.bad_request (codes "Missing Content-Length")
    begin_of_length h key leftover invalid =
        refused h StatusCode.bad_request (codes "Invalid Content-Length")
    begin_of_length h key leftover (announced size) =
        let (r, s) = st.begin_put key size h.storage in
        body_begun (record h { storage = s }) key size leftover r.status r.session

    unfoldable pub begin_streaming_body : Handler S W R → HttpRequest → Bytes → Answer S W R
    begin_streaming_body h request leftover =
        begin_of_length h (key_of request.path) leftover (announced_length request)

  -- the path that does not stream
  abbrev pub parsed : Handler S W R → ParseResult × HttpRequest × ℕ → Answer S W R
  parsed h (complete, request, consumed) =
      let h' = process_request store st request h in
      returned (true, record h' { incoming = drop consumed h'.incoming })
  parsed h (error, request, consumed) = returned (
    false,
    record (queue_response h
        (build_response StatusCode.bad_request (codes "Malformed request") text_plain)) {
          incoming = [];
        },
  )
  parsed h (incomplete, request, consumed) = returned (true, h)

  abbrev pub headers_seen :
      (Handler S W R → Bytes → Answer S W R)
      → Handler S W R
      → ParseResult × HttpRequest × ℕ
      → Answer S W R
  headers_seen again h (complete, request, consumed) =
      if wants_streaming h request
      then begin_streaming_body again (record h { incoming = [] }) request
          (drop consumed h.incoming)
      else parsed h (parse h.incoming no_request)
  headers_seen again h (incomplete, request, consumed) = parsed h (parse h.incoming no_request)
  headers_seen again h (error, request, consumed) = parsed h (parse h.incoming no_request)

  abbrev pub receive :
      (Handler S W R → Bytes → Answer S W R) → Handler S W R → Bytes → State → Answer S W R
  receive again h bytes streaming_body = continue_streaming_body again h bytes
  receive again h bytes parsing_headers =
      let h' = record h { incoming = h.incoming ++ bytes } in
      headers_seen again h' (parse_headers_only h'.incoming no_request)

  -- `onBytesReceived`, on fuel
  unfoldable pub on_bytes : ℕ → Handler S W R → Bytes → Answer S W R
  on_bytes zero h bytes = out_of_fuel
  on_bytes (suc fuel) h bytes = receive (on_bytes fuel) h bytes h.state

  -- Each call that the handler makes of itself is on fewer bytes than it holds.
  unfoldable pub on_bytes_received : Handler S W R → Bytes → Answer S W R
  on_bytes_received h bytes = on_bytes (suc (length h.incoming + length bytes)) h bytes

  abbrev pub pumped : Handler S W R → Option Bytes × R × S → Handler S W R
  pumped h (some chunk, r, s) =
      queue_response (record h { storage = s; read_session = some r }) chunk
  pumped h (none, r, s) = record h { storage = s; read_session = none; streaming_read = false }

  unfoldable pub pump_read_session : Handler S W R → Option R → Outcome (Handler S W R)
  pump_read_session h none = null_session
  pump_read_session h (some r) = returned (pumped h (st.read_chunk r k_read_chunk_size h.storage))

  unfoldable pub take_outgoing_bytes : Handler S W R → Outcome (Bytes × Handler S W R)
  unfolding pump_read_session
  take_outgoing_bytes h =
      (if empty h.outgoing && h.streaming_read
        then pump_read_session h h.read_session
        else returned h)
      >>= λ h'. returned (h'.outgoing, record h' { outgoing = [] })

  unfoldable pub has_more_to_send : Handler S W R → Bool
  has_more_to_send h = h.streaming_read
