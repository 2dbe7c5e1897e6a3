-- ===== src/Resp/Handler.antt =====
-- Core/Protocol/Resp/RespProtocolHandler.{h,cpp}. The storage that the handler refers to is the
-- field `storage`; its methods are the parameters `store` and, for the streaming interface and the
-- sessions, `st`. `has_streaming` is `m_streamingStorage != nullptr`.
pub mod Header
pub mod Commands
pub mod Ready
pub mod Upload
pub mod Total
pub mod Outgoing
pub mod Sending
pub mod Served
pub mod Listing
use obsto_cpp.Base.{
  ℕ, zero, suc, ◌+◌, ◌-◌, ◌≤◌, ◌<◌, min, Bool, true, false, not, ◌&&◌, List, [], ◌∷◌, ◌++◌, ◌==◌,
  ltb, if◌then◌else◌, Option, none, some, ℤ, pos, length, take, drop,
}
use obsto_cpp.Text.{Bytes, codes, crlf, empty, equals, to_upper}
use obsto_cpp.Text.Decimal.{to_string}
use obsto_cpp.Outcome.{Outcome, returned, null_session, out_of_fuel, ◌>>=◌}
use obsto_cpp.Storage.{
  PutResult, ObjectStore, StreamingStore, k_streaming_threshold, k_read_chunk_size,
}
use obsto_cpp.Resp.Reply
use obsto_cpp.Resp.Parser.{ParseResult, complete, incomplete, error, parse}
use Header.{SetHeader, set_header}
use Commands.{Handler, State, queue_response, process_commands}

-- `while (m_trailingCrlfRemaining > 0 && !data.empty())`: what remains of both
unfoldable pub skip_trailing : ℕ → Bytes → ℕ × Bytes
skip_trailing zero bytes = (0, bytes)
skip_trailing (suc n) [] = (suc n, [])
skip_trailing (suc n) (c ∷ bytes) = skip_trailing n bytes

-- what a method of the handler returns: the `bool`, and the handler
abbrev pub Answer : Type 0 → Type 0 → Type 0 → Type 0
Answer S W R = Outcome (Bool × Handler S W R)

module _ {S W R : Type 0} (store : ObjectStore S) (st : StreamingStore S W R) where
  -- the reply of `finishStreamingValue`
  abbrev pub finish_reply : Bool → PutResult → Bytes
  finish_reply true PutResult.ok = Reply.integer (pos 1)
  finish_reply true r = Reply.put_result_to_reply r
  finish_reply false r = Reply.put_result_to_reply r

  -- `m_activeSession` of the handler is the second argument.
  unfoldable pub finish_streaming_value : Handler S W R → Option W → Outcome (Handler S W R)
  finish_streaming_value h none = null_session
  finish_streaming_value h (some w) =
      let (result, w', s) = st.finish w h.storage in
      returned (
        queue_response (record h { storage = s; session = none }) (finish_reply h.is_set_nx result))

  -- `again` is `onBytesReceived`, for what stands behind the value.
  module _ (again : Handler S W R → Bytes → Answer S W R) where
    abbrev pub go_on : Handler S W R → Bytes → Answer S W R
    go_on h bytes = elim (empty bytes) [ true ↦ returned (true, h) | false ↦ again h bytes ]

    -- from the loop over the trailing "\r\n" on
    abbrev pub end_value : Handler S W R → ℕ × Bytes → Answer S W R
    end_value h (suc n, bytes) = returned (true, record h { trailing_remaining = suc n })
    end_value h (zero, bytes) =
        finish_streaming_value (record h { trailing_remaining = 0 }) h.session >>= λ h'.
        go_on (record h' { state = State.parsing_commands }) bytes

    abbrev pub value_consumed : Handler S W R → Bytes → Answer S W R
    value_consumed h bytes =
        if ltb 0 h.value_remaining
        then returned (true, h)
        else end_value h (skip_trailing h.trailing_remaining bytes)

    abbrev pub chunk_written : Handler S W R → Bytes → Bool × W × S → Answer S W R
    chunk_written h bytes (true, w, s) =
        let to_consume = min (length bytes) h.value_remaining in
        value_consumed
          (record h {
            storage = s;
            session = some w;
            value_remaining = h.value_remaining - to_consume;
          })
          (drop to_consume bytes)
    chunk_written h bytes (false, w, s) =
        let (w', s') = st.abort w s in
        returned (
          false,
          queue_response (record h { storage = s'; session = none; state = State.parsing_commands })
              (Reply.error (codes "write failed")),
        )

    abbrev pub write_value : Handler S W R → Bytes → Option W → Answer S W R
    write_value h bytes none = null_session
    write_value h bytes (some w) =
        chunk_written h bytes
          (st.write_chunk w (take (min (length bytes) h.value_remaining) bytes) h.storage)

    unfoldable pub continue_streaming_value : Handler S W R → Bytes → Answer S W R
    unfolding skip_trailing finish_streaming_value
    continue_streaming_value h bytes =
        if ltb 0 h.value_remaining then write_value h bytes h.session else value_consumed h bytes

    unfoldable pub continue_discarding_value : Handler S W R → Bytes → Answer S W R
    continue_discarding_value h bytes =
        let to_discard = min (length bytes) h.discard_remaining in
        let h' = record h { discard_remaining = h.discard_remaining - to_discard } in
        if ltb 0 h'.discard_remaining
        then returned (true, h')
        else go_on (record h' { state = State.parsing_commands }) (drop to_discard bytes)

    -- The value is refused with `reply`, and its bytes are to be dropped.
    abbrev pub refuse_value : Handler S W R → SetHeader → Bytes → Bytes → Answer S W R
    refuse_value h header leftover reply =
        let h' = record (queue_response h reply) {
          incoming = [];
          discard_remaining = header.value_length + 2;
          state = State.discarding_rejected_value;
        } in
        elim (empty leftover) [
          | true ↦ returned (true, h')
          | false ↦ continue_discarding_value h' leftover
        ]

    abbrev pub value_begun : Handler S W R → SetHeader → Bytes → PutResult → Option W → Answer S W R
    value_begun h header leftover PutResult.ok session =
        let h' = record h {
          incoming = [];
          session = session;
          value_remaining = header.value_length;
          trailing_remaining = 2;
          is_set_nx = header.is_set_nx;
          pending_key = header.key;
          state = State.streaming_value;
        } in
        elim (empty leftover) [
          | true ↦ returned (true, h')
          | false ↦ continue_streaming_value h' leftover
        ]
    value_begun h header leftover r session =
        refuse_value h header leftover (Reply.put_result_to_reply r)

    -- `tryBeginStreamingSetValue`, on the header that it found; `false` also where it began
    unfoldable pub begin_streaming_value : Handler S W R → Option SetHeader → Answer S W R
    begin_streaming_value h none = returned (false, h)
    begin_streaming_value h (some header) =
        let leftover = drop header.value_start h.incoming in
        if header.is_set_nx && store.exists header.key h.storage
        then refuse_value h header leftover (Reply.integer (pos 0))
        else (let (r, s) = st.begin_put header.key header.value_length h.storage in
            value_begun (record h { storage = s }) header leftover r.status r.session)

    unfoldable pub try_begin_streaming_set_value : Handler S W R → Answer S W R
    unfolding begin_streaming_value
    try_begin_streaming_set_value h = begin_streaming_value h (set_header h.incoming)

  -- behind `RespParser::parse`
  abbrev pub parsed : Handler S W R → ParseResult × List Bytes × ℕ → Answer S W R
  parsed h (complete, commands, consumed) =
      let h' = process_commands store st commands h in
      returned (true, record h' { incoming = drop consumed h'.incoming })
  parsed h (incomplete, commands, consumed) = returned (true, h)
  parsed h (error, commands, consumed) = returned (false, record h { incoming = [] })

  abbrev pub parse_commands : Bool × Handler S W R → Answer S W R
  parse_commands (true, h) = returned (true, h)
  parse_commands (false, h) = parsed h (parse h.incoming [])

  -- `m_streamingStorage && tryBeginStreamingSetValue()`
  abbrev pub try_streaming : (Handler S W R → Bytes → Answer S W R) → Handler S W R → Answer S W R
  try_streaming again h =
      if h.has_streaming then try_begin_streaming_set_value again h else returned (false, h)

  abbrev pub receive :
      (Handler S W R → Bytes → Answer S W R) → Handler S W R → Bytes → State → Answer S W R
  receive again h bytes State.streaming_value = continue_streaming_value again h bytes
  receive again h bytes State.discarding_rejected_value = continue_discarding_value again h bytes
  receive again h bytes State.parsing_commands =
      try_streaming again (record h { incoming = h.incoming ++ bytes }) >>= parse_commands

  -- `onBytesReceived`, on fuel
  unfoldable pub on_bytes : ℕ → Handler S W R → Bytes → Answer S W R
  on_bytes zero h bytes = out_of_fuel
  on_bytes (suc fuel) h bytes = receive (on_bytes fuel) h bytes h.state

  -- Each call that the handler makes of itself is on fewer bytes than it holds.
  unfoldable pub on_bytes_received : Handler S W R → Bytes → Answer S W R
  on_bytes_received h bytes = on_bytes (suc (length h.incoming + length bytes)) h bytes

  abbrev pub pumped : Handler S W R → Option Bytes × R × S → Handler S W R
  pumped h (some chunk, r, s) =
      queue_response (record h { storage = s; read_session = some r }) chunk
  pumped h (none, r, s) =
      queue_response (record h { storage = s; read_session = none; streaming_read = false }) crlf

  unfoldable pub pump_read_session : Handler S W R → Option R → Outcome (Handler S W R)
  pump_read_session h none = null_session
  pump_read_session h (some r) = returned (pumped h (st.read_chunk r k_read_chunk_size h.storage))

  unfoldable pub take_outgoing_bytes : Handler S W R → Outcome (Bytes × Handler S W R)
  unfolding pump_read_session
  take_outgoing_bytes h =
      (if empty h.outgoing && h.streaming_read
        then pump_read_session h h.read_session
        else returned h)
      >>= λ h'. returned (h'.outgoing, record h' { outgoing = [] })

  unfoldable pub has_more_to_send : Handler S W R → Bool
  has_more_to_send h = h.streaming_read
