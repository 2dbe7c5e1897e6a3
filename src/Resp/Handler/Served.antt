-- ===== src/Resp/Handler/Served.antt =====
-- A request as a client sends it, an array of bulk strings, at a handler with an empty buffer over a
-- storage with no streaming interface.
use obsto_cpp.Base.{◌≤◌, true, false, List, [], ◌∷◌, ◌++◌, length, drop-length, ◌≡◌, refl, ap}
use obsto_cpp.Text.{Bytes, codes, equals, equals_refl, to_upper}
use obsto_cpp.Outcome.{returned}
use obsto_cpp.Storage.{PutResult, ObjectStore, StreamingStore}
use obsto_cpp.Storage.Laws.{StoreLaws}
use obsto_cpp.Resp.Reply
use obsto_cpp.Resp.Parser.{k_max_array_elements}
use obsto_cpp.Resp.Parser.RoundTrip.{array_reply, AllFit, parse-array_reply}
use obsto_cpp.Resp.Handler.Commands.{
  Handler, parsing_commands, process_commands, handle_command, find_command,
}
use obsto_cpp.Resp.Handler.Ready.{HasSession, SessionLaws, process_commands-SameUpload}
use obsto_cpp.Resp.Handler.{on_bytes, on_bytes_received}

module _ {S W R : Type 0} (store : ObjectStore S) (st : StreamingStore S W R)
    (laws : SessionLaws st) (h : Handler S W R)
    (reading : h.streaming_read ≡ true → HasSession h.read_session)
    (parsing : h.state ≡ parsing_commands) (buffered : h.has_streaming ≡ false)
    (nothing_held : h.incoming ≡ []) where
  -- Over a storage with no streaming interface, at a handler that parses commands and holds no bytes:
  -- a request of values whose lengths fit an `int`, of which there are at most `kMaxArrayElements`, is
  -- processed as the command that it is, whatever stands behind it, and just that is then held.
  pub on_bytes_received-array_reply :
      (values : List Bytes) (rest : Bytes)
      → AllFit values
      → length values ≤ k_max_array_elements
      → on_bytes_received store st h (array_reply values ++ rest)
        ≡ returned (
          true,
          record (process_commands store st values
              (record h { incoming = array_reply values ++ rest })) { incoming = rest },
        )
  unfolding on_bytes_received on_bytes
  on_bytes_received-array_reply values rest fits few =
      let bytes = array_reply values ++ rest in
      let k : Handler S W R = record h {
        incoming = bytes;
        has_streaming = false;
        state = parsing_commands;
      } in
      let same = process_commands-SameUpload store st laws k reading values in
      rw (parsing, nothing_held, buffered, parse-array_reply values rest [] fits few)
        (ap
          (λ (left : Bytes).
            returned (true, record (process_commands store st values k) { incoming = left }))
          (rw same.same_incoming (drop-length (array_reply values) rest)))

-- What a client sees of its objects.
module _ {S W R : Type 0} (store : ObjectStore S) (st : StreamingStore S W R)
    (laws : StoreLaws store) (h : Handler S W R) (buffered : h.has_streaming ≡ false)
    (set_name get_name : Bytes) (sets : to_upper set_name ≡ codes "SET")
    (gets : to_upper get_name ≡ codes "GET") where
  -- Over a storage that keeps the laws of a storage and has no streaming interface: a SET that the
  -- storage accepts and a GET of the same key, their names in any case, are answered with OK and the
  -- value, behind what was to be sent before.
  pub process_commands-set-get :
      (key value : Bytes)
      → (store.put key value h.storage).0 ≡ PutResult.ok
      → (process_commands store st
          (get_name ∷ key ∷ [])
          (process_commands store st (set_name ∷ key ∷ value ∷ []) h)).outgoing
        ≡ (h.outgoing ++ Reply.ok) ++ Reply.bulk_string value
  unfolding process_commands handle_command find_command equals Reply.put_result_to_reply Reply.ok
      Reply.bulk_string
  process_commands-set-get key value done =
      rw (sets, gets, done, buffered, laws.put_ok key value key h.storage done, equals_refl key)
        refl
