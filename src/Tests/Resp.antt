-- ===== src/Tests/Resp.antt =====
-- The RESP parser and handler on concrete input.
use obsto_cpp.Base.{
  ◌≤◌, ◌<◌, [], ◌∷◌, ◌++◌, Option, none, some, ◌≡◌, ◌≢◌, refl, arith, length, true, false,
}
use obsto_cpp.Text.{Bytes, codes, to_upper}
use obsto_cpp.Text.Find.{find_crlf, line_end}
use obsto_cpp.Text.Decimal.{stoi}
use obsto_cpp.Storage.Memory.{ObjectStorage, memory_store, put, keys}
use obsto_cpp.Storage.Memory.Laws.{memory_laws}
use obsto_cpp.Storage.{PutResult}
use obsto_cpp.Resp.Reply
use obsto_cpp.Resp.Handler.Listing.{parse-handle_keys}
use obsto_cpp.Resp.Handler.Served.{on_bytes_received-array_reply, process_commands-set-get}
use obsto_cpp.Resp.Parser.{
  complete, incomplete, error, parse, parse_array, parse_element, parse_elements, parse_bulk_string,
}
use obsto_cpp.Resp.Parser.Streaming.{parse-append}
use obsto_cpp.Resp.Parser.Bounds.{parse_bound}
use obsto_cpp.Resp.Parser.RoundTrip.{array_reply, parse-array_reply}
use obsto_cpp.Outcome.{Returns, returned}
use obsto_cpp.Resp.Handler.Commands.{
  Handler, new_handler, handle_keys, process_commands, parsing_commands,
}
use obsto_cpp.Resp.Handler.Ready.{IsReady, SessionLaws, HasSession}
use obsto_cpp.Resp.Handler.{on_bytes_received}
use obsto_cpp.Resp.Handler.Total.{on_bytes_received-IsReady}
use obsto_cpp.Tests.{memory_streaming, found_object}

abbrev get_request : Bytes
get_request = codes "*2\r\n$3\r\nGET\r\n$1\r\na\r\n"

get_request_parsed : parse get_request [] ≡ (complete, codes "GET" ∷ codes "a" ∷ [], 20)
unfolding parse parse_array parse_elements parse_element parse_bulk_string find_crlf line_end stoi
get_request_parsed = refl

array_errors :
    (parse (codes "*x\r\n") [] ≡ (error, [], 0))
    × (parse (codes "*-1\r\n") [] ≡ (error, [], 0))
    × (parse (codes "*100001\r\n") [] ≡ (error, [], 0))
    × (parse (codes "*1\r\n!\r\n") [] ≡ (error, [], 0))
unfolding parse parse_array parse_elements parse_element parse_bulk_string find_crlf line_end stoi
array_errors = (refl, refl, refl, refl)

is_complete : (parse get_request []).0 ≢ incomplete
unfolding parse parse_array parse_elements parse_element parse_bulk_string find_crlf line_end stoi
is_complete e = cc

parse-append_example : parse (get_request ++ codes "*1\r\n") [] ≡ parse get_request []
parse-append_example = parse-append get_request (codes "*1\r\n") [] is_complete

parse_bound_example :
    (0 < (parse get_request []).2) × ((parse get_request []).2 ≤ length get_request)
unfolding parse parse_array parse_elements parse_element parse_bulk_string find_crlf line_end stoi
parse_bound_example = parse_bound get_request [] refl

parse-array_reply_example :
    parse (array_reply (codes "a\r\nb" ∷ [] ∷ []) ++ codes "+") []
    ≡ (complete, codes "a\r\nb" ∷ [] ∷ [], length (array_reply (codes "a\r\nb" ∷ [] ∷ [])))
parse-array_reply_example =
    parse-array_reply (codes "a\r\nb" ∷ [] ∷ []) (codes "+") [] (omega arith) (omega arith)

abbrev fresh : Handler ObjectStorage (Bytes × Bytes) Bytes
fresh = new_handler (record { storage = [] }) true

pub found-HasSession :
    (o : Option Bytes) → (found_object o).found ≡ true → HasSession (found_object o).session
found-HasSession none h = cc
found-HasSession (some v) h = tt

abbrev pub memory_sessions : SessionLaws memory_streaming
memory_sessions = record {
  begin_put_session = λ path size s h. tt;
  begin_get_session = λ path s h. found-HasSession _ h;
}

fresh-IsReady : IsReady fresh
unfolding new_handler
fresh-IsReady = record { upload = refl; reading = λ h. cc }

on_bytes_received-IsReady_example :
    Returns (λ r. IsReady r.1) (on_bytes_received memory_store memory_streaming fresh get_request)
on_bytes_received-IsReady_example =
    on_bytes_received-IsReady memory_store memory_streaming memory_sessions fresh get_request
      fresh-IsReady

abbrev buffered : Handler ObjectStorage (Bytes × Bytes) Bytes
buffered = new_handler (record { storage = [] }) false

buffered-IsIdle :
    (buffered.streaming_read ≡ false)
    × (buffered.state ≡ parsing_commands)
    × (buffered.has_streaming ≡ false)
    × (buffered.incoming ≡ [])
unfolding new_handler
buffered-IsIdle = (refl, refl, refl, refl)

not_reading : buffered.streaming_read ≡ true → HasSession buffered.read_session
not_reading h = cc (h, buffered-IsIdle.0)

on_bytes_received-array_reply_example :
    on_bytes_received memory_store memory_streaming buffered
      (array_reply (codes "GET" ∷ codes "a" ∷ []) ++ codes "*1")
    ≡ returned (
      true,
      record (process_commands memory_store memory_streaming
          (codes "GET" ∷ codes "a" ∷ [])
          (record buffered {
            incoming = array_reply (codes "GET" ∷ codes "a" ∷ []) ++ codes "*1";
          })) { incoming = codes "*1" },
    )
on_bytes_received-array_reply_example =
    on_bytes_received-array_reply memory_store memory_streaming memory_sessions buffered not_reading
      buffered-IsIdle.1 buffered-IsIdle.2 buffered-IsIdle.3 (codes "GET" ∷ codes "a" ∷ [])
      (codes "*1") (omega arith) (omega arith)

names_upper : (to_upper (codes "set") ≡ codes "SET") × (to_upper (codes "Get") ≡ codes "GET")
unfolding to_upper
names_upper = (refl, refl)

a_stored : (memory_store.put (codes "a") (codes "x") buffered.storage).0 ≡ PutResult.ok
unfolding put new_handler
a_stored = refl

process_commands-set-get_example :
    (process_commands memory_store memory_streaming (codes "Get" ∷ codes "a" ∷ []) (
      process_commands memory_store memory_streaming
        (codes "set" ∷ codes "a" ∷ codes "x" ∷ [])
        buffered)).outgoing
    ≡ (buffered.outgoing ++ Reply.ok) ++ Reply.bulk_string (codes "x")
process_commands-set-get_example =
    process_commands-set-get memory_store memory_streaming memory_laws buffered buffered-IsIdle.2
      (codes "set") (codes "Get") names_upper.0 names_upper.1 (codes "a") (codes "x") a_stored

abbrev two_objects : Handler ObjectStorage (Bytes × Bytes) Bytes
two_objects = new_handler (record { storage = (codes "a", codes "x") ∷ (codes "b", []) ∷ [] }) false

two_keys : memory_store.keys two_objects.storage ≡ codes "a" ∷ codes "b" ∷ []
unfolding new_handler keys
two_keys = refl

parse-handle_keys_example :
    let reply = (handle_keys memory_store memory_streaming [] two_objects).0 in
    parse (reply ++ codes "+") [] ≡ (complete, memory_store.keys two_objects.storage, length reply)
parse-handle_keys_example =
    parse-handle_keys memory_store memory_streaming two_objects [] (codes "+")
      (rw two_keys (omega arith)) (rw two_keys (omega arith))
