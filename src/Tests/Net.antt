-- ===== src/Tests/Net.antt =====
-- Sessions and the server on concrete input.
use obsto_cpp.Base.{[], ◌∷◌, ◌++◌, some, true, false, not, length, ◌≡◌, ◌≢◌, ◌⊎◌, refl, arith}
use obsto_cpp.Text.{Bytes, codes, equals, to_upper}
use obsto_cpp.Outcome.{returned}
use obsto_cpp.Storage.Chunks.{Chunks, chunk, end}
use obsto_cpp.Storage.Table
use obsto_cpp.Storage.Memory.{ObjectStorage, memory_store, get}
use obsto_cpp.Resp.Reply
use obsto_cpp.Resp.Handler.Commands as Commands
use obsto_cpp.Resp.Handler.Sending as RespSending
use obsto_cpp.Resp.Handler.Sending.{get-Sends}
use obsto_cpp.Http.Message.{StatusCode}
use obsto_cpp.Http.Handler.Requests as Requests
use obsto_cpp.Http.Handler.Requests.{build_response, key_of, handle_get_path}
use obsto_cpp.Http.Handler.Sending as HttpSending
use obsto_cpp.Http.Handler.Sending.{get_path-Sends}
use obsto_cpp.Net.{
  ProtocolHandler, Session, read_done, write_done, reading, writing, draining, start, do_write,
  after_write, handle, bytes_read, bytes_written, completes, Reach, here, next,
}
use obsto_cpp.Net.Safety.{refused_never_reads}
use obsto_cpp.Net.Idle.{idle_wait_once}
use obsto_cpp.Net.Delivery.{Sends, last, delivered}
use obsto_cpp.Tests.{memory_streaming}

-- It answers each bytes with "bye", and refuses at "quit"; its state is what it has to send.
abbrev polite : ProtocolHandler Bytes
polite = record {
  on_bytes_received = λ h bytes. returned (not (equals bytes (codes "quit")), codes "bye");
  take_outgoing_bytes = λ h. returned (h, []);
  has_more_to_send = λ h. false;
}

abbrev taking_leave : Session Bytes
taking_leave = record {
  handler = [];
  is_open = true;
  idle_wait = false;
  expiry_queued = false;
  pending = writing (codes "bye") false;
  output = [];
}

left : Session Bytes
left = record {
  handler = [];
  is_open = true;
  idle_wait = false;
  expiry_queued = false;
  pending = draining;
  output = codes "bye";
}

quit_refused : polite.on_bytes_received [] (codes "quit") ≡ returned (false, codes "bye")
unfolding equals
quit_refused = refl

quit_read : handle polite (read_done (codes "quit") false) (start []) ≡ returned taking_leave
unfolding handle start do_write equals
quit_read = refl

leaves : Reach polite taking_leave left
unfolding handle left
leaves =
    next here
      (completes (write_done false) (bytes_written (codes "bye") false false refl refl) refl)

refused_never_reads_example : left.pending ≢ reading
unfolding start
refused_never_reads_example =
    refused_never_reads polite (start []) taking_leave left (codes "bye") (codes "quit")
      quit_refused quit_read leaves

reads_quit : Reach polite (start []) taking_leave
unfolding start
reads_quit = next here (
    completes (read_done (codes "quit") false)
      (bytes_read (codes "quit") false refl refl (omega arith) (omega arith)) quit_read)

idle_wait_once_example : (taking_leave ≡ start []) ⊎ (taking_leave.idle_wait ≡ false)
idle_wait_once_example = idle_wait_once polite [] taking_leave reads_quit

abbrev greeting : Session Bytes
greeting = record {
  handler = codes "bye";
  is_open = true;
  idle_wait = false;
  expiry_queued = false;
  pending = reading;
  output = codes "hi, ";
}

delivered_example :
    (t : Session Bytes) × (do_write polite false true greeting ≡ returned t)
    × Reach polite t
        (after_write true (record greeting { handler = []; output = codes "hi, " ++ codes "bye" }))
delivered_example =
    delivered polite true greeting (last {k = []} {bytes = codes "bye"} refl refl) refl refl

abbrev with_a : ObjectStorage
with_a = record { storage = (codes "a", codes "01234") ∷ [] }

a-Chunks : Chunks memory_streaming (codes "01234") with_a (codes "01234") with_a
a-Chunks = chunk {r' = []} {c = codes "01234"} {rest = []} refl (end {r' = []} refl) refl

a_found : memory_streaming.begin_get (codes "a") with_a ≡ (
  record { found = true; size = length (codes "01234"); session = some (codes "01234") },
  with_a,
)
unfolding get Table.find equals
a_found = refl

is_get : to_upper (codes "get") ≡ codes "GET"
unfolding to_upper
is_get = refl

abbrev resp_connection : Commands.Handler ObjectStorage (Bytes × Bytes) Bytes
resp_connection = Commands.new_handler with_a true

is_streaming : resp_connection.has_streaming ≡ true
unfolding Commands.new_handler
is_streaming = refl

resp_found : memory_streaming.begin_get (codes "a") resp_connection.storage ≡ (
  record { found = true; size = length (codes "01234"); session = some (codes "01234") },
  with_a,
)
unfolding Commands.new_handler
resp_found = a_found

get-Sends_example :
    let k =
      Commands.process_commands memory_store memory_streaming
        (codes "get" ∷ codes "a" ∷ [])
        resp_connection in
    Sends
      (RespSending.resp_handler memory_store memory_streaming)
      k
      (resp_connection.outgoing ++ Reply.bulk_string (codes "01234"))
      (RespSending.read_out memory_store memory_streaming k with_a)
get-Sends_example =
    get-Sends memory_store memory_streaming resp_connection (codes "get") (codes "a")
      (codes "01234") with_a with_a (codes "01234") is_streaming is_get resp_found a-Chunks

abbrev http_connection : Requests.Handler ObjectStorage (Bytes × Bytes) Bytes
http_connection = Requests.new_handler with_a true

http_is_streaming : http_connection.has_streaming ≡ true
unfolding Requests.new_handler
http_is_streaming = refl

http_found : memory_streaming.begin_get (key_of (codes "/a")) http_connection.storage ≡ (
  record { found = true; size = length (codes "01234"); session = some (codes "01234") },
  with_a,
)
unfolding Requests.new_handler key_of
http_found = a_found

get_path-Sends_example :
    let (response, k) =
      handle_get_path memory_store memory_streaming (codes "/a") http_connection in
    (response ≡ [])
    × Sends
        (HttpSending.http_handler memory_store memory_streaming)
        k
        (http_connection.outgoing
          ++ build_response StatusCode.ok (codes "01234") (codes "application/octet-stream"))
        (HttpSending.read_out memory_store memory_streaming k with_a)
get_path-Sends_example =
    get_path-Sends memory_store memory_streaming http_connection (codes "/a") (codes "01234") with_a
      with_a (codes "01234") http_is_streaming http_found a-Chunks
