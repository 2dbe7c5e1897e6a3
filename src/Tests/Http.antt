-- ===== src/Tests/Http.antt =====
-- The HTTP parser and handler, and the detector, on concrete input.
use obsto_cpp.Base.{
  ◌≤◌, [], ◌∷◌, ◌++◌, none, some, ◌≡◌, ◌≢◌, refl, arith, length, true, false, take, drop, Bool,
}
use obsto_cpp.Text.{Bytes, codes, equals}
use obsto_cpp.Text.Search.{find, lines, starts_with}
use obsto_cpp.Text.Decimal.{stol, stoul}
use obsto_cpp.Storage.{PutResult}
use obsto_cpp.Storage.Table
use obsto_cpp.Storage.Memory.{ObjectStorage, memory_store, put, del, exists}
use obsto_cpp.Storage.Memory.Laws.{memory_laws}
use obsto_cpp.Outcome.{Returns, returned}
use obsto_cpp.Http.Message.{HttpRequest, no_request, Method, method_text, StatusCode}
use obsto_cpp.Http.Parser.{
  complete, parse, parse_headers_only, parse_request_line, parse_header_line, header_section,
  header_lines, strip_cr, content_length, to_lower, parse_content_length,
}
use obsto_cpp.Http.Parser.Stable.{complete_parse-append, complete_parse_bound}
use obsto_cpp.Http.Parser.Agreement.{IsSplit, parse-parse_headers_only}
use obsto_cpp.Http.Handler.Requests.{
  Handler, new_handler, build_response, key_of, handle_put_path, handle_get_path,
  handle_delete_path, no_object,
}
use obsto_cpp.Http.Handler.{on_bytes_received}
use obsto_cpp.Http.Handler.Ready.{IsReady}
use obsto_cpp.Http.Handler.Total.{http_on_bytes_received-IsReady}
use obsto_cpp.Http.Handler.Objects.{
  handle_get_path-handle_put_path, handle_get_path-handle_delete_path,
}
use obsto_cpp.Detector as Detector
use obsto_cpp.Detector.{new_detector, request_start}
use obsto_cpp.Detector.Choice.{is_http_lem}
use obsto_cpp.Detector.Split.{split_request_refused}
use obsto_cpp.Detector.Total.{DelegateIsReady, detector_on_bytes_received-IsReady}
use obsto_cpp.Tests.{memory_streaming}
use obsto_cpp.Tests.Resp.{memory_sessions}

abbrev put_request : Bytes
put_request = codes "PUT /a HTTP/1.1\r\nContent-Length: 2\r\n\r\nhi"

abbrev parsed_put : HttpRequest
parsed_put = record {
  method = codes "PUT";
  path = codes "/a";
  version = codes "HTTP/1.1";
  headers = (codes "content-length", codes "2") ∷ [];
  body = codes "hi";
}

put_request_parsed : parse put_request no_request ≡ (complete, parsed_put, 40)
unfolding parse find lines header_section header_lines strip_cr parse_request_line parse_header_line
    content_length to_lower stol Table.find Table.assign equals starts_with
put_request_parsed = refl

is_complete : (parse put_request no_request).0 ≡ complete
unfolding parse find lines header_section header_lines strip_cr parse_request_line parse_header_line
    content_length to_lower stol Table.find Table.assign equals starts_with
is_complete = refl

headers_only_parsed :
    parse_headers_only put_request no_request ≡ (complete, record parsed_put { body = [] }, 38)
unfolding parse_headers_only find lines header_section header_lines strip_cr parse_request_line
    parse_header_line to_lower Table.assign equals starts_with
headers_only_parsed = refl

lengths_refused :
    (parse_content_length (codes "-1") ≡ none)
    × (parse_content_length (codes "x") ≡ none)
    × (parse_content_length (codes " -1") ≡ some 18446744073709551615)
unfolding parse_content_length stoul
lengths_refused = (refl, refl, refl)

complete_parse-append_example :
    parse (put_request ++ codes "GET") no_request ≡ parse put_request no_request
complete_parse-append_example =
    complete_parse-append put_request (codes "GET") no_request is_complete

complete_parse_bound_example :
    (4 ≤ (parse put_request no_request).2) × ((parse put_request no_request).2 ≤ length put_request)
complete_parse_bound_example = complete_parse_bound put_request no_request is_complete

parse-parse_headers_only_example :
    IsSplit put_request (parse put_request no_request) (parse_headers_only put_request no_request)
parse-parse_headers_only_example = parse-parse_headers_only put_request no_request is_complete

abbrev fresh : Bool → Handler ObjectStorage (Bytes × Bytes) Bytes
fresh streaming = new_handler (record { storage = [] }) streaming

fresh-IsReady : IsReady (fresh true)
unfolding new_handler
fresh-IsReady = record { upload = refl; reading = λ h. cc }

http_on_bytes_received-IsReady_example :
    Returns
      (λ r. IsReady r.1)
      (on_bytes_received memory_store memory_streaming (fresh true) put_request)
http_on_bytes_received-IsReady_example =
    http_on_bytes_received-IsReady memory_store memory_streaming memory_sessions (fresh true)
      put_request fresh-IsReady

buffered : (fresh false).has_streaming ≡ false
unfolding new_handler
buffered = refl

put_done :
    (memory_store.put (key_of (codes "/a")) (codes "hi") (fresh false).storage).0 ≡ PutResult.ok
unfolding new_handler put key_of
put_done = refl

handle_get_path-handle_put_path_example :
    (handle_get_path memory_store memory_streaming
      (codes "/a")
      (handle_put_path memory_store memory_streaming (codes "/a") (codes "hi") (fresh false)).1).0
    ≡ build_response StatusCode.ok (codes "hi") (codes "application/octet-stream")
handle_get_path-handle_put_path_example =
    handle_get_path-handle_put_path memory_store memory_streaming memory_laws (fresh false) buffered
      (codes "/a") (codes "hi") put_done

abbrev with_a : Handler ObjectStorage (Bytes × Bytes) Bytes
with_a = new_handler (record { storage = (codes "a", codes "hi") ∷ [] }) false

a_buffered : with_a.has_streaming ≡ false
unfolding new_handler
a_buffered = refl

a_exists : memory_store.exists (key_of (codes "/a")) with_a.storage ≡ true
unfolding new_handler exists key_of Table.find equals
a_exists = refl

a_deleted : (memory_store.del (key_of (codes "/a")) with_a.storage).0 ≡ true
unfolding new_handler del key_of Table.find Table.erase equals
a_deleted = refl

handle_get_path-handle_delete_path_example :
    (handle_get_path memory_store memory_streaming
      (codes "/a")
      (handle_delete_path memory_store memory_streaming (codes "/a") with_a).1).0
    ≡ no_object
handle_get_path-handle_delete_path_example =
    handle_get_path-handle_delete_path memory_store memory_streaming memory_laws with_a a_buffered
      (codes "/a") a_exists a_deleted

is_http_lem_example : Detector.is_http put_request ≡ Detector.HttpMatchResult.matches
unfolding starts_with method_text
is_http_lem_example = is_http_lem put_request

abbrev undecided_yet : Detector.Detector ObjectStorage (Bytes × Bytes) Bytes
undecided_yet = new_detector (record { storage = [] }) true

none_chosen : undecided_yet.delegate ≡ Detector.Delegate.undecided
unfolding new_detector
none_chosen = refl

get_is_known : Method.get ≢ Method.unknown
get_is_known e = cc

split_request_refused_example :
    (Detector.on_bytes_received memory_store memory_streaming undecided_yet
        (take 2 (request_start Method.get))
      ≡ returned (true, undecided_yet))
    × (Detector.on_bytes_received memory_store memory_streaming undecided_yet
          (drop 2 (request_start Method.get) ++ codes "/ HTTP/1.1\r\n\r\n")
        ≡ returned (false, undecided_yet))
unfolding method_text
split_request_refused_example =
    split_request_refused memory_store memory_streaming undecided_yet none_chosen Method.get 2
      (codes "/ HTTP/1.1\r\n\r\n") get_is_known (omega arith) (omega arith)

undecided-IsReady : DelegateIsReady undecided_yet.delegate
unfolding new_detector
undecided-IsReady = tt

detector_on_bytes_received-IsReady_example :
    Returns
      (λ r. DelegateIsReady r.1.delegate)
      (Detector.on_bytes_received memory_store memory_streaming undecided_yet put_request)
detector_on_bytes_received-IsReady_example =
    detector_on_bytes_received-IsReady memory_store memory_streaming memory_sessions undecided_yet
      put_request undecided-IsReady
