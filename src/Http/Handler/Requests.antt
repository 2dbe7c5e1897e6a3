-- ===== src/Http/Handler/Requests.antt =====
-- The state of the handler, and the requests.
use obsto_cpp.Base.{
  ℕ, Bool, true, false, ◌&&◌, List, [], ◌∷◌, ◌++◌, ltb, if◌then◌else◌, Option, none, some, length,
  drop,
}
use obsto_cpp.Text.{Bytes, codes, crlf, empty, equals}
use obsto_cpp.Text.Decimal.{to_string}
use obsto_cpp.Storage.{PutResult, ObjectStore, StreamingStore, BeginGetResult}
use obsto_cpp.Http.Message.{
  HttpRequest, Method, method_text, StatusCode, status_number, get_status_code_str,
}

pub data State : Type 0 where
  parsing_headers streaming_body : State

pub record Handler (S W R : Type 0) : Type 0 where
  pub storage : S
  pub has_streaming : Bool
  pub incoming : Bytes
  pub outgoing : Bytes
  pub state : State
  pub session : Option W
  pub body_remaining : ℕ
  pub pending_put_key : Bytes
  pub streaming_read : Bool
  pub read_session : Option R

-- A request gives its response, and the handler behind it.
abbrev pub Reaction : Type 0 → Type 0 → Type 0 → Type 0
Reaction S W R = Bytes × Handler S W R

-- the default of `contentType`
abbrev pub text_plain : Bytes
text_plain = codes "text/plain"

abbrev head_of : ℕ → Bytes → Bytes → ℕ → Bytes
head_of number status_text content_type size =
    codes "HTTP/1.1 "
    ++ (to_string number
        ++ (codes " "
            ++ (status_text
                ++ (crlf
                    ++ (codes "Content-Type: "
                        ++ (content_type
                            ++ (crlf
                                ++ (codes "Content-Length: "
                                    ++ (to_string size ++ (crlf ++ crlf))))))))))

-- both overloads
unfoldable pub build_response : StatusCode → Bytes → Bytes → Bytes
build_response status body content_type =
    head_of (status_number status) (get_status_code_str status) content_type (length body) ++ body

-- `path.size() > 1 ? path.substr(1) : ""`
unfoldable pub key_of : Bytes → Bytes
key_of path = if ltb 1 (length path) then drop 1 path else []

-- the body of `handleGetRoot`
unfoldable pub listing : List Bytes → Bytes
listing [] = []
listing (key ∷ keys) = key ++ (10 ∷ listing keys)

unfoldable pub handle_get_root : {S : Type 0} → ObjectStore S → S → Bytes
handle_get_root store s = build_response StatusCode.ok (listing (store.keys s)) text_plain

unfoldable pub put_response : PutResult → Bytes
put_response PutResult.ok = build_response StatusCode.ok [] []
put_response PutResult.capacity_exceeded =
    build_response StatusCode.insufficient_storage (codes "Storage capacity exceeded") text_plain
put_response PutResult.invalid_path =
    build_response StatusCode.bad_request (codes "Bad Request") (codes "Invalid path")
put_response PutResult.failed_to_write =
    build_response StatusCode.internal_server_error (codes "Internal Server Error") []

abbrev pub no_object : Bytes
no_object = build_response StatusCode.not_found (codes "No object at this path") text_plain

module _ {S W R : Type 0} where
  abbrev pub queue_response : Handler S W R → Bytes → Handler S W R
  queue_response h response = record h { outgoing = h.outgoing ++ response }

  -- the constructor
  unfoldable pub new_handler : S → Bool → Handler S W R
  new_handler s has_streaming = record {
    storage = s;
    has_streaming = has_streaming;
    incoming = [];
    outgoing = [];
    state = parsing_headers;
    session = none;
    body_remaining = 0;
    pending_put_key = [];
    streaming_read = false;
    read_session = none;
  }

module _ {S W R : Type 0} (store : ObjectStore S) (st : StreamingStore S W R) where
  unfoldable pub handle_put_path : Bytes → Bytes → Handler S W R → Reaction S W R
  handle_put_path path body h =
      let (r, s) = store.put (key_of path) body h.storage in
      (put_response r, record h { storage = s })

  abbrev pub deleted : Handler S W R → Bool × S → Reaction S W R
  deleted h (true, s) = (build_response StatusCode.ok [] [], record h { storage = s })
  deleted h (false, s) = (
    build_response StatusCode.internal_server_error (codes "Failed to delete object") text_plain,
    record h { storage = s },
  )

  unfoldable pub handle_delete_path : Bytes → Handler S W R → Reaction S W R
  handle_delete_path path h =
      if store.exists (key_of path) h.storage
      then deleted h (store.del (key_of path) h.storage)
      else (no_object, h)

  -- the headers of a streamed response
  abbrev pub stream_head : ℕ → Bytes
  stream_head size =
      codes "HTTP/1.1 200 OK"
      ++ (crlf
          ++ (codes "Content-Type: application/octet-stream"
              ++ (crlf ++ (codes "Content-Length: " ++ (to_string size ++ (crlf ++ crlf))))))

  abbrev pub got_streaming : Handler S W R → BeginGetResult R × S → Reaction S W R
  got_streaming h (r, s) =
      if r.found
      then (
        [],
        record (queue_response h (stream_head r.size)) {
          storage = s;
          read_session = r.session;
          streaming_read = true;
        },
      )
      else (no_object, record h { storage = s })

  abbrev pub got_value : Handler S W R → Option Bytes → Reaction S W R
  got_value h none = (no_object, h)
  got_value h (some value) =
      (build_response StatusCode.ok value (codes "application/octet-stream"), h)

  unfoldable pub handle_get_path : Bytes → Handler S W R → Reaction S W R
  handle_get_path path h =
      if h.has_streaming
      then got_streaming h (st.begin_get (key_of path) h.storage)
      else got_value h (store.get (key_of path) h.storage)

  unfoldable pub handle_request : HttpRequest → Handler S W R → Reaction S W R
  handle_request request h =
      if equals request.method (method_text Method.get) && equals request.path (codes "/")
      then (handle_get_root store h.storage, h)
      else if equals request.method (method_text Method.get)
      then handle_get_path request.path h
      else if equals request.method (method_text Method.put)
      then handle_put_path request.path request.body h
      else if equals request.method (method_text Method.delete)
      then handle_delete_path request.path h
      else (
        build_response StatusCode.method_not_allowed (codes "Method Not Allowed")
            (codes "Method not supported"),
        h,
      )

  unfoldable pub process_request : HttpRequest → Handler S W R → Handler S W R
  process_request request h =
      let (response, h') = handle_request request h in
      if empty response then h' else queue_response h' response
