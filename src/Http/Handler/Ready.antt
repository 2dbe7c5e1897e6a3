-- ===== src/Http/Handler/Ready.antt =====
-- When the handler may be called: the invariant of its state, and the requests keep it.
use obsto_cpp.Base.{ℕ, ◌<◌, ◌&&◌, Bool, true, false, [], if_elim, Option, none, some, ◌≡◌, refl}
use obsto_cpp.Text.{Bytes, codes, empty, equals}
use obsto_cpp.Storage.{ObjectStore, StreamingStore, BeginGetResult}
use obsto_cpp.Resp.Handler.Ready.{HasSession, SessionLaws}
use obsto_cpp.Http.Message.{HttpRequest, Method, method_text}
use obsto_cpp.Http.Handler.Requests.{
  State, parsing_headers, streaming_body, Handler, queue_response, Reaction, deleted, got_streaming,
  got_value, handle_put_path, handle_delete_path, handle_get_path, handle_request, process_request,
  key_of,
}

-- A write session is open exactly while a body is streamed, of which something is still to come, and
-- the buffer is empty then.
abbrev pub ReadyIn : {W : Type 0} → State → Option W → Bytes → ℕ → Type 0
ReadyIn parsing_headers session incoming body = session ≡ none
ReadyIn streaming_body session incoming body = HasSession session × (incoming ≡ []) × (0 < body)

module _ {S W R : Type 0} where
  pub record IsReady (h : Handler S W R) : Type 0 where
    pub upload : ReadyIn h.state h.session h.incoming h.body_remaining
    pub reading : h.streaming_read ≡ true → HasSession h.read_session

  -- A request leaves the upload alone.
  pub record SameUpload (h k : Handler S W R) : Type 0 where
    pub same_state : k.state ≡ h.state
    pub same_session : k.session ≡ h.session
    pub same_incoming : k.incoming ≡ h.incoming
    pub same_body : k.body_remaining ≡ h.body_remaining
    pub still_reading : k.streaming_read ≡ true → HasSession k.read_session

  pub SameUpload-IsReady : {h k : Handler S W R} → SameUpload h k → IsReady h → IsReady k
  SameUpload-IsReady u v = record {
    upload = rw (u.same_state, u.same_session, u.same_incoming, u.same_body) v.upload;
    reading = u.still_reading;
  }

  -- another state of the storage
  stored :
      (h : Handler S W R) (s : S)
      → (h.streaming_read ≡ true → HasSession h.read_session)
      → SameUpload h (record h { storage = s })
  stored h s r = record {
    same_state = refl;
    same_session = refl;
    same_incoming = refl;
    same_body = refl;
    still_reading = r;
  }

  queued :
      (h k : Handler S W R) (response : Bytes)
      → SameUpload h k
      → SameUpload h (queue_response k response)
  queued h k response u = record {
    same_state = u.same_state;
    same_session = u.same_session;
    same_incoming = u.same_incoming;
    same_body = u.same_body;
    still_reading = u.still_reading;
  }

module _ {S W R : Type 0} (store : ObjectStore S) (st : StreamingStore S W R)
    (laws : SessionLaws st) (h : Handler S W R)
    (reading : h.streaming_read ≡ true → HasSession h.read_session) where
  abbrev Keeps : Reaction S W R → Type 0
  Keeps r = SameUpload h r.1

  deleted-Keeps : (done : Bool) (s : S) → Keeps (deleted store st h (done, s))
  deleted-Keeps true s = stored h s reading
  deleted-Keeps false s = stored h s reading

  got_streaming-Keeps :
      (r : BeginGetResult R) (s : S)
      → (r.found ≡ true → HasSession r.session)
      → Keeps (got_streaming store st h (r, s))
  got_streaming-Keeps r s f =
      if_elim Keeps r.found
        (λ found. record {
          same_state = refl;
          same_session = refl;
          same_incoming = refl;
          same_body = refl;
          still_reading = λ _. f found;
        })
        (λ _. stored h s reading)

  got_value-Keeps : (o : Option Bytes) → Keeps (got_value store st h o)
  got_value-Keeps none = stored h h.storage reading
  got_value-Keeps (some value) = stored h h.storage reading

  handle_get_path-Keeps : (path : Bytes) → Keeps (handle_get_path store st path h)
  unfolding handle_get_path
  handle_get_path-Keeps path =
      if_elim Keeps h.has_streaming
        (λ _. got_streaming-Keeps _ _ (laws.begin_get_session (key_of path) h.storage))
        (λ _. got_value-Keeps (store.get (key_of path) h.storage))

  handle_delete_path-Keeps : (path : Bytes) → Keeps (handle_delete_path store st path h)
  unfolding handle_delete_path
  handle_delete_path-Keeps path =
      if_elim Keeps (store.exists (key_of path) h.storage)
        (λ _.
          deleted-Keeps (store.del (key_of path) h.storage).0 (store.del (key_of path) h.storage).1)
        (λ _. stored h h.storage reading)

  handle_request-Keeps : (request : HttpRequest) → Keeps (handle_request store st request h)
  unfolding handle_request handle_put_path
  handle_request-Keeps request =
      let same = stored h h.storage reading in
      if_elim Keeps
        (equals request.method (method_text Method.get) && equals request.path (codes "/"))
        (λ _. same)
        λ _.
          if_elim Keeps (equals request.method (method_text Method.get))
            (λ _. handle_get_path-Keeps request.path)
            λ _.
              if_elim Keeps (equals request.method (method_text Method.put))
                (λ _. stored h _ reading)
                λ _.
                  if_elim Keeps (equals request.method (method_text Method.delete))
                    (λ _. handle_delete_path-Keeps request.path) (λ _. same)

  pub process_request-SameUpload :
      (request : HttpRequest) → SameUpload h (process_request store st request h)
  unfolding process_request
  process_request-SameUpload request =
      let r = handle_request store st request h in
      let keeps = handle_request-Keeps request in
      if_elim (SameUpload h) (empty r.0) (λ _. keeps) (λ _. queued h r.1 r.0 keeps)

-- A request, whatever it is and whatever the storage answers, keeps the handler ready.
pub process_request-IsReady :
    {S W R : Type 0} (store : ObjectStore S) (st : StreamingStore S W R) (laws : SessionLaws st)
    (request : HttpRequest) (h : Handler S W R)
    → IsReady h
    → IsReady (process_request store st request h)
process_request-IsReady store st laws request h v =
    SameUpload-IsReady (process_request-SameUpload store st laws h v.reading request) v
