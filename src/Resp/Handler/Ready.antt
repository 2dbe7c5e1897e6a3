-- ===== src/Resp/Handler/Ready.antt =====
-- When the handler may be called: the invariant of its state, and the commands keep it.
use obsto_cpp.Base.{ℕ, ◌+◌, ◌<◌, true, List, [], ◌∷◌, if_elim, Option, none, some, ◌≡◌, refl}
use obsto_cpp.Text.{Bytes, empty, to_upper}
use obsto_cpp.Storage.{PutResult, ObjectStore, StreamingStore, BeginGetResult}
use obsto_cpp.Resp.Handler.Commands.{
  State, parsing_commands, streaming_value, discarding_rejected_value, Handler, Command, ping, get,
  set, del, keys, setnx, queue_response, Reaction, got_streaming, got_value, call, dispatch,
  find_command, handle_command, process_commands,
}

abbrev pub HasSession : {A : Type 0} → Option A → Type 0
HasSession none = ⊥
HasSession (some a) = Unit

-- What the handler relies on: a storage that answers `Ok`, or that finds the object, gives a
-- session.
pub record SessionLaws {S W R : Type 0} (st : StreamingStore S W R) : Type 0 where
  pub begin_put_session :
      (path : Bytes) (size : ℕ) (s : S)
      → (st.begin_put path size s).0.status ≡ PutResult.ok
      → HasSession (st.begin_put path size s).0.session
  pub begin_get_session :
      (path : Bytes) (s : S)
      → (st.begin_get path s).0.found ≡ true
      → HasSession (st.begin_get path s).0.session

-- A write session is open exactly while a value is streamed, of which something is still to come;
-- outside command parsing the buffer is empty.
abbrev pub ReadyIn : {W : Type 0} → State → Option W → Bytes → ℕ → ℕ → Type 0
ReadyIn parsing_commands session incoming value discard = session ≡ none
ReadyIn streaming_value session incoming value discard =
    HasSession session × (incoming ≡ []) × (0 < value)
ReadyIn discarding_rejected_value session incoming value discard =
    (session ≡ none) × (incoming ≡ []) × (0 < discard)

module _ {S W R : Type 0} where
  pub record IsReady (h : Handler S W R) : Type 0 where
    pub upload :
        ReadyIn h.state h.session h.incoming
          (h.value_remaining + h.trailing_remaining)
          h.discard_remaining
    pub reading : h.streaming_read ≡ true → HasSession h.read_session

  -- A command leaves the upload alone.
  pub record SameUpload (h k : Handler S W R) : Type 0 where
    pub same_state : k.state ≡ h.state
    pub same_session : k.session ≡ h.session
    pub same_incoming : k.incoming ≡ h.incoming
    pub same_value : k.value_remaining ≡ h.value_remaining
    pub same_trailing : k.trailing_remaining ≡ h.trailing_remaining
    pub same_discard : k.discard_remaining ≡ h.discard_remaining
    pub reading : k.streaming_read ≡ true → HasSession k.read_session

  pub SameUpload-IsReady : {h k : Handler S W R} → SameUpload h k → IsReady h → IsReady k
  SameUpload-IsReady u v = record {
    upload =
        rw
          (
            u.same_state, u.same_session, u.same_incoming, u.same_value, u.same_trailing,
            u.same_discard,
          )
          v.upload;
    reading = u.reading;
  }

  unchanged :
      (h : Handler S W R) → (h.streaming_read ≡ true → HasSession h.read_session) → SameUpload h h
  unchanged h r = record {
    same_state = refl;
    same_session = refl;
    same_incoming = refl;
    same_value = refl;
    same_trailing = refl;
    same_discard = refl;
    reading = r;
  }

  -- So does putting a reply into the outgoing buffer, or another state into the storage.
  stored :
      (h : Handler S W R) (s : S)
      → (h.streaming_read ≡ true → HasSession h.read_session)
      → SameUpload h (record h { storage = s })
  stored h s r = record {
    same_state = refl;
    same_session = refl;
    same_incoming = refl;
    same_value = refl;
    same_trailing = refl;
    same_discard = refl;
    reading = r;
  }

  queued :
      (h k : Handler S W R) (response : Bytes)
      → SameUpload h k
      → SameUpload h (queue_response k response)
  queued h k response u = record {
    same_state = u.same_state;
    same_session = u.same_session;
    same_incoming = u.same_incoming;
    same_value = u.same_value;
    same_trailing = u.same_trailing;
    same_discard = u.same_discard;
    reading = u.reading;
  }

module _ {S W R : Type 0} (store : ObjectStore S) (st : StreamingStore S W R)
    (laws : SessionLaws st) (h : Handler S W R)
    (reading : h.streaming_read ≡ true → HasSession h.read_session) where
  got_streaming-SameUpload :
      (r : BeginGetResult R) (s : S)
      → (r.found ≡ true → HasSession r.session)
      → SameUpload h (got_streaming store st h (r, s)).1
  got_streaming-SameUpload r s f =
      if_elim (λ (x : Reaction S W R). SameUpload h x.1) r.found
        (λ found. record {
          same_state = refl;
          same_session = refl;
          same_incoming = refl;
          same_value = refl;
          same_trailing = refl;
          same_discard = refl;
          reading = λ _. f found;
        })
        (λ _. stored h s reading)

  got_value-SameUpload : (o : Option Bytes) → SameUpload h (got_value store st h o).1
  got_value-SameUpload none = unchanged h reading
  got_value-SameUpload (some value) = unchanged h reading

  call-SameUpload : (c : Command) (args : List Bytes) → SameUpload h (call store st c args h).1
  call-SameUpload ping [] = unchanged h reading
  call-SameUpload ping (a ∷ args) = unchanged h reading
  call-SameUpload get [] = unchanged h reading
  call-SameUpload get (k ∷ []) =
      if_elim (λ (x : Reaction S W R). SameUpload h x.1) h.has_streaming
        (λ _.
          got_streaming-SameUpload (st.begin_get k h.storage).0 (st.begin_get k h.storage).1
            (laws.begin_get_session k h.storage))
        (λ _. got_value-SameUpload (store.get k h.storage))
  call-SameUpload get (k ∷ l ∷ args) = unchanged h reading
  call-SameUpload set [] = unchanged h reading
  call-SameUpload set (k ∷ []) = unchanged h reading
  call-SameUpload set (k ∷ v ∷ []) = stored h _ reading
  call-SameUpload set (k ∷ v ∷ w ∷ args) = unchanged h reading
  call-SameUpload del [] = unchanged h reading
  call-SameUpload del (k ∷ []) = stored h _ reading
  call-SameUpload del (k ∷ l ∷ args) = unchanged h reading
  call-SameUpload keys args = unchanged h reading
  call-SameUpload setnx [] = unchanged h reading
  call-SameUpload setnx (k ∷ []) = unchanged h reading
  call-SameUpload setnx (k ∷ v ∷ []) = stored h _ reading
  call-SameUpload setnx (k ∷ v ∷ w ∷ args) = unchanged h reading

  dispatch-SameUpload :
      (name : Bytes) (c : Option Command) (args : List Bytes)
      → SameUpload h (dispatch store st name c args h).1
  dispatch-SameUpload name none args = unchanged h reading
  dispatch-SameUpload name (some c) args = call-SameUpload c args

  pub process_commands-SameUpload :
      (commands : List Bytes) → SameUpload h (process_commands store st commands h)
  unfolding process_commands handle_command
  process_commands-SameUpload [] = unchanged h reading
  process_commands-SameUpload (name ∷ args) =
      let r = handle_command store st name args h in
      let keeps = dispatch-SameUpload name (find_command (to_upper name)) args in
      if_elim (SameUpload h) (empty r.0) (λ _. keeps) (λ _. queued h r.1 r.0 keeps)

-- A command, whatever it is and whatever the storage answers, keeps the handler ready.
pub process_commands-IsReady :
    {S W R : Type 0} (store : ObjectStore S) (st : StreamingStore S W R) (laws : SessionLaws st)
    (commands : List Bytes) (h : Handler S W R)
    → IsReady h
    → IsReady (process_commands store st commands h)
process_commands-IsReady store st laws commands h v =
    SameUpload-IsReady (process_commands-SameUpload store st laws h v.reading commands) v
