-- ===== src/Http/Handler/Upload.antt =====
-- A body that is streamed: the handler goes on with it, ends it, or begins it, and is ready behind each.
use obsto_cpp.Base.{
  ℕ, ◌-◌, ◌≤◌, ◌<◌, min, Bool, true, false, [], ◌∷◌, ◌==◌, ltb→lt, if_elim, Option, none, some,
  length, drop, ◌≡◌, refl, arith, length-drop,
}
use obsto_cpp.Text.{Bytes, empty}
use obsto_cpp.Outcome.{returned, ◌>>=◌, Returns}
use obsto_cpp.Storage.{PutResult, ObjectStore, StreamingStore, k_streaming_threshold}
use obsto_cpp.Resp.Handler.Ready.{HasSession, SessionLaws}
use obsto_cpp.Http.Handler.Requests.{parsing_headers, streaming_body, Handler}
use obsto_cpp.Http.Handler.Ready.{ReadyIn, IsReady}
use obsto_cpp.Http.Handler.{
  Answer, Announced, absent, invalid, announced, streamed_length, finish_response,
  finish_streaming_body, go_on, body_consumed, chunk_written, write_body, continue_streaming_body,
  body_begun, begin_of_length,
}

module _ {S W R : Type 0} where
  abbrev pub Good : Answer S W R → Type 0
  Good = Returns λ (r : Bool × Handler S W R). IsReady r.1

  -- What `onBytesReceived` is given for the bytes behind a body.
  abbrev pub GoesOn : ℕ → (Handler S W R → Bytes → Answer S W R) → Type 0
  GoesOn n again =
      (h : Handler S W R) (bytes : Bytes)
      → IsReady h
      → h.incoming ≡ []
      → length bytes < n
      → Good (again h bytes)

module _ {S W R : Type 0} (store : ObjectStore S) (st : StreamingStore S W R)
    (laws : SessionLaws st) (n : ℕ) (again : Handler S W R → Bytes → Answer S W R)
    (goes_on : GoesOn n again) where
  go_on-Good :
      (h : Handler S W R) (bytes : Bytes)
      → IsReady h
      → h.incoming ≡ []
      → length bytes < n
      → Good (go_on store st again h bytes)
  go_on-Good h [] v e short = v
  go_on-Good h (c ∷ bytes) v e short = goes_on h (c ∷ bytes) v e short

  finish_response-Good :
      (r : PutResult) (h : Handler S W R) (bytes : Bytes)
      → (h.streaming_read ≡ true → HasSession h.read_session)
      → h.session ≡ none
      → h.incoming ≡ []
      → length bytes < n
      → Good (
          go_on store st again
            (record (finish_response store st r h) { state = parsing_headers })
            bytes)
  finish_response-Good PutResult.ok h bytes reading closed buffer short =
      go_on-Good _ bytes (record { upload = closed; reading = reading }) buffer short
  finish_response-Good PutResult.capacity_exceeded h bytes reading closed buffer short =
      go_on-Good _ bytes (record { upload = closed; reading = reading }) buffer short
  finish_response-Good PutResult.invalid_path h bytes reading closed buffer short =
      go_on-Good _ bytes (record { upload = closed; reading = reading }) buffer short
  finish_response-Good PutResult.failed_to_write h bytes reading closed buffer short =
      go_on-Good _ bytes (record { upload = closed; reading = reading }) buffer short

  -- The handler in the middle of a body, with `bytes` behind what it has consumed of it.
  module _ (h : Handler S W R) (reading : h.streaming_read ≡ true → HasSession h.read_session)
      (buffer : h.incoming ≡ []) where
    ended-Good :
        (o : Option W) (bytes : Bytes)
        → HasSession o
        → length bytes < n
        → Good (
            finish_streaming_body store st h o >>= λ h'.
            go_on store st again (record h' { state = parsing_headers }) bytes)
    unfolding finish_streaming_body
    ended-Good none bytes has short = absurd has
    ended-Good (some w) bytes has short =
        finish_response-Good (st.finish w h.storage).0
          (record h { storage = (st.finish w h.storage).2; session = none }) bytes reading refl
          buffer short

    body_consumed-Good :
        (bytes : Bytes)
        → h.state ≡ streaming_body
        → HasSession h.session
        → (h.body_remaining ≡ 0 → length bytes < n)
        → Good (body_consumed store st again h bytes)
    body_consumed-Good bytes is_streaming has short =
        if_elim Good (h.body_remaining == 0)
          (λ all. ended-Good h.session bytes has (short (ground arith)))
          (λ more. record {
            upload = rw is_streaming (has, buffer, ground arith);
            reading = reading;
          })

  chunk_written-Good :
      (h : Handler S W R) (bytes : Bytes) (done : Bool) (w : W) (s : S)
      → (h.streaming_read ≡ true → HasSession h.read_session)
      → h.incoming ≡ []
      → h.state ≡ streaming_body
      → 0 < h.body_remaining
      → length bytes ≤ n
      → Good (chunk_written store st again h bytes (done, w, s))
  chunk_written-Good h bytes false w s reading buffer is_streaming some_left fits = record {
    upload = refl;
    reading = reading;
  }
  chunk_written-Good h bytes true w s reading buffer is_streaming some_left fits =
      body_consumed-Good
        (record h {
          storage = s;
          session = some w;
          body_remaining = h.body_remaining - min (length bytes) h.body_remaining;
        })
        reading buffer (drop (min (length bytes) h.body_remaining) bytes) is_streaming tt
        (λ e. omega (arith, length-drop (min (length bytes) h.body_remaining) bytes))

  write_body-Good :
      (h : Handler S W R) (bytes : Bytes) (o : Option W)
      → HasSession o
      → (h.streaming_read ≡ true → HasSession h.read_session)
      → h.incoming ≡ []
      → h.state ≡ streaming_body
      → 0 < h.body_remaining
      → length bytes ≤ n
      → Good (write_body store st again h bytes o)
  write_body-Good h bytes none has = absurd has
  write_body-Good h bytes (some w) has = chunk_written-Good h bytes _ _ _

  pub continue_streaming_body-Good :
      (h : Handler S W R) (bytes : Bytes)
      → IsReady h
      → h.state ≡ streaming_body
      → length bytes ≤ n
      → Good (continue_streaming_body store st again h bytes)
  unfolding continue_streaming_body
  continue_streaming_body-Good h bytes v is_streaming fits =
      let ready : ReadyIn streaming_body h.session h.incoming h.body_remaining =
        rw is_streaming at v.upload in
      write_body-Good h bytes h.session ready.0 v.reading ready.1 is_streaming ready.2 fits

  -- A new body begins: the handler parsed headers, and they are behind it.
  begun-Good :
      (k : Handler S W R) (bytes : Bytes)
      → IsReady k
      → k.state ≡ streaming_body
      → length bytes ≤ n
      → Good (elim (empty bytes) [
        | true ↦ returned (true, k)
        | false ↦ continue_streaming_body store st again k bytes
      ])
  begun-Good k [] w e f = w
  begun-Good k (c ∷ bytes) w e f = continue_streaming_body-Good k (c ∷ bytes) w e f

  body_begun-Good :
      (h : Handler S W R) (key : Bytes) (size : ℕ) (leftover : Bytes) (r : PutResult) (o : Option W)
      → IsReady h
      → h.incoming ≡ []
      → 0 < size
      → length leftover ≤ n
      → (r ≡ PutResult.ok → HasSession o)
      → Good (body_begun store st again h key size leftover r o)
  body_begun-Good h key size leftover PutResult.ok o v buffer some_left fits has =
      begun-Good _ leftover (record { upload = (has refl, buffer, some_left); reading = v.reading })
        refl fits
  body_begun-Good h key size leftover PutResult.capacity_exceeded o v buffer some_left fits has =
      record { upload = v.upload; reading = v.reading }
  body_begun-Good h key size leftover PutResult.invalid_path o v buffer some_left fits has =
      record { upload = v.upload; reading = v.reading }
  body_begun-Good h key size leftover PutResult.failed_to_write o v buffer some_left fits has =
      record { upload = v.upload; reading = v.reading }

  pub begin_of_length-Good :
      (h : Handler S W R) (key leftover : Bytes) (a : Announced)
      → IsReady h
      → h.incoming ≡ []
      → streamed_length a ≡ true
      → length leftover ≤ n
      → Good (begin_of_length store st again h key leftover a)
  begin_of_length-Good h key leftover absent v buffer large fits = record {
    upload = v.upload;
    reading = v.reading;
  }
  begin_of_length-Good h key leftover invalid v buffer large fits = record {
    upload = v.upload;
    reading = v.reading;
  }
  begin_of_length-Good h key leftover (announced size) v buffer large fits =
      let r = st.begin_put key size h.storage in
      body_begun-Good (record h { storage = r.1 }) key size leftover r.0.status r.0.session
        (record { upload = v.upload; reading = v.reading }) buffer
        (omega (arith, ltb→lt k_streaming_threshold size large)) fits
        (laws.begin_put_session key size h.storage)
