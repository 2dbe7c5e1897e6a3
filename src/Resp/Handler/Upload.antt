-- ===== src/Resp/Handler/Upload.antt =====
-- A value that is streamed or dropped: the handler goes on with it, ends it, or begins it, and is ready
-- behind each.
use obsto_cpp.Base.{
  ℕ, zero, suc, ◌+◌, ◌-◌, ◌≤◌, ◌<◌, min, Bool, true, false, ◌&&◌, [], ◌∷◌, ltb, ltb→lt, if_elim,
  Option, none, some, length, drop, ◌≡◌, ◌⊎◌, inl, inr, refl, arith, length-drop,
}
use obsto_cpp.Text.{Bytes, empty}
use obsto_cpp.Outcome.{returned, ◌>>=◌, Returns}
use obsto_cpp.Storage.{PutResult, ObjectStore, StreamingStore}
use obsto_cpp.Resp.Handler.Header.{SetHeader}
use obsto_cpp.Resp.Handler.Commands.{
  Handler, parsing_commands, streaming_value, discarding_rejected_value,
}
use obsto_cpp.Resp.Handler.Ready.{HasSession, SessionLaws, ReadyIn, IsReady}
use obsto_cpp.Resp.Handler.{
  skip_trailing, Answer, finish_streaming_value, go_on, end_value, value_consumed, chunk_written,
  write_value, continue_streaming_value, continue_discarding_value, refuse_value, value_begun,
  begin_streaming_value,
}

-- Each byte that is skipped is one of the trailing bytes that remained.
skip_trailing-length :
    (n : ℕ) (bytes : Bytes)
    → length (skip_trailing n bytes).1 + n ≡ length bytes + (skip_trailing n bytes).0
unfolding skip_trailing
skip_trailing-length zero bytes = refl
skip_trailing-length (suc n) [] = refl
skip_trailing-length (suc n) (c ∷ bytes) = omega (arith, skip_trailing-length n bytes)

module _ {S W R : Type 0} where
  abbrev pub Good : Answer S W R → Type 0
  Good = Returns λ (r : Bool × Handler S W R). IsReady r.1

  -- What `onBytesReceived` is given for the bytes behind a value.
  abbrev pub GoesOn : ℕ → (Handler S W R → Bytes → Answer S W R) → Type 0
  GoesOn n again =
      (h : Handler S W R) (bytes : Bytes)
      → IsReady h
      → h.incoming ≡ []
      → length bytes < n
      → Good (again h bytes)

module _ {S W R : Type 0} (store : ObjectStore S) (st : StreamingStore S W R)
    (laws : SessionLaws st) (n : ℕ) (again : Handler S W R → Bytes → Answer S W R)
    (goes_on : GoesOn n again) where
  go_on-Good :
      (h : Handler S W R) (bytes : Bytes)
      → IsReady h
      → h.incoming ≡ []
      → length bytes < n ⊎ (bytes ≡ [])
      → Good (go_on store st again h bytes)
  go_on-Good h [] v e short = v
  go_on-Good h (c ∷ bytes) v e (inl short) = goes_on h (c ∷ bytes) v e short
  go_on-Good h (c ∷ bytes) v e (inr none_left) = cc

  -- The handler in the middle of a value, with `bytes` behind what it has consumed of it.
  module _ (h : Handler S W R) (reading : h.streaming_read ≡ true → HasSession h.read_session)
      (buffer : h.incoming ≡ []) where
    ended-Good :
        (o : Option W) (bytes : Bytes)
        → HasSession o
        → length bytes < n
        → Good (
            finish_streaming_value store st (record h { trailing_remaining = 0 }) o >>= λ h'.
            go_on store st again (record h' { state = parsing_commands }) bytes)
    unfolding finish_streaming_value
    ended-Good none bytes has short = absurd has
    ended-Good (some w) bytes has short =
        go_on-Good _ bytes (record { upload = refl; reading = reading }) buffer (inl short)

    end_value-Good :
        (k : ℕ) (bytes : Bytes)
        → h.state ≡ streaming_value
        → HasSession h.session
        → (k ≡ 0 → length bytes < n)
        → Good (end_value store st again h (k, bytes))
    end_value-Good zero bytes is_streaming has short = ended-Good h.session bytes has (short refl)
    end_value-Good (suc k) bytes is_streaming has short = record {
      upload = rw is_streaming (has, buffer, omega arith);
      reading = reading;
    }

    value_consumed-Good :
        (bytes : Bytes)
        → h.state ≡ streaming_value
        → HasSession h.session
        → (h.value_remaining ≡ 0 → length bytes < n + h.trailing_remaining)
        → Good (value_consumed store st again h bytes)
    value_consumed-Good bytes is_streaming has short =
        if_elim Good (ltb 0 h.value_remaining)
          (λ more. record {
            upload = rw is_streaming (has, buffer, ground arith);
            reading = reading;
          })
          (λ all.
            end_value-Good _ _ is_streaming has
              (λ e. ground (arith, skip_trailing-length h.trailing_remaining bytes)))

  chunk_written-Good :
      (h : Handler S W R) (bytes : Bytes) (done : Bool) (w : W) (s : S)
      → (h.streaming_read ≡ true → HasSession h.read_session)
      → h.incoming ≡ []
      → h.state ≡ streaming_value
      → 0 < h.value_remaining
      → length bytes ≤ n
      → Good (chunk_written store st again h bytes (done, w, s))
  chunk_written-Good h bytes false w s reading buffer is_streaming some_left fits = record {
    upload = refl;
    reading = reading;
  }
  chunk_written-Good h bytes true w s reading buffer is_streaming some_left fits =
      value_consumed-Good
        (record h {
          storage = s;
          session = some w;
          value_remaining = h.value_remaining - min (length bytes) h.value_remaining;
        })
        reading buffer (drop (min (length bytes) h.value_remaining) bytes) is_streaming tt
        (λ e. omega (arith, length-drop (min (length bytes) h.value_remaining) bytes))

  write_value-Good :
      (h : Handler S W R) (bytes : Bytes) (o : Option W)
      → HasSession o
      → (h.streaming_read ≡ true → HasSession h.read_session)
      → h.incoming ≡ []
      → h.state ≡ streaming_value
      → 0 < h.value_remaining
      → length bytes ≤ n
      → Good (write_value store st again h bytes o)
  write_value-Good h bytes none has = absurd has
  write_value-Good h bytes (some w) has = chunk_written-Good h bytes _ _ _

  -- A value of which something is still to come, and at most `n` bytes of data.
  pub continue_streaming_value-Good :
      (h : Handler S W R) (bytes : Bytes)
      → IsReady h
      → h.state ≡ streaming_value
      → length bytes ≤ n
      → Good (continue_streaming_value store st again h bytes)
  unfolding continue_streaming_value
  continue_streaming_value-Good h bytes v is_streaming fits =
      let ready : ReadyIn streaming_value h.session h.incoming
          (h.value_remaining + h.trailing_remaining) h.discard_remaining =
        rw is_streaming at v.upload in
      if_elim Good (ltb 0 h.value_remaining)
        (λ more.
          write_value-Good h bytes h.session ready.0 v.reading ready.1 is_streaming
            (ltb→lt _ _ more) fits)
        (λ all.
          value_consumed-Good h v.reading ready.1 bytes is_streaming ready.0
            (λ e. omega (arith, ready.2)))

  pub continue_discarding_value-Good :
      (h : Handler S W R) (bytes : Bytes)
      → IsReady h
      → h.state ≡ discarding_rejected_value
      → length bytes ≤ n
      → Good (continue_discarding_value store st again h bytes)
  unfolding continue_discarding_value
  continue_discarding_value-Good h bytes v is_discarding fits =
      let ready : ReadyIn discarding_rejected_value h.session h.incoming
          (h.value_remaining + h.trailing_remaining) h.discard_remaining =
        rw is_discarding at v.upload in
      let k = min (length bytes) h.discard_remaining in
      if_elim Good (ltb 0 (h.discard_remaining - k))
        (λ more. record {
          upload = rw is_discarding (ready.0, ready.1, ltb→lt _ _ more);
          reading = v.reading;
        })
        (λ all.
          go_on-Good
            (record h { discard_remaining = h.discard_remaining - k; state = parsing_commands })
            (drop k bytes) (record { upload = ready.0; reading = v.reading }) ready.1
            (inl (ground (arith, length-drop k bytes, ready.2))))

  -- A new value begins: the handler parsed commands, and the header is behind it.
  module _ (h : Handler S W R) (v : IsReady h) (parsing : h.state ≡ parsing_commands)
      (header : SetHeader) (leftover : Bytes) (fits : length leftover ≤ n) where
    no_session : h.session ≡ none
    no_session =
        let ready : ReadyIn parsing_commands h.session h.incoming
            (h.value_remaining + h.trailing_remaining) h.discard_remaining =
          rw parsing at v.upload in
        ready

    refused-Good :
        (k : Handler S W R) (bytes : Bytes)
        → IsReady k
        → k.state ≡ discarding_rejected_value
        → length bytes ≤ n
        → Good (elim (empty bytes) [
          | true ↦ returned (true, k)
          | false ↦ continue_discarding_value store st again k bytes
        ])
    refused-Good k [] w e f = w
    refused-Good k (c ∷ bytes) w e f = continue_discarding_value-Good k (c ∷ bytes) w e f

    refuse_value-Good : (reply : Bytes) → Good (refuse_value store st again h header leftover reply)
    refuse_value-Good reply =
        refused-Good _ leftover
          (record { upload = (no_session, refl, omega arith); reading = v.reading }) refl fits

    begun-Good :
        (k : Handler S W R) (bytes : Bytes)
        → IsReady k
        → k.state ≡ streaming_value
        → length bytes ≤ n
        → Good (elim (empty bytes) [
          | true ↦ returned (true, k)
          | false ↦ continue_streaming_value store st again k bytes
        ])
    begun-Good k [] w e f = w
    begun-Good k (c ∷ bytes) w e f = continue_streaming_value-Good k (c ∷ bytes) w e f

    value_begun-Good :
        (r : PutResult) (o : Option W)
        → (r ≡ PutResult.ok → HasSession o)
        → Good (value_begun store st again h header leftover r o)
    value_begun-Good PutResult.ok o has =
        begun-Good _ leftover
          (record { upload = (has refl, refl, omega arith); reading = v.reading }) refl fits
    value_begun-Good PutResult.capacity_exceeded o has = refuse_value-Good _
    value_begun-Good PutResult.invalid_path o has = refuse_value-Good _
    value_begun-Good PutResult.failed_to_write o has = refuse_value-Good _

  pub begin_streaming_value-Good :
      (h : Handler S W R) (o : Option SetHeader)
      → IsReady h
      → h.state ≡ parsing_commands
      → length h.incoming ≤ n
      → Good (begin_streaming_value store st again h o)
  unfolding begin_streaming_value
  begin_streaming_value-Good h none v parsing fits = v
  begin_streaming_value-Good h (some header) v parsing fits =
      let leftover = drop header.value_start h.incoming in
      let shorter : length leftover ≤ n =
        omega (arith, length-drop header.value_start h.incoming) in
      let r = st.begin_put header.key header.value_length h.storage in
      if_elim Good (header.is_set_nx && store.exists header.key h.storage)
        (λ _. refuse_value-Good h v parsing header leftover shorter _)
        (λ _.
          value_begun-Good (record h { storage = r.1 })
            (record { upload = v.upload; reading = v.reading }) parsing header leftover shorter
            r.0.status r.0.session
            (laws.begin_put_session header.key header.value_length h.storage))
