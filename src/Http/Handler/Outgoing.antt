-- ===== src/Http/Handler/Outgoing.antt =====
-- `takeOutgoingBytes` returns: it reads on only where a read session is open.
use obsto_cpp.Base.{◌&&◌, if_elim, Option, none, some, arith, if◌then◌else◌}
use obsto_cpp.Text.{Bytes, empty}
use obsto_cpp.Outcome.{returned, Returns, Returns-bind}
use obsto_cpp.Storage.{ObjectStore, StreamingStore, k_read_chunk_size}
use obsto_cpp.Resp.Handler.Ready.{HasSession}
use obsto_cpp.Http.Handler.Requests.{Handler}
use obsto_cpp.Http.Handler.Ready.{IsReady}
use obsto_cpp.Http.Handler.{pumped, pump_read_session, take_outgoing_bytes}

module _ {S W R : Type 0} (store : ObjectStore S) (st : StreamingStore S W R) (h : Handler S W R)
    (v : IsReady h) where
  pumped-IsReady : (o : Option Bytes) (r : R) (s : S) → IsReady (pumped store st h (o, r, s))
  pumped-IsReady (some chunk) r s = record { upload = v.upload; reading = λ e. tt }
  pumped-IsReady none r s = record { upload = v.upload; reading = λ e. cc }

  pump_read_session-IsReady :
      (o : Option R) → HasSession o → Returns IsReady (pump_read_session store st h o)
  unfolding pump_read_session
  pump_read_session-IsReady none has = has
  pump_read_session-IsReady (some r) has =
      let x = st.read_chunk r k_read_chunk_size h.storage in pumped-IsReady x.0 x.1 x.2

  -- A ready handler gives its bytes, and is ready behind that.
  pub http_take_outgoing_bytes-IsReady :
      Returns (λ (r : Bytes × Handler S W R). IsReady r.1) (take_outgoing_bytes store st h)
  unfolding take_outgoing_bytes
  http_take_outgoing_bytes-IsReady =
      Returns-bind IsReady (λ (r : Bytes × Handler S W R). IsReady r.1)
        (if empty h.outgoing && h.streaming_read
          then pump_read_session store st h h.read_session
          else returned h)
        _
        (if_elim (Returns IsReady) (empty h.outgoing && h.streaming_read)
          (λ e. pump_read_session-IsReady h.read_session (v.reading (ground arith))) (λ e. v))
        (λ k w. record { upload = w.upload; reading = w.reading })
