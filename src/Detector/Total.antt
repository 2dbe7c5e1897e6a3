-- ===== src/Detector/Total.antt =====
-- A connection, whatever is sent on it: the call returns, and the detector may be called again.
use obsto_cpp.Base.{Bool, [], ◌∷◌, if_elim, refl}
use obsto_cpp.Text.{Bytes}
use obsto_cpp.Outcome.{Outcome, returned, null_session, out_of_fuel, ◌>>=◌, Returns}
use obsto_cpp.Storage.{ObjectStore, StreamingStore}
use obsto_cpp.Resp.Handler as RespHandler
use obsto_cpp.Resp.Handler.Commands.{
  Handler as RespProtocolHandler, new_handler as new_resp_handler,
}
use obsto_cpp.Resp.Handler.Ready.{SessionLaws, IsReady as RespIsReady}
use obsto_cpp.Resp.Handler.Total.{on_bytes_received-IsReady}
use obsto_cpp.Http.Handler as HttpHandler
use obsto_cpp.Http.Handler.Requests.{
  Handler as HttpProtocolHandler, new_handler as new_http_handler,
}
use obsto_cpp.Http.Handler.Ready.{IsReady as HttpIsReady}
use obsto_cpp.Http.Handler.Total.{http_on_bytes_received-IsReady}
use obsto_cpp.Detector.{
  HttpMatchResult, matches, no_match, need_more_data, is_resp_prefix, is_http, Delegate, undecided,
  resp, http, Detector, Answer, to_resp, to_http, pass_on, http_or_wait, decide, delegated,
  on_bytes_received,
}

abbrev pub DelegateIsReady : {S W R : Type 0} → Delegate S W R → Type 0
DelegateIsReady undecided = Unit
DelegateIsReady (resp h) = RespIsReady h
DelegateIsReady (http h) = HttpIsReady h

module _ {S W R : Type 0} where
  new_resp_handler-IsReady :
      (s : S) (streaming : Bool) → RespIsReady {W = W} {R = R} (new_resp_handler s streaming)
  unfolding new_resp_handler
  new_resp_handler-IsReady s streaming = record { upload = refl; reading = λ e. cc }

  new_http_handler-IsReady :
      (s : S) (streaming : Bool) → HttpIsReady {W = W} {R = R} (new_http_handler s streaming)
  unfolding new_http_handler
  new_http_handler-IsReady s streaming = record { upload = refl; reading = λ e. cc }

  abbrev Good : Answer S W R → Type 0
  Good = Returns λ (r : Bool × Detector S W R). DelegateIsReady r.1.delegate

  to_resp-Good :
      (d : Detector S W R) (o : Outcome (Bool × RespProtocolHandler S W R))
      → Returns (λ r. RespIsReady r.1) o
      → Good (o >>= to_resp d)
  to_resp-Good d (returned (going, h)) v = v
  to_resp-Good d null_session v = v
  to_resp-Good d out_of_fuel v = v

  to_http-Good :
      (d : Detector S W R) (o : Outcome (Bool × HttpProtocolHandler S W R))
      → Returns (λ r. HttpIsReady r.1) o
      → Good (o >>= to_http d)
  to_http-Good d (returned (going, h)) v = v
  to_http-Good d null_session v = v
  to_http-Good d out_of_fuel v = v

module _ {S W R : Type 0} (store : ObjectStore S) (st : StreamingStore S W R)
    (laws : SessionLaws st) where
  to_resp_handler :
      (d : Detector S W R) (bytes : Bytes) (h : RespProtocolHandler S W R)
      → RespIsReady h
      → Good (pass_on store st d bytes (resp h))
  to_resp_handler d bytes h v =
      to_resp-Good d (RespHandler.on_bytes_received store st h bytes)
        (on_bytes_received-IsReady store st laws h bytes v)

  to_http_handler :
      (d : Detector S W R) (bytes : Bytes) (h : HttpProtocolHandler S W R)
      → HttpIsReady h
      → Good (pass_on store st d bytes (http h))
  to_http_handler d bytes h v =
      to_http-Good d (HttpHandler.on_bytes_received store st h bytes)
        (http_on_bytes_received-IsReady store st laws h bytes v)

  http_or_wait-Good :
      (d : Detector S W R) (bytes : Bytes) (r : HttpMatchResult)
      → DelegateIsReady d.delegate
      → Good (http_or_wait store st d bytes r)
  http_or_wait-Good d bytes matches v =
      let h : HttpProtocolHandler S W R = new_http_handler d.storage d.has_streaming in
      to_http_handler (record d { delegate = http h }) bytes h
        (new_http_handler-IsReady d.storage d.has_streaming)
  http_or_wait-Good d bytes no_match v = v
  http_or_wait-Good d bytes need_more_data v = v

  decide-Good :
      (d : Detector S W R) (bytes : Bytes)
      → DelegateIsReady d.delegate
      → Good (decide store st d bytes)
  unfolding decide
  decide-Good d [] v = v
  decide-Good d (c ∷ bytes) v =
      let h : RespProtocolHandler S W R = new_resp_handler d.storage d.has_streaming in
      if_elim Good (is_resp_prefix c)
        (λ _.
          to_resp_handler (record d { delegate = resp h }) (c ∷ bytes) h
            (new_resp_handler-IsReady d.storage d.has_streaming))
        (λ _. http_or_wait-Good d (c ∷ bytes) (is_http (c ∷ bytes)) v)

  delegated-Good :
      (d : Detector S W R) (bytes : Bytes) (delegate : Delegate S W R)
      → DelegateIsReady d.delegate
      → DelegateIsReady delegate
      → Good (delegated store st d bytes delegate)
  delegated-Good d bytes undecided v w = decide-Good d bytes v
  delegated-Good d bytes (resp h) v w = to_resp_handler d bytes h w
  delegated-Good d bytes (http h) v w = to_http_handler d bytes h w

  -- Where the storage gives a session with each `Ok` and each object it finds: whatever bytes arrive
  -- at a detector with no handler yet or a ready one, the call returns, and leaves it so.
  pub detector_on_bytes_received-IsReady :
      (d : Detector S W R) (bytes : Bytes)
      → DelegateIsReady d.delegate
      → Returns
          (λ (r : Bool × Detector S W R). DelegateIsReady r.1.delegate)
          (on_bytes_received store st d bytes)
  unfolding on_bytes_received
  detector_on_bytes_received-IsReady d bytes v = delegated-Good d bytes d.delegate v v
