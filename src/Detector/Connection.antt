-- ===== src/Detector/Connection.antt =====
-- The detector as the handler of a session, over the storage that the sessions share.
use obsto_cpp.Base.{Bool, ◌∷◌, List, ◌++◌, ◌≡◌, refl}
use obsto_cpp.Text.{Bytes}
use obsto_cpp.Outcome.{Returns, Returns-bind}
use obsto_cpp.Storage.{ObjectStore, StreamingStore}
use obsto_cpp.Resp.Handler as RespHandler
use obsto_cpp.Resp.Handler.Ready.{SessionLaws, IsReady as RespIsReady}
use obsto_cpp.Resp.Handler.Commands.{Handler as RespProtocolHandler}
use obsto_cpp.Resp.Handler.Outgoing.{take_outgoing_bytes-IsReady}
use obsto_cpp.Http.Handler as HttpHandler
use obsto_cpp.Http.Handler.Ready.{IsReady as HttpIsReady}
use obsto_cpp.Http.Handler.Requests.{Handler as HttpProtocolHandler}
use obsto_cpp.Http.Handler.Outgoing.{http_take_outgoing_bytes-IsReady}
use obsto_cpp.Detector.{
  Delegate, undecided, resp, http, Detector, new_detector, on_bytes_received, take_outgoing_bytes,
  has_more_to_send,
}
use obsto_cpp.Detector.Total.{DelegateIsReady, detector_on_bytes_received-IsReady}
use obsto_cpp.Net.{ProtocolHandler, Session, Event, handle}
use obsto_cpp.Net.Server.{Sharing, Server, new_server, at_storage, ServerReach}
use obsto_cpp.Net.Total.{HandlerLaws, reached-Returns}

module _ {S W R : Type 0} where
  -- the storage, which the handler that was chosen refers to too
  abbrev pub delegate_storage : Delegate S W R → S → S
  delegate_storage undecided s = s
  delegate_storage (resp h) s = h.storage
  delegate_storage (http h) s = h.storage

  abbrev pub delegate_at : S → Delegate S W R → Delegate S W R
  delegate_at s undecided = undecided
  delegate_at s (resp h) = resp (record h { storage = s })
  delegate_at s (http h) = http (record h { storage = s })

  abbrev pub DetectorIsReady : Detector S W R → Type 0
  DetectorIsReady d = DelegateIsReady d.delegate

  delegate_at-IsReady :
      (s : S) (c : Delegate S W R) → DelegateIsReady c → DelegateIsReady (delegate_at s c)
  delegate_at-IsReady s undecided v = tt
  delegate_at-IsReady s (resp h) v = record { upload = v.upload; reading = v.reading }
  delegate_at-IsReady s (http h) v = record { upload = v.upload; reading = v.reading }

  -- `main`'s factory: the storage has a streaming interface or not
  abbrev pub detector_sharing : Bool → Sharing S (Detector S W R)
  detector_sharing streaming = record {
    storage_of = λ d. delegate_storage d.delegate d.storage;
    with_storage = λ s d. record d { storage = s; delegate = delegate_at s d.delegate };
    make_handler = λ s. new_detector s streaming;
  }

module _ {S W R : Type 0} (store : ObjectStore S) (st : StreamingStore S W R) where
  abbrev pub detector_handler : ProtocolHandler (Detector S W R)
  detector_handler = record {
    on_bytes_received = on_bytes_received store st;
    take_outgoing_bytes = take_outgoing_bytes store st;
    has_more_to_send = has_more_to_send store st;
  }

  taken-IsReady :
      (d : Detector S W R) (c : Delegate S W R)
      → d.delegate ≡ c
      → DelegateIsReady c
      → Returns
          (λ (r : Bytes × Detector S W R). DetectorIsReady r.1)
          (take_outgoing_bytes store st d)
  unfolding take_outgoing_bytes
  taken-IsReady d undecided e v = rw e tt
  taken-IsReady d (resp h) e v = rw e (
      Returns-bind (λ (r : Bytes × RespProtocolHandler S W R). RespIsReady r.1)
        (λ (r : Bytes × Detector S W R). DetectorIsReady r.1)
        (RespHandler.take_outgoing_bytes store st h) _ (take_outgoing_bytes-IsReady store st h v)
        (λ r w. w))
  taken-IsReady d (http h) e v = rw e (
      Returns-bind (λ (r : Bytes × HttpProtocolHandler S W R). HttpIsReady r.1)
        (λ (r : Bytes × Detector S W R). DetectorIsReady r.1)
        (HttpHandler.take_outgoing_bytes store st h) _
        (http_take_outgoing_bytes-IsReady store st h v) (λ r w. w))

  detector_laws :
      (laws : SessionLaws st) (streaming : Bool)
      → HandlerLaws detector_handler (detector_sharing streaming) DetectorIsReady
  unfolding new_detector
  detector_laws laws streaming = record {
    receives = λ d bytes v. detector_on_bytes_received-IsReady store st laws d bytes v;
    sends = λ d v. taken-IsReady d d.delegate refl v;
    shares = λ s d v. delegate_at-IsReady s d.delegate v;
    begins = λ s. tt;
  }

  -- Where the storage gives a session with each `Ok` and each object it finds: in every state that the
  -- server comes to, with any connections, any bytes, any failures and any order of completions, the
  -- next completion of any session returns, with a handler that is ready. No call of a handler runs
  -- without end or uses a null session.
  pub server_never_fails :
      (laws : SessionLaws st) (streaming : Bool) (storage : S) (v : Server S (Detector S W R))
      (before after : List (Session (Detector S W R))) (s : Session (Detector S W R)) (e : Event)
      → ServerReach detector_handler
          (detector_sharing streaming)
          (new_server detector_handler (detector_sharing streaming) storage)
          v
      → v.sessions ≡ before ++ (s ∷ after)
      → Returns
          (λ (t : Session (Detector S W R)). DetectorIsReady t.handler)
          (handle detector_handler e
            (at_storage detector_handler (detector_sharing streaming) v.storage s))
  server_never_fails laws streaming storage v before after s e r at =
      reached-Returns detector_handler (detector_sharing streaming) DetectorIsReady
        (detector_laws laws streaming) storage v before after s e r at
