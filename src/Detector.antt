-- ===== src/Detector.antt =====
-- Core/Protocol/ProtocolDetectorHandler.{h,cpp}: the first bytes of a connection choose the handler
-- that gets them and all that follow.
pub mod Choice
pub mod Split
pub mod Total
pub mod Connection
use obsto_cpp.Base.{
  ℕ, zero, suc, Bool, true, false, ◌||◌, List, [], ◌∷◌, ◌++◌, ◌==◌, leb, min, if◌then◌else◌, length,
  take,
}
use obsto_cpp.Text.{Bytes, codes, equals}
use obsto_cpp.Outcome.{Outcome, returned, null_session, out_of_fuel, ◌>>=◌}
use obsto_cpp.Storage.{ObjectStore, StreamingStore}
use obsto_cpp.Resp.Handler as RespHandler
use obsto_cpp.Resp.Handler.Commands.{
  Handler as RespProtocolHandler, new_handler as new_resp_handler,
}
use obsto_cpp.Http.Handler as HttpHandler
use obsto_cpp.Http.Handler.Requests.{
  Handler as HttpProtocolHandler, new_handler as new_http_handler,
}
use obsto_cpp.Http.Message.{Method, method_text}

pub data HttpMatchResult : Type 0 where
  matches no_match need_more_data : HttpMatchResult

unfoldable pub is_resp_prefix : ℕ → Bool
is_resp_prefix c = c == b'+' || (c == b'-' || (c == b':' || (c == b'$' || c == b'*')))

abbrev pub k_supported_http_methods : List Method
k_supported_http_methods = Method.get ∷ Method.put ∷ Method.delete ∷ []

-- the text that a request with the method begins with
abbrev pub request_start : Method → Bytes
request_start method = method_text method ++ codes " "

-- The Boolean is `anyCouldStillMatch`.
unfoldable pub match_methods : List Method → Bytes → Bool → HttpMatchResult
match_methods [] bytes could = if could then need_more_data else no_match
match_methods (method ∷ methods) bytes could =
    let text = request_start method in
    let n = min (length bytes) (length text) in
    let later = match_methods methods bytes in
    elim (equals (take n bytes) (take n text)) [
      | true ↦ if leb (length text) (length bytes) then matches else later true
      | false ↦ later could
    ]

unfoldable pub is_http : Bytes → HttpMatchResult
is_http bytes = match_methods k_supported_http_methods bytes false

-- `m_delegate`, which is null at first
pub data Delegate (S W R : Type 0) : Type 0 where
  undecided : Delegate S W R
  resp : RespProtocolHandler S W R → Delegate S W R
  http : HttpProtocolHandler S W R → Delegate S W R

-- While there is no delegate the storage is the field `storage`; behind that it is the delegate's.
pub record Detector (S W R : Type 0) : Type 0 where
  pub storage : S
  pub has_streaming : Bool
  pub delegate : Delegate S W R

abbrev pub Answer : Type 0 → Type 0 → Type 0 → Type 0
Answer S W R = Outcome (Bool × Detector S W R)

module _ {S W R : Type 0} where
  unfoldable pub new_detector : S → Bool → Detector S W R
  new_detector s has_streaming = record {
    storage = s;
    has_streaming = has_streaming;
    delegate = undecided;
  }

  -- the bytes go to the delegate
  abbrev pub to_resp : Detector S W R → Bool × RespProtocolHandler S W R → Answer S W R
  to_resp d (going, h) = returned (going, record d { delegate = resp h })

  abbrev pub to_http : Detector S W R → Bool × HttpProtocolHandler S W R → Answer S W R
  to_http d (going, h) = returned (going, record d { delegate = http h })

module _ {S W R : Type 0} (store : ObjectStore S) (st : StreamingStore S W R) where
  abbrev pub pass_on : Detector S W R → Bytes → Delegate S W R → Answer S W R
  pass_on d bytes undecided = null_session
  pass_on d bytes (resp h) = RespHandler.on_bytes_received store st h bytes >>= to_resp d
  pass_on d bytes (http h) = HttpHandler.on_bytes_received store st h bytes >>= to_http d

  -- The first byte tells RESP, and the start of a method HTTP. Bytes that may become a method are
  -- not kept.
  abbrev pub http_or_wait : Detector S W R → Bytes → HttpMatchResult → Answer S W R
  http_or_wait d bytes matches =
      let h = new_http_handler d.storage d.has_streaming in
      pass_on (record d { delegate = http h }) bytes (http h)
  http_or_wait d bytes need_more_data = returned (true, d)
  http_or_wait d bytes no_match = returned (false, d)

  unfoldable pub decide : Detector S W R → Bytes → Answer S W R
  decide d [] = returned (true, d)
  decide d (c ∷ bytes) =
      let h = new_resp_handler d.storage d.has_streaming in
      if is_resp_prefix c
      then pass_on (record d { delegate = resp h }) (c ∷ bytes) (resp h)
      else http_or_wait d (c ∷ bytes) (is_http (c ∷ bytes))

  abbrev pub delegated : Detector S W R → Bytes → Delegate S W R → Answer S W R
  delegated d bytes undecided = decide d bytes
  delegated d bytes (resp h) = pass_on d bytes (resp h)
  delegated d bytes (http h) = pass_on d bytes (http h)

  unfoldable pub on_bytes_received : Detector S W R → Bytes → Answer S W R
  on_bytes_received d bytes = delegated d bytes d.delegate

  abbrev pub taken_resp :
      Detector S W R → Bytes × RespProtocolHandler S W R → Bytes × Detector S W R
  taken_resp d (bytes, h) = (bytes, record d { delegate = resp h })

  abbrev pub taken_http :
      Detector S W R → Bytes × HttpProtocolHandler S W R → Bytes × Detector S W R
  taken_http d (bytes, h) = (bytes, record d { delegate = http h })

  unfoldable pub take_outgoing_bytes : Detector S W R → Outcome (Bytes × Detector S W R)
  take_outgoing_bytes d = elim d.delegate [
    | undecided ↦ returned ([], d)
    | resp h ↦ RespHandler.take_outgoing_bytes store st h >>= λ r. returned (taken_resp d r)
    | http h ↦ HttpHandler.take_outgoing_bytes store st h >>= λ r. returned (taken_http d r)
  ]

  unfoldable pub has_more_to_send : Detector S W R → Bool
  has_more_to_send d = elim d.delegate [
    | undecided ↦ false
    | resp h ↦ RespHandler.has_more_to_send store st h
    | http h ↦ HttpHandler.has_more_to_send store st h
  ]
