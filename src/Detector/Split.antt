-- ===== src/Detector/Split.antt =====
-- A request whose first bytes end within the method.
use obsto_cpp.Base.{
  ℕ, zero, suc, ◌<◌, true, false, ◌∷◌, ◌++◌, length, take, drop, ◌≡◌, ◌≢◌, refl, arith,
}
use obsto_cpp.Text.{Bytes}
use obsto_cpp.Text.Search.{starts_with}
use obsto_cpp.Outcome.{returned}
use obsto_cpp.Storage.{ObjectStore, StreamingStore}
use obsto_cpp.Http.Message.{Method, method_text}
use obsto_cpp.Detector.{
  k_supported_http_methods, request_start, is_resp_prefix, undecided, Detector, decide,
  on_bytes_received,
}
use obsto_cpp.Detector.Choice.{any_starts, any_begun, is_http_lem}

module _ {S W R : Type 0} (store : ObjectStore S) (st : StreamingStore S W R) (d : Detector S W R)
    (open_choice : d.delegate ≡ undecided) where
  -- The first bytes may become a method, and they are gone.
  waits :
      (c : ℕ) (bytes : Bytes)
      → is_resp_prefix c ≡ false
      → any_starts k_supported_http_methods (c ∷ bytes) ≡ false
      → any_begun k_supported_http_methods (c ∷ bytes) ≡ true
      → on_bytes_received store st d (c ∷ bytes) ≡ returned (true, d)
  unfolding on_bytes_received decide
  waits c bytes not_resp none_starts begun =
      rw (open_choice, not_resp, is_http_lem (c ∷ bytes), none_starts, begun) refl

  refuses :
      (c : ℕ) (bytes : Bytes)
      → is_resp_prefix c ≡ false
      → any_starts k_supported_http_methods (c ∷ bytes) ≡ false
      → any_begun k_supported_http_methods (c ∷ bytes) ≡ false
      → on_bytes_received store st d (c ∷ bytes) ≡ returned (false, d)
  unfolding on_bytes_received decide
  refuses c bytes not_resp none_starts none_begun =
      rw (open_choice, not_resp, is_http_lem (c ∷ bytes), none_starts, none_begun) refl

  abbrev SplitRefused : Bytes → Bytes → Type 0
  SplitRefused first second =
      (on_bytes_received store st d first ≡ returned (true, d))
      × (on_bytes_received store st d second ≡ returned (false, d))

  -- Where no handler is chosen yet, and the first bytes of an HTTP request end within its method (or
  -- before the space behind it): they are accepted and forgotten, and the rest of the request is
  -- refused, whatever stands behind the method.
  pub split_request_refused :
      (method : Method) (n : ℕ) (more : Bytes)
      → method ≢ Method.unknown
      → 0 < n
      → n < length (request_start method)
      → (on_bytes_received store st d (take n (request_start method)) ≡ returned (true, d))
        × (on_bytes_received store st d (drop n (request_start method) ++ more)
            ≡ returned (false, d))
  unfolding method_text is_resp_prefix starts_with
  split_request_refused Method.unknown n more known some_first within = absurd (known refl)
  split_request_refused method zero more known some_first within = elim some_first [ ]
  split_request_refused Method.get (suc zero) more known some_first within =
      (waits _ _ refl refl refl, refuses _ _ refl refl refl)
  split_request_refused Method.get (suc (suc zero)) more known some_first within =
      (waits _ _ refl refl refl, refuses _ _ refl refl refl)
  split_request_refused Method.get (suc (suc (suc zero))) more known some_first within =
      (waits _ _ refl refl refl, refuses _ _ refl refl refl)
  split_request_refused Method.get (suc (suc (suc (suc n)))) more known some_first within =
      absurd (omega arith)
  split_request_refused Method.put (suc zero) more known some_first within =
      (waits _ _ refl refl refl, refuses _ _ refl refl refl)
  split_request_refused Method.put (suc (suc zero)) more known some_first within =
      (waits _ _ refl refl refl, refuses _ _ refl refl refl)
  split_request_refused Method.put (suc (suc (suc zero))) more known some_first within =
      (waits _ _ refl refl refl, refuses _ _ refl refl refl)
  split_request_refused Method.put (suc (suc (suc (suc n)))) more known some_first within =
      absurd (omega arith)
  split_request_refused Method.delete (suc zero) more known some_first within =
      (waits _ _ refl refl refl, refuses _ _ refl refl refl)
  split_request_refused Method.delete (suc (suc zero)) more known some_first within =
      (waits _ _ refl refl refl, refuses _ _ refl refl refl)
  split_request_refused Method.delete (suc (suc (suc zero))) more known some_first within =
      (waits _ _ refl refl refl, refuses _ _ refl refl refl)
  split_request_refused Method.delete (suc (suc (suc (suc zero)))) more known some_first within =
      (waits _ _ refl refl refl, refuses _ _ refl refl refl)
  split_request_refused Method.delete (suc (suc (suc (suc (suc zero))))) more known some_first
        within =
      (waits _ _ refl refl refl, refuses _ _ refl refl refl)
  split_request_refused Method.delete (suc (suc (suc (suc (suc (suc zero)))))) more known some_first
        within =
      (waits _ _ refl refl refl, refuses _ _ refl refl refl)
  split_request_refused Method.delete (suc (suc (suc (suc (suc (suc (suc n))))))) more known
        some_first within =
      absurd (omega arith)
