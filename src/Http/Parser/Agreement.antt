-- ===== src/Http/Parser/Agreement.antt =====
-- `parse` and `parseHeadersOnly`, of which the handler calls both on the same buffer, agree.
use obsto_cpp.Base.{
  ℕ, ◌+◌, ◌≤◌, Bool, true, false, ltb, if_elim, Option, none, some, length, drop, ◌≡◌, refl, arith,
  length-take, length-drop,
}
use obsto_cpp.Text.{Bytes, substr}
use obsto_cpp.Text.Search.{find}
use obsto_cpp.Http.Message.{HttpRequest}
use obsto_cpp.Http.Parser.{
  complete, blank_line, Parsed, with_body, headers_read, parse_at, parse, only_headers, headers_at,
  parse_headers_only,
}
use obsto_cpp.Http.Parser.Stable.{no_header_end_fails}

-- The headers are what the full answer has besides the body, and the body stands behind them.
pub record IsSplit (s : Bytes) (full head : Parsed) : Type 0 where
  pub headers_complete : head.0 ≡ complete
  pub same_head : full.1 ≡ record head.1 { body = full.1.body }
  pub body_behind : full.1.body ≡ substr s head.2 (length full.1.body)
  pub consumed : full.2 ≡ head.2 + length full.1.body

length-substr : (s : Bytes) (start n : ℕ) → start + n ≤ length s → length (substr s start n) ≡ n
length-substr s start n h = omega (arith, length-take n (drop start s), length-drop start s)

with_body-IsSplit :
    (s : Bytes) (start : ℕ) (r : HttpRequest) (o : Option ℕ)
    → (with_body s start r o).0 ≡ complete
    → IsSplit s (with_body s start r o) (complete, r, start)
with_body-IsSplit s start r none c = absurd (ground arith)
with_body-IsSplit s start r (some n) c =
    if_elim (λ (p : Parsed). p.0 ≡ complete → IsSplit s p (complete, r, start))
      (ltb (length s) (start + n)) (λ _ e. absurd (ground arith))
      (λ fits _.
        let exact = length-substr s start n (ground arith) in
        record {
          headers_complete = refl;
          same_head = refl;
          body_behind = rw exact refl;
          consumed = rw exact refl;
        })
      c

headers_read-IsSplit :
    (s : Bytes) (end : ℕ) (r : Bool × HttpRequest)
    → (headers_read s end r).0 ≡ complete
    → IsSplit s (headers_read s end r) (only_headers end r)
headers_read-IsSplit s end (false, r) c = absurd (ground arith)
headers_read-IsSplit s end (true, r) c = with_body-IsSplit s (end + 4) r _ c

parse_at-IsSplit :
    (s : Bytes) (r : HttpRequest) (o : Option ℕ)
    → (parse_at s r o).0 ≡ complete
    → IsSplit s (parse_at s r o) (headers_at s r o)
parse_at-IsSplit s r none c = absurd (no_header_end_fails s r c)
parse_at-IsSplit s r (some end) c = headers_read-IsSplit s end _ c

-- Where `parse` is complete, so is `parseHeadersOnly`, with the same method, path, version and
-- headers; the body is what stands directly behind the bytes that `parseHeadersOnly` consumes, and
-- `parse` consumes both.
pub parse-parse_headers_only :
    (s : Bytes) (r : HttpRequest)
    → (parse s r).0 ≡ complete
    → IsSplit s (parse s r) (parse_headers_only s r)
unfolding parse parse_headers_only
parse-parse_headers_only s r c = parse_at-IsSplit s r (find blank_line s) c
