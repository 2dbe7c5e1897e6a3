-- ===== src/Http/Parser/Stable.antt =====
-- What the two parsers answer stays right when more bytes arrive, and they agree.
use obsto_cpp.Base.{
  ℕ, ◌+◌, ◌≤◌, Bool, true, false, ◌++◌, Option, none, some, length, take, ◌≡◌, ◌≢◌, refl, arith,
  length-append, take-append,
}
use obsto_cpp.Text.{Bytes}
use obsto_cpp.Text.Search.{find, lines, find-append, find_bound, substr-append}
use obsto_cpp.Http.Message.{HttpRequest}
use obsto_cpp.Http.Parser.{
  complete, blank_line, header_section, with_body, headers_read, no_header_end, parse_at, parse,
}

with_body-append :
    (s more : Bytes) (start : ℕ) (r : HttpRequest) (o : Option ℕ)
    → start ≤ length s
    → (with_body s start r o).0 ≡ complete
    → with_body (s ++ more) start r o ≡ with_body s start r o
with_body-append s more start r none h c = refl
with_body-append s more start r (some n) h c =
    ground (arith, substr-append s more start n, length-append s more)

headers_read-append :
    (s more : Bytes) (end : ℕ) (r : Bool × HttpRequest)
    → end + 4 ≤ length s
    → (headers_read s end r).0 ≡ complete
    → headers_read (s ++ more) end r ≡ headers_read s end r
headers_read-append s more end (false, r) h c = refl
headers_read-append s more end (true, r) h c = with_body-append s more (end + 4) r _ h c

pub no_header_end_fails : (s : Bytes) (r : HttpRequest) → (no_header_end s r).0 ≢ complete
no_header_end_fails s r c = ground arith

parse_at-append :
    (s more : Bytes) (r : HttpRequest) (o : Option ℕ)
    → find blank_line s ≡ o
    → (parse_at s r o).0 ≡ complete
    → parse (s ++ more) r ≡ parse_at s r o
unfolding parse
parse_at-append s more r none e c = absurd (no_header_end_fails s r c)
parse_at-append s more r (some end) e c =
    let fits = find_bound blank_line s e in
    rw (find-append blank_line s more e, take-append end s more (omega (arith, fits)))
      (headers_read-append s more end _ (omega (arith, fits)) c)

-- Once `parse` has answered `Complete`, more bytes behind the buffer change nothing of its answer:
-- neither the request nor the bytes consumed.
pub complete_parse-append :
    (s more : Bytes) (r : HttpRequest) → (parse s r).0 ≡ complete → parse (s ++ more) r ≡ parse s r
unfolding parse
complete_parse-append s more r c = parse_at-append s more r (find blank_line s) refl c

with_body_bound :
    (s : Bytes) (start : ℕ) (r : HttpRequest) (o : Option ℕ)
    → (with_body s start r o).0 ≡ complete
    → (start ≤ (with_body s start r o).2) × ((with_body s start r o).2 ≤ length s)
with_body_bound s start r none c = absurd (ground arith)
with_body_bound s start r (some n) c = ground arith

headers_read_bound :
    (s : Bytes) (end : ℕ) (r : Bool × HttpRequest)
    → (headers_read s end r).0 ≡ complete
    → (4 ≤ (headers_read s end r).2) × ((headers_read s end r).2 ≤ length s)
headers_read_bound s end (false, r) c = absurd (ground arith)
headers_read_bound s end (true, r) c = omega (arith, with_body_bound s (end + 4) r _ c)

parse_at_bound :
    (s : Bytes) (r : HttpRequest) (o : Option ℕ)
    → (parse_at s r o).0 ≡ complete
    → (4 ≤ (parse_at s r o).2) × ((parse_at s r o).2 ≤ length s)
parse_at_bound s r none c = absurd (no_header_end_fails s r c)
parse_at_bound s r (some end) c = headers_read_bound s end (header_section (lines (take end s)) r) c

-- A complete `parse` consumes at least the four bytes of the blank line, and at most the whole
-- buffer.
pub complete_parse_bound :
    (s : Bytes) (r : HttpRequest)
    → (parse s r).0 ≡ complete
    → (4 ≤ (parse s r).2) × ((parse s r).2 ≤ length s)
unfolding parse
complete_parse_bound s r c = parse_at_bound s r (find blank_line s) c
