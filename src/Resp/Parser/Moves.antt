-- ===== src/Resp/Parser/Moves.antt =====
-- A parser that finds something moves on, and stays inside the buffer.
use obsto_cpp.Base.{
  ℕ, ◌≤◌, ◌<◌, if◌then◌else◌, Option, none, some, ℤ, length, get_elem?, ◌≡◌, refl, arith,
  Option-cases, Bool-cases, inl, inr,
}
use obsto_cpp.Text.{Bytes}
use obsto_cpp.Text.Find.{find_crlf, find_crlf_bound}
use obsto_cpp.Resp.Parser.{
  BulkString, SimpleString, Error, Integer, has_byte, bulk_of_length, bulk_line, parse_bulk_string,
  line_to, map_found, parse_simple_string, parse_error, int_at, int_line, parse_int, got,
  bulk_element, simple_element, int_element, typed_element, parse_element,
}

-- `q` is a place behind `p` in the buffer.
abbrev pub Moves : Bytes → ℕ → ℕ → Type 0
Moves s p q = (p < q) × (q ≤ length s)

module _ (s : Bytes) (p : ℕ) where
  module _ {A : Type 0} (c : ℕ) (line : Bytes → ℕ → Option ℕ → Option A × ℕ) where
    typed-Moves :
        {a : A} {q : ℕ}
        → line s p none ≡ (none, p)
        → ((end : ℕ) → find_crlf s p ≡ some end → line s p (some end) ≡ (some a, q) → Moves s p q)
        → (if has_byte s p c then line s p (find_crlf s p) else (none, p)) ≡ (some a, q)
        → Moves s p q
    typed-Moves {a} {q} missing later h = elim (Bool-cases (has_byte s p c)) [
      | inr n ↦ cc (rw n at h)
      | inl y ↦
          let read : line s p (find_crlf s p) ≡ (some a, q) = rw y at h in
          elim (Option-cases (find_crlf s p)) [
            | inl e ↦ cc (missing, rw e at read)
            | inr (end, e) ↦ later end e (rw e at read)
          ]
    ]

  bulk_of_length-Moves :
      (end : ℕ) (n : Option ℤ) {b : BulkString} {q : ℕ}
      → find_crlf s p ≡ some end
      → bulk_of_length s p end n ≡ (some b, q)
      → Moves s p q
  unfolding bulk_of_length
  bulk_of_length-Moves end n e h = ground (arith, find_crlf_bound s p e)

  pub parse_bulk_string-Moves :
      {b : BulkString} {q : ℕ} → parse_bulk_string s p ≡ (some b, q) → Moves s p q
  unfolding parse_bulk_string
  parse_bulk_string-Moves h =
      typed-Moves b'$' bulk_line refl (λ end e r. bulk_of_length-Moves end _ e r) h

  pub parse_simple_string-Moves :
      {b : SimpleString} {q : ℕ} → parse_simple_string s p ≡ (some b, q) → Moves s p q
  unfolding parse_simple_string
  parse_simple_string-Moves h =
      typed-Moves b'+' (λ t p o. map_found (λ line. record { payload = line }) (line_to t p o)) refl
        (λ end e r. ground (arith, find_crlf_bound s p e)) h

  pub parse_error-Moves : {b : Error} {q : ℕ} → parse_error s p ≡ (some b, q) → Moves s p q
  unfolding parse_error
  parse_error-Moves h =
      typed-Moves b'-' (λ t p o. map_found (λ line. record { message = line }) (line_to t p o)) refl
        (λ end e r. ground (arith, find_crlf_bound s p e)) h

  int_at-Moves :
      (end : ℕ) (n : Option ℤ) {b : Integer} {q : ℕ}
      → find_crlf s p ≡ some end
      → int_at end n ≡ (some b, q)
      → Moves s p q
  unfolding int_at
  int_at-Moves end n e r = ground (arith, find_crlf_bound s p e)

  pub parse_int-Moves : {b : Integer} {q : ℕ} → parse_int s p ≡ (some b, q) → Moves s p q
  unfolding parse_int
  parse_int-Moves h = typed-Moves b':' int_line refl (λ end e r. int_at-Moves end _ e r) h

  bulk_element-Moves :
      (r : Option BulkString × ℕ) {e : Bytes} {q : ℕ}
      → parse_bulk_string s p ≡ r
      → bulk_element r ≡ got e q
      → Moves s p q
  bulk_element-Moves (none, k) f h = cc
  bulk_element-Moves (some b, k) f h = ground (arith, parse_bulk_string-Moves f)

  simple_element-Moves :
      (r : Option SimpleString × ℕ) {e : Bytes} {q : ℕ}
      → parse_simple_string s p ≡ r
      → simple_element r ≡ got e q
      → Moves s p q
  simple_element-Moves (none, k) f h = cc
  simple_element-Moves (some b, k) f h = ground (arith, parse_simple_string-Moves f)

  int_element-Moves :
      (r : Option Integer × ℕ) {e : Bytes} {q : ℕ}
      → parse_int s p ≡ r
      → int_element r ≡ got e q
      → Moves s p q
  int_element-Moves (none, k) f h = cc
  int_element-Moves (some b, k) f h = ground (arith, parse_int-Moves f)

  typed_element-Moves :
      (o : Option ℕ) {e : Bytes} {q : ℕ} → typed_element s p o ≡ got e q → Moves s p q
  typed_element-Moves none h = cc
  typed_element-Moves (some c) {e} {q} h = ground (
    arith,
    bulk_element-Moves (parse_bulk_string s p) {e = e} {q = q} refl,
    simple_element-Moves (parse_simple_string s p) {e = e} {q = q} refl,
    int_element-Moves (parse_int s p) {e = e} {q = q} refl,
  )

pub parse_element-Moves :
    (s : Bytes) (p : ℕ) {e : Bytes} {q : ℕ} → parse_element s p ≡ got e q → Moves s p q
unfolding parse_element
parse_element-Moves s p h = typed_element-Moves s p (get_elem? s p) h
