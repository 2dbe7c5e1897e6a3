-- ===== src/Resp/Parser/Prefix.antt =====
-- What one parser step does when more bytes arrive behind the buffer, and how far it reads.
use obsto_cpp.Base.{
  ℕ, zero, suc, ◌+◌, ◌-◌, true, [], ◌∷◌, ◌++◌, if◌then◌else◌, Option, none, some, ℤ, pos, negsuc,
  get_elem?, ◌≡◌, refl, arith, Option-cases, Bool-cases, inl, inr, length-append,
}
use obsto_cpp.Text.{Bytes, substr}
use obsto_cpp.Text.Find.{find_crlf, find_crlf_bound, find_crlf-append}
use obsto_cpp.Text.Decimal.{stoi}
use obsto_cpp.Text.Search.{substr-append}
use obsto_cpp.Resp.Parser.{
  BulkString, SimpleString, map_found, Error, Integer, has_byte, bulk_of_length, bulk_line,
  parse_bulk_string, line_to, parse_simple_string, parse_error, int_line, parse_int,
}

pub get_elem?-append :
    (s more : Bytes) (p : ℕ) {c : ℕ} → get_elem? s p ≡ some c → get_elem? (s ++ more) p ≡ some c
get_elem?-append [] more p h = cc
get_elem?-append (x ∷ s) more zero h = h
get_elem?-append (x ∷ s) more (suc p) h = get_elem?-append s more p h

has_byte→get_elem? : (s : Bytes) (p c : ℕ) → has_byte s p c ≡ true → get_elem? s p ≡ some c
has_byte→get_elem? s p c h = ground arith

module _ (s more : Bytes) (p : ℕ) where
  -- the text of a header line is the same in the longer buffer
  pub header-append :
      (end : ℕ)
      → find_crlf s p ≡ some end
      → substr (s ++ more) (p + 1) (end - p - 1) ≡ substr s (p + 1) (end - p - 1)
  header-append end e =
      substr-append s more (p + 1) (end - p - 1) (omega (arith, find_crlf_bound s p e))

  bulk_of_length-append :
      (end : ℕ) (n : Option ℤ) {b : BulkString} {q : ℕ}
      → bulk_of_length s p end n ≡ (some b, q)
      → bulk_of_length (s ++ more) p end n ≡ (some b, q)
  unfolding bulk_of_length
  bulk_of_length-append end none h = cc
  bulk_of_length-append end (some (negsuc zero)) h = h
  bulk_of_length-append end (some (negsuc (suc n))) h = cc
  bulk_of_length-append end (some (pos n)) h =
      ground (arith, substr-append s more (end + 2) n, length-append s more)

  pub has_byte-append : (c : ℕ) → has_byte s p c ≡ true → has_byte (s ++ more) p c ≡ true
  has_byte-append c h = elim (Option-cases (get_elem? s p)) [
    | inl e ↦ ground arith
    | inr (d, e) ↦ ground (arith, get_elem?-append s more p e)
  ]

  -- The parsers of one type: a type byte, then what is read once the line end is found.
  module _ {A : Type 0} (c : ℕ) (line : Bytes → ℕ → Option ℕ → Option A × ℕ) where
    abbrev typed : Bytes → Option A × ℕ
    typed t = if has_byte t p c then line t p (find_crlf t p) else (none, p)

    typed-append :
        {a : A} {q : ℕ}
        → line s p none ≡ (none, p)
        → ((end : ℕ)
            → find_crlf s p ≡ some end
            → line s p (some end) ≡ (some a, q)
            → line (s ++ more) p (some end) ≡ (some a, q))
        → typed s ≡ (some a, q)
        → typed (s ++ more) ≡ (some a, q)
    typed-append {a} {q} missing later h = elim (Bool-cases (has_byte s p c)) [
      | inr n ↦ cc (rw n at h)
      | inl y ↦
          let read : line s p (find_crlf s p) ≡ (some a, q) = rw y at h in
          elim (Option-cases (find_crlf s p)) [
            | inl e ↦ cc (missing, rw e at read)
            | inr (end, e) ↦
                rw (has_byte-append c y, find_crlf-append s more p e) (later end e (rw e at read))
          ]
    ]

  pub parse_bulk_string-append :
      {b : BulkString} {q : ℕ}
      → parse_bulk_string s p ≡ (some b, q)
      → parse_bulk_string (s ++ more) p ≡ (some b, q)
  unfolding parse_bulk_string
  parse_bulk_string-append h =
      typed-append b'$' bulk_line refl
        (λ end e r.
          rw (header-append end e)
            (bulk_of_length-append end (stoi (substr s (p + 1) (end - p - 1))) r))
        h

  line_to-append :
      {b : Bytes} {q : ℕ} (end : ℕ)
      → find_crlf s p ≡ some end
      → line_to s p (some end) ≡ (some b, q)
      → line_to (s ++ more) p (some end) ≡ (some b, q)
  unfolding line_to
  line_to-append end e r = rw (header-append end e) r

  pub parse_simple_string-append :
      {b : SimpleString} {q : ℕ}
      → parse_simple_string s p ≡ (some b, q)
      → parse_simple_string (s ++ more) p ≡ (some b, q)
  unfolding parse_simple_string
  parse_simple_string-append h =
      typed-append b'+' (λ t p o. map_found (λ line. record { payload = line }) (line_to t p o))
        refl (λ end e r. rw (header-append end e) r) h

  pub parse_error-append :
      {b : Error} {q : ℕ} → parse_error s p ≡ (some b, q) → parse_error (s ++ more) p ≡ (some b, q)
  unfolding parse_error
  parse_error-append h =
      typed-append b'-' (λ t p o. map_found (λ line. record { message = line }) (line_to t p o))
        refl (λ end e r. rw (header-append end e) r) h

  pub parse_int-append :
      {b : Integer} {q : ℕ} → parse_int s p ≡ (some b, q) → parse_int (s ++ more) p ≡ (some b, q)
  unfolding parse_int
  parse_int-append h = typed-append b':' int_line refl (λ end e r. rw (header-append end e) r) h
