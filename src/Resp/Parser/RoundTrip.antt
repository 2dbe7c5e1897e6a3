-- ===== src/Resp/Parser/RoundTrip.antt =====
-- The parser reads back what RespReply.h writes.
use obsto_cpp.Base.{
  ℕ, suc, ◌+◌, ◌-◌, ◌^◌, ◌≤◌, ◌<◌, true, List, [], ◌∷◌, ◌++◌, some, pos, length, get_elem?, ◌≡◌,
  ◌≢◌, refl, ap, ◌∙◌, arith, append_assoc, append-nil, take-length, drop, length-append,
}
use obsto_cpp.Text.{Bytes, substr, crlf}
use obsto_cpp.Text.Find.{find_crlf, find_crlf-line}
use obsto_cpp.Text.Decimal.{stoi, to_string, stoi-to_string, to_string-HasNoCr}
use obsto_cpp.Resp.Reply.{bulk_string, array_header}
use obsto_cpp.Resp.Parser.{
  bulk_line, bulk_of_length, has_byte, parse_bulk_string, parse_element, parse_elements, filled,
  got, parse_array, no_array, parse, complete, k_max_array_elements,
}
use obsto_cpp.Resp.Parser.Rounds.{parse_elements-got}

-- `drop` at a place behind what stands in front.
drop_at : (before s : Bytes) (n p : ℕ) → p ≡ length before + n → drop p (before ++ s) ≡ drop n s
drop_at [] s n p e = let e' : p ≡ n = omega arith in rw e'
drop_at (c ∷ before) s n p e =
    let e' : p ≡ suc (length before + n) = omega arith in
    rw e' (drop_at before s n (length before + n) refl)

get_elem?-length :
    (before s : Bytes) (c : ℕ) → get_elem? (before ++ (c ∷ s)) (length before) ≡ some c
get_elem?-length [] s c = refl
get_elem?-length (x ∷ before) s c = get_elem?-length before s c

-- A header line `c n\r\n` behind `before`: where it ends, and the number in it.
module _ (before : Bytes) (c : ℕ) (not_cr : c ≢ 13) (n : ℕ) (rest : Bytes) where
  abbrev text : Bytes
  text = before ++ (c ∷ (to_string n ++ (crlf ++ rest)))

  header_end : find_crlf text (length before) ≡ some (length before + suc (length (to_string n)))
  header_end = find_crlf-line before (c ∷ to_string n) rest (not_cr, to_string-HasNoCr n)

  header_number :
      substr text
        (length before + 1)
        (length before + suc (length (to_string n)) - length before - 1)
      ≡ to_string n
  header_number =
      let digits : length before + suc (length (to_string n)) - length before - 1
          ≡ length (to_string n) =
        omega arith in
      rw (digits, drop_at before (c ∷ (to_string n ++ (crlf ++ rest))) 1 (length before + 1) refl)
        (take-length (to_string n) (crlf ++ rest))

  has_byte-text : has_byte text (length before) c ≡ true
  has_byte-text =
      rw (has_byte, get_elem?-length before (to_string n ++ (crlf ++ rest)) c) (ground arith)

  pub header_stoi :
      n < 2 ^ 31
      → stoi (
          substr text
            (length before + 1)
            (length before + suc (length (to_string n)) - length before - 1))
        ≡ some (pos n)
  header_stoi h = rw header_number (stoi-to_string n h)

  -- what stands behind the header
  pub header_rest :
      (k : ℕ) → k ≡ length before + suc (length (to_string n)) + 2 → drop k text ≡ rest
  header_rest k e =
      drop_at before (c ∷ (to_string n ++ (crlf ++ rest))) (suc (length (to_string n)) + 2) k
        (omega arith)
      ∙ drop_at (c ∷ to_string n) (crlf ++ rest) 2 (suc (length (to_string n)) + 2) refl

  pub length-text : length text ≡ length before + suc (length (to_string n)) + 2 + length rest
  length-text = omega (
    arith,
    length-append before (c ∷ (to_string n ++ (crlf ++ rest))),
    length-append (to_string n) (crlf ++ rest),
  )

bulk_string-append :
    (value rest : Bytes)
    → bulk_string value ++ rest
      ≡ b'$' ∷ (to_string (length value) ++ (crlf ++ (value ++ (crlf ++ rest))))
unfolding bulk_string
bulk_string-append value rest = simp append_assoc

length-bulk_string :
    (value : Bytes)
    → length (bulk_string value) ≡ suc (length (to_string (length value))) + 2 + length value + 2
unfolding bulk_string
length-bulk_string value = omega (
  arith,
  length-append (to_string (length value)) (crlf ++ (value ++ crlf)),
  length-append value crlf,
)

-- The bulk string that stands behind `before` is read back, and the position is behind it.
module _ (before value rest : Bytes) (fits : length value < 2 ^ 31) where
  abbrev bulk_text : Bytes
  bulk_text = text before b'$' (omega arith) (length value) (value ++ (crlf ++ rest))

  bulk_body :
      (end : ℕ)
      → end ≡ length before + suc (length (to_string (length value)))
      → bulk_of_length bulk_text (length before) end (some (pos (length value)))
        ≡ (some (record { len = pos (length value); payload = value }), end + 2 + length value + 2)
  unfolding bulk_of_length
  bulk_body end e =
      let rest_is =
        header_rest before b'$' (omega arith) (length value) (value ++ (crlf ++ rest)) (end + 2)
          (omega arith) in
      let size = length-text before b'$' (omega arith) (length value) (value ++ (crlf ++ rest)) in
      rw (rest_is, take-length value (crlf ++ rest))
        (ground (arith, size, length-append value (crlf ++ rest)))

  bulk_read : parse_bulk_string bulk_text (length before) ≡ (
    some (record { len = pos (length value); payload = value }),
    length before + suc (length (to_string (length value))) + 2 + length value + 2,
  )
  unfolding parse_bulk_string bulk_line
  bulk_read =
      rw
        (
          has_byte-text before b'$' (omega arith) (length value) (value ++ (crlf ++ rest)),
          header_end before b'$' (omega arith) (length value) (value ++ (crlf ++ rest)),
          header_stoi before b'$' (omega arith) (length value) (value ++ (crlf ++ rest)) fits,
        )
        (bulk_body _ refl)

  -- So is the element of an array.
  element_read :
      parse_element (before ++ (bulk_string value ++ rest)) (length before)
      ≡ got value (length before + length (bulk_string value))
  unfolding parse_element
  element_read =
      let place : length before + suc (length (to_string (length value))) + 2 + length value + 2
          ≡ length before + length (bulk_string value) =
        omega (arith, length-bulk_string value) in
      rw
        (
          bulk_string-append value rest,
          get_elem?-length before (to_string (length value) ++ (crlf ++ (value ++ (crlf ++ rest))))
              b'$',
          bulk_read,
        )
        (ap (got value) place)

-- The values of an array reply, one behind the other.
abbrev pub bulk_strings : List Bytes → Bytes
bulk_strings [] = []
bulk_strings (value ∷ values) = bulk_string value ++ bulk_strings values

-- Each length is a non-negative `int`.
abbrev pub AllFit : List Bytes → Type 0
AllFit [] = Unit {0}
AllFit (value ∷ values) = (length value < 2 ^ 31) × AllFit values

elements_read :
    (values : List Bytes) (before rest : Bytes) (acc : List Bytes)
    → AllFit values
    → parse_elements (length values) (before ++ (bulk_strings values ++ rest)) (length before) acc
      ≡ filled (acc ++ values) (length before + length (bulk_strings values))
elements_read [] before rest acc fit =
    let e : length before ≡ length before + 0 = omega arith in
    unfold parse_elements in rw append-nil (ap (filled acc) e)
elements_read (value ∷ values) before rest acc (fit, fits) =
    let here = bulk_string value in
    let text_is : before ++ ((here ++ bulk_strings values) ++ rest)
        ≡ (before ++ here) ++ (bulk_strings values ++ rest) =
      simp append_assoc in
    let first : parse_element (before ++ ((here ++ bulk_strings values) ++ rest)) (length before)
        ≡ got value (length before + length here) =
      rw append_assoc (element_read before value (bulk_strings values ++ rest) fit) in
    let place : length before + length here ≡ length (before ++ here) =
      omega (arith, length-append before here) in
    let end : length (before ++ here) + length (bulk_strings values)
        ≡ length before + length (here ++ bulk_strings values) =
      omega (arith, length-append before here, length-append here (bulk_strings values)) in
    let later = elements_read values (before ++ here) rest (acc ++ value ∷ []) fits in
    rw (parse_elements-got (length values) _ acc (length before) first, text_is, place, later)
      (ap (filled ((acc ++ value ∷ []) ++ values)) end ∙ rw append_assoc)

-- A whole array reply.
abbrev pub array_reply : List Bytes → Bytes
array_reply values = array_header (length values) ++ bulk_strings values

length-array_header : (n : ℕ) → length (array_header n) ≡ suc (length (to_string n)) + 2
unfolding array_header
length-array_header n = omega (arith, length-append (to_string n) crlf)

array_header-append :
    (n : ℕ) (rest : Bytes) → array_header n ++ rest ≡ text [] b'*' (omega arith) n rest
unfolding array_header
array_header-append n rest = rw append_assoc

module _ (values : List Bytes) (rest : Bytes) where
  abbrev array_text : Bytes
  array_text = text [] b'*' (omega arith) (length values) (bulk_strings values ++ rest)

  array_elements :
      (k : ℕ)
      → k ≡ suc (length (to_string (length values))) + 2
      → AllFit values
      → parse_elements (length values) array_text k [] ≡ filled values (length (array_reply values))
  array_elements k e fits =
      let header = array_header (length values) in
      let place : k ≡ length header = omega (arith, length-array_header (length values)) in
      let size : length header + length (bulk_strings values) ≡ length (array_reply values) =
        omega (arith, length-append header (bulk_strings values)) in
      rw (place, ← array_header-append (length values) (bulk_strings values ++ rest))
        (elements_read values header rest [] fits ∙ ap (filled values) size)

  array_read :
      AllFit values
      → length values ≤ k_max_array_elements
      → parse_array array_text 0 no_array ≡ (
        complete,
        length (array_reply values),
        record { count = pos (length values); elements = values },
      )
  unfolding parse_array
  array_read fits few =
      let tail = bulk_strings values ++ rest in
      rw
        (
          header_end [] b'*' (omega arith) (length values) tail,
          header_stoi [] b'*' (omega arith) (length values) tail (omega arith),
        )
        (ground (
          arith,
          array_elements (length {A = ℕ} [] + suc (length (to_string (length values))) + 2)
              (omega arith) fits,
        ))

-- `parse` reads back the array reply of values whose lengths fit an `int`, at most
-- `kMaxArrayElements` of them, whatever bytes they hold and whatever stands behind the reply, and
-- consumes exactly the reply.
pub parse-array_reply :
    (values : List Bytes) (rest : Bytes) (commands : List Bytes)
    → AllFit values
    → length values ≤ k_max_array_elements
    → parse (array_reply values ++ rest) commands
      ≡ (complete, commands ++ values, length (array_reply values))
unfolding parse
parse-array_reply values rest commands fits few =
    rw (append_assoc, array_header-append, array_read values rest fits few)
