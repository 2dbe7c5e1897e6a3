-- ===== src/Resp/Parser/Bounds.antt =====
-- How far the parsers of arrays and of commands read.
use obsto_cpp.Base.{
  ℕ, ◌+◌, ◌-◌, ◌≤◌, ◌<◌, List, [], ◌∷◌, ◌++◌, ◌==◌, ltb, Option, none, some, ℤ, pos, negsuc, length,
  ◌≡◌, refl, ◌∙◌, ap, arith, if_elim,
}
use obsto_cpp.Text.{Bytes, substr, codes}
use obsto_cpp.Text.Find.{find_crlf, find_crlf_bound}
use obsto_cpp.Text.Decimal.{stoi, int_to_string}
use obsto_cpp.Resp.Parser.{
  BulkString, SimpleString, Error, Integer, has_byte, parse_bulk_string, parse_simple_string,
  parse_error, parse_int, ParseResult, Elements, filled, stopped, parse_elements,
  k_max_array_elements, Array, complete, incomplete, error, Parsed, array_done, array_of_count,
  array_line, parse_array, no_array, parsed_array, parsed_one, parsed_raw, parse,
}
use obsto_cpp.Resp.Parser.Moves.{
  Moves, parse_bulk_string-Moves, parse_simple_string-Moves, parse_error-Moves, parse_int-Moves,
}
use obsto_cpp.Resp.Parser.Rounds.{parse_elements-bound, parse_elements-early}

-- An array that is complete has read as many elements as its header says, within the limit.
abbrev pub Fits : Bytes → ℕ → ParseResult × ℕ × Array → Type 0
Fits s p (r, q, a) =
    r ≡ complete
    → Moves s p q × (a.count ≡ pos (length a.elements)) × (length a.elements ≤ k_max_array_elements)

array_done-Fits :
    (s : Bytes) (p n from : ℕ) (es : Elements)
    → p < from
    → from ≤ length s
    → n ≤ k_max_array_elements
    → parse_elements n s from [] ≡ es
    → Fits s p (array_done p (pos n) no_array es)
array_done-Fits s p n from (stopped r) lo hi fit f h =
    absurd (parse_elements-early n s from [] (f ∙ ap stopped h))
array_done-Fits s p n from (filled es k) lo hi fit f h =
    ground (arith, parse_elements-bound n s from [] hi f)

array_of_count-Fits :
    (s : Bytes) (p from : ℕ) (n : Option ℤ)
    → p < from
    → from ≤ length s
    → Fits s p (array_of_count s p from no_array n)
array_of_count-Fits s p from none lo hi = λ h. cc
array_of_count-Fits s p from (some (negsuc n)) lo hi = λ h. cc
array_of_count-Fits s p from (some (pos n)) lo hi =
    if_elim (Fits s p) (ltb k_max_array_elements n) (λ _ h. cc)
      λ fit. array_done-Fits s p n from (parse_elements n s from []) lo hi (ground arith) refl

array_line-Fits :
    (s : Bytes) (p : ℕ) (o : Option ℕ) → find_crlf s p ≡ o → Fits s p (array_line s p no_array o)
array_line-Fits s p none e = λ h. cc
array_line-Fits s p (some end) e =
    let inside = find_crlf_bound s p e in
    array_of_count-Fits s p (end + 2) (stoi (substr s (p + 1) (end - p - 1))) (omega arith)
      (omega arith)

pub parse_array-Fits : (s : Bytes) (p : ℕ) → Fits s p (parse_array s p no_array)
unfolding parse_array
parse_array-Fits s p =
    if_elim (Fits s p) (has_byte s p b'*') (λ _. array_line-Fits s p (find_crlf s p) refl)
      (λ _ h. cc)

-- `bytesConsumed` of a complete parse: at least one byte, and no more than there are.
abbrev pub Consumes : Bytes → Parsed → Type 0
Consumes s (r, commands, consumed) = r ≡ complete → (0 < consumed) × (consumed ≤ length s)

parsed_array-Consumes :
    (s : Bytes) (commands : List Bytes) (r : ParseResult × ℕ × Array)
    → Fits s 0 r
    → Consumes s (parsed_array commands r)
parsed_array-Consumes s commands (complete, q, a) f h = (f refl).0
parsed_array-Consumes s commands (incomplete, q, a) f h = cc
parsed_array-Consumes s commands (error, q, a) f h = cc

parsed_one-Consumes :
    {A : Type 0} (f : A → Bytes) (s : Bytes) (commands : List Bytes) (r : Option A × ℕ)
    → ((a : A) (q : ℕ) → r ≡ (some a, q) → Moves s 0 q)
    → Consumes s (parsed_one f commands r)
parsed_one-Consumes f s commands (none, q) m h = cc
parsed_one-Consumes f s commands (some a, q) m h = m a q refl

parsed_raw-Consumes :
    (s : Bytes) (commands : List Bytes) (o : Option ℕ)
    → find_crlf s 0 ≡ o
    → Consumes s (parsed_raw s commands o)
parsed_raw-Consumes s commands none e h = cc
parsed_raw-Consumes s commands (some end) e h = omega (arith, find_crlf_bound s 0 e)

parse-Consumes : (s : Bytes) (commands : List Bytes) → Consumes s (parse s commands)
unfolding parse
parse-Consumes [] commands = λ h. cc
parse-Consumes (c ∷ rest) commands =
    let s : Bytes = c ∷ rest in
    if_elim (Consumes s) (c == b'*')
      (λ _. parsed_array-Consumes s commands (parse_array s 0 no_array) (parse_array-Fits s 0))
      λ _.
        if_elim (Consumes s) (c == b'$')
          (λ _.
            parsed_one-Consumes (λ (b : BulkString). b.payload) s commands (parse_bulk_string s 0)
              (λ a q. parse_bulk_string-Moves s 0))
          λ _.
            if_elim (Consumes s) (c == b'+')
              (λ _.
                parsed_one-Consumes (λ (b : SimpleString). b.payload) s commands
                  (parse_simple_string s 0) (λ a q. parse_simple_string-Moves s 0))
              λ _.
                if_elim (Consumes s) (c == b'-')
                  (λ _.
                    parsed_one-Consumes (λ (b : Error). codes "ERROR:" ++ b.message) s commands
                      (parse_error s 0) (λ a q. parse_error-Moves s 0))
                  λ _.
                    if_elim (Consumes s) (c == b':')
                      (λ _.
                        parsed_one-Consumes (λ (b : Integer). codes "INT:" ++ int_to_string b.value)
                          s commands (parse_int s 0) (λ a q. parse_int-Moves s 0))
                      λ _. parsed_raw-Consumes s commands (find_crlf s 0) refl

-- A complete parse consumes at least one byte and at most the whole buffer.
pub parse_bound :
    (s : Bytes) (commands : List Bytes)
    → (parse s commands).0 ≡ complete
    → (0 < (parse s commands).2) × ((parse s commands).2 ≤ length s)
parse_bound s commands h = parse-Consumes s commands h

-- A complete array has a count of its elements, at most `kMaxArrayElements`, and the position is
-- behind where it was and within the buffer.
pub parse_array_bound :
    (s : Bytes) (p : ℕ)
    → (parse_array s p no_array).0 ≡ complete
    → let (r, q, a) = parse_array s p no_array in
      (p < q)
      × (q ≤ length s)
      × (a.count ≡ pos (length a.elements))
      × (length a.elements ≤ k_max_array_elements)
parse_array_bound s p h =
    let (moves, count, few) = parse_array-Fits s p h in (moves.0, moves.1, count, few)
