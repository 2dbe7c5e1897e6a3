-- ===== src/Resp/Parser/Streaming.antt =====
-- The verdict of `parse` is final: bytes that arrive later do not change it.
use obsto_cpp.Base.{
  ℕ, zero, suc, ◌+◌, ◌-◌, ◌≤◌, true, List, [], ◌∷◌, ◌++◌, ◌==◌, ltb, Option, none, some, ℤ, pos,
  negsuc, length, get_elem?, ◌≡◌, ◌≢◌, refl, ◌∙◌, arith, if_both, inl, inr, take-append,
}
use obsto_cpp.Text.{Bytes, substr, codes}
use obsto_cpp.Text.Find.{find_crlf, find_crlf_bound, find_crlf-append}
use obsto_cpp.Text.Decimal.{stoi, int_to_string}
use obsto_cpp.Resp.Parser.{
  BulkString, SimpleString, Error, Integer, has_byte, parse_bulk_string, parse_simple_string,
  parse_error, parse_int, ParseResult, Element, stop, bulk_element, simple_element, int_element,
  typed_element, parse_element, Elements, filled, stopped, parse_elements, k_max_array_elements,
  Array, complete, incomplete, error, Parsed, array_done, array_of_count, array_line, parse_array,
  no_array, parsed_array, parsed_one, parsed_raw, parse,
}
use obsto_cpp.Resp.Parser.Prefix.{
  get_elem?-append, has_byte-append, header-append, parse_bulk_string-append,
  parse_simple_string-append, parse_error-append, parse_int-append,
}
use obsto_cpp.Resp.Parser.Rounds.{
  elements-eq-filled, elements-eq-stopped, parse_elements-got, parse_elements-stop,
  parse_elements-early,
}

module _ (s more : Bytes) where
  -- An element is final, unless the result is `Incomplete`.
  abbrev SameElement : Element → Element → Type 0
  SameElement e e' = e ≢ stop incomplete → e' ≡ e

  bulk_element-append :
      (p : ℕ) (r : Option BulkString × ℕ)
      → parse_bulk_string s p ≡ r
      → SameElement (bulk_element r) (bulk_element (parse_bulk_string (s ++ more) p))
  bulk_element-append p (none, q) e h = absurd (h refl)
  bulk_element-append p (some b, q) e h = rw (parse_bulk_string-append s more p e)

  simple_element-append :
      (p : ℕ) (r : Option SimpleString × ℕ)
      → parse_simple_string s p ≡ r
      → SameElement (simple_element r) (simple_element (parse_simple_string (s ++ more) p))
  simple_element-append p (none, q) e h = absurd (h refl)
  simple_element-append p (some b, q) e h = rw (parse_simple_string-append s more p e)

  int_element-append :
      (p : ℕ) (r : Option Integer × ℕ)
      → parse_int s p ≡ r
      → SameElement (int_element r) (int_element (parse_int (s ++ more) p))
  int_element-append p (none, q) e h = absurd (h refl)
  int_element-append p (some b, q) e h = rw (parse_int-append s more p e)

  typed_element-append :
      (p : ℕ) (o : Option ℕ)
      → get_elem? s p ≡ o
      → SameElement (typed_element s p o) (typed_element (s ++ more) p (get_elem? (s ++ more) p))
  typed_element-append p none e = λ h. absurd (h refl)
  typed_element-append p (some c) e = rw (get_elem?-append s more p e) (
      if_both SameElement (c == b'$') (λ _. bulk_element-append p (parse_bulk_string s p) refl)
        λ _.
          if_both SameElement (c == b'+')
            (λ _. simple_element-append p (parse_simple_string s p) refl)
            λ _.
              if_both SameElement (c == b':') (λ _. int_element-append p (parse_int s p) refl)
                (λ _ h. refl))

  pub parse_element-append : (p : ℕ) → SameElement (parse_element s p) (parse_element (s ++ more) p)
  unfolding parse_element
  parse_element-append p = typed_element-append p (get_elem? s p) refl

  -- The loop ends in the same way, unless the result is `Incomplete`.
  parse_elements-filled :
      (n p : ℕ) (acc : List Bytes) {es : List Bytes} {q : ℕ}
      → parse_elements n s p acc ≡ filled es q
      → parse_elements n (s ++ more) p acc ≡ filled es q
  parse_elements-filled zero p acc e = unfold parse_elements in e
  parse_elements-filled (suc n) p acc e =
      let (x, k, f, g) = elements-eq-filled n s acc p e in
      let f' = parse_element-append p (λ h. cc) ∙ f in
      parse_elements-got n (s ++ more) acc p f' ∙ parse_elements-filled n k (acc ++ x ∷ []) g

  parse_elements-error :
      (n p : ℕ) (acc : List Bytes)
      → parse_elements n s p acc ≡ stopped error
      → parse_elements n (s ++ more) p acc ≡ stopped error
  parse_elements-error zero p acc e = unfold parse_elements in cc e
  parse_elements-error (suc n) p acc e = elim (elements-eq-stopped n s acc p e) [
    | inl f ↦ parse_elements-stop n (s ++ more) acc p (parse_element-append p (λ h. cc) ∙ f)
    | inr (x, k, f, g) ↦
        parse_elements-got n (s ++ more) acc p (parse_element-append p (λ h. cc) ∙ f)
        ∙ parse_elements-error n k (acc ++ x ∷ []) g
  ]

  -- So is the result of `parseArray`.
  abbrev SameArray : ParseResult × ℕ × Array → ParseResult × ℕ × Array → Type 0
  SameArray r r' = r.0 ≢ incomplete → r' ≡ r

  array_done-append :
      (p n from : ℕ) (es : Elements)
      → parse_elements n s from [] ≡ es
      → SameArray
          (array_done p (pos n) no_array es)
          (array_done p (pos n) no_array (parse_elements n (s ++ more) from []))
  array_done-append p n from (filled es q) e h = rw (parse_elements-filled n from [] e)
  array_done-append p n from (stopped error) e h = rw (parse_elements-error n from [] e)
  array_done-append p n from (stopped incomplete) e h = absurd (h refl)
  array_done-append p n from (stopped complete) e h = absurd (parse_elements-early n s from [] e)

  array_of_count-append :
      (p from : ℕ) (n : Option ℤ)
      → SameArray
          (array_of_count s p from no_array n)
          (array_of_count (s ++ more) p from no_array n)
  array_of_count-append p from none = λ h. refl
  array_of_count-append p from (some (negsuc n)) = λ h. refl
  array_of_count-append p from (some (pos n)) =
      if_both SameArray (ltb k_max_array_elements n) (λ _ h. refl)
        λ _. array_done-append p n from (parse_elements n s from []) refl

  array_line-append :
      (p : ℕ) (o : Option ℕ)
      → find_crlf s p ≡ o
      → SameArray
          (array_line s p no_array o)
          (array_line (s ++ more) p no_array (find_crlf (s ++ more) p))
  array_line-append p none e = λ h. absurd (h refl)
  array_line-append p (some end) e =
      rw (find_crlf-append s more p e, header-append s more p end e)
        (array_of_count-append p (end + 2) (stoi (substr s (p + 1) (end - p - 1))))

  array_append :
      (p : ℕ)
      → has_byte s p b'*' ≡ true
      → SameArray (parse_array s p no_array) (parse_array (s ++ more) p no_array)
  unfolding parse_array
  array_append p h =
      rw (h, has_byte-append s more p b'*' h) (array_line-append p (find_crlf s p) refl)

  abbrev SameParsed : Parsed → Parsed → Type 0
  SameParsed r r' = r.0 ≢ incomplete → r' ≡ r

  parsed_array-append :
      (commands : List Bytes) (r r' : ParseResult × ℕ × Array)
      → SameArray r r'
      → SameParsed (parsed_array commands r) (parsed_array commands r')
  parsed_array-append commands (complete, q, a) r' f h = rw (f (λ e. cc))
  parsed_array-append commands (error, q, a) r' f h = rw (f (λ e. cc))
  parsed_array-append commands (incomplete, q, a) r' f h = absurd (h refl)

  parsed_one-append :
      {A : Type 0} (f : A → Bytes) (commands : List Bytes) (r r' : Option A × ℕ)
      → ((a : A) (q : ℕ) → r ≡ (some a, q) → r' ≡ (some a, q))
      → SameParsed (parsed_one f commands r) (parsed_one f commands r')
  parsed_one-append f commands (none, q) r' m h = absurd (h refl)
  parsed_one-append f commands (some a, q) r' m h = rw (m a q refl)

  parsed_raw-append :
      (commands : List Bytes) (o : Option ℕ)
      → find_crlf s 0 ≡ o
      → SameParsed
          (parsed_raw s commands o)
          (parsed_raw (s ++ more) commands (find_crlf (s ++ more) 0))
  parsed_raw-append commands none e h = absurd (h refl)
  parsed_raw-append commands (some end) e h =
      let inside : end ≤ length s = omega (arith, find_crlf_bound s 0 e) in
      rw (find_crlf-append s more 0 e, take-append end s more inside)

-- Once `parse` has answered `Complete` or `Error`, more bytes behind the buffer change nothing of
-- its answer: neither the commands nor the bytes consumed.
pub parse-append :
    (s more : Bytes) (commands : List Bytes)
    → (parse s commands).0 ≢ incomplete
    → parse (s ++ more) commands ≡ parse s commands
unfolding parse
parse-append [] more commands = λ h. absurd (h refl)
parse-append (c ∷ rest) more commands =
    let s : Bytes = c ∷ rest in
    let Same : Parsed → Parsed → Type 0 = SameParsed s more in
    if_both Same (c == b'*')
      (λ array.
        parsed_array-append s more commands (parse_array s 0 no_array)
          (parse_array (s ++ more) 0 no_array) (array_append s more 0 array))
      λ _.
        if_both Same (c == b'$')
          (λ _.
            parsed_one-append s more (λ (b : BulkString). b.payload) commands
              (parse_bulk_string s 0) (parse_bulk_string (s ++ more) 0)
              (λ a q. parse_bulk_string-append s more 0))
          λ _.
            if_both Same (c == b'+')
              (λ _.
                parsed_one-append s more (λ (b : SimpleString). b.payload) commands
                  (parse_simple_string s 0) (parse_simple_string (s ++ more) 0)
                  (λ a q. parse_simple_string-append s more 0))
              λ _.
                if_both Same (c == b'-')
                  (λ _.
                    parsed_one-append s more (λ (b : Error). codes "ERROR:" ++ b.message) commands
                      (parse_error s 0) (parse_error (s ++ more) 0)
                      (λ a q. parse_error-append s more 0))
                  λ _.
                    if_both Same (c == b':')
                      (λ _.
                        parsed_one-append s more
                          (λ (b : Integer). codes "INT:" ++ int_to_string b.value) commands
                          (parse_int s 0) (parse_int (s ++ more) 0)
                          (λ a q. parse_int-append s more 0))
                      λ _. parsed_raw-append s more commands (find_crlf s 0) refl
