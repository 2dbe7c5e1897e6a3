-- ===== src/Resp/Parser/Rounds.antt =====
-- How many elements the loop of an array reads, and how far.
use obsto_cpp.Base.{
  ℕ, zero, suc, ◌+◌, ◌≤◌, List, [], ◌∷◌, ◌++◌, Option, none, some, length, get_elem?, ◌≡◌, ◌≢◌, ◌⊎◌,
  refl, arith, inl, inr, length-append,
}
use obsto_cpp.Text.{Bytes}
use obsto_cpp.Resp.Parser.{
  BulkString, SimpleString, Integer, parse_bulk_string, parse_simple_string, parse_int, ParseResult,
  Element, got, stop, bulk_element, simple_element, int_element, typed_element, parse_element,
  Elements, filled, stopped, parse_elements, complete,
}
use obsto_cpp.Resp.Parser.Moves.{parse_element-Moves}

-- What a loop that went round has done in its first round.
abbrev round : ℕ → Bytes → List Bytes → Element → Elements
round n s acc (got x k) = parse_elements n s k (acc ++ x ∷ [])
round n s acc (stop r) = stopped r

parse_elements-round :
    (n : ℕ) (s : Bytes) (p : ℕ) (acc : List Bytes)
    → parse_elements (suc n) s p acc ≡ round n s acc (parse_element s p)
unfolding parse_elements
parse_elements-round n s p acc = ground arith

module _ (n : ℕ) (s : Bytes) (acc : List Bytes) where
  round-eq-filled :
      (r : Element) {es : List Bytes} {q : ℕ}
      → round n s acc r ≡ filled es q
      → (x : Bytes) × (k : ℕ) × (r ≡ got x k) × (parse_elements n s k (acc ++ x ∷ []) ≡ filled es q)
  round-eq-filled (got x k) h = (x, k, refl, h)
  round-eq-filled (stop r) h = cc

  round-eq-stopped :
      (r : Element) {t : ParseResult}
      → round n s acc r ≡ stopped t
      → (r ≡ stop t)
        ⊎ ((x : Bytes) × (k : ℕ) × (r ≡ got x k)
            × (parse_elements n s k (acc ++ x ∷ []) ≡ stopped t))
  round-eq-stopped (got x k) h = inr (x, k, refl, h)
  round-eq-stopped (stop r) h = inl cc

  module _ (p : ℕ) where
    pub elements-eq-filled :
        {es : List Bytes} {q : ℕ}
        → parse_elements (suc n) s p acc ≡ filled es q
        → (x : Bytes) × (k : ℕ) × (parse_element s p ≡ got x k)
          × (parse_elements n s k (acc ++ x ∷ []) ≡ filled es q)
    elements-eq-filled h =
        round-eq-filled (parse_element s p) (rw (parse_elements-round n s p acc) at h)

    pub elements-eq-stopped :
        {t : ParseResult}
        → parse_elements (suc n) s p acc ≡ stopped t
        → (parse_element s p ≡ stop t)
          ⊎ ((x : Bytes) × (k : ℕ) × (parse_element s p ≡ got x k)
              × (parse_elements n s k (acc ++ x ∷ []) ≡ stopped t))
    elements-eq-stopped h =
        round-eq-stopped (parse_element s p) (rw (parse_elements-round n s p acc) at h)

    pub parse_elements-got :
        {x : Bytes} {k : ℕ}
        → parse_element s p ≡ got x k
        → parse_elements (suc n) s p acc ≡ parse_elements n s k (acc ++ x ∷ [])
    parse_elements-got h = rw (parse_elements-round n s p acc, h)

    pub parse_elements-stop :
        {t : ParseResult} → parse_element s p ≡ stop t → parse_elements (suc n) s p acc ≡ stopped t
    parse_elements-stop h = rw (parse_elements-round n s p acc, h)

-- The loop reads as many elements as it has rounds, and stays inside the buffer.
pub parse_elements-bound :
    (n : ℕ) (s : Bytes) (p : ℕ) (acc : List Bytes) {es : List Bytes} {q : ℕ}
    → p ≤ length s
    → parse_elements n s p acc ≡ filled es q
    → (p ≤ q) × (q ≤ length s) × (length es ≡ length acc + n)
parse_elements-bound zero s p acc h e = unfold parse_elements in ground arith
parse_elements-bound (suc n) s p acc h e =
    let (x, k, f, g) = elements-eq-filled n s acc p e in
    let (lo, hi) = parse_element-Moves s p f in
    omega (arith, parse_elements-bound n s k (acc ++ x ∷ []) hi g, length-append acc (x ∷ []))

-- An early result of the loop is never `Complete`.
bulk_element-early : (r : Option BulkString × ℕ) → bulk_element r ≢ stop complete
bulk_element-early (none, k) h = cc
bulk_element-early (some b, k) h = cc

simple_element-early : (r : Option SimpleString × ℕ) → simple_element r ≢ stop complete
simple_element-early (none, k) h = cc
simple_element-early (some b, k) h = cc

int_element-early : (r : Option Integer × ℕ) → int_element r ≢ stop complete
int_element-early (none, k) h = cc
int_element-early (some b, k) h = cc

typed_element-early : (s : Bytes) (p : ℕ) (o : Option ℕ) → typed_element s p o ≢ stop complete
typed_element-early s p none h = cc
typed_element-early s p (some c) h = ground (
  arith,
  bulk_element-early (parse_bulk_string s p),
  simple_element-early (parse_simple_string s p),
  int_element-early (parse_int s p),
)

pub parse_elements-early :
    (n : ℕ) (s : Bytes) (p : ℕ) (acc : List Bytes) → parse_elements n s p acc ≢ stopped complete
parse_elements-early zero s p acc h = unfold parse_elements in cc h
parse_elements-early (suc n) s p acc h = elim (elements-eq-stopped n s acc p h) [
  | inl e ↦ unfold parse_element in typed_element-early s p (get_elem? s p) e
  | inr (x, k, f, g) ↦ parse_elements-early n s k (acc ++ x ∷ []) g
]
