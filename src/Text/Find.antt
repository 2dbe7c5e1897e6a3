-- ===== src/Text/Find.antt =====
-- `std::string::find("\r\n", pos)`: the place of the first line end at or behind `pos`.
use obsto_cpp.Base.{
  Option-cases, inl, inr, ℕ, zero, suc, ◌+◌, ◌≤◌, ◌&&◌, [], ◌∷◌, ◌++◌, ◌==◌, if◌then◌else◌, Option,
  none, some, ◌≡◌, ◌≢◌, refl, ap, arith, length, drop, length-drop, drop-append, drop-length,
}
use mathlib.Core.Option
use obsto_cpp.Text.{Bytes}

-- the offset of the first "\r\n"
unfoldable pub line_end : Bytes → Option ℕ
line_end [] = none
line_end (c ∷ []) = none
line_end (c ∷ d ∷ s) =
    let rest = Option.map suc (line_end (d ∷ s)) in if c == 13 && d == 10 then some 0 else rest

unfoldable pub find_crlf : Bytes → ℕ → Option ℕ
unfolding line_end
find_crlf s from = Option.map (λ n. from + n) (line_end (drop from s))

-- A line end that is there stays where it is when more bytes arrive.
pub line_end-append : (s more : Bytes) {n : ℕ} → line_end s ≡ some n → line_end (s ++ more) ≡ some n
unfolding line_end
line_end-append [] more h = ground arith
line_end-append (c ∷ []) more h = ground arith
line_end-append (c ∷ d ∷ s) more {n = zero} h = ground arith
line_end-append (c ∷ d ∷ s) more {n = suc n} h =
    ground (arith, line_end-append (d ∷ s) more {n = n})

pub line_end_bound : (s : Bytes) {n : ℕ} → line_end s ≡ some n → n + 2 ≤ length s
unfolding line_end
line_end_bound [] h = ground arith
line_end_bound (c ∷ []) h = ground arith
line_end_bound (c ∷ d ∷ s) {n = zero} h = omega arith
line_end_bound (c ∷ d ∷ s) {n = suc n} h = ground (arith, line_end_bound (d ∷ s) {n = n})

-- A line with no carriage return ends at its "\r\n".
abbrev pub HasNoCr : Bytes → Type 0
HasNoCr [] = Unit {0}
HasNoCr (c ∷ s) = (c ≢ 13) × HasNoCr s

pub line_end-line :
    (s rest : Bytes) → HasNoCr s → line_end (s ++ (13 ∷ 10 ∷ rest)) ≡ some (length s)
unfolding line_end
line_end-line [] rest h = refl
line_end-line (c ∷ []) rest h = ground arith
line_end-line (c ∷ d ∷ s) rest h = ground (arith, line_end-line (d ∷ s) rest h.1)

find_crlf→line_end :
    (s : Bytes) (from : ℕ) {n : ℕ}
    → find_crlf s from ≡ some n
    → (k : ℕ) × (line_end (drop from s) ≡ some k) × (n ≡ from + k)
unfolding find_crlf
find_crlf→line_end s from {n} h = elim (Option-cases (line_end (drop from s))) [
  | inl e ↦ cc (h, ap (Option.map (λ k. from + k)) e)
  | inr (k, e) ↦ (k, e, ground arith)
]

pub find_crlf_bound :
    (s : Bytes) (from : ℕ) {n : ℕ} → find_crlf s from ≡ some n → (from ≤ n) × (n + 2 ≤ length s)
find_crlf_bound s from h =
    let (k, e, eq) = find_crlf→line_end s from h in
    omega (arith, line_end_bound (drop from s) e, length-drop from s)

pub find_crlf-append :
    (s more : Bytes) (from : ℕ) {n : ℕ}
    → find_crlf s from ≡ some n
    → find_crlf (s ++ more) from ≡ some n
find_crlf-append s more from h =
    let (k, e, eq) = find_crlf→line_end s from h in
    let inside : from ≤ length s = omega (arith, find_crlf_bound s from h) in
    rw eq (
      unfold find_crlf in rw (drop-append from s more inside, line_end-append (drop from s) more e))

-- The line that begins behind `before` and has no carriage return.
pub find_crlf-line :
    (before line rest : Bytes)
    → HasNoCr line
    → find_crlf (before ++ (line ++ (13 ∷ 10 ∷ rest))) (length before)
      ≡ some (length before + length line)
unfolding find_crlf
find_crlf-line before line rest h =
    rw (drop-length before (line ++ (13 ∷ 10 ∷ rest)), line_end-line line rest h)
