-- ===== src/Text/Decimal.antt =====
-- Numbers in text: `std::to_string`, `std::stoi`, `std::stol` and `std::stoul`, with an `int` of 32
-- bits and a `long` of 64. `none` stands for the exceptions `invalid_argument` and `out_of_range`.
use obsto_cpp.Base.{
  ℕ, zero, suc, ◌+◌, ◌-◌, ◌*◌, ◌/◌, ◌%◌, ◌^◌, ◌<◌, ◌&&◌, ◌||◌, Bool, true, false, [], ◌∷◌, ◌==◌,
  leb, ltb, if◌then◌else◌, Option, none, some, ◌≡◌, refl, ap, arith, ℤ, pos, negsuc, neg, ◌∙◌,
}
use obsto_cpp.Text.{Bytes}
use obsto_cpp.Text.Find.{HasNoCr}

abbrev pub is_space : ℕ → Bool
is_space c = c == 32 || (leb 9 c && leb c 13)

abbrev is_digit : ℕ → Bool
is_digit c = leb b'0' c && leb c b'9'

skip_spaces : Bytes → Bytes
skip_spaces [] = []
skip_spaces (c ∷ s) = if is_space c then skip_spaces s else c ∷ s

-- the value of the digits that the text begins with, behind those already read
scan : ℕ → Bytes → ℕ
scan a [] = a
scan a (c ∷ s) = let rest = scan (a * 10 + (c - 48)) s in if is_digit c then rest else a

-- the sign and the magnitude that `strtol` finds; `none` where there is no digit
magnitude : Bool → Bytes → Option (Bool × ℕ)
magnitude minus [] = none
magnitude minus (c ∷ s) = if is_digit c then some (minus, scan 0 (c ∷ s)) else none

signed : Bytes → Option (Bool × ℕ)
signed [] = none
signed (c ∷ s) =
    if c == b'-'
    then magnitude true s
    else if c == b'+'
    then magnitude false s
    else magnitude false (c ∷ s)

-- within -2^w .. 2^w - 1
in_range : ℕ → Option (Bool × ℕ) → Option ℤ
in_range w none = none
in_range w (some (true, n)) = if leb n (2 ^ w) then some (neg n) else none
in_range w (some (false, n)) = if ltb n (2 ^ w) then some (pos n) else none

unfoldable pub stoi : Bytes → Option ℤ
unfolding skip_spaces scan magnitude signed in_range
stoi s = in_range 31 (signed (skip_spaces s))

unfoldable pub stol : Bytes → Option ℤ
unfolding skip_spaces scan magnitude signed in_range
stol s = in_range 63 (signed (skip_spaces s))

-- `std::stoul` takes a sign too, and negates modulo 2^64.
wrap_unsigned : Option (Bool × ℕ) → Option ℕ
wrap_unsigned none = none
wrap_unsigned (some (minus, n)) =
    if ltb n (2 ^ 64) then some (if minus then (2 ^ 64 - n) % 2 ^ 64 else n) else none

unfoldable pub stoul : Bytes → Option ℕ
unfolding skip_spaces scan magnitude signed wrap_unsigned
stoul s = wrap_unsigned (signed (skip_spaces s))

-- The digits of `n` in front of `acc`, on fuel above `n`.
digits_onto : ℕ → ℕ → Bytes → Bytes
digits_onto zero n acc = acc
digits_onto (suc f) n acc =
    let digit : ℕ = 48 + n % 10 in
    let rest = digits_onto f (n / 10) (digit ∷ acc) in if ltb n 10 then digit ∷ acc else rest

unfoldable pub to_string : ℕ → Bytes
unfolding digits_onto
to_string n = digits_onto (suc n) n []

-- `std::to_string` of an `int`
unfoldable pub int_to_string : ℤ → Bytes
unfolding to_string
int_to_string (pos n) = to_string n
int_to_string (negsuc n) = b'-' ∷ to_string (suc n)

scan-digits_onto : (f n : ℕ) (acc : Bytes) → n < f → scan 0 (digits_onto f n acc) ≡ scan n acc
unfolding scan digits_onto
scan-digits_onto zero n acc h = elim h [ ]
scan-digits_onto (suc f) n acc h = ground (arith, scan-digits_onto f (n / 10) ((48 + n % 10) ∷ acc))

-- A text that begins with a digit; a text of digits only.
abbrev StartsDigit : Bytes → Type 0
StartsDigit [] = ⊥
StartsDigit (c ∷ s) = is_digit c ≡ true

abbrev pub AllDigits : Bytes → Type 0
AllDigits [] = Unit {0}
AllDigits (c ∷ s) = (is_digit c ≡ true) × AllDigits s

digits_onto-StartsDigit : (f n : ℕ) (acc : Bytes) → n < f → StartsDigit (digits_onto f n acc)
unfolding digits_onto
digits_onto-StartsDigit zero n acc h = elim h [ ]
digits_onto-StartsDigit (suc f) n acc h =
    ground (arith, digits_onto-StartsDigit f (n / 10) ((48 + n % 10) ∷ acc))

digits_onto-AllDigits : (f n : ℕ) (acc : Bytes) → AllDigits acc → AllDigits (digits_onto f n acc)
unfolding digits_onto
digits_onto-AllDigits zero n acc h = h
digits_onto-AllDigits (suc f) n acc h =
    ground (arith, digits_onto-AllDigits f (n / 10) ((48 + n % 10) ∷ acc))

AllDigits-HasNoCr : (s : Bytes) → AllDigits s → HasNoCr s
AllDigits-HasNoCr [] h = tt
AllDigits-HasNoCr (c ∷ s) h = (ground arith, AllDigits-HasNoCr s h.1)

pub to_string-AllDigits : (n : ℕ) → AllDigits (to_string n)
unfolding to_string
to_string-AllDigits n = digits_onto-AllDigits (suc n) n [] tt

pub to_string-HasNoCr : (n : ℕ) → HasNoCr (to_string n)
to_string-HasNoCr n = AllDigits-HasNoCr (to_string n) (to_string-AllDigits n)

signed-StartsDigit : (s : Bytes) → StartsDigit s → signed (skip_spaces s) ≡ some (false, scan 0 s)
unfolding signed skip_spaces magnitude
signed-StartsDigit [] h = absurd h
signed-StartsDigit (c ∷ s) h = ground arith

signed-to_string : (n : ℕ) → signed (skip_spaces (to_string n)) ≡ some (false, n)
unfolding to_string scan
signed-to_string n =
    signed-StartsDigit (to_string n) (digits_onto-StartsDigit (suc n) n [] (omega arith))
    ∙ ap (λ k. some (false, k)) (scan-digits_onto (suc n) n [] (omega arith))

-- `std::stoi` reads back what `std::to_string` printed, for every non-negative `int`.
pub stoi-to_string : (n : ℕ) → n < 2 ^ 31 → stoi (to_string n) ≡ some (pos n)
unfolding stoi
stoi-to_string n h = rw (signed-to_string n) (unfold in_range in ground arith)

pub stol-to_string : (n : ℕ) → n < 2 ^ 63 → stol (to_string n) ≡ some (pos n)
unfolding stol
stol-to_string n h = rw (signed-to_string n) (unfold in_range in ground arith)

pub stoul-to_string : (n : ℕ) → n < 2 ^ 64 → stoul (to_string n) ≡ some n
unfolding stoul
stoul-to_string n h = rw (signed-to_string n) (unfold wrap_unsigned in ground arith)

wrap_unsigned_bound : (o : Option (Bool × ℕ)) {n : ℕ} → wrap_unsigned o ≡ some n → n < 2 ^ 64
unfolding wrap_unsigned
wrap_unsigned_bound none h = ground arith
wrap_unsigned_bound (some (true, m)) h = ground arith
wrap_unsigned_bound (some (false, m)) h = ground arith

pub stoul_bound : (s : Bytes) {n : ℕ} → stoul s ≡ some n → n < 2 ^ 64
unfolding stoul
stoul_bound s h = wrap_unsigned_bound (signed (skip_spaces s)) h

to_string_runs : to_string 1048577 ≡ b'1' ∷ b'0' ∷ b'4' ∷ b'8' ∷ b'5' ∷ b'7' ∷ b'7' ∷ []
unfolding to_string
to_string_runs = refl
