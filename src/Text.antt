-- ===== src/Text.antt =====
-- `std::string` as a list of bytes, and what the program uses of the C++ standard library on it:
-- comparison, `find("\r\n", pos)`, `substr`, `toupper`. The child `Decimal` has the numbers in text.
-- Core/Utils/Utils.h is `to_upper`.
pub mod Find
pub mod Decimal
pub mod Search
use Prim.Native.Char.{code}
use Prim.Native.String.{String}
use obsto_cpp.Base.{
  ℕ, ◌+◌, ◌-◌, Bool, true, false, ◌&&◌, List, [], ◌∷◌, map, ◌==◌, leb, length, take, drop,
  if◌then◌else◌, Option, none, some, ◌≡◌, refl, ◌↔◌, arith,
}

abbrev pub Bytes : Type 0
Bytes = List ℕ

-- The bytes of an ASCII literal.
abbrev pub codes : String → Bytes
codes String.[] = []
codes (String.◌∷◌ c s) = code c ∷ codes s

-- "\r\n"
abbrev pub crlf : Bytes
crlf = 13 ∷ 10 ∷ []

-- `operator==` of two strings
unfoldable pub equals : Bytes → Bytes → Bool
equals [] [] = true
equals (x ∷ xs) (y ∷ ys) = x == y && equals xs ys
equals _ _ = false

pub equals_iff : (a b : Bytes) → ((equals a b) ≡ true) ↔ (a ≡ b)
unfolding equals
equals_iff (x ∷ a) (y ∷ b) = ground (arith, equals_iff a b)
equals_iff _ _ = ground arith

pub equals_refl : (a : Bytes) → (equals a a) ≡ true
equals_refl a = (equals_iff a a).1 refl

abbrev pub empty : Bytes → Bool
empty [] = true
empty (c ∷ s) = false

-- `s.substr(pos, n)`, at a `pos` within the string
abbrev pub substr : Bytes → ℕ → ℕ → Bytes
substr s pos n = take n (drop pos s)

unfoldable pub to_upper_byte : ℕ → ℕ
to_upper_byte c = if leb b'a' c && leb c b'z' then c - 32 else c

unfoldable pub to_upper : Bytes → Bytes
unfolding to_upper_byte
to_upper s = map to_upper_byte s
