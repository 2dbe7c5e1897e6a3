-- ===== src/Text/Search.antt =====
-- `std::string::find` of a text or a character, and the lines that `std::getline` reads.
use obsto_cpp.Base.{
  Bool, true, false, ℕ, zero, suc, ◌+◌, ◌≤◌, ◌&&◌, List, [], ◌∷◌, ◌++◌, ◌==◌, if◌then◌else◌, Option,
  none, some, ◌≡◌, refl, ap, arith, length, drop, length-drop, drop-append, take-append,
}
use mathlib.Core.Option
use obsto_cpp.Text.{Bytes, substr}

unfoldable pub starts_with : Bytes → Bytes → Bool
starts_with [] s = true
starts_with (p ∷ pattern) [] = false
starts_with (p ∷ pattern) (c ∷ s) = p == c && starts_with pattern s

-- `s.find(pattern)`
unfoldable pub find : Bytes → Bytes → Option ℕ
unfolding starts_with
find pattern [] = if starts_with pattern [] then some 0 else none
find pattern (c ∷ s) =
    let rest = Option.map suc (find pattern s) in
    if starts_with pattern (c ∷ s) then some 0 else rest

-- The first line gets one more character in front.
abbrev pub in_front : ℕ → List Bytes → List Bytes
in_front c [] = (c ∷ []) ∷ []
in_front c (line ∷ rest) = (c ∷ line) ∷ rest

-- the lines that `std::getline` reads until it fails
unfoldable pub lines : Bytes → List Bytes
lines [] = []
lines (c ∷ s) = let rest = lines s in if c == 10 then [] ∷ rest else in_front c rest

pub starts_with-append :
    (pattern s more : Bytes)
    → length pattern ≤ length s
    → starts_with pattern (s ++ more) ≡ starts_with pattern s
unfolding starts_with
starts_with-append [] s more h = refl
starts_with-append (p ∷ pattern) [] more h = ground arith
starts_with-append (p ∷ pattern) (c ∷ s) more h =
    ap (λ b. p == c && b) (starts_with-append pattern s more (omega arith))

pub starts_with_bound :
    (pattern s : Bytes) → starts_with pattern s ≡ true → length pattern ≤ length s
unfolding starts_with
starts_with_bound [] s h = omega arith
starts_with_bound (p ∷ pattern) [] h = ground arith
starts_with_bound (p ∷ pattern) (c ∷ s) h = ground (arith, starts_with_bound pattern s)

pub find_bound :
    (pattern s : Bytes) {n : ℕ} → find pattern s ≡ some n → n + length pattern ≤ length s
unfolding find
find_bound pattern [] h = ground (arith, starts_with_bound pattern [])
find_bound pattern (c ∷ s) {n = zero} h = ground (arith, starts_with_bound pattern (c ∷ s))
find_bound pattern (c ∷ s) {n = suc n} h = ground (arith, find_bound pattern s {n = n})

-- A text that is there stays where it is when more bytes arrive.
pub find-append :
    (pattern s more : Bytes) {n : ℕ} → find pattern s ≡ some n → find pattern (s ++ more) ≡ some n
unfolding find
find-append pattern [] [] h = h
find-append pattern [] (d ∷ more) h =
    ground (arith, starts_with-append pattern [] (d ∷ more), starts_with_bound pattern [])
find-append pattern (c ∷ s) more {n = zero} h =
    ground (arith, starts_with-append pattern (c ∷ s) more, starts_with_bound pattern (c ∷ s))
find-append pattern (c ∷ s) more {n = suc n} h = ground (
  arith,
  starts_with-append pattern (c ∷ s) more,
  find_bound pattern s {n = n},
  find-append pattern s more {n = n},
)

pub substr-append :
    (s more : Bytes) (p n : ℕ) → p + n ≤ length s → substr (s ++ more) p n ≡ substr s p n
substr-append s more p n h =
    rw (drop-append p s more (omega arith))
      (take-append n (drop p s) more (omega (arith, length-drop p s)))
