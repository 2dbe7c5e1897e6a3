-- ===== src/Resp/Handler/Header.antt =====
-- The header that `tryBeginStreamingSetValue` looks for: a SET or SETNX command whose value is
-- larger than the streaming threshold, up to the line that announces the value.
use obsto_cpp.Base.{ℕ, ◌+◌, ◌-◌, Bool, true, false, ◌||◌, ltb, Option, none, some, ℤ, pos, negsuc}
use obsto_cpp.Text.{Bytes, codes, substr, equals, to_upper}
use obsto_cpp.Text.Find.{find_crlf}
use obsto_cpp.Text.Decimal.{stol}
use obsto_cpp.Storage.{k_streaming_threshold}
use obsto_cpp.Resp.Parser.{BulkString, has_byte, parse_bulk_string}

infixl 5 ◌>>=◌ ◌>>◌
abbrev ◌>>=◌ {ℓ κ} : {A : Type ℓ} {B : Type κ} → Option A → (A → Option B) → Option B
none >>= f = none
some a >>= f = f a

abbrev ◌>>◌ {ℓ} : {B : Type ℓ} → Option (Unit {0}) → Option B → Option B
m >> k = m >>= λ _. k

-- an early `return false` where the test fails
abbrev require : Bool → Option (Unit {0})
require true = some tt
require false = none

abbrev found : Option BulkString × ℕ → Option (Bytes × ℕ)
found (none, p) = none
found (some bulk, p) = some (bulk.payload, p)

-- `static_cast<size_t>(valueLength)`, where it is above the threshold
abbrev large : ℤ → Option ℕ
large (negsuc n) = none
large (pos n) = require (ltb k_streaming_threshold n) >> some n

pub record SetHeader : Type 0 where
  pub is_set_nx : Bool
  pub key : Bytes
  pub value_length : ℕ
  pub value_start : ℕ

unfoldable pub set_header : Bytes → Option SetHeader
set_header buf = do
  require (has_byte buf 0 b'*')
  end ← find_crlf buf 0
  require (equals (substr buf 0 end) (codes "*3"))
  (command, key_at) ← found (parse_bulk_string buf (end + 2))
  let upper = to_upper command
  require (equals upper (codes "SET") || equals upper (codes "SETNX"))
  (key, value_at) ← found (parse_bulk_string buf key_at)
  require (has_byte buf value_at b'$')
  value_end ← find_crlf buf value_at
  announced ← stol (substr buf (value_at + 1) (value_end - value_at - 1))
  n ← large announced
  some (record {
    is_set_nx = equals upper (codes "SETNX");
    key = key;
    value_length = n;
    value_start = value_end + 2;
  })
