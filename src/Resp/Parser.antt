-- ===== src/Resp/Parser.antt =====
-- Core/Protocol/Resp/RespParser.{h,cpp}. A parser takes the buffer and the position `p` (`size_t&
-- pos`), and gives back what it found and the position that it leaves. An exception of `std::stoi`
-- is `none`. Positions are below 2^63, so their sums do not wrap.
pub mod Prefix
pub mod Moves
pub mod Rounds
pub mod Bounds
pub mod Streaming
pub mod RoundTrip
use obsto_cpp.Base.{
  ℕ, zero, suc, ◌+◌, ◌-◌, Bool, true, false, not, List, [], ◌∷◌, ◌++◌, ◌==◌, ltb, if◌then◌else◌,
  Option, none, some, ℤ, pos, negsuc, length, get_elem?,
}
use obsto_cpp.Text.{Bytes, codes, substr, empty}
use obsto_cpp.Text.Find.{find_crlf}
use obsto_cpp.Text.Decimal.{stoi, int_to_string}

abbrev pub k_max_array_elements : ℕ
k_max_array_elements = 100000

pub record Array : Type 0 where
  pub count : ℤ
  pub elements : List Bytes

pub record BulkString : Type 0 where
  pub len : ℤ
  pub payload : Bytes

pub record SimpleString : Type 0 where
  pub payload : Bytes

pub record Error : Type 0 where
  pub message : Bytes

pub record Integer : Type 0 where
  pub value : ℤ

pub data ParseResult : Type 0 where
  complete incomplete error : ParseResult

-- `pos < buffer.size() && buffer[pos] == c`
abbrev pub has_byte : Bytes → ℕ → ℕ → Bool
has_byte buffer p c = elim (get_elem? buffer p) [ none ↦ false | some d ↦ d == c ]

-- the body of the `try`, on the length that `stoi` found
bulk_of_length : Bytes → ℕ → ℕ → Option ℤ → Option BulkString × ℕ
bulk_of_length buffer p end none = (none, p)
bulk_of_length buffer p end (some (negsuc zero)) =
    (some (record { len = negsuc 0; payload = [] }), end + 2)
bulk_of_length buffer p end (some (negsuc (suc n))) = (none, p)
bulk_of_length buffer p end (some (pos n)) =
    if ltb (length buffer) (end + 2 + n + 2)
    then (none, p)
    else (some (record { len = pos n; payload = substr buffer (end + 2) n }), end + 2 + n + 2)

bulk_line : Bytes → ℕ → Option ℕ → Option BulkString × ℕ
unfolding bulk_of_length
bulk_line buffer p none = (none, p)
bulk_line buffer p (some end) =
    bulk_of_length buffer p end (stoi (substr buffer (p + 1) (end - p - 1)))

unfoldable pub parse_bulk_string : Bytes → ℕ → Option BulkString × ℕ
unfolding bulk_line
parse_bulk_string buffer p =
    if has_byte buffer p b'$' then bulk_line buffer p (find_crlf buffer p) else (none, p)

-- the rest of the line behind the type byte
line_to : Bytes → ℕ → Option ℕ → Option Bytes × ℕ
line_to buffer p none = (none, p)
line_to buffer p (some end) = (some (substr buffer (p + 1) (end - p - 1)), end + 2)

abbrev map_found {ℓ} : {A : Type ℓ} → (Bytes → A) → Option Bytes × ℕ → Option A × ℕ
map_found f (none, p) = (none, p)
map_found f (some line, p) = (some (f line), p)

unfoldable pub parse_simple_string : Bytes → ℕ → Option SimpleString × ℕ
unfolding line_to
parse_simple_string buffer p =
    if has_byte buffer p b'+'
    then map_found (λ line. record { payload = line }) (line_to buffer p (find_crlf buffer p))
    else (none, p)

unfoldable pub parse_error : Bytes → ℕ → Option Error × ℕ
unfolding line_to
parse_error buffer p =
    if has_byte buffer p b'-'
    then map_found (λ line. record { message = line }) (line_to buffer p (find_crlf buffer p))
    else (none, p)

-- The position moves before the number is read, also where that fails.
int_at : ℕ → Option ℤ → Option Integer × ℕ
int_at end none = (none, end + 2)
int_at end (some n) = (some (record { value = n }), end + 2)

int_line : Bytes → ℕ → Option ℕ → Option Integer × ℕ
unfolding int_at
int_line buffer p none = (none, p)
int_line buffer p (some end) = int_at end (stoi (substr buffer (p + 1) (end - p - 1)))

unfoldable pub parse_int : Bytes → ℕ → Option Integer × ℕ
unfolding int_line
parse_int buffer p =
    if has_byte buffer p b':' then int_line buffer p (find_crlf buffer p) else (none, p)

-- One round of the loop of `parseArray`: the element and the position behind it, or the result
-- that `parseArray` returns early.
pub data Element : Type 0 where
  got : Bytes → ℕ → Element
  stop : ParseResult → Element

abbrev pub bulk_element : Option BulkString × ℕ → Element
bulk_element (none, p) = stop incomplete
bulk_element (some bulk, p) = got bulk.payload p

abbrev pub simple_element : Option SimpleString × ℕ → Element
simple_element (none, p) = stop incomplete
simple_element (some simple, p) = got simple.payload p

abbrev pub int_element : Option Integer × ℕ → Element
int_element (none, p) = stop incomplete
int_element (some integer, p) = got (int_to_string integer.value) p

abbrev pub typed_element : Bytes → ℕ → Option ℕ → Element
typed_element buffer p none = stop incomplete
typed_element buffer p (some c) =
    if c == b'$'
    then bulk_element (parse_bulk_string buffer p)
    else if c == b'+'
    then simple_element (parse_simple_string buffer p)
    else if c == b':'
    then int_element (parse_int buffer p)
    else stop error

unfoldable pub parse_element : Bytes → ℕ → Element
parse_element buffer p = typed_element buffer p (get_elem? buffer p)

-- The loop, on the rounds left: the elements and the position behind them, or the early result.
pub data Elements : Type 0 where
  filled : List Bytes → ℕ → Elements
  stopped : ParseResult → Elements

unfoldable pub parse_elements : ℕ → Bytes → ℕ → List Bytes → Elements
parse_elements zero buffer p elements = filled elements p
parse_elements (suc n) buffer p elements = elim (parse_element buffer p) [
  | got e q ↦ parse_elements n buffer q (elements ++ e ∷ [])
  | stop r ↦ stopped r
]

-- Behind the loop: a result other than `Complete` puts the position back.
abbrev pub array_done : ℕ → ℤ → Array → Elements → ParseResult × ℕ × Array
array_done saved count out (filled elements p) =
    (complete, p, record { count = count; elements = elements })
array_done saved count out (stopped r) = (r, saved, out)

abbrev pub array_of_count : Bytes → ℕ → ℕ → Array → Option ℤ → ParseResult × ℕ × Array
array_of_count buffer saved p out none = (error, saved, out)
array_of_count buffer saved p out (some (negsuc n)) = (error, saved, out)
array_of_count buffer saved p out (some (pos n)) =
    if ltb k_max_array_elements n
    then (error, saved, out)
    else array_done saved (pos n) out (parse_elements n buffer p [])

abbrev pub array_line : Bytes → ℕ → Array → Option ℕ → ParseResult × ℕ × Array
array_line buffer p out none = (incomplete, p, out)
array_line buffer p out (some end) =
    array_of_count buffer p (end + 2) out (stoi (substr buffer (p + 1) (end - p - 1)))

unfoldable pub parse_array : Bytes → ℕ → Array → ParseResult × ℕ × Array
parse_array buffer p out =
    if has_byte buffer p b'*' then array_line buffer p out (find_crlf buffer p) else (error, p, out)

-- `parse` returns the result, the commands with what it appended, and `bytesConsumed`.
abbrev pub Parsed : Type 0
Parsed = ParseResult × List Bytes × ℕ

abbrev pub parsed_array : List Bytes → ParseResult × ℕ × Array → Parsed
parsed_array commands (complete, p, array) = (complete, commands ++ array.elements, p)
parsed_array commands (incomplete, p, array) = (incomplete, commands, 0)
parsed_array commands (error, p, array) = (error, commands, 0)

abbrev pub parsed_one {ℓ} : {A : Type ℓ} → (A → Bytes) → List Bytes → Option A × ℕ → Parsed
parsed_one f commands (none, p) = (incomplete, commands, 0)
parsed_one f commands (some a, p) = (complete, commands ++ f a ∷ [], p)

abbrev pub parsed_raw : Bytes → List Bytes → Option ℕ → Parsed
parsed_raw buffer commands none = (incomplete, commands, 0)
parsed_raw buffer commands (some end) = (complete, commands ++ substr buffer 0 end ∷ [], end + 2)

abbrev pub no_array : Array
no_array = record { count = pos 0; elements = [] }

abbrev pub parse_typed : Bytes → List Bytes → ℕ → Parsed
parse_typed buffer commands type =
    if type == b'*'
    then parsed_array commands (parse_array buffer 0 no_array)
    else if type == b'$'
    then parsed_one (λ (b : BulkString). b.payload) commands (parse_bulk_string buffer 0)
    else if type == b'+'
    then parsed_one (λ (s : SimpleString). s.payload) commands (parse_simple_string buffer 0)
    else if type == b'-'
    then parsed_one (λ (e : Error). codes "ERROR:" ++ e.message) commands (parse_error buffer 0)
    else if type == b':'
    then parsed_one (λ (i : Integer). codes "INT:" ++ int_to_string i.value) commands
        (parse_int buffer 0)
    else parsed_raw buffer commands (find_crlf buffer 0)

unfoldable pub parse : Bytes → List Bytes → Parsed
parse [] commands = (incomplete, commands, 0)
parse (type ∷ rest) commands = parse_typed (type ∷ rest) commands type
