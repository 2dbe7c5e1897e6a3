-- ===== src/Http/Parser.antt =====
-- Core/Protocol/Http/HttpParser.{h,cpp}. The request that the C++ fills by reference is passed in and
-- given back.
pub mod Stable
pub mod Agreement
use obsto_cpp.Base.{
  ℕ, ◌+◌, ◌*◌, ◌^◌, Bool, true, false, ◌&&◌, ◌||◌, List, [], ◌∷◌, ◌++◌, map, ◌==◌, ltb, leb,
  if◌then◌else◌, Option, none, some, ℤ, pos, negsuc, length, take, drop,
}
use obsto_cpp.Text.{Bytes, codes, empty, substr}
use obsto_cpp.Text.Search.{find, lines}
use obsto_cpp.Text.Decimal.{is_space, stol, stoul}
use obsto_cpp.Storage.Table
use obsto_cpp.Http.Message.{HttpRequest}

pub data ParseResult : Type 0 where
  complete incomplete error : ParseResult

abbrev pub k_max_header_section_size : ℕ
k_max_header_section_size = 16 * 1024

abbrev pub k_max_body_size : ℕ
k_max_body_size = 5 * 1024 * 1024 * 1024

unfoldable pub to_lower_byte : ℕ → ℕ
to_lower_byte c = if leb b'A' c && leb c b'Z' then c + 32 else c

unfoldable pub to_lower : Bytes → Bytes
unfolding to_lower_byte
to_lower s = map to_lower_byte s

-- `iss >> word`: the characters up to a space, behind the spaces; and what is left
word : Bytes → Bytes × Bytes
word [] = ([], [])
word (c ∷ s) = let (w, rest) = word s in if is_space c then ([], c ∷ s) else (c ∷ w, rest)

skip_spaces : Bytes → Bytes
skip_spaces [] = []
skip_spaces (c ∷ s) = if is_space c then skip_spaces s else c ∷ s

-- `none` where nothing but spaces is left, and the string is not touched
unfoldable next_word : Bytes → Option (Bytes × Bytes)
unfolding word skip_spaces
next_word s = let s' = skip_spaces s in elim (empty s') [ true ↦ none | false ↦ some (word s') ]

abbrev with_version : Option (Bytes × Bytes) → HttpRequest → Bool × HttpRequest
with_version none request = (false, request)
with_version (some (version, rest)) request = (true, record request { version = version })

abbrev with_path : Option (Bytes × Bytes) → HttpRequest → Bool × HttpRequest
with_path none request = (false, request)
with_path (some (path, rest)) request =
    with_version (next_word rest) (record request { path = path })

abbrev with_method : Option (Bytes × Bytes) → HttpRequest → Bool × HttpRequest
with_method none request = (false, request)
with_method (some (method, rest)) request =
    with_path (next_word rest) (record request { method = method })

unfoldable pub parse_request_line : Bytes → HttpRequest → Bool × HttpRequest
unfolding next_word
parse_request_line line request = with_method (next_word line) request

-- the loop over the spaces in front of a value
skip_blanks : Bytes → Bytes
skip_blanks [] = []
skip_blanks (c ∷ s) = if c == b' ' then skip_blanks s else c ∷ s

abbrev header_at : Bytes → Option ℕ → HttpRequest → Bool × HttpRequest
header_at line none request = (false, request)
header_at line (some colon) request = (
  true,
  record request {
    headers =
        Table.assign (to_lower (take colon line)) (skip_blanks (drop (colon + 1) line))
          request.headers;
  },
)

unfoldable pub parse_header_line : Bytes → HttpRequest → Bool × HttpRequest
unfolding skip_blanks
parse_header_line line request = header_at line (find (codes ":") line) request

-- `if (!line.empty() && line.back() == '\r') line.pop_back();`
unfoldable pub strip_cr : Bytes → Bytes
strip_cr [] = []
strip_cr (c ∷ []) = if c == 13 then [] else c ∷ []
strip_cr (c ∷ d ∷ s) = c ∷ strip_cr (d ∷ s)

-- the loop over the lines of the headers: `false` where it returns an error
unfoldable pub header_lines : List Bytes → HttpRequest → Bool × HttpRequest
unfolding strip_cr
header_lines [] request = (true, request)
header_lines (line ∷ rest) request = elim (empty (strip_cr line)) [
  | true ↦ header_lines rest request
  | false ↦
      let (ok, request') = parse_header_line (strip_cr line) request in
      elim ok [ true ↦ header_lines rest request' | false ↦ (false, request') ]
]

abbrev after_request_line : List Bytes → Bool × HttpRequest → Bool × HttpRequest
after_request_line rest (false, request) = (false, request)
after_request_line rest (true, request) = header_lines rest request

-- the part that `parse` and `parseHeadersOnly` share: the request line and the headers
unfoldable pub header_section : List Bytes → HttpRequest → Bool × HttpRequest
unfolding strip_cr
header_section [] request = (false, request)
header_section (line ∷ rest) request =
    after_request_line rest (parse_request_line (strip_cr line) request)

-- "\r\n\r\n"
abbrev pub blank_line : Bytes
blank_line = 13 ∷ 10 ∷ 13 ∷ 10 ∷ []

abbrev pub Parsed : Type 0
Parsed = ParseResult × HttpRequest × ℕ

-- the value of Content-Length: `none` for an error
abbrev body_length : Option ℤ → Option ℕ
body_length none = none
body_length (some (negsuc n)) = none
body_length (some (pos n)) = if ltb k_max_body_size n then none else some n

unfoldable pub content_length : Option Bytes → Option ℕ
content_length none = some 0
content_length (some value) = body_length (stol value)

abbrev pub with_body : Bytes → ℕ → HttpRequest → Option ℕ → Parsed
with_body buffer start request none = (error, request, 0)
with_body buffer start request (some n) =
    if ltb (length buffer) (start + n)
    then (incomplete, request, 0)
    else (complete, record request { body = substr buffer start n }, start + n)

abbrev pub headers_read : Bytes → ℕ → Bool × HttpRequest → Parsed
headers_read buffer end (false, request) = (error, request, 0)
headers_read buffer end (true, request) =
    with_body buffer (end + 4) request
      (content_length (Table.find (codes "content-length") request.headers))

abbrev pub no_header_end : Bytes → HttpRequest → Parsed
no_header_end buffer request =
    if ltb k_max_header_section_size (length buffer)
    then (error, request, 0)
    else (incomplete, request, 0)

abbrev pub parse_at : Bytes → HttpRequest → Option ℕ → Parsed
parse_at buffer request none = no_header_end buffer request
parse_at buffer request (some end) =
    headers_read buffer end (header_section (lines (take end buffer)) request)

unfoldable pub parse : Bytes → HttpRequest → Parsed
parse buffer request = parse_at buffer request (find blank_line buffer)

abbrev pub only_headers : ℕ → Bool × HttpRequest → Parsed
only_headers end (false, request) = (error, request, 0)
only_headers end (true, request) = (complete, request, end + 4)

abbrev pub headers_at : Bytes → HttpRequest → Option ℕ → Parsed
headers_at buffer request none = no_header_end buffer request
headers_at buffer request (some end) =
    only_headers end (header_section (lines (take end buffer)) request)

unfoldable pub parse_headers_only : Bytes → HttpRequest → Parsed
parse_headers_only buffer request = headers_at buffer request (find blank_line buffer)

unfoldable pub parse_content_length : Bytes → Option ℕ
parse_content_length [] = none
parse_content_length (c ∷ value) = if c == b'-' then none else stoul (c ∷ value)
