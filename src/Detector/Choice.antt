-- ===== src/Detector/Choice.antt =====
-- Which handler the first bytes choose.
use obsto_cpp.Base.{
  ◌≤◌, min, Bool, true, false, ◌||◌, List, [], ◌∷◌, if◌then◌else◌, length, take, ◌≡◌, refl, arith,
}
use native.Mathlib.Numerals.{unary_clauses}
use obsto_cpp.Text.{Bytes, equals}
use obsto_cpp.Text.Search.{starts_with, starts_with_bound}
use obsto_cpp.Http.Message.{Method}
use obsto_cpp.Detector.{
  matches, no_match, need_more_data, k_supported_http_methods, request_start, match_methods,
  is_http,
}

-- One of the methods begins the bytes.
abbrev pub any_starts : List Method → Bytes → Bool
any_starts [] bytes = false
any_starts (method ∷ methods) bytes =
    starts_with (request_start method) bytes || any_starts methods bytes

-- The bytes begin one of the methods.
abbrev pub any_begun : List Method → Bytes → Bool
any_begun [] bytes = false
any_begun (method ∷ methods) bytes =
    starts_with bytes (request_start method) || any_begun methods bytes

-- The comparison of the part that both have finds whether one of them begins the other.
common_lem :
    (text bytes : Bytes)
    → equals
        (take (min (length bytes) (length text)) bytes)
        (take (min (length bytes) (length text)) text)
      ≡ (starts_with text bytes || starts_with bytes text)
unfolding starts_with equals
common_lem [] [] = refl
common_lem [] (c ∷ bytes) = simp unary_clauses refl
common_lem (t ∷ text) [] = simp unary_clauses refl
common_lem (t ∷ text) (c ∷ bytes) = simp unary_clauses (ground (arith, common_lem text bytes))

-- Of two texts that begin each other, the one that is not longer begins the other.
starts_with-longer :
    (text bytes : Bytes)
    → length text ≤ length bytes
    → starts_with bytes text ≡ true
    → starts_with text bytes ≡ true
unfolding starts_with
starts_with-longer [] bytes h e = refl
starts_with-longer (t ∷ text) [] h e = elim h [ ]
starts_with-longer (t ∷ text) (c ∷ bytes) h e = ground (arith, starts_with-longer text bytes)

match_methods_lem :
    (methods : List Method) (bytes : Bytes) (could : Bool)
    → match_methods methods bytes could ≡ (
        if any_starts methods bytes
        then matches
        else if could || any_begun methods bytes
        then need_more_data
        else no_match)
unfolding match_methods
match_methods_lem [] bytes could = ground arith
match_methods_lem (method ∷ methods) bytes could =
    let text = request_start method in
    rw (match_methods, common_lem text bytes)
      (ground (
        arith,
        match_methods_lem methods bytes could,
        match_methods_lem methods bytes true,
        starts_with_bound text bytes,
        starts_with-longer text bytes,
      ))

-- `isHttp` finds a match where one of the methods with its space begins the bytes, wants more where
-- none does and the bytes begin one of them, and finds none otherwise.
pub is_http_lem :
    (bytes : Bytes)
    → is_http bytes ≡ (
        if any_starts k_supported_http_methods bytes
        then matches
        else if any_begun k_supported_http_methods bytes
        then need_more_data
        else no_match)
unfolding is_http
is_http_lem bytes = match_methods_lem k_supported_http_methods bytes false
