-- ===== src/Server/Json.antt =====
-- `json_escape`, `json_i64` and `search_results_json` of server.rs.
pub mod Unescape
pub mod Reader
pub mod Read
pub mod RoundTrip
use Prim.Native.Nat.{zero, suc}
use macevery.Prelude.{
  ℕ, ◌+◌, ◌-◌, ◌/◌, ◌%◌, Bool, ◌&&◌, ◌||◌, Option, none, some, List, [], ◌∷◌, ◌++◌, if◌then◌else◌,
  ltb, leb, ◌==◌,
}
use macevery.Prelude.Int.{ℤ, pos, negsuc}
use macevery.Model.Text.{Text, codes}
use macevery.Model.Kind.{FileKind, as_str}

-- `char::is_control`: the characters of Unicode's category Cc.
unfoldable pub is_control : ℕ → Bool
is_control c = ltb c 0x20 || (leb 0x7f c && leb c 0x9f)

-- A digit of `{:x}`.
unfoldable pub hex_lower : ℕ → ℕ
hex_lower n = if ltb n 10 then n + b'0' else n - 10 + b'a'

-- `{:04x}` of a number below 2^16.
unfoldable pub hex4 : ℕ → Text
unfolding hex_lower
hex4 c =
    hex_lower (c / 4096)
    ∷ hex_lower (c / 256 % 16)
    ∷ hex_lower (c / 16 % 16)
    ∷ hex_lower (c % 16)
    ∷ []

-- One arm of the `match ch`: the characters pushed in front of the rest.
unfoldable pub escape_char : ℕ → Text → Text
unfolding is_control hex4
escape_char c rest =
    if c == b'"'
    then b'\\' ∷ b'"' ∷ rest
    else if c == b'\\'
    then b'\\' ∷ b'\\' ∷ rest
    else if c == 10
    then b'\\' ∷ b'n' ∷ rest
    else if c == 13
    then b'\\' ∷ b'r' ∷ rest
    else if c == 9
    then b'\\' ∷ b't' ∷ rest
    else if is_control c
    then b'\\' ∷ b'u' ∷ (hex4 c ++ rest)
    else c ∷ rest

unfoldable pub json_escape : Text → Text
json_escape [] = []
json_escape (c ∷ t) = escape_char c (json_escape t)

-- The decimal digits of a number below 10 to the fuel, the last digit first.
unfoldable pub digits : ℕ → ℕ → Text → Text
digits zero n rest = rest
digits (suc fuel) n rest =
    let more = digits fuel (n / 10) ((b'0' + n % 10) ∷ rest) in
    if ltb n 10 then (b'0' + n) ∷ rest else more

-- `to_string` of integers of 64 bits, which have at most 20 digits.
unfoldable pub to_string : ℤ → Text
to_string (pos n) = digits 20 n []
to_string (negsuc n) = b'-' ∷ digits 20 (n + 1) []

unfoldable pub json_i64 : Option ℤ → Text
json_i64 none = codes "null"
json_i64 (some value) = to_string value

-- What a result's object is written from.
pub record SearchResult : Type 0 where
  pub path : Text
  pub basename : Text
  pub kind : FileKind
  pub size : Option ℤ
  pub mtime : Option ℤ
  pub score : ℤ

unfoldable pub result_json : SearchResult → Text
result_json r =
    codes "{\"path\":\""
    ++ json_escape r.path
    ++ codes "\",\"basename\":\""
    ++ json_escape r.basename
    ++ codes "\",\"kind\":\""
    ++ as_str r.kind
    ++ codes "\",\"size\":"
    ++ json_i64 r.size
    ++ codes ",\"mtime\":"
    ++ json_i64 r.mtime
    ++ codes ",\"score\":"
    ++ to_string r.score
    ++ codes "}"

-- The `for` loop, from the given index on.
unfoldable pub results_json : ℕ → List SearchResult → Text
results_json index [] = []
results_json index (r ∷ rs) =
    let object = result_json r ++ results_json (index + 1) rs in
    if ltb 0 index then b',' ∷ object else object

unfoldable pub search_results_json : List SearchResult → Text
search_results_json results = b'[' ∷ results_json 0 results ++ codes "]\n"
