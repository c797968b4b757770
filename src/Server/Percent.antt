-- ===== src/Server/Percent.antt =====
-- `hex`, `percent_decode` and `parse_query` of server.rs.
pub mod Written
use macevery.Prelude.{
  ℕ, ◌+◌, ◌-◌, ◌*◌, Bool, true, false, ◌&&◌, Option, none, some, List, [], ◌∷◌, ◌++◌, if◌then◌else◌,
  leb, ◌==◌,
}
use macevery.Model.Text.{Text, text_eq, split_once}
use macevery.Search.Text.{Bytes, split}
use macevery.Search.Utf8.{encode}
use macevery.Search.PreparedGlob.{non_empty}

abbrev pub percent : ℕ
percent = b'%'

abbrev pub plus : ℕ
plus = b'+'

unfoldable pub hex : ℕ → Option ℕ
hex byte =
    if leb b'0' byte && leb byte b'9'
    then some (byte - b'0')
    else if leb b'a' byte && leb byte b'f'
    then some (byte - b'a' + 10)
    else if leb b'A' byte && leb byte b'F'
    then some (byte - b'A' + 10)
    else none

-- The arms for `+` and for other bytes.
abbrev pub plain : ℕ → ℕ
plain byte = if byte == plus then b' ' else byte

-- Two hexadecimal digits give their byte in front of `rest`; otherwise the `%` stands for itself.
abbrev pub escaped : Option ℕ → Option ℕ → Bytes → Bytes → Bytes
escaped (some hi) (some lo) rest other = (hi * 16 + lo) ∷ rest
escaped (some hi) none rest other = other
escaped none o rest other = other

-- The `while index < bytes.len()` loop, on the bytes that are left.
unfoldable pub decode_bytes : Bytes → Bytes
decode_bytes [] = []
decode_bytes (c ∷ []) = plain c ∷ []
decode_bytes (c ∷ a ∷ []) = plain c ∷ decode_bytes (a ∷ [])
decode_bytes (c ∷ a ∷ b ∷ r) =
    let other = plain c ∷ decode_bytes (a ∷ b ∷ r) in
    let rest = decode_bytes r in if c == percent then escaped (hex a) (hex b) rest other else other

-- `from_utf8_lossy` is the language's.
unfoldable pub percent_decode : (Bytes → Text) → Text → Text
percent_decode from_utf8_lossy value = from_utf8_lossy (decode_bytes (encode value))

-- A `HashMap` from texts to texts, as the list of its entries.
abbrev pub Params : Type 0
Params = List (Text × Text)

unfoldable pub insert : Text → Text → Params → Params
insert k v [] = (k, v) ∷ []
insert k v ((j, w) ∷ m) = if text_eq j k then (k, v) ∷ m else (j, w) ∷ insert k v m

unfoldable pub get : Text → Params → Option Text
get k [] = none
get k ((j, v) ∷ m) = if text_eq j k then some v else get k m

-- `part.split_once('=').unwrap_or((part, ""))`.
abbrev pub or_whole : Option (Text × Text) → Text → Text × Text
or_whole none part = (part, [])
or_whole (some pair) part = pair

abbrev pub equals : ℕ
equals = b'='

abbrev pub ampersand : ℕ
ampersand = b'&'

unfoldable pub insert_part : (Bytes → Text) → Text → Params → Params
insert_part from_utf8_lossy part params =
    let (key, value) = or_whole (split_once equals part) part in
    insert (percent_decode from_utf8_lossy key) (percent_decode from_utf8_lossy value) params

-- The `for part` loop.
unfoldable pub insert_parts : (Bytes → Text) → List Text → Params → Params
insert_parts from_utf8_lossy [] params = params
insert_parts from_utf8_lossy (part ∷ parts) params =
    insert_parts from_utf8_lossy parts (insert_part from_utf8_lossy part params)

unfoldable pub parse_query : (Bytes → Text) → Text → Params
parse_query from_utf8_lossy query =
    insert_parts from_utf8_lossy (non_empty (split (λ c. c == ampersand) query)) []
