-- ===== src/Server/Json/Unescape.antt =====
-- The text that a reader of JSON strings gets back from `json_escape` of server.rs.
use Prim.Native.Nat.{zero, suc}
use macevery.Prelude.{
  ℕ, ◌+◌, ◌*◌, ◌/◌, ◌%◌, ◌<◌, Option, none, some, [], ◌∷◌, ◌++◌, if◌then◌else◌, ltb, ◌==◌, ◌≡◌,
  refl, arith, ap, ◌∙◌,
}
use macevery.Model.Text.{Text}
use macevery.Server.Percent.{hex}
use macevery.Server.Json.{is_control, hex_lower, hex4, escape_char, json_escape}

-- Where a reader stands inside a string; with the digits left after the next one, and their number so far.
pub data Place : Type 0 where
  plain : Place
  escape : Place
  unicode : ℕ → ℕ → Place

-- The characters read, and the text after the closing quote.
abbrev pub Rest : Type 0
Rest = Option (Text × Text)

abbrev pub push : Option ℕ → Rest → Rest
push none r = none
push (some c) none = none
push (some c) (some (t, rest)) = some (c ∷ t, rest)

-- The character of an escape of two characters.
abbrev pub short_escape : ℕ → Option ℕ
short_escape c =
    if c == b'"'
    then some b'"'
    else if c == b'\\'
    then some b'\\'
    else if c == b'/'
    then some b'/'
    else if c == b'b'
    then some 8
    else if c == b'f'
    then some 12
    else if c == b'n'
    then some 10
    else if c == b'r'
    then some 13
    else if c == b't'
    then some 9
    else none

abbrev pub digit : Option ℕ → (ℕ → Rest) → Rest
digit none k = none
digit (some d) k = k d

-- A string of JSON, read from after its opening quote; no two escapes are joined as surrogates.
abbrev pub read : Place → Text → Rest
read place [] = none
read plain (c ∷ t) =
    let more = read plain t in
    let escaped = read escape t in
    if c == b'"'
    then some ([], t)
    else if c == b'\\'
    then escaped
    else if ltb c 0x20
    then none
    else push (some c) more
read escape (c ∷ t) =
    let more = read plain t in
    let code = read (unicode 3 0) t in if c == b'u' then code else push (short_escape c) more
read (unicode zero n) (c ∷ t) = digit (hex c) (λ d. push (some (n * 16 + d)) (read plain t))
read (unicode (suc left) n) (c ∷ t) = digit (hex c) (λ d. read (unicode left (n * 16 + d)) t)

escape_char-append : (c : ℕ) (x rest : Text) → escape_char c x ++ rest ≡ escape_char c (x ++ rest)
unfolding escape_char hex4
escape_char-append c x rest = ground arith

hex-hex_lower : (n : ℕ) → n < 16 → hex (hex_lower n) ≡ some n
unfolding hex hex_lower
hex-hex_lower n h = ground arith

read-hex4 :
    (c : ℕ) (x : Text) → c < 65536 → read (unicode 3 0) (hex4 c ++ x) ≡ push (some c) (read plain x)
unfolding hex4
read-hex4 c x h =
    rw
      (
        hex-hex_lower (c / 4096) (omega arith),
        hex-hex_lower (c / 256 % 16) (omega arith),
        hex-hex_lower (c / 16 % 16) (omega arith),
        hex-hex_lower (c % 16) (omega arith),
      )
      (ap (λ n. push (some n) (read plain x)) (omega arith))

read-escape_char : (c : ℕ) (x : Text) → read plain (escape_char c x) ≡ push (some c) (read plain x)
unfolding escape_char is_control
read-escape_char c x = ground (arith, read-hex4 c x)

-- A reader of JSON strings gets every text back from its escaped form, up to the closing quote.
pub read-json_escape : (t rest : Text) → read plain (json_escape t ++ b'"' ∷ rest) ≡ some (t, rest)
unfolding json_escape
read-json_escape [] rest = refl
read-json_escape (c ∷ t) rest =
    ap (read plain) (escape_char-append c (json_escape t) (b'"' ∷ rest))
    ∙ read-escape_char c (json_escape t ++ b'"' ∷ rest)
    ∙ ap (push (some c)) (read-json_escape t rest)
