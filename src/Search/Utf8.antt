-- ===== src/Search/Utf8.antt =====
-- UTF-8, as the language's `str` has it: the bytes of characters, and the characters of bytes.
use macevery.Prelude.{
  ℕ, ◌+◌, ◌/◌, ◌%◌, Bool, false, ◌&&◌, List, [], ◌∷◌, ◌++◌, if◌then◌else◌, ltb, leb,
}
use macevery.Model.Text.{Text}
use macevery.Search.Text.{Bytes}

-- The UTF-8 bytes of a character.
unfoldable pub encode_char : ℕ → Bytes
encode_char c =
    if ltb c 0x80
    then c ∷ []
    else if ltb c 0x800
    then (0xc0 + c / 64) ∷ (0x80 + c % 64) ∷ []
    else if ltb c 0x10000
    then (0xe0 + c / 4096) ∷ (0x80 + c / 64 % 64) ∷ (0x80 + c % 64) ∷ []
    else (0xf0 + c / 262144) ∷ (0x80 + c / 4096 % 64) ∷ (0x80 + c / 64 % 64) ∷ (0x80 + c % 64) ∷ []

unfoldable pub encode : Text → Bytes
encode [] = []
encode (c ∷ t) = encode_char c ++ encode t

-- `s.chars()`, each as its bytes: a byte that continues a character goes with the one before it.
abbrev pub starts_with_continuation : List Bytes → Bool
starts_with_continuation [] = false
starts_with_continuation ([] ∷ cs) = false
starts_with_continuation ((b ∷ c) ∷ cs) = leb 0x80 b && ltb b 0xc0

abbrev pub join_front : ℕ → List Bytes → List Bytes
join_front b [] = (b ∷ []) ∷ []
join_front b (c ∷ cs) = (b ∷ c) ∷ cs

unfoldable pub chars : Bytes → List Bytes
chars [] = []
chars (b ∷ s) =
    let rest = chars s in
    if starts_with_continuation rest then join_front b rest else (b ∷ []) ∷ rest
