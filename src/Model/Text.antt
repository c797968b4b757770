-- ===== src/Model/Text.antt =====
-- A `str` as the list of its characters, and what model.rs takes of the language's `str` and `char`.
use Prim.Native.Char.{code}
use Prim.Native.String.{String}
use macevery.Prelude.{
  ℕ, Bool, false, ◌&&◌, ◌||◌, Option, none, some, List, [], ◌∷◌, if◌then◌else◌, leb, ◌==◌,
}
use macevery.Search.Text.{is_empty, bytes_eq}

abbrev pub Text : Type 0
Text = List ℕ

abbrev pub codes : String → Text
codes String.[] = []
codes (String.◌∷◌ c s) = code c ∷ codes s

-- `==` on texts.
abbrev pub text_eq : Text → Text → Bool
text_eq = bytes_eq

abbrev pub one_of : Text → List Text → Bool
one_of t [] = false
one_of t (u ∷ us) = text_eq t u || one_of t us

-- `char::is_whitespace`: the characters of Unicode's White_Space.
unfoldable pub is_whitespace : ℕ → Bool
is_whitespace c =
    (leb 9 c && leb c 13)
    || c == 32
    || c == 0x85
    || c == 0xa0
    || c == 0x1680
    || (leb 0x2000 c && leb c 0x200a)
    || c == 0x2028
    || c == 0x2029
    || c == 0x202f
    || c == 0x205f
    || c == 0x3000

unfoldable pub trim_start : (ℕ → Bool) → Text → Text
trim_start f [] = []
trim_start f (c ∷ t) = let rest = trim_start f t in if f c then rest else c ∷ t

unfoldable pub trim_end : (ℕ → Bool) → Text → Text
trim_end f [] = []
trim_end f (c ∷ t) = let rest = trim_end f t in if f c && is_empty rest then [] else c ∷ rest

unfoldable pub trim : Text → Text
unfolding trim_start trim_end is_whitespace
trim t = trim_end is_whitespace (trim_start is_whitespace t)

-- `strip_prefix` of one character.
unfoldable pub strip_prefix : ℕ → Text → Option Text
strip_prefix c [] = none
strip_prefix c (d ∷ t) = if c == d then some t else none

abbrev pub after_first : ℕ → Option (Text × Text) → Option (Text × Text)
after_first c none = none
after_first c (some (key, value)) = some (c ∷ key, value)

-- `split_once` at one character.
unfoldable pub split_once : ℕ → Text → Option (Text × Text)
split_once sep [] = none
split_once sep (c ∷ t) =
    let rest = split_once sep t in if c == sep then some ([], t) else after_first c rest

unfoldable pub take_while : (ℕ → Bool) → Text → Text
take_while f [] = []
take_while f (c ∷ t) = let rest = take_while f t in if f c then c ∷ rest else []
