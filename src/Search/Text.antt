-- ===== src/Search/Text.antt =====
-- UTF-8 text as the list of its bytes, and what search.rs takes of `str` and of slices.
use macevery.Prelude.{
  ℕ, suc, Bool, true, false, ◌&&◌, ◌||◌, Option, none, some, List, [], ◌∷◌, if◌then◌else◌, ◌==◌,
  get_or,
}
use mathlib.Core.Option

abbrev pub Bytes : Type 0
Bytes = List ℕ

-- `s[i]`, for an index that the code keeps in range.
abbrev pub at : Bytes → ℕ → ℕ
at s i = get_or s i 0

-- `==` on slices.
unfoldable pub bytes_eq : Bytes → Bytes → Bool
bytes_eq [] [] = true
bytes_eq (x ∷ xs) (y ∷ ys) = x == y && bytes_eq xs ys
bytes_eq _ _ = false

-- `haystack.starts_with(needle)`.
unfoldable pub starts_with : Bytes → Bytes → Bool
starts_with s [] = true
starts_with [] (n ∷ ns) = false
starts_with (c ∷ s) (n ∷ ns) = c == n && starts_with s ns

-- `haystack.ends_with(needle)`.
unfoldable pub ends_with : Bytes → Bytes → Bool
unfolding bytes_eq
ends_with [] needle = bytes_eq [] needle
ends_with (c ∷ s) needle = bytes_eq (c ∷ s) needle || ends_with s needle

-- `haystack.find(needle)`: the first offset at which the needle stands.
unfoldable pub find : Bytes → Bytes → Option ℕ
unfolding starts_with
find [] needle = if starts_with [] needle then some 0 else none
find (c ∷ s) needle = if starts_with (c ∷ s) needle then some 0 else Option.map suc (find s needle)

unfoldable pub contains_byte : Bytes → ℕ → Bool
contains_byte [] b = false
contains_byte (c ∷ s) b = c == b || contains_byte s b

abbrev pub push_front : ℕ → List Bytes → List Bytes
push_front c [] = (c ∷ []) ∷ []
push_front c (part ∷ parts) = (c ∷ part) ∷ parts

-- `s.split(pred)`: the parts between the separators, empty ones too.
unfoldable pub split : (ℕ → Bool) → Bytes → List Bytes
split sep [] = [] ∷ []
split sep (c ∷ s) = let rest = split sep s in if sep c then [] ∷ rest else push_front c rest

abbrev pub is_empty {ℓ} : {A : Type ℓ} → List A → Bool
is_empty [] = true
is_empty (x ∷ xs) = false
