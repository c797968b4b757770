-- ===== src/Search/Fuzzy.antt =====
-- `fuzzy_score` of search.rs.
use macevery.Prelude.{ℕ, ◌+◌, ◌-◌, ◌*◌, Option, none, some, List, [], ◌∷◌, if◌then◌else◌, length}
use macevery.Search.Text.{Bytes, bytes_eq, is_empty}
use macevery.Search.Utf8.{chars}

-- The loop's variables: `last_index`, `start`, `gaps`, `current` and the characters behind it.
pub record Fuzzy : Type 0 where
  pub last_index : Option ℕ
  pub start : ℕ
  pub gaps : ℕ
  pub current : Bytes
  pub rest : List Bytes

-- A match of the current character at `index`.
abbrev pub note : Option ℕ → Fuzzy → ℕ → Fuzzy
note none s index = record s { start = index; last_index = some index }
note (some last) s index = record s { gaps = s.gaps + (index - last - 1); last_index = some index }

unfoldable pub fuzzy_loop : ℕ → List Bytes → ℕ → Fuzzy → Option ℕ
fuzzy_loop len [] index s = none
fuzzy_loop len (c ∷ cs) index s = elim s.rest [
  | [] ↦
      let t = note s.last_index s index in
      let later = fuzzy_loop len cs (index + 1) s in
      if bytes_eq c s.current then some (t.start * 3 + t.gaps * 5 + len) else later
  | next ∷ more ↦ fuzzy_loop len cs (index + 1) (
      if bytes_eq c s.current
      then record (note s.last_index s index) { current = next; rest = more }
      else s)
]

abbrev pub fuzzy_from : ℕ → Bytes → List Bytes → Option ℕ
fuzzy_from len haystack [] = none
fuzzy_from len haystack (c ∷ cs) =
    fuzzy_loop len (chars haystack) 0
      (record { last_index = none; start = 0; gaps = 0; current = c; rest = cs })

unfoldable pub fuzzy_score : Bytes → Bytes → Option ℕ
fuzzy_score haystack needle =
    if is_empty needle then some 0 else fuzzy_from (length needle) haystack (chars needle)
