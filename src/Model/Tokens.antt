-- ===== src/Model/Tokens.antt =====
-- `tokenize_query` of model.rs: words between white space, with quotes and backslashes.
pub mod Escape
use macevery.Prelude.{
  ℕ, Bool, true, false, not, ◌&&◌, ◌||◌, Option, none, some, List, [], ◌∷◌, ◌++◌, if◌then◌else◌,
  ◌==◌,
}
use macevery.Search.Text.{is_empty}
use macevery.Model.Text.{Text, is_whitespace}

abbrev pub backslash : ℕ
backslash = 92

abbrev pub space : ℕ
space = 32

abbrev pub is_quote : ℕ → Bool
is_quote c = c == 39 || c == 34

-- The loop's variables.
pub record Tokenizer : Type 0 where
  pub tokens : List Text
  pub current : Text
  pub quote : Option ℕ
  pub escaped : Bool

abbrev pub start : Tokenizer
start = record { tokens = []; current = []; quote = none; escaped = false }

abbrev pub quoted_by : Option ℕ → ℕ → Bool
quoted_by none c = false
quoted_by (some q) c = q == c

abbrev pub unquoted : Option ℕ → Bool
unquoted none = true
unquoted (some q) = false

abbrev pub push_char : Tokenizer → ℕ → Tokenizer
push_char t c = record t { current = t.current ++ c ∷ [] }

abbrev pub flush : Tokenizer → Tokenizer
flush t =
    if is_empty t.current then t else record t { tokens = t.tokens ++ t.current ∷ []; current = [] }

-- The body of `for ch in query.chars()`.
unfoldable pub step : Tokenizer → ℕ → Tokenizer
unfolding is_whitespace
step t c =
    if t.escaped
    then record (push_char t c) { escaped = false }
    else if c == backslash
    then record t { escaped = true }
    else if is_quote c && quoted_by t.quote c
    then record t { quote = none }
    else if is_quote c && unquoted t.quote
    then record t { quote = some c }
    else if is_whitespace c && unquoted t.quote
    then flush t
    else push_char t c

unfoldable pub run : Tokenizer → Text → Tokenizer
run t [] = t
run t (c ∷ s) = run (step t c) s

abbrev pub push_escape : Tokenizer → Tokenizer
push_escape t = if t.escaped then push_char t backslash else t

unfoldable pub tokenize_query : Text → List Text
tokenize_query query = (flush (push_escape (run start query))).tokens

-- `query_terms.join(" ")`.
unfoldable pub join : List Text → Text
join [] = []
join (t ∷ []) = t
join (t ∷ u ∷ ts) = t ++ space ∷ join (u ∷ ts)
