-- ===== src/Model/Tokens/Escape.antt =====
-- What `tokenize_query` reads from words that are written with a backslash before each character.
use macevery.Prelude.{
  ℕ, false, none, List, [], ◌∷◌, ◌++◌, ◌≡◌, refl, append-nil, append_assoc, All, ap, sym, ◌∙◌,
}
use macevery.Search.Text.{is_empty}
use macevery.Model.Text.{Text}
use macevery.Model.Tokens.{
  backslash, space, Tokenizer, flush, step, run, push_escape, tokenize_query, join,
}

-- A way to write a word of any characters.
abbrev pub escape : Text → Text
escape [] = []
escape (c ∷ t) = backslash ∷ c ∷ escape t

abbrev pub escape_all : List Text → List Text
escape_all [] = []
escape_all (t ∷ ts) = escape t ∷ escape_all ts

abbrev pub IsWord : Text → Type 0
IsWord t = is_empty t ≡ false

-- The state outside quotes.
abbrev outside : List Text → Text → Tokenizer
outside ts current = record { tokens = ts; current = current; quote = none; escaped = false }

two_steps :
    (ts : List Text) (u : Text) (c : ℕ) (s : Text)
    → run (outside ts u) (backslash ∷ c ∷ s) ≡ run (outside ts (u ++ c ∷ [])) s
unfolding run step
two_steps ts u c s = refl

run-escape :
    (ts : List Text) (u t s : Text)
    → run (outside ts u) (escape t ++ s) ≡ run (outside ts (u ++ t)) s
run-escape ts u [] s = rw (append-nil u) refl
run-escape ts u (c ∷ t) s =
    two_steps ts u c (escape t ++ s)
    ∙ run-escape ts (u ++ c ∷ []) t s
    ∙ ap (λ x. run (outside ts x) s) (append_assoc u (c ∷ []) t)

run-space :
    (ts : List Text) (u s : Text)
    → IsWord u
    → run (outside ts u) (space ∷ s) ≡ run (outside (ts ++ u ∷ []) []) s
unfolding run step
run-space ts u s h = rw h refl

read : Tokenizer → List Text
read t = (flush (push_escape t)).tokens

read_word : (ts : List Text) (w : Text) → IsWord w → read (run (outside ts w) []) ≡ ts ++ w ∷ []
unfolding read run
read_word ts w h = rw h refl

read-escape_all :
    (ts : List Text) (w : Text) (ws : List Text)
    → All IsWord (w ∷ ws)
    → read (run (outside ts []) (join (escape_all (w ∷ ws)))) ≡ ts ++ w ∷ ws
unfolding read join
read-escape_all ts w [] h =
    ap read (ap (run (outside ts [])) (sym (append-nil (escape w))) ∙ run-escape ts [] w [])
    ∙ read_word ts w h.0
read-escape_all ts w (v ∷ ws) h =
    let rest = join (escape_all (v ∷ ws)) in
    ap read (run-escape ts [] w (space ∷ rest) ∙ run-space ts w rest h.0)
    ∙ read-escape_all (ts ++ w ∷ []) v ws h.1
    ∙ append_assoc ts (w ∷ []) (v ∷ ws)

-- Words of any characters, none of them empty, that are written with a backslash before each character
-- and a space between them are read back as they are.
pub tokenize_query-escape_all :
    (w : Text) (ws : List Text)
    → All IsWord (w ∷ ws)
    → tokenize_query (join (escape_all (w ∷ ws))) ≡ w ∷ ws
unfolding tokenize_query
tokenize_query-escape_all w ws h = unfold read in read-escape_all [] w ws h
