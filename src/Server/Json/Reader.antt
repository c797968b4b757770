-- ===== src/Server/Json/Reader.antt =====
-- A reader of what `search_results_json` of server.rs writes.
use Prim.Native.Nat.{zero, suc}
use macevery.Prelude.{
  ℕ, ◌+◌, ◌-◌, ◌*◌, Bool, false, ◌&&◌, Option, none, some, List, [], ◌∷◌, if◌then◌else◌, leb, ◌==◌,
  length,
}
use macevery.Prelude.Int.{ℤ, pos, negsuc}
use macevery.Model.Text.{Text, codes}
use macevery.Model.Kind.{FileKind, parse_lowered}
use macevery.Server.Json.{SearchResult}
use macevery.Server.Json.Unescape.{read, plain}

-- What is read of a text, and the text after it.
abbrev pub Reader : Type 0 → Type 0
Reader A = Text → Option (A × Text)

abbrev pub bind : {A B : Type 0} → Option (A × Text) → (A → Reader B) → Option (B × Text)
bind none k = none
bind (some (a, t)) k = k a t

-- The characters that must stand next.
abbrev pub expect : Text → Reader Unit
expect [] t = some (tt, t)
expect (c ∷ cs) [] = none
expect (c ∷ cs) (d ∷ t) = let rest = expect cs t in if c == d then rest else none

abbrev pub is_digit : ℕ → Bool
is_digit c = leb b'0' c && leb c b'9'

-- The digits that stand next, after others of the number `n`.
abbrev pub read_digits : ℕ → Text → ℕ × Text
read_digits n [] = (n, [])
read_digits n (c ∷ t) =
    let more = read_digits (n * 10 + (c - b'0')) t in if is_digit c then more else (n, c ∷ t)

abbrev pub positive : ℕ × Text → Option (ℤ × Text)
positive (n, t) = some (pos n, t)

-- `-0` is not an integer that is written.
abbrev pub negative : ℕ × Text → Option (ℤ × Text)
negative (n, t) = if n == 0 then none else some (negsuc (n - 1), t)

abbrev pub read_int : Reader ℤ
read_int [] = none
read_int (c ∷ t) =
    if c == b'-'
    then negative (read_digits 0 t)
    else if is_digit c
    then positive (read_digits 0 (c ∷ t))
    else none

abbrev pub is_null : Text → Bool
is_null [] = false
is_null (c ∷ t) = c == b'n'

abbrev pub read_optional : Reader (Option ℤ)
read_optional t =
    let null = bind (expect (codes "null") t) (λ u t. some (none, t)) in
    let number = bind (read_int t) (λ z t. some (some z, t)) in if is_null t then null else number

abbrev pub known_kind : Option FileKind → Reader FileKind
known_kind none t = none
known_kind (some k) t = some (k, t)

abbrev pub read_kind : Reader FileKind
read_kind t = bind (read plain t) (λ name t. known_kind (parse_lowered name) t)

abbrev pub read_numbers : Text → Text → FileKind → Reader SearchResult
read_numbers p b k t = bind (expect (codes ",\"size\":") t) (λ u t.
    bind (read_optional t) (λ size t. bind (expect (codes ",\"mtime\":") t) (λ u t.
      bind (read_optional t) (λ mtime t. bind (expect (codes ",\"score\":") t) (λ u t.
        bind (read_int t) (λ score t. bind (expect (codes "}") t) (λ u t. some (
          record { path = p; basename = b; kind = k; size = size; mtime = mtime; score = score },
          t,
        ))))))))

abbrev pub read_result : Reader SearchResult
read_result t = bind (expect (codes "{\"path\":\"") t) (λ u t. bind (read plain t) (λ p t.
    bind (expect (codes ",\"basename\":\"") t) (λ u t. bind (read plain t) (λ b t.
      bind (expect (codes ",\"kind\":\"") t)
        (λ u t. bind (read_kind t) (λ k t. read_numbers p b k t))))))

-- The results after one of them, on fuel.
abbrev pub read_more : ℕ → Reader (List SearchResult)
read_more zero t = none
read_more (suc fuel) [] = none
read_more (suc fuel) (c ∷ t) =
    let next = bind (read_result t) (λ r t. bind (read_more fuel t) (λ rs t. some (r ∷ rs, t))) in
    if c == b',' then next else if c == b']' then some ([], t) else none

-- A list of results; a result takes a character at least, so that the text's length is enough fuel.
abbrev pub read_list : Reader (List SearchResult)
read_list [] = none
read_list (c ∷ t) =
    let first =
      bind (read_result (c ∷ t))
        (λ r rest. bind (read_more (length t) rest) (λ rs t. some (r ∷ rs, t))) in
    if c == b']' then some ([], t) else first

abbrev pub read_results : Reader (List SearchResult)
read_results t =
    bind (expect (codes "[") t)
      (λ u t. bind (read_list t) (λ rs t. bind (expect (codes "\n") t) (λ u t. some (rs, t))))
