-- ===== src/Server/Request.antt =====
-- What server.rs reads of a request: its bytes, its first line, its token and its search options.
pub mod Limit
pub mod Options
pub mod Token
use macevery.Prelude.{
  ℕ, ◌+◌, ◌*◌, Bool, true, false, not, ◌&&◌, ◌||◌, Option, none, some, List, [], ◌∷◌, ◌++◌,
  if◌then◌else◌, leb, ltb, ◌==◌, length,
}
use macevery.Search.Text.{Bytes, split, push_front, starts_with, is_empty}
use macevery.Search.PreparedGlob.{non_empty}
use macevery.Model.Text.{Text, codes, text_eq, is_whitespace, trim, trim_start, split_once}
use macevery.Model.Kind.{FileKind, parse}
use macevery.Model.Options.{SearchOptions}
use macevery.Server.Outcome.{Outcome, ok, err}
use macevery.Server.Percent.{Params, get, parse_query}

-- What one turn of the loop of `read_request` meets: whether the time is up, and what `read` gives.
pub data Read : Type 0 where
  chunk : Bytes → Read
  would_block : Read
  failed : Text → Read

pub record Turn : Type 0 where
  pub timed_out : Bool
  pub read : Read

abbrev pub request_header_limit : ℕ
request_header_limit = 64 * 1024

abbrev pub header_end : Bytes
header_end = 13 ∷ 10 ∷ 13 ∷ 10 ∷ []

-- `data.windows(4).any(…)`.
unfoldable pub has_header_end : Bytes → Bool
has_header_end [] = false
has_header_end (c ∷ s) = starts_with (c ∷ s) header_end || has_header_end s

-- A chunk that is not empty; `more` reads on.
unfoldable pub take_chunk : Bytes → (Bytes → Outcome Bytes) → Outcome Bytes
take_chunk data_ more =
    let rest = more data_ in
    if has_header_end data_
    then ok data_
    else if leb request_header_limit (length data_)
    then err (codes "request header is too large")
    else rest

-- The `match stream.read(&mut buffer)` and what follows it.
unfoldable pub take_read : Read → Bytes → (Bytes → Outcome Bytes) → Outcome Bytes
take_read (chunk []) collected more = ok collected
take_read (chunk (b ∷ bs)) collected more = take_chunk (collected ++ b ∷ bs) more
take_read would_block collected more = more collected
take_read (failed e) collected more = err e

-- The loop, on the turns that are left; after them the connection is closed.
unfoldable pub read_data : List Turn → Bytes → Outcome Bytes
read_data [] collected = ok collected
read_data (turn ∷ turns) collected =
    let taken = take_read turn.read collected (read_data turns) in
    if turn.timed_out then err (codes "request header timed out") else taken

abbrev pub utf8_or : Option Text → Outcome Text
utf8_or none = err (codes "request is not utf-8")
utf8_or (some t) = ok t

abbrev pub decoded : (Bytes → Option Text) → Outcome Bytes → Outcome Text
decoded from_utf8 (ok collected) = utf8_or (from_utf8 collected)
decoded from_utf8 (err e) = err e

-- `from_utf8` is the language's.
unfoldable pub read_request : (Bytes → Option Text) → List Turn → Outcome Text
read_request from_utf8 turns = decoded from_utf8 (read_data turns [])

abbrev pub starts_with_newline : Text → Bool
starts_with_newline [] = false
starts_with_newline (c ∷ t) = c == 10

-- `str::lines`: a carriage return goes with the newline after it.
unfoldable pub lines : Text → List Text
lines [] = []
lines (c ∷ t) =
    let rest = lines t in
    if c == 10
    then [] ∷ rest
    else if c == 13 && starts_with_newline t
    then rest
    else push_front c rest

unfoldable pub split_whitespace : Text → List Text
split_whitespace t = non_empty (split is_whitespace t)

abbrev pub to_ascii_lowercase : ℕ → ℕ
to_ascii_lowercase c = if leb b'A' c && leb c b'Z' then c + 32 else c

unfoldable pub eq_ignore_ascii_case : Text → Text → Bool
eq_ignore_ascii_case [] [] = true
eq_ignore_ascii_case (c ∷ t) (d ∷ u) =
    to_ascii_lowercase c == to_ascii_lowercase d && eq_ignore_ascii_case t u
eq_ignore_ascii_case [] (d ∷ u) = false
eq_ignore_ascii_case (c ∷ t) [] = false

-- `parts.next() == Some(expected) && parts.next().is_none()`, after `bearer`.
abbrev pub is_only : List Text → Text → Bool
is_only [] expected = false
is_only (t ∷ []) expected = text_eq t expected
is_only (t ∷ u ∷ ts) expected = false

abbrev pub parts_match : List Text → Text → Text → Bool
parts_match [] value expected = false
parts_match (first ∷ parts) value expected =
    if eq_ignore_ascii_case first (codes "bearer")
    then is_only parts expected
    else text_eq value expected

unfoldable pub authorization_value_matches : Text → Text → Bool
authorization_value_matches value expected = parts_match (split_whitespace value) value expected

-- The `for line` loop, at a line that is not empty.
abbrev pub header_line : Option (Text × Text) → Text → Bool → Bool
header_line none expected rest = rest
header_line (some (name, value)) expected rest =
    if eq_ignore_ascii_case name (codes "authorization")
    then authorization_value_matches (trim value) expected
    else rest

unfoldable pub find_token : List Text → Text → Bool
find_token [] expected = false
find_token (line ∷ rest) expected =
    let found = find_token rest expected in
    if is_empty line then false else header_line (split_once b':' line) expected found

abbrev pub skip_one : List Text → List Text
skip_one [] = []
skip_one (t ∷ ts) = ts

unfoldable pub request_has_valid_token : Text → Text → Bool
request_has_valid_token request expected = find_token (skip_one (lines request)) expected

abbrev pub or_no_query : Option (Text × Text) → Text → Text × Text
or_no_query none target = (target, [])
or_no_query (some pair) target = pair

unfoldable pub split_target : Text → Text × Text
split_target target = or_no_query (split_once b'?' target) target
