-- ===== src/Samples/Requests.antt =====
-- Runs of src/server.rs: requests, responses and slots.
use macevery.Server.Handle.{handle_line, may_pass}
use macevery.Search.Text.{split}
use macevery.Model.Text.{is_whitespace, split_once, trim}
use macevery.Server.Request.{
  authorization_value_matches, eq_ignore_ascii_case, find_token, lines, split_target,
  split_whitespace,
}
use macevery.Prelude.{
  ℕ, ◌≡◌, refl, Option, inl, inr, ap, subst, sym, arith, Bool, true, false, none, some, List, [],
  ◌∷◌,
}
use macevery.Prelude.Int.{pos, negsuc}
use macevery.Search.Text.{bytes_eq}
use macevery.Model.Text.{Text, codes, text_eq}
use macevery.Server.Outcome.{ok}
use macevery.Server.Json.{SearchResult}
use macevery.Server.Request.{request_has_valid_token}
use macevery.Server.Request.Token.{Gives, Carries}
use macevery.Server.Handle.{unauthorized, Surroundings, handle_stream}
use macevery.Server.Handle.Guard.{IsPublic, handle_stream-IsPublic}
use macevery.Samples.Service.{numbers, stamp_at, load_at, answers, loaded}
use macevery.Prelude.{◌&&◌, leb, replicate}
use macevery.Model.Kind.{file, app}
use macevery.Model.Text.{split_once, trim, is_whitespace}
use macevery.Search.Text.{split}
use macevery.Server.Request.{
  find_token, lines, eq_ignore_ascii_case, authorization_value_matches, split_whitespace,
  split_target, Turn, chunk, would_block, read_data,
}
use macevery.Server.Request.Limit.{IsWithin, read_data-IsWithin}
use macevery.Server.Handle.{handle_line, may_pass}
use macevery.Server.Percent.{decode_bytes}
use macevery.Server.Percent.Written.{MayBeRaw, write, decode_bytes-write}
use macevery.Server.Json.{search_results_json}
use macevery.Server.Json.Reader.{read_results}
use macevery.Server.Json.RoundTrip.{read_results-search_results_json}
use macevery.Server.Slots.{http, search, run, before, idle, Phase, exchanging, completed}
use macevery.Server.Slots.Counted.{IsBalanced, run-IsBalanced}
use macevery.Server.Slots.Alone.{IsOver, run-IsOver}

abbrev pub around : Surroundings numbers
around = record {
  from_utf8_lossy = λ t. t;
  to_lowercase = λ t. t;
  poisoned = false;
  slot = true;
  load_answers = load_at 2;
  observed = ok (stamp_at 2);
  refresh_answers = answers;
  search_database = λ options. ok [];
  db_path = codes "/d/i.db";
  actual_index_bytes = 96;
  status_observed = ok (stamp_at 2);
}

-- A request for a reload, with another token.
abbrev pub forged : Text
forged = codes "POST /reload HTTP/1.1\r\nAuthorization: Bearer nobody\r\n\r\n"

abbrev pub second_word : List Text → Text
second_word [] = []
second_word (t ∷ []) = []
second_word (t ∷ u ∷ ts) = u

abbrev pub value_of : Option (Text × Text) → Text
value_of none = []
value_of (some (name, value)) = value

abbrev pub forged_line : Text
forged_line = codes "Authorization: Bearer nobody"

differ : false ≡ true → ⊥
differ h = cc

not_secret :
    (value : Text)
    → value_of (split_once b':' forged_line) ≡ value
    → ¬ Gives (trim value) (codes "secret")
unfolding split_once trim is_whitespace bytes_eq split_whitespace split
not_secret value e (inl g) = differ (
    subst (λ v. trim v ≡ codes "secret" → text_eq (codes "Bearer nobody") (codes "secret") ≡ true) e
      (λ g. ap (λ t. text_eq t (codes "secret")) g) g)
not_secret value e (inr (scheme, b, g)) = differ (
    ap (λ ts. text_eq (second_word ts) (codes "secret"))
      (subst (λ v. split_whitespace (trim v) ≡ scheme ∷ codes "secret" ∷ []) (sym e) g))

forged_token : ¬ Carries forged (codes "secret")
unfolding lines
forged_token (e, inl (name, value, s, a, g)) = not_secret value (ap value_of s) g
forged_token (e, inr (d, r)) = cc

refused_reload :
    (handle_stream numbers around (some (codes "secret")) (ok forged) loaded).1 ≡ ok unauthorized
unfolding handle_stream lines handle_line bytes_eq split_whitespace split is_whitespace split_target
    split_once may_pass request_has_valid_token find_token eq_ignore_ascii_case
    authorization_value_matches trim
refused_reload = refl

handle_stream-IsPublic_example :
    IsPublic numbers around loaded
      (handle_stream numbers around (some (codes "secret")) (ok forged) loaded)
handle_stream-IsPublic_example =
    handle_stream-IsPublic numbers around loaded (codes "secret") forged forged_token

-- Only small letters are sent as they are.
abbrev pub is_small : ℕ → Bool
is_small c = leb b'a' c && leb c b'z'

is_small-MayBeRaw : MayBeRaw is_small
is_small-MayBeRaw c h = ground arith

decode_bytes-write_example :
    decode_bytes (write is_small (b'a' ∷ b' ' ∷ 195 ∷ 169 ∷ [])) ≡ b'a' ∷ b' ' ∷ 195 ∷ 169 ∷ []
decode_bytes-write_example =
    decode_bytes-write is_small is_small-MayBeRaw (b'a' ∷ b' ' ∷ 195 ∷ 169 ∷ [])
      (omega arith, (omega arith, (omega arith, (omega arith, tt))))

-- A name with a quote and a newline, and an app.
abbrev pub two_results : List SearchResult
two_results =
    record {
      path = codes "/r/a\"b\nc";
      basename = codes "a\"b\nc";
      kind = file;
      size = some (pos 1204);
      mtime = none;
      score = negsuc 6;
    }
    ∷ record {
      path = codes "/r/M.app";
      basename = codes "M.app";
      kind = app;
      size = none;
      mtime = some (pos 1700000000);
      score = pos 980;
    }
    ∷ []

read_results-search_results_json_example :
    read_results (search_results_json two_results) ≡ some (two_results, [])
read_results-search_results_json_example =
    read_results-search_results_json two_results
      ((omega arith, tt, omega arith), ((tt, omega arith, omega arith), tt))

-- A line in two chunks, after a wait.
abbrev pub slow_turns : List Turn
slow_turns =
    record { timed_out = false; read = would_block }
    ∷ record { timed_out = false; read = chunk (codes "GET / HTTP/1.1\r\n") }
    ∷ record { timed_out = false; read = chunk (codes "\r\n") }
    ∷ []

read_data-IsWithin_example : IsWithin slow_turns [] (read_data slow_turns [])
read_data-IsWithin_example =
    read_data-IsWithin slow_turns [] (tt, (omega arith, (omega arith, tt))) (omega arith)

-- Two requests for one slot: both load it while it is free, and the second one's exchange fails.
abbrev pub contended : List ℕ
contended = 0 ∷ 1 ∷ 0 ∷ 1 ∷ 0 ∷ 1 ∷ 1 ∷ 1 ∷ 0 ∷ 0 ∷ 0 ∷ []

run-IsBalanced_example : IsBalanced 1 (run http 1 contended (before 2))
run-IsBalanced_example = run-IsBalanced 1 2 contended (omega arith)

-- A thread whose exchange is about to fail.
abbrev pub stale : List Phase
stale = completed ∷ exchanging 3 ∷ []

run-IsOver_example : IsOver search 2 1 (run search 2 (replicate 6 1) (idle, stale))
run-IsOver_example = run-IsOver search 2 1 idle stale (omega arith)
