-- ===== src/Server/Handle.antt =====
-- `handle_stream` and `write_response` of server.rs.
pub mod Guard
pub mod Current
use macevery.Prelude.{
  ℕ, Bool, true, false, not, ◌&&◌, ◌||◌, Option, none, some, List, [], ◌∷◌, ◌++◌, if◌then◌else◌,
  length,
}
use macevery.Prelude.Int.{ℤ, pos}
use macevery.Search.Text.{Bytes}
use macevery.Search.Utf8.{encode}
use macevery.Model.Text.{Text, codes, text_eq}
use macevery.Model.Options.{SearchOptions}
use macevery.Server.Outcome.{Outcome, ok, err, is_ok}
use macevery.Server.Json.{SearchResult, search_results_json, to_string}
use macevery.Server.Request.{lines, split_whitespace, request_has_valid_token, split_target}
use macevery.Server.Request.Options.{parse_search_options}
use macevery.Server.State.{
  ContentStamp, PackedIndex, Backend, packed, sqlite_backend, unavailable, ServiceState,
}
use macevery.Server.Status.{status_json}
use macevery.Server.State.Load.{LoadAnswers, reload}
use macevery.Server.State.Apply.{RefreshAnswers, Refreshed}
use macevery.Server.State.Refresh.{ensure_fresh}

pub record Response : Type 0 where
  pub status : Text
  pub content_type : Text
  pub body : Text

-- The text of a response.
unfoldable pub write_response : Response → Text
write_response r =
    codes "HTTP/1.1 "
    ++ r.status
    ++ codes "\r\nContent-Type: "
    ++ r.content_type
    ++ codes "\r\nContent-Length: "
    ++ to_string (pos (length (encode r.body)))
    ++ codes "\r\nConnection: close\r\n\r\n"
    ++ r.body

abbrev pub plain : Text → Text → Response
plain status body = record {
  status = status;
  content_type = codes "text/plain; charset=utf-8";
  body = body;
}

abbrev pub json : Text → Text → Response
json status body = record { status = status; content_type = codes "application/json"; body = body }

abbrev pub bad_request : Response
bad_request = record {
  status = codes "400 Bad Request";
  content_type = codes "text/plain";
  body = codes "bad request\n";
}

abbrev pub method_not_allowed : Response
method_not_allowed = plain (codes "405 Method Not Allowed") (codes "method not allowed\n")

abbrev pub unauthorized : Response
unauthorized = plain (codes "401 Unauthorized") (codes "unauthorized\n")

abbrev pub healthy : Response
healthy = json (codes "200 OK") (codes "{\"ok\":true}\n")

abbrev pub not_found : Response
not_found = plain (codes "404 Not Found") (codes "not found\n")

abbrev pub search_busy : Response
search_busy =
    plain (codes "503 Service Unavailable") (codes "search busy; retry the latest query\n")

abbrev pub index_unavailable : Response
index_unavailable =
    plain (codes "503 Service Unavailable")
      (codes "search index unavailable; retry the latest query\n")

abbrev pub lock_poisoned : Text
lock_poisoned = codes "service state lock poisoned"

-- What is around one request: the language's texts, the lock, the slot for a search that is asked for,
-- and what the database answers.
pub record Surroundings (I : PackedIndex) : Type 0 where
  pub from_utf8_lossy : Bytes → Text
  pub to_lowercase : Text → Text
  pub poisoned : Bool
  pub slot : Bool
  pub load_answers : LoadAnswers I
  pub observed : Outcome ContentStamp
  pub refresh_answers : RefreshAnswers I
  pub search_database : SearchOptions → Outcome (List SearchResult)
  pub db_path : Text
  pub actual_index_bytes : ℕ
  pub status_observed : Outcome ContentStamp

-- The state after a request, and the response that is written, or the error that closes the connection.
abbrev pub Handled : PackedIndex → Type 0
Handled I = ServiceState I.Index × Outcome Response

module _ (I : PackedIndex) (w : Surroundings I) where
  -- `ServiceState::search`.
  unfoldable pub search : Backend I.Index → SearchOptions → Outcome (List SearchResult)
  search (packed index) options = ok (I.search_index index options)
  search sqlite_backend options = w.search_database options
  search unavailable options = err (codes "search index is unavailable; retry")

  abbrev pub reload_status : Bool → Text
  reload_status true = codes "200 OK"
  reload_status false = codes "503 Service Unavailable"

  abbrev pub status_of : ServiceState I.Index → Text
  status_of s = status_json I w.db_path w.actual_index_bytes w.status_observed s

  unfoldable pub handle_reload : ServiceState I.Index → Handled I
  handle_reload s =
      let (t, outcome) = reload I w.load_answers s in
      if w.poisoned
      then (s, err lock_poisoned)
      else (t, ok (json (reload_status (is_ok outcome)) (status_of t)))

  unfoldable pub handle_status : ServiceState I.Index → Handled I
  handle_status s =
      if w.poisoned then (s, err lock_poisoned) else (s, ok (json (codes "200 OK") (status_of s)))

  abbrev pub results_response : Outcome (List SearchResult) → Response
  results_response (ok results) = json (codes "200 OK") (search_results_json results)
  results_response (err e) = index_unavailable

  abbrev pub search_fresh : SearchOptions → Refreshed I → Handled I
  search_fresh options (t, ok u) = (t, ok (results_response (search t.backend options)))
  search_fresh options (t, err e) = (t, ok index_unavailable)

  abbrev pub search_with : Outcome SearchOptions → ServiceState I.Index → Handled I
  search_with (err e) s = (s, err e)
  search_with (ok options) s =
      if not w.slot
      then (s, ok search_busy)
      else if w.poisoned
      then (s, ok index_unavailable)
      else search_fresh options (ensure_fresh I w.observed w.refresh_answers s)

  unfoldable pub handle_search : Text → ServiceState I.Index → Handled I
  handle_search query s =
      search_with (parse_search_options w.from_utf8_lossy w.to_lowercase query) s

  -- The `match path`.
  unfoldable pub route : Text → Text → ServiceState I.Index → Handled I
  route path query s =
      if text_eq path (codes "/health")
      then (s, ok healthy)
      else if text_eq path (codes "/reload")
      then handle_reload s
      else if text_eq path (codes "/status")
      then handle_status s
      else if text_eq path (codes "/search")
      then handle_search query s
      else (s, ok not_found)

  -- Whether `auth_token` lets the request pass.
  unfoldable pub may_pass : Option Text → Text → Bool
  may_pass none request = true
  may_pass (some expected) request = request_has_valid_token request expected

  abbrev pub word : List Text → Text
  word [] = []
  word (t ∷ ts) = t

  abbrev pub rest_of : List Text → List Text
  rest_of [] = []
  rest_of (t ∷ ts) = ts

  unfoldable pub handle_line : Option Text → Text → Text → ServiceState I.Index → Handled I
  handle_line auth_token request first_line s =
      let parts = split_whitespace first_line in
      let method = word parts in
      let (path, query) = split_target (word (rest_of parts)) in
      if not (text_eq method (codes "GET")) && not (text_eq method (codes "POST"))
      then (s, ok method_not_allowed)
      else if not (text_eq path (codes "/health")) && not (may_pass auth_token request)
      then (s, ok unauthorized)
      else route path query s

  abbrev pub handle_first : Option Text → Text → List Text → ServiceState I.Index → Handled I
  handle_first auth_token request [] s = (s, ok bad_request)
  handle_first auth_token request (first_line ∷ rest) s =
      handle_line auth_token request first_line s

  -- The whole handler, from what `read_request` gives.
  unfoldable pub handle_stream : Option Text → Outcome Text → ServiceState I.Index → Handled I
  handle_stream auth_token (err e) s = (s, err e)
  handle_stream auth_token (ok request) s = handle_first auth_token request (lines request) s
