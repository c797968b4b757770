-- ===== src/Server/Request/Options.antt =====
-- `parse_search_options` of server.rs.
use macevery.Prelude.{
  ℕ, Bool, false, not, ◌&&◌, ◌||◌, Option, none, some, [], ◌∷◌, if◌then◌else◌, leb, ◌==◌,
}
use macevery.Paths.{all}
use macevery.Search.Text.{Bytes, is_empty}
use macevery.Model.Text.{Text, codes, text_eq, trim, trim_start}
use macevery.Model.Kind.{parse}
use macevery.Model.Filter.{is_ascii_digit, number}
use macevery.Model.Options.{SearchOptions}
use macevery.Server.Outcome.{Outcome, ok, err}
use macevery.Server.Backend.{u64_max}
use macevery.Server.Percent.{Params, get, parse_query}
use macevery.Server.Request.{eq_ignore_ascii_case}

abbrev pub without_plus : Text → Text
without_plus [] = []
without_plus (c ∷ t) = if c == b'+' && not (is_empty t) then t else c ∷ t

-- `value.parse::<usize>().ok()`.
unfoldable pub parse_usize : Text → Option ℕ
parse_usize value =
    let digits = without_plus value in
    let n = number digits 0 in
    if not (is_empty digits) && all is_ascii_digit digits && leb n u64_max then some n else none

abbrev pub bind_option {ℓ κ} : {A : Type ℓ} {B : Type κ} → Option A → (A → Option B) → Option B
bind_option none f = none
bind_option (some a) f = f a

abbrev pub or_value {ℓ} : {A : Type ℓ} → Option A → A → A
or_value none a = a
or_value (some b) a = b

abbrev pub unless_empty : Text → Option Text
unless_empty t = if is_empty t then none else some t

-- `value == "1" || value.eq_ignore_ascii_case("true")`, or false without a value.
unfoldable pub flag : Option Text → Bool
flag none = false
flag (some value) = text_eq value (codes "1") || eq_ignore_ascii_case value (codes "true")

abbrev pub dot : ℕ
dot = b'.'

-- `SearchOptions::default()`.
abbrev pub default_options : SearchOptions
default_options = record {
  query = [];
  limit = 0;
  ext_option = none;
  ext_filters = [];
  excluded_ext_filters = [];
  kind_option = none;
  kind_filters = [];
  excluded_kind_filters = [];
  path_filters = [];
  excluded_path_filters = [];
  after = none;
  before = none;
  path_only = false;
  fuzzy = false;
}

module _ (from_utf8_lossy : Bytes → Text) (to_lowercase : Text → Text) where
  -- The options of a query that is there.
  unfoldable pub options_of : Text → Params → SearchOptions
  options_of query params = record default_options {
    query = query;
    limit = or_value (bind_option (get (codes "limit") params) parse_usize) 80;
    ext_option =
        bind_option (get (codes "ext") params)
          (λ value. unless_empty (to_lowercase (trim_start (λ c. c == dot) value)));
    kind_option = bind_option (get (codes "kind") params) (parse to_lowercase);
    path_only = flag (get (codes "path") params);
    fuzzy = flag (get (codes "fuzzy") params);
  }

  unfoldable pub parse_search_options : Text → Outcome SearchOptions
  parse_search_options query =
      let params = parse_query from_utf8_lossy query in
      let q = or_value (get (codes "q") params) [] in
      if is_empty (trim q) then err (codes "missing q parameter") else ok (options_of q params)
