-- ===== src/Model/Options.antt =====
-- `SearchOptions` of model.rs.
use macevery.Prelude.{
  ℕ, Bool, true, false, ◌&&◌, ◌||◌, Option, none, some, List, [], ◌∷◌, ◌++◌, if◌then◌else◌, ltb,
  ◌==◌, length,
}
use macevery.Prelude.Int.{ℤ}
use macevery.Search.Text.{is_empty}
use macevery.Model.Text.{Text, text_eq, strip_prefix}
use macevery.Model.Kind.{FileKind, as_str}
use macevery.Model.Tokens.{tokenize_query, join}
use macevery.Model.Filter.{
  PathFilterMode, PathFilter, contains, component, InlineFilter, ext, excluded_ext, kind,
  excluded_kind, path, excluded_path, modified_after, modified_before, no_filter, normalize_ext,
  parse_inline_filter,
}

pub record SearchOptions : Type 0 where
  pub query : Text
  pub limit : ℕ
  pub ext_option : Option Text
  pub ext_filters : List Text
  pub excluded_ext_filters : List Text
  pub kind_option : Option FileKind
  pub kind_filters : List FileKind
  pub excluded_kind_filters : List FileKind
  pub path_filters : List PathFilter
  pub excluded_path_filters : List PathFilter
  pub after : Option ℤ
  pub before : Option ℤ
  pub path_only : Bool
  pub fuzzy : Bool

module _ {ℓ} {A : Type ℓ} (eq : A → A → Bool) where
  -- `values.contains(&value)`.
  unfoldable pub has : List A → A → Bool
  has [] x = false
  has (y ∷ ys) x = eq y x || has ys x

  unfoldable pub push_unique : List A → A → List A
  push_unique xs x = if has xs x then xs else xs ++ x ∷ []

  unfoldable pub push_all : List A → List A → List A
  push_all xs [] = xs
  push_all xs (y ∷ ys) = push_all (push_unique xs y) ys

-- `==` of kinds, whose names differ.
abbrev pub kind_eq : FileKind → FileKind → Bool
kind_eq a b = text_eq (as_str a) (as_str b)

abbrev pub mode_eq : PathFilterMode → PathFilterMode → Bool
mode_eq contains contains = true
mode_eq component component = true
mode_eq _ _ = false

abbrev pub filter_eq : PathFilter → PathFilter → Bool
filter_eq a b = text_eq a.value b.value && mode_eq a.mode b.mode

-- The options while the tokens are read, with `query_terms`.
abbrev pub Reading : Type 0
Reading = SearchOptions × List Text

-- The `match parse_inline_filter(&token, now)`.
unfoldable pub apply_filter : Text → InlineFilter → Reading → Reading
apply_filter token (ext xs) (o, ts) =
    (record o { ext_filters = push_all text_eq o.ext_filters xs }, ts)
apply_filter token (excluded_ext xs) (o, ts) =
    (record o { excluded_ext_filters = push_all text_eq o.excluded_ext_filters xs }, ts)
apply_filter token (kind xs) (o, ts) =
    (record o { kind_filters = push_all kind_eq o.kind_filters xs }, ts)
apply_filter token (excluded_kind xs) (o, ts) =
    (record o { excluded_kind_filters = push_all kind_eq o.excluded_kind_filters xs }, ts)
apply_filter token (path p) (o, ts) =
    (record o { path_filters = push_unique filter_eq o.path_filters p }, ts)
apply_filter token (excluded_path p) (o, ts) =
    (record o { excluded_path_filters = push_unique filter_eq o.excluded_path_filters p }, ts)
apply_filter token (modified_after t) (o, ts) = (record o { after = some t }, ts)
apply_filter token (modified_before t) (o, ts) = (record o { before = some t }, ts)
apply_filter token no_filter (o, ts) = (o, ts ++ token ∷ [])

-- `for token in tokenize_query(&self.query)`; a token is never empty.
unfoldable pub read_tokens : (Text → Text) → ℤ → List Text → Reading → Reading
read_tokens to_lowercase now [] r = r
read_tokens to_lowercase now (token ∷ tokens) r = read_tokens to_lowercase now tokens (
    if is_empty token then r else apply_filter token (parse_inline_filter to_lowercase token now) r)

abbrev pub with_option {ℓ} : {A : Type ℓ} → (A → A → Bool) → List A → Option A → List A
with_option eq xs none = xs
with_option eq xs (some x) = push_unique eq xs x

abbrev pub map_option {ℓ κ} : {A : Type ℓ} {B : Type κ} → (A → B) → Option A → Option B
map_option f none = none
map_option f (some x) = some (f x)

unfoldable pub normalized_at : (Text → Text) → SearchOptions → ℤ → SearchOptions
normalized_at to_lowercase options now =
    let first : SearchOptions = record options {
      ext_filters =
          with_option text_eq options.ext_filters
            (map_option (normalize_ext to_lowercase) options.ext_option);
      kind_filters = with_option kind_eq options.kind_filters options.kind_option;
    } in
    let (out, terms) = read_tokens to_lowercase now (tokenize_query options.query) (first, []) in
    record out { query = join terms }

abbrev pub tilde : ℕ
tilde = b'~'

abbrev pub is_fuzzy_token : List Text → Bool
is_fuzzy_token [] = false
is_fuzzy_token ([] ∷ ts) = false
is_fuzzy_token ((c ∷ t) ∷ ts) = c == tilde && ltb 0 (length t)

unfoldable pub fuzzy_enabled : SearchOptions → Bool
fuzzy_enabled options = options.fuzzy || is_fuzzy_token (tokenize_query options.query)

abbrev pub or_else_text : Option Text → Text → Text
or_else_text none t = t
or_else_text (some u) t = u

abbrev pub stripped_terms : List Text → List Text
stripped_terms [] = []
stripped_terms (t ∷ ts) =
    let rest = stripped_terms ts in
    let term = or_else_text (strip_prefix tilde t) t in if is_empty term then rest else term ∷ rest

unfoldable pub terms : SearchOptions → List Text
terms options = stripped_terms (tokenize_query options.query)
