-- ===== src/Search/Query.antt =====
-- `PreparedPathFilter` and `PreparedQuery` of search.rs: whether a record matches a query, and its score.
pub mod Bounds
use macevery.Prelude.{
  ℕ, zero, suc, ◌+◌, ◌-◌, ◌*◌, ◌/◌, ◌%◌, min, Bool, true, false, not, ◌&&◌, ◌||◌, Option, none,
  some, List, [], ◌∷◌, ◌++◌, if◌then◌else◌, ltb, leb, ◌==◌, length,
}
use macevery.Prelude.Int.{ℤ, pos, ◌-ℤ◌, ◌+ℤ◌, ltb_ℤ}
use macevery.Paths.{any, all}
use macevery.Model.Text.{Text}
use macevery.Model.Kind.{FileKind}
use macevery.Model.Filter.{PathFilterMode, PathFilter, contains, component}
use macevery.Model.Options.{SearchOptions, has, kind_eq, fuzzy_enabled, terms}
use macevery.Search.Text.{Bytes, bytes_eq, starts_with, ends_with, contains_byte, split, is_empty}
use macevery.Search.Finder.{Finder, finder_new, finder_find}
use macevery.Search.Glob.{star, question, glob_match}
use macevery.Search.Utf8.{encode}
use macevery.Search.Fuzzy.{fuzzy_score}
use macevery.Search.PreparedGlob.{PreparedGlob, glob_new, glob_score, non_empty}

pub record PreparedTerm : Type 0 where
  pub finder : Finder
  pub glob : Option PreparedGlob

pub record PreparedPathFilter : Type 0 where
  pub mode : PathFilterMode
  pub finder : Finder
  pub glob : Option PreparedGlob

abbrev pub glob_of : Bytes → Bytes → Option PreparedGlob
glob_of written value =
    if contains_byte written star || contains_byte written question
    then some (glob_new value)
    else none

unfoldable pub path_filter_new : PathFilter → PreparedPathFilter
path_filter_new filter =
    let value = encode filter.value in
    record { mode = filter.mode; finder = finder_new value; glob = glob_of value value }

abbrev pub is_some {ℓ} : {A : Type ℓ} → Option A → Bool
is_some none = false
is_some (some a) = true

-- The closure `matches`.
abbrev pub text_matches : PreparedPathFilter → Option PreparedGlob → Bytes → Bool → Bool
text_matches f (some glob) text is_component = is_some (glob_score glob text)
text_matches f none text is_component =
    if is_component then bytes_eq text f.finder.value else is_some (finder_find f.finder text)

abbrev pub matches_in : PreparedPathFilter → PathFilterMode → Bytes → Bool
matches_in f contains path = text_matches f f.glob path false
matches_in f component path =
    any (λ part. text_matches f f.glob part true) (non_empty (split (λ c. c == b'/') path))

unfoldable pub filter_matches : PreparedPathFilter → Bytes → Bool
filter_matches f path = matches_in f f.mode path

pub record PreparedQuery : Type 0 where
  pub options : SearchOptions
  pub terms_ : List PreparedTerm
  pub path_filters : List PreparedPathFilter
  pub excluded_path_filters : List PreparedPathFilter
  pub fuzzy : Bool
  pub needs_text : Bool

unfoldable pub prepare_terms : (Text → Text) → List Text → List PreparedTerm
prepare_terms to_lowercase [] = []
prepare_terms to_lowercase (term ∷ ts) =
    let value = encode (to_lowercase term) in
    record { finder = finder_new value; glob = glob_of (encode term) value }
    ∷ prepare_terms to_lowercase ts

abbrev pub prepare_filters : List PathFilter → List PreparedPathFilter
prepare_filters [] = []
prepare_filters (f ∷ fs) = path_filter_new f ∷ prepare_filters fs

abbrev pub reads_text : Option PreparedGlob → Bool
reads_text none = true
reads_text (some glob) = not glob.all_stars

unfoldable pub query_new : (Text → Text) → SearchOptions → PreparedQuery
query_new to_lowercase options =
    let ts = prepare_terms to_lowercase (terms options) in
    record {
      options = options;
      terms_ = ts;
      path_filters = prepare_filters options.path_filters;
      excluded_path_filters = prepare_filters options.excluded_path_filters;
      fuzzy = fuzzy_enabled options;
      needs_text =
          not (is_empty options.path_filters)
          || not (is_empty options.excluded_path_filters)
          || any (λ term. reads_text term.glob) ts;
    }

unfoldable pub needs_basename : PreparedQuery → Bool
needs_basename q = not q.options.path_only && not (is_empty q.terms_) && q.needs_text

unfoldable pub needs_extension : PreparedQuery → Bool
needs_extension q =
    not (is_empty q.options.ext_filters) || not (is_empty q.options.excluded_ext_filters)

-- `is_some_and(|after| mtime.is_none_or(|time| time < after))`.
abbrev pub too_early : Option ℤ → Option ℤ → Bool
too_early none mtime = false
too_early (some after) none = true
too_early (some after) (some time) = ltb_ℤ time after

-- `is_some_and(|before| mtime.is_some_and(|time| time >= before))`.
abbrev pub too_late : Option ℤ → Option ℤ → Bool
too_late none mtime = false
too_late (some before) none = false
too_late (some before) (some time) = not (ltb_ℤ time before)

abbrev pub ext_in : List Text → Option Bytes → Bool
ext_in filters none = false
ext_in filters (some ext) = any (λ filter. bytes_eq (encode filter) ext) filters

unfoldable pub matches_metadata : PreparedQuery → FileKind → Option ℤ → Option Bytes → Bool
matches_metadata q kind mtime ext =
    let o = q.options in
    if (not (is_empty o.kind_filters) && not (has kind_eq o.kind_filters kind))
      || has kind_eq o.excluded_kind_filters kind
    then false
    else if too_early o.after mtime || too_late o.before mtime
    then false
    else if not (is_empty o.ext_filters) && not (ext_in o.ext_filters ext)
    then false
    else not (ext_in o.excluded_ext_filters ext)

abbrev pub plus : ℕ → Option ℕ → Option ℕ
plus n none = none
plus n (some value) = some (value + n)

abbrev pub or_else_score : Option ℕ → Option ℕ → Option ℕ
or_else_score none o = o
or_else_score (some n) o = some n

abbrev pub plus_capped : ℕ → Option ℕ → Option ℕ
plus_capped n none = none
plus_capped n (some index) = some (n + min index 500)

-- The branches behind `basename.starts_with(token)`.
unfoldable pub occurrence_score : PreparedQuery → PreparedTerm → Bytes → Bytes → Option ℕ
occurrence_score q term path basename =
    or_else_score (plus 250 (finder_find term.finder basename)) (
      or_else_score (plus_capped 550 (finder_find term.finder path)) (
        if q.fuzzy
        then or_else_score (plus 1_000 (fuzzy_score basename term.finder.value))
            (plus 1_900 (fuzzy_score path term.finder.value))
        else none))

abbrev pub term_score_with :
    PreparedQuery → Option PreparedGlob → PreparedTerm → Bytes → Bytes → Option ℕ
term_score_with q (some glob) term path basename =
    if q.options.path_only
    then plus 450 (glob_score glob path)
    else or_else_score (plus 180 (glob_score glob basename)) (plus 520 (glob_score glob path))
term_score_with q none term path basename =
    let token = term.finder.value in
    if q.options.path_only
    then plus_capped 300 (finder_find term.finder path)
    else if bytes_eq basename token
    then some 0
    else if starts_with basename token
    then some (100 + length token)
    else occurrence_score q term path basename

-- `token_score`.
unfoldable pub term_score : PreparedQuery → PreparedTerm → Bytes → Bytes → Option ℕ
term_score q term path basename = term_score_with q term.glob term path basename

abbrev pub add_scores : Option ℕ → Option ℕ → Option ℕ
add_scores none o = none
add_scores (some n) none = none
add_scores (some n) (some m) = some (n + m)

-- `for term in &self.terms`.
unfoldable pub terms_score : PreparedQuery → List PreparedTerm → Bytes → Bytes → Option ℕ
terms_score q [] path basename = some 0
terms_score q (term ∷ ts) path basename =
    add_scores (term_score q term path basename) (terms_score q ts path basename)

abbrev pub with_length : ℕ → Option ℕ → Option ℤ
with_length path_len none = none
with_length path_len (some score) = some (pos (score + min path_len 500))

abbrev pub or_zero : Option ℤ → ℤ
or_zero none = pos 0
or_zero (some z) = z

abbrev pub min_ℤ : ℤ → ℤ → ℤ
min_ℤ a b = if ltb_ℤ b a then b else a

-- A difference of `i64` that may be above its range, where a release build wraps around.
abbrev pub wrapping : ℤ → ℤ
wrapping z = if ltb_ℤ z (pos 0x8000_0000_0000_0000) then z else z -ℤ pos 0x1_0000_0000_0000_0000

-- The difference without terms is at least 1000; it leaves the range only for times near its lower end.
unfoldable pub rank_lowered : PreparedQuery → Bytes → Bytes → ℕ → Option ℤ → Option ℤ
rank_lowered q path basename path_len mtime =
    if any (λ filter. not (filter_matches filter path)) q.path_filters
      || any (λ filter. filter_matches filter path) q.excluded_path_filters
    then none
    else if is_empty q.terms_
    then some (wrapping (pos 10_000 -ℤ min_ℤ (or_zero mtime) (pos 9_000)))
    else with_length path_len (terms_score q q.terms_ path basename)

unfoldable pub effective_limit : ℕ → ℕ
effective_limit limit = if limit == 0 then 50 else limit
