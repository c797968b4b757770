-- ===== src/Samples/Queries.antt =====
-- Runs of the query language and of the score of src/search.rs.
use macevery.Paths.{any}
use macevery.Model.Options.{fuzzy_enabled, SearchOptions, terms}
use macevery.Search.Query.{
  occurrence_score, prepare_terms, term_score, terms_score, PreparedTerm, PreparedQuery, query_new,
  rank_lowered,
}
use macevery.Search.Fuzzy.{fuzzy_loop, fuzzy_score}
use macevery.Search.Utf8.{chars, encode, encode_char}
use macevery.Search.Finder.{
  candidates_at, compare_back, find_bytes, find_long, long_loop, short_find, short_new, skip_loop,
  stands_at, trailing_zeros, try_candidates, try_rest, try_words, word_at, zero_byte_mask,
  finder_new, finder_find,
}
use macevery.Prelude.Int.{◌-ℤ◌, pos, ◌≤ℤ◌}
use macevery.Search.Text.{bytes_eq, contains_byte, split, starts_with}
use macevery.Model.Filter.{
  filter_of, normalize_ext, parse_i64, parse_relative_time, saturating_mul, saturating_sub,
  split_filter_values, split_negation, unit_seconds, parse_inline_filter, excluded_ext,
  modified_after,
}
use macevery.Model.Text.{split_once, strip_prefix, take_while, trim, Text, codes}
use macevery.Model.Tokens.{run, step, tokenize_query, join}
use macevery.Prelude.{true, false, none, some, [], ◌∷◌, ◌≡◌, refl, All}
use macevery.Model.Kind.{directory, as_str, parse_lowered, parse}
use macevery.Model.Kind.Parse.{parse_lem, parse-as_str}
use macevery.Model.Tokens.Escape.{IsWord, escape_all, tokenize_query-escape_all}
use macevery.Search.Query.Bounds.{rank_lowered-not_prefix}

abbrev pub as_is : Text → Text
as_is t = t

quoted_value : tokenize_query (codes "in:\"a b\" c") ≡ codes "in:a b" ∷ codes "c" ∷ []
unfolding tokenize_query run step
quoted_value = refl

two_exts :
    parse_inline_filter as_is (codes "-ext:.rs|md") (pos 0)
    ≡ excluded_ext (codes "rs" ∷ codes "md" ∷ [])
unfolding parse_inline_filter split_once split_negation strip_prefix trim filter_of bytes_eq
    split_filter_values split normalize_ext
two_exts = refl

two_days : parse_inline_filter as_is (codes "mtime:2d") (pos 200000) ≡ modified_after (pos 27200)
unfolding parse_inline_filter split_once split_negation strip_prefix trim filter_of bytes_eq
    parse_relative_time take_while parse_i64 unit_seconds saturating_sub ◌-ℤ◌ saturating_mul
two_days = refl

long_needle : finder_find (finder_new (codes "abababac")) (codes "ababababababac") ≡ some 6
unfolding finder_find finder_new find_long long_loop compare_back skip_loop
long_needle = refl

short_needle : finder_find (finder_new (codes "port")) (codes "my quarterly report.txt") ≡ some 15
unfolding finder_find finder_new short_find short_new find_bytes try_words try_candidates
    candidates_at zero_byte_mask word_at stands_at bytes_eq trailing_zeros
short_needle = refl

fuzzy_run : fuzzy_score (codes "report") (codes "rpt") ≡ some 18
unfolding fuzzy_score chars fuzzy_loop bytes_eq
fuzzy_run = refl

two_words : All IsWord (codes "a b" ∷ codes "it's" ∷ [])
two_words = (refl, (refl, tt))

tokenize_query-escape_all_example :
    tokenize_query (join (escape_all (codes "a b" ∷ codes "it's" ∷ [])))
    ≡ codes "a b" ∷ codes "it's" ∷ []
tokenize_query-escape_all_example =
    tokenize_query-escape_all (codes "a b") (codes "it's" ∷ []) two_words

parse_lem_example : parse as_is (codes "folders") ≡ parse_lowered (as_is (codes "folders"))
parse_lem_example = parse_lem as_is (λ k. refl) (codes "folders")

parse-as_str_example : parse as_is (as_str directory) ≡ some directory
parse-as_str_example = parse-as_str as_is directory

abbrev pub no_options : SearchOptions
no_options = record {
  query = codes "ab";
  limit = 10;
  ext_option = none;
  ext_filters = [];
  excluded_ext_filters = [];
  kind_option = none;
  kind_filters = [];
  excluded_kind_filters = [];
  path_filters = [];
  excluded_path_filters = [];
  after = none;
  before = none;
  path_only = false;
  fuzzy = false;
}

abbrev pub term : PreparedTerm
term = record { finder = finder_new (codes "ab"); glob = none }

abbrev pub query : PreparedQuery
query = record {
  options = no_options;
  terms_ = term ∷ [];
  path_filters = [];
  excluded_path_filters = [];
  fuzzy = false;
  needs_text = true;
}

prepared : query_new as_is no_options ≡ query
unfolding query_new prepare_terms fuzzy_enabled any terms tokenize_query run step strip_prefix
    encode contains_byte encode_char
prepared = refl

not_prefix : starts_with (codes "xab") term.finder.value ≡ false
unfolding starts_with finder_new
not_prefix = refl

ranked : rank_lowered query (codes "/xab") (codes "xab") 4 none ≡ some (pos 255)
unfolding rank_lowered any terms_score term_score bytes_eq finder_new starts_with occurrence_score
    finder_find short_find short_new find_bytes try_words try_rest stands_at
ranked = refl

rank_lowered-not_prefix_example : pos 250 ≤ℤ pos 255
rank_lowered-not_prefix_example =
    rank_lowered-not_prefix query term (codes "/xab") (codes "xab") 4 none (pos 255) refl refl refl
      not_prefix ranked
