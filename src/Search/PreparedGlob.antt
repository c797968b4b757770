-- ===== src/Search/PreparedGlob.antt =====
-- `PreparedGlob` of search.rs: a glob pattern with the shortcuts that are chosen once.
use macevery.Prelude.{
  ℕ, ◌+◌, ◌*◌, Bool, true, false, not, ◌&&◌, ◌||◌, Option, none, some, List, [], ◌∷◌, if◌then◌else◌,
  ◌==◌, length,
}
use macevery.Paths.{all}
use macevery.Search.Text.{Bytes, starts_with, ends_with, contains_byte, split, is_empty}
use macevery.Search.Finder.{Finder, finder_new, finder_find}
use macevery.Search.Glob.{star, question, glob_match}

abbrev pub non_empty : List Bytes → List Bytes
non_empty [] = []
non_empty (p ∷ ps) = let rest = non_empty ps in if is_empty p then rest else p ∷ rest

pub record PreparedGlob : Type 0 where
  pub pattern : Bytes
  pub literal : Option Finder
  pub all_stars : Bool
  pub single_literal : Bool

abbrev pub is_wildcard : ℕ → Bool
is_wildcard c = c == star || c == question

abbrev pub first_finder : List Bytes → Option Finder
first_finder [] = none
first_finder (p ∷ ps) = some (finder_new p)

abbrev pub at_most_one : List Bytes → Bool
at_most_one [] = true
at_most_one (p ∷ ps) = is_empty ps

unfoldable pub glob_new : Bytes → PreparedGlob
glob_new pattern =
    let literals = non_empty (split is_wildcard pattern) in
    record {
      pattern = pattern;
      literal = first_finder literals;
      all_stars = all (λ byte. byte == star) pattern;
      single_literal = not (contains_byte pattern question) && at_most_one literals;
    }

-- `glob_match`'s answer; `none` is an exhausted fuel.
abbrev pub accepts : Option Bool → Bool
accepts none = false
accepts (some b) = b

abbrev pub wildcard_ends : Bytes → Bool
wildcard_ends pattern = ends_with pattern (star ∷ [])

-- `single_literal`'s branch, for a literal that is there.
unfoldable pub matches_literal : Bytes → Bytes → Bytes → Bool
matches_literal pattern literal haystack =
    (starts_with pattern (star ∷ []) || starts_with haystack literal)
    && (wildcard_ends pattern || ends_with haystack literal)

abbrev pub value_of : Option Finder → Bytes
value_of none = []
value_of (some f) = f.value

-- Where the literal begins; `?` returns if it is missing.
abbrev pub literal_start : Option Finder → Bytes → Option ℕ
literal_start none haystack = some 0
literal_start (some f) haystack = finder_find f haystack

abbrev pub score_from : PreparedGlob → Bytes → Option ℕ → Option ℕ
score_from g haystack none = none
score_from g haystack (some start) =
    let matches =
      if g.single_literal
      then matches_literal g.pattern (value_of g.literal) haystack
      else accepts (glob_match haystack g.pattern) in
    if matches then some (start * 2 + length g.pattern) else none

unfoldable pub glob_score : PreparedGlob → Bytes → Option ℕ
glob_score g haystack =
    if g.all_stars
    then some (length g.pattern)
    else score_from g haystack (literal_start g.literal haystack)
