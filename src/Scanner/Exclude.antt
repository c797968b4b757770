-- ===== src/Scanner/Exclude.antt =====
-- `ExcludeMatcher` of scanner.rs: patterns grouped by their first component.
pub mod Infix
use macevery.Prelude.{
  ℕ, Bool, true, false, ◌&&◌, ◌||◌, Option, none, some, List, [], ◌∷◌, ◌++◌, if◌then◌else◌, ◌==◌,
}
use macevery.Search.Text.{split}
use macevery.Search.PreparedGlob.{non_empty}
use macevery.Model.Text.{Text, text_eq, trim}

-- What stands behind the first component of a pattern.
abbrev pub Suffix : Type 0
Suffix = List Text

-- The map, as the list of its entries.
abbrev pub Patterns : Type 0
Patterns = List (Text × List Suffix)

abbrev pub suffix_eq : Suffix → Suffix → Bool
suffix_eq [] [] = true
suffix_eq (a ∷ as_) (b ∷ bs) = text_eq a b && suffix_eq as_ bs
suffix_eq [] (b ∷ bs) = false
suffix_eq (a ∷ as_) [] = false

-- `choices.contains(&suffix)`.
abbrev pub has_suffix : List Suffix → Suffix → Bool
has_suffix [] suffix = false
has_suffix (s ∷ choices) suffix = suffix_eq s suffix || has_suffix choices suffix

abbrev pub push_choice : List Suffix → Suffix → List Suffix
push_choice choices suffix = if has_suffix choices suffix then choices else choices ++ suffix ∷ []

-- The entry of the first component, with the suffix among its choices.
unfoldable pub add : Text → Suffix → Patterns → Patterns
add first suffix [] = (first, suffix ∷ []) ∷ []
add first suffix ((f, choices) ∷ patterns) =
    let rest = add first suffix patterns in
    if text_eq f first then (f, push_choice choices suffix) ∷ patterns else (f, choices) ∷ rest

abbrev pub add_parts : List Text → Patterns → Patterns
add_parts [] patterns = patterns
add_parts (first ∷ suffix) patterns = add first suffix patterns

-- The components of a pattern.
unfoldable pub parts_of : Text → List Text
parts_of pattern = non_empty (split (λ c. c == b'/') (trim pattern))

-- The `for pattern` loop.
unfoldable pub add_all : List Text → Patterns → Patterns
add_all [] patterns = patterns
add_all (pattern ∷ excludes) patterns = add_all excludes (add_parts (parts_of pattern) patterns)

unfoldable pub exclude_new : List Text → Patterns
exclude_new excludes = add_all excludes []

unfoldable pub choices_of : Text → Patterns → List Suffix
choices_of first [] = []
choices_of first ((f, choices) ∷ patterns) =
    if text_eq f first then choices else choices_of first patterns

-- The `all` over the suffix, on the components behind the first one.
abbrev pub goes_on : Suffix → List Text → Bool
goes_on [] tail = true
goes_on (expected ∷ suffix) [] = false
goes_on (expected ∷ suffix) (value ∷ tail) = text_eq value expected && goes_on suffix tail

-- The `for suffix` loop.
abbrev pub any_goes_on : List Suffix → List Text → Bool
any_goes_on [] tail = false
any_goes_on (suffix ∷ choices) tail = goes_on suffix tail || any_goes_on choices tail

-- The components are those that `component_text` gives of the path.
unfoldable pub is_excluded : Patterns → List Text → Bool
is_excluded patterns [] = false
is_excluded patterns (first ∷ components) =
    any_goes_on (choices_of first patterns) components || is_excluded patterns components
