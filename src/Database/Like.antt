-- ===== src/Database/Like.antt =====
-- `escape_like`, `glob_to_like` and `path_filter_like` of db.rs: patterns for SQLite's LIKE.
pub mod Pattern
pub mod Contains
use macevery.Prelude.{ℕ, Bool, ◌||◌, List, [], ◌∷◌, ◌++◌, if◌then◌else◌, ◌==◌}
use macevery.Search.Text.{contains_byte}
use macevery.Search.Glob.{star, question}
use macevery.Model.Text.{Text, codes}
use macevery.Model.Filter.{PathFilterMode, PathFilter, contains, component}

abbrev pub percent : ℕ
percent = b'%'

abbrev pub underscore : ℕ
underscore = b'_'

abbrev pub backslash : ℕ
backslash = b'\\'

-- `str::replace` of one character.
unfoldable pub replace : ℕ → Text → Text → Text
replace c with_ [] = []
replace c with_ (d ∷ t) = let rest = replace c with_ t in if d == c then with_ ++ rest else d ∷ rest

unfoldable pub escape_like : Text → Text
escape_like value = replace underscore (backslash ∷ underscore ∷ []) (
    replace percent (backslash ∷ percent ∷ [])
      (replace backslash (backslash ∷ backslash ∷ []) value))

-- One arm of the `match ch`, in front of the rest.
unfoldable pub like_char : ℕ → Text → Text
like_char c rest =
    if c == star
    then percent ∷ rest
    else if c == question
    then underscore ∷ rest
    else if c == backslash
    then backslash ∷ backslash ∷ rest
    else if c == percent
    then backslash ∷ percent ∷ rest
    else if c == underscore
    then backslash ∷ underscore ∷ rest
    else c ∷ rest

unfoldable pub glob_to_like : Text → Text
glob_to_like [] = []
glob_to_like (c ∷ t) = like_char c (glob_to_like t)

abbrev pub has_wildcard : Text → Bool
has_wildcard t = contains_byte t star || contains_byte t question

abbrev pub in_mode : PathFilterMode → Text → Text
in_mode contains value =
    if has_wildcard value then glob_to_like value else percent ∷ (escape_like value ++ percent ∷ [])
in_mode component value =
    if has_wildcard value
    then glob_to_like (star ∷ b'/' ∷ (value ++ b'/' ∷ star ∷ []))
    else percent ∷ b'/' ∷ (escape_like value ++ percent ∷ [])

unfoldable pub path_filter_like : PathFilter → Text
path_filter_like filter = in_mode filter.mode filter.value
