-- ===== src/Model/Filter.antt =====
-- `parse_inline_filter` of model.rs, and what it calls.
use macevery.Prelude.{
  ℕ, ◌+◌, ◌-◌, ◌*◌, Bool, true, false, ◌&&◌, ◌||◌, Option, none, some, List, [], ◌∷◌, if◌then◌else◌,
  leb, ◌==◌, length, drop,
}
use macevery.Prelude.Int.{ℤ, pos, negsuc, ◌-ℤ◌, ltb_ℤ}
use macevery.Search.Text.{is_empty, split}
use macevery.Model.Text.{
  Text, codes, one_of, trim, trim_start, strip_prefix, split_once, take_while,
}
use macevery.Model.Kind.{FileKind, parse}

pub data PathFilterMode : Type 0 where
  contains component : PathFilterMode

pub record PathFilter : Type 0 where
  pub value : Text
  pub mode : PathFilterMode

pub data InlineFilter : Type 0 where
  ext excluded_ext : List Text → InlineFilter
  kind excluded_kind : List FileKind → InlineFilter
  path excluded_path : PathFilter → InlineFilter
  modified_after modified_before : ℤ → InlineFilter
  no_filter : InlineFilter

abbrev pub trim_parts : List Text → List Text
trim_parts [] = []
trim_parts (part ∷ parts) =
    let rest = trim_parts parts in if is_empty (trim part) then rest else trim part ∷ rest

unfoldable pub split_filter_values : Text → List Text
split_filter_values value = trim_parts (split (λ c. c == b'|' || c == b',') value)

unfoldable pub normalize_ext : (Text → Text) → Text → Text
normalize_ext to_lowercase value = to_lowercase (trim_start (λ c. c == b'.') (trim value))

abbrev pub normalized_exts : (Text → Text) → List Text → List Text
normalized_exts to_lowercase [] = []
normalized_exts to_lowercase (value ∷ values) =
    let rest = normalized_exts to_lowercase values in
    let ext = normalize_ext to_lowercase value in if is_empty ext then rest else ext ∷ rest

abbrev pub add_kind : Option FileKind → List FileKind → List FileKind
add_kind none ks = ks
add_kind (some k) ks = k ∷ ks

abbrev pub parsed_kinds : (Text → Text) → List Text → List FileKind
parsed_kinds to_lowercase [] = []
parsed_kinds to_lowercase (value ∷ values) =
    add_kind (parse to_lowercase value) (parsed_kinds to_lowercase values)

abbrev pub i64_max : ℕ
i64_max = 9_223_372_036_854_775_807

abbrev pub is_ascii_digit : ℕ → Bool
is_ascii_digit c = leb b'0' c && leb c b'9'

abbrev pub number : Text → ℕ → ℕ
number [] n = n
number (c ∷ t) n = number t (n * 10 + (c - b'0'))

-- `digits.parse::<i64>().ok()`, of digits only.
unfoldable pub parse_i64 : Text → Option ℕ
parse_i64 digits = let n = number digits 0 in if leb n i64_max then some n else none

unfoldable pub unit_seconds : Text → Option ℕ
unit_seconds unit =
    if one_of unit (codes "h" ∷ codes "hour" ∷ codes "hours" ∷ [])
    then some (60 * 60)
    else if one_of unit ([] ∷ codes "d" ∷ codes "day" ∷ codes "days" ∷ [])
    then some (24 * 60 * 60)
    else if one_of unit (codes "w" ∷ codes "week" ∷ codes "weeks" ∷ [])
    then some (7 * 24 * 60 * 60)
    else if one_of unit (codes "mo" ∷ codes "month" ∷ codes "months" ∷ [])
    then some (30 * 24 * 60 * 60)
    else if one_of unit (codes "y" ∷ codes "year" ∷ codes "years" ∷ [])
    then some (365 * 24 * 60 * 60)
    else none

-- `now.saturating_sub(n)` for n that is not negative; i64::MIN is -(i64_max + 1).
unfoldable pub saturating_sub : ℤ → ℕ → ℤ
saturating_sub now n =
    let d = now -ℤ pos n in if ltb_ℤ d (negsuc i64_max) then negsuc i64_max else d

-- `count.saturating_mul(seconds)`, of numbers that are not negative.
unfoldable pub saturating_mul : ℕ → ℕ → ℕ
saturating_mul a b = if leb (a * b) i64_max then a * b else i64_max

abbrev pub seconds_ago : ℤ → Option ℕ → Option ℕ → Option ℤ
seconds_ago now none seconds = none
seconds_ago now (some count) none = none
seconds_ago now (some count) (some seconds) =
    some (saturating_sub now (saturating_mul count seconds))

unfoldable pub parse_relative_time : (Text → Text) → Text → ℤ → Option ℤ
parse_relative_time to_lowercase value now =
    let lowered = to_lowercase (trim value) in
    let digits = take_while is_ascii_digit lowered in
    if is_empty digits
    then none
    else seconds_ago now (parse_i64 digits) (unit_seconds (trim (drop (length digits) lowered)))

abbrev pub or_strip : Option Text → Option Text → Text → Bool × Text
or_strip none none token = (false, token)
or_strip none (some rest) token = (true, rest)
or_strip (some rest) o token = (true, rest)

unfoldable pub split_negation : Text → Bool × Text
split_negation token = or_strip (strip_prefix b'!' token) (strip_prefix b'-' token) token

abbrev pub time_filter : Bool → Option ℤ → InlineFilter
time_filter negated none = no_filter
time_filter true (some t) = modified_before t
time_filter false (some t) = modified_after t

abbrev pub path_filter : Bool → PathFilter → InlineFilter
path_filter negated filter = if negated then excluded_path filter else path filter

-- The `match` on the lower-case key.
unfoldable pub filter_of : (Text → Text) → ℤ → Bool → Text → Text → InlineFilter
filter_of to_lowercase now negated key value =
    let exts = normalized_exts to_lowercase (split_filter_values value) in
    let kinds = parsed_kinds to_lowercase (split_filter_values value) in
    if one_of key (codes "ext" ∷ codes "extension" ∷ [])
    then (if is_empty exts then no_filter else if negated then excluded_ext exts else ext exts)
    else if one_of key (codes "kind" ∷ codes "type" ∷ [])
    then (if is_empty kinds then no_filter else if negated then excluded_kind kinds else kind kinds)
    else if one_of key (codes "path" ∷ codes "in" ∷ [])
    then path_filter negated (record { value = to_lowercase value; mode = contains })
    else if one_of key (codes "part" ∷ codes "segment" ∷ codes "component" ∷ codes "parent" ∷ [])
    then path_filter negated (record { value = to_lowercase value; mode = component })
    else if one_of key (codes "mtime" ∷ codes "modified" ∷ [])
    then time_filter negated (parse_relative_time to_lowercase value now)
    else no_filter

abbrev pub with_value : (Text → Text) → ℤ → Bool → Option (Text × Text) → InlineFilter
with_value to_lowercase now negated none = no_filter
with_value to_lowercase now negated (some (key, value)) =
    if is_empty (trim value)
    then no_filter
    else filter_of to_lowercase now negated (to_lowercase key) (trim value)

unfoldable pub parse_inline_filter : (Text → Text) → Text → ℤ → InlineFilter
parse_inline_filter to_lowercase token now =
    let (negated, rest) = split_negation token in
    with_value to_lowercase now negated (split_once b':' rest)
