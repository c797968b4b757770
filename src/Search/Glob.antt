-- ===== src/Search/Glob.antt =====
-- `glob_match` of search.rs, over byte positions as the source has it.
pub mod Matches
pub mod Decides
pub mod Literal
use macevery.Prelude.{
  ℕ, zero, suc, ◌+◌, ◌*◌, Bool, true, false, ◌&&◌, ◌||◌, Option, none, some, List, [], ◌∷◌,
  if◌then◌else◌, ltb, ◌==◌, length, drop,
}
use macevery.Search.Text.{Bytes, at, contains_byte}

abbrev pub star : ℕ
star = b'*'

abbrev pub question : ℕ
question = b'?'

unfoldable pub has_glob_syntax : Bytes → Bool
has_glob_syntax value = contains_byte value star || contains_byte value question

-- `while p < pattern.len() && pattern[p] == b'*' { p += 1; }  p == pattern.len()`, on the bytes from
-- position `p` on.
unfoldable pub only_stars : Bytes → Bool
only_stars [] = true
only_stars (c ∷ p) = c == star && only_stars p

-- The rounds that are left, from `h`, `p`, `star` and `match_after_star`.
abbrev pub Next : Type 0
Next = ℕ → ℕ → Option ℕ → ℕ → Option Bool

-- `else if let Some(star_index) = star { … } else { return false; }`.
abbrev pub retry : Next → Option ℕ → ℕ → Option Bool
retry next none match_after_star = some false
retry next (some star_index) match_after_star =
    next (match_after_star + 1) (star_index + 1) (some star_index) (match_after_star + 1)

-- `p < pattern.len() && (pattern[p] == b'?' || pattern[p] == haystack[h])`.
abbrev pub takes_byte : Bytes → Bytes → ℕ → ℕ → Bool
takes_byte haystack pattern h p =
    ltb p (length pattern) && (at pattern p == question || at pattern p == at haystack h)

abbrev pub takes_star : Bytes → ℕ → Bool
takes_star pattern p = ltb p (length pattern) && at pattern p == star

-- One round of the `while h < haystack.len()` loop, or what follows it.
unfoldable pub round : Next → Bytes → Bytes → Next
unfolding only_stars
round next haystack pattern h p star_at match_after_star =
    let step = next (h + 1) (p + 1) star_at match_after_star in
    let mark = next h (p + 1) (some p) h in
    let back = retry next star_at match_after_star in
    if ltb h (length haystack)
    then if takes_byte haystack pattern h p
      then step
      else if takes_star pattern p
      then mark
      else back
    else some (only_stars (drop p pattern))

-- `none` is an exhausted fuel.
unfoldable pub loop : ℕ → Bytes → Bytes → Next
unfolding round
loop zero haystack pattern h p star_at match_after_star = none
loop (suc f) haystack pattern h p star_at match_after_star =
    round (loop f haystack pattern) haystack pattern h p star_at match_after_star

unfoldable pub glob_match : Bytes → Bytes → Option Bool
unfolding loop
glob_match haystack pattern =
    loop ((length haystack + 1) * (length pattern + 1)) haystack pattern 0 0 none 0
