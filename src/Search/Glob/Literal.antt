-- ===== src/Search/Glob/Literal.antt =====
-- `glob_match` of search.rs on texts that hold a `*`, which is compared as a byte before the pattern's `*`
-- is tried as a wildcard.
use macevery.Prelude.{ℕ, suc, ◌+◌, ◌*◌, ◌-◌, ◌≡◌, refl, ◌≢◌, false, none, some, ◌∷◌, length, arith}
use macevery.Search.Text.{Bytes}
use macevery.Search.Glob.{star, question, round, loop, glob_match, Next}
use macevery.Search.Glob.Matches.{Matches, leave, cover}

module _ (a c : ℕ) (p s : Bytes) (n : a ≢ star) (q : a ≢ question) (d : a ≢ c) where
  first_round :
      (next : Next) → round next (star ∷ c ∷ s) (star ∷ a ∷ p) 0 0 none 0 ≡ next 1 1 none 0
  unfolding round
  first_round next = ground arith

  second_round : (next : Next) → round next (star ∷ c ∷ s) (star ∷ a ∷ p) 1 1 none 0 ≡ some false
  unfolding round
  second_round next = ground arith

  two_rounds :
      (f k : ℕ) → f ≡ suc (suc k) → loop f (star ∷ c ∷ s) (star ∷ a ∷ p) 0 0 none 0 ≡ some false
  unfolding loop
  two_rounds f k e =
      rw (e, first_round (loop (suc k) (star ∷ c ∷ s) (star ∷ a ∷ p)))
        (second_round (loop k (star ∷ c ∷ s) (star ∷ a ∷ p)))

-- A text that begins with a `*` is refused by a pattern that begins with a `*`, if the pattern's next
-- byte is no wildcard and is not the text's next byte, although the text matches as soon as what
-- follows that byte matches the rest of the pattern.
pub glob_match_misses :
    (a c : ℕ) (p s : Bytes)
    → a ≢ star
    → a ≢ question
    → a ≢ c
    → Matches (a ∷ p) s
    → Matches (star ∷ a ∷ p) (star ∷ c ∷ s)
      × (glob_match (star ∷ c ∷ s) (star ∷ a ∷ p) ≡ some false)
unfolding glob_match
glob_match_misses a c p s n q d m = (
  cover refl (cover refl (leave refl m)),
  two_rounds a c p s n q d _ ((length s + 3) * (length p + 3) - 2) (grind arith),
)
