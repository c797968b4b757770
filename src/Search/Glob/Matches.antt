-- ===== src/Search/Glob/Matches.antt =====
-- What it means for a text to match a glob pattern, with no search order in it.
use macevery.Prelude.{ℕ, ◌≡◌, refl, ◌≢◌, ◌↔◌, ◌⊎◌, true, [], ◌∷◌, arith}
use macevery.Search.Text.{Bytes}
use macevery.Search.Glob.{star, question, only_stars}

-- The pattern byte `a` stands for the text byte `c`.
abbrev pub Stands : ℕ → ℕ → Type 0
Stands a c = (a ≢ star) × ((a ≡ question) ⊎ (a ≡ c))

pub data Matches : Bytes → Bytes → Type 0 where
  empty : Matches [] []
  byte : {a c : ℕ} {p s : Bytes} → Stands a c → Matches p s → Matches (a ∷ p) (c ∷ s)
  leave : {a : ℕ} {p s : Bytes} → a ≡ star → Matches p s → Matches (a ∷ p) s
  cover : {a c : ℕ} {p s : Bytes} → a ≡ star → Matches (a ∷ p) s → Matches (a ∷ p) (c ∷ s)

module _ {p : Bytes} where
  pub byte_inv :
      {a c : ℕ} {s : Bytes} → a ≢ star → Matches (a ∷ p) (c ∷ s) → Stands a c × Matches p s
  byte_inv n (byte h d) = (h, d)
  byte_inv n (leave e d) = absurd (n e)
  byte_inv n (cover e d) = absurd (n e)

  pub star_at_end : {a : ℕ} → a ≡ star → Matches (a ∷ p) [] → Matches p []
  star_at_end e (leave f d) = d

  -- A star that may not stand for nothing covers the first byte.
  pub must_cover :
      {a c : ℕ} {s : Bytes}
      → a ≡ star
      → Matches (a ∷ p) (c ∷ s)
      → ¬ Matches p (c ∷ s)
      → Matches (a ∷ p) s
  must_cover e (byte h d) n = absurd (h.0 e)
  must_cover e (leave f d) n = absurd (n d)
  must_cover e (cover f d) n = d

  pub two_stars :
      {a b : ℕ} {s : Bytes} → a ≡ star → b ≡ star → Matches (a ∷ b ∷ p) s → Matches (b ∷ p) s
  two_stars e f (byte h d) = absurd (h.0 e)
  two_stars e f (leave g d) = d
  two_stars e f (cover g d) = cover f (two_stars e f d)

  -- Wherever the byte after a star is matched, the rest of the pattern begins behind the first byte.
  pub drop_byte :
      {a b c : ℕ} (s : Bytes)
      → a ≡ star
      → b ≢ star
      → Matches (a ∷ b ∷ p) (c ∷ s)
      → Matches (a ∷ p) s
  drop_byte s e n (byte h d) = absurd (h.0 e)
  drop_byte s e n (leave f (byte h d)) = leave e d
  drop_byte s e n (leave f (leave g d)) = absurd (n g)
  drop_byte s e n (leave f (cover g d)) = absurd (n g)
  drop_byte [] e n (cover f (leave g (leave k d))) = absurd (n k)
  drop_byte (c ∷ s) e n (cover f d) = cover e (drop_byte s e n d)

only_stars→Matches : (p : Bytes) → only_stars p ≡ true → Matches p []
unfolding only_stars
only_stars→Matches [] h = empty
only_stars→Matches (c ∷ p) h = leave (ground (arith, h)) (only_stars→Matches p (ground (arith, h)))

Matches→only_stars : {p : Bytes} → Matches p [] → only_stars p ≡ true
unfolding only_stars
Matches→only_stars empty = refl
Matches→only_stars (leave e d) = ground (arith, e, Matches→only_stars d)

pub only_stars_iff : (p : Bytes) → (only_stars p ≡ true) ↔ Matches p []
only_stars_iff p = (only_stars→Matches p, Matches→only_stars)
