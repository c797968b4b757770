-- ===== src/Database/Like/Pattern.antt =====
-- What the patterns of db.rs stand for when SQLite matches them with a backslash as the escape.
use macevery.Prelude.{ℕ, ◌≡◌, ◌≢◌, arith, [], ◌∷◌}
use macevery.Search.Glob.{star, question}
use macevery.Search.Glob.Matches.{Matches}
use macevery.Model.Text.{Text}
use macevery.Database.Like.{percent, underscore, backslash, like_char}

-- LIKE with a backslash as the escape, for texts and patterns that are in lower case.
pub data Like : Text → Text → Type 0 where
  end : Like [] []
  literal :
      {a c : ℕ} {p s : Text}
      → (a ≢ percent) × (a ≢ underscore) × (a ≢ backslash)
      → a ≡ c
      → Like p s
      → Like (a ∷ p) (c ∷ s)
  any : {a c : ℕ} {p s : Text} → a ≡ underscore → Like p s → Like (a ∷ p) (c ∷ s)
  quoted : {a b c : ℕ} {p s : Text} → a ≡ backslash → b ≡ c → Like p s → Like (a ∷ b ∷ p) (c ∷ s)
  nothing : {a : ℕ} {p s : Text} → a ≡ percent → Like p s → Like (a ∷ p) s
  more : {a c : ℕ} {p s : Text} → a ≡ percent → Like (a ∷ p) s → Like (a ∷ p) (c ∷ s)

-- A text that begins with the character, and goes on as the pattern does.
abbrev pub After : ℕ → Text → Text → Type 0
After c p [] = ⊥
After c p (d ∷ s) = (c ≡ d) × Like p s

pub quoted_inv : {a c : ℕ} (p s : Text) → a ≡ backslash → Like (a ∷ c ∷ p) s → After c p s
quoted_inv p _ e (literal n f d) = absurd (n.2 e)
quoted_inv p _ e (any f d) = absurd (omega arith)
quoted_inv p _ e (quoted f g d) = (g, d)
quoted_inv p _ e (nothing f d) = absurd (omega arith)
quoted_inv p _ e (more f d) = absurd (omega arith)

pub literal_inv :
    {c : ℕ} (p s : Text)
    → (c ≢ percent) × (c ≢ underscore) × (c ≢ backslash)
    → Like (c ∷ p) s
    → After c p s
literal_inv p _ n (literal m f d) = (f, d)
literal_inv p _ n (any f d) = absurd (n.1 f)
literal_inv p _ n (quoted f g d) = absurd (n.2 f)
literal_inv p _ n (nothing f d) = absurd (n.0 f)
literal_inv p _ n (more f d) = absurd (n.0 f)

-- The arms of `like_char`, by the character.
pub data Class (c : ℕ) : Type 0 where
  a_star : c ≡ star → Class c
  a_question : c ≡ question → Class c
  special : (c ≢ star) × (c ≢ question) → ((r : Text) → like_char c r ≡ backslash ∷ c ∷ r) → Class c
  ordinary :
      (c ≢ star) × (c ≢ question)
      → (c ≢ percent) × (c ≢ underscore) × (c ≢ backslash)
      → ((r : Text) → like_char c r ≡ c ∷ r)
      → Class c
