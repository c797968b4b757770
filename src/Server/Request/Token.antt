-- ===== src/Server/Request/Token.antt =====
-- Which requests carry a token, for `request_has_valid_token` of server.rs.
use macevery.Prelude.{
  ◌≡◌, refl, ap, subst, Bool, true, false, ◌⊎◌, inl, inr, Option, none, some, List, [], ◌∷◌,
  Bool-cases,
}
use macevery.Search.Text.{is_empty}
use macevery.Paths.Ancestors.{bytes_eq_iff}
use macevery.Model.Text.{Text, codes, trim, split_once}
use macevery.Server.Request.{
  lines, split_whitespace, eq_ignore_ascii_case, is_only, parts_match, authorization_value_matches,
  header_line, find_token, skip_one, request_has_valid_token,
}

-- The value of a header is the token, or two words: bearer, in any case, and the token.
abbrev pub Gives : Text → Text → Type 0
Gives value token =
    (value ≡ token)
    ⊎ ((scheme : Text) × (eq_ignore_ascii_case scheme (codes "bearer") ≡ true)
        × (split_whitespace value ≡ scheme ∷ token ∷ []))

-- The line is named authorization, in any case, and its value gives the token.
abbrev pub HoldsToken : Text → Text → Type 0
HoldsToken line token =
    (name value : Text) × (split_once b':' line ≡ some (name, value))
    × (eq_ignore_ascii_case name (codes "authorization") ≡ true)
    × Gives (trim value) token

-- One of the lines before the first empty one holds the token.
abbrev pub Hold : List Text → Text → Type 0
Hold [] token = ⊥
Hold (line ∷ rest) token = (is_empty line ≡ false) × (HoldsToken line token ⊎ Hold rest token)

-- A line of the header, after the request's first line, holds the token.
abbrev pub Carries : Text → Text → Type 0
Carries request token = Hold (skip_one (lines request)) token

false_is_not_true : false ≡ true → ⊥
false_is_not_true h = cc

is_only-eq : (parts : List Text) (token : Text) → is_only parts token ≡ true → parts ≡ token ∷ []
is_only-eq [] token h = absurd (false_is_not_true h)
is_only-eq (t ∷ []) token h = ap (λ u. u ∷ []) ((bytes_eq_iff t token).0 h)
is_only-eq (t ∷ u ∷ ts) token h = absurd (false_is_not_true h)

parts_match-Gives :
    (parts : List Text) (value token : Text)
    → split_whitespace value ≡ parts
    → parts_match parts value token ≡ true
    → Gives value token
parts_match-Gives [] value token e h = absurd (false_is_not_true h)
parts_match-Gives (first ∷ parts) value token e h =
    elim (Bool-cases (eq_ignore_ascii_case first (codes "bearer"))) [
      | inl b ↦ inr (
        first,
        b,
        subst (λ ps. split_whitespace value ≡ first ∷ ps) (is_only-eq parts token (rw b at h)) e,
      )
      | inr b ↦ inl ((bytes_eq_iff value token).0 (rw b at h))
    ]

value-Gives :
    (value token : Text) → authorization_value_matches value token ≡ true → Gives value token
unfolding authorization_value_matches
value-Gives value token h = parts_match-Gives (split_whitespace value) value token refl h

header_line-HoldsToken :
    (line token : Text) (o : Option (Text × Text)) (found : Bool) (Rest : Type 0)
    → split_once b':' line ≡ o
    → header_line o token found ≡ true
    → (found ≡ true → Rest)
    → HoldsToken line token ⊎ Rest
header_line-HoldsToken line token none found Rest e h k = inr (k h)
header_line-HoldsToken line token (some (name, value)) found Rest e h k =
    elim (Bool-cases (eq_ignore_ascii_case name (codes "authorization"))) [
      | inl b ↦ inl (name, value, e, b, value-Gives (trim value) token (rw b at h))
      | inr b ↦ inr (k (rw b at h))
    ]

find_token-Hold : (ls : List Text) (token : Text) → find_token ls token ≡ true → Hold ls token
unfolding find_token
find_token-Hold [] token h = absurd (false_is_not_true h)
find_token-Hold (line ∷ rest) token h = elim (Bool-cases (is_empty line)) [
  | inl e ↦ absurd (false_is_not_true (rw e at h))
  | inr e ↦ (
    e,
    header_line-HoldsToken line token (split_once b':' line) (find_token rest token)
        (Hold rest token) refl (rw e at h) (find_token-Hold rest token),
  )
]

-- A request that is let through as having the token carries it.
pub request_has_valid_token-Carries :
    (request token : Text) → request_has_valid_token request token ≡ true → Carries request token
unfolding request_has_valid_token
request_has_valid_token-Carries request token h = find_token-Hold (skip_one (lines request)) token h

pub refused :
    (request token : Text) → ¬ Carries request token → request_has_valid_token request token ≡ false
refused request token h = elim (Bool-cases (request_has_valid_token request token)) [
  | inl e ↦ absurd (h (request_has_valid_token-Carries request token e))
  | inr e ↦ e
]
