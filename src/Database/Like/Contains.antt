-- ===== src/Database/Like/Contains.antt =====
-- What the patterns of db.rs for a part of a path stand for.
use macevery.Prelude.{
  ℕ, ◌≡◌, refl, sym, ap, ◌∙◌, subst, ◌≢◌, ◌↔◌, ◌⊎◌, inl, inr, arith, ℕ_discrete, [], ◌∷◌, ◌++◌,
  append_assoc,
}
use macevery.Model.Text.{Text}
use macevery.Database.Like.{percent, underscore, backslash, replace, escape_like}
use macevery.Database.Like.Pattern.{
  Like, end, literal, any, quoted, nothing, more, After, quoted_inv, literal_inv,
}

-- How a character is written in front of the rest.
pub data Written (c : ℕ) (v : Text) : Type 0 where
  escaped : escape_like (c ∷ v) ≡ backslash ∷ c ∷ escape_like v → Written c v
  as_it_is :
      (c ≢ percent) × (c ≢ underscore) × (c ≢ backslash)
      → escape_like (c ∷ v) ≡ c ∷ escape_like v
      → Written c v

escape_special :
    (c : ℕ) (v : Text)
    → (c ≡ percent) ⊎ (c ≡ underscore) ⊎ (c ≡ backslash)
    → escape_like (c ∷ v) ≡ backslash ∷ c ∷ escape_like v
unfolding escape_like replace
escape_special c v e = ground (arith, e)

escape_ordinary :
    (c : ℕ) (v : Text)
    → (c ≢ percent) × (c ≢ underscore) × (c ≢ backslash)
    → escape_like (c ∷ v) ≡ c ∷ escape_like v
unfolding escape_like replace
escape_ordinary c v n = ground (arith, n)

written : (c : ℕ) (v : Text) → Written c v
written c v = elim (ℕ_discrete c percent) [
  | yes e ↦ escaped (escape_special c v (inl e))
  | no p ↦ elim (ℕ_discrete c underscore) [
    | yes e ↦ escaped (escape_special c v (inr (inl e)))
    | no q ↦ elim (ℕ_discrete c backslash) [
      | yes e ↦ escaped (escape_special c v (inr (inr e)))
      | no o ↦ as_it_is (p, q, o) (escape_ordinary c v (p, q, o))
    ]
  ]
]

-- The text goes on after the value as the pattern does.
abbrev pub Behind : Text → Text → Text → Type 0
Behind v q s = (r : Text) × (s ≡ v ++ r) × Like q r

After-Behind :
    (c : ℕ) (v q p s : Text)
    → ((t : Text) → Like p t → Behind v q t)
    → After c p s
    → Behind (c ∷ v) q s
After-Behind c v q p [] f h = absurd h
After-Behind c v q p (d ∷ s) f (e, h) =
    let (r, k, l) = f s h in (r, ap (λ x. x ∷ s) (sym e) ∙ ap (λ t. c ∷ t) k, l)

Like→Behind : (v q s : Text) → Like (escape_like v ++ q) s → Behind v q s
unfolding escape_like replace
Like→Behind [] q s h = (s, refl, h)
Like→Behind (c ∷ v) q s h = elim (written c v) [
  | escaped e ↦
      After-Behind c v q (escape_like v ++ q) s (Like→Behind v q)
        (quoted_inv (escape_like v ++ q) s refl (subst (λ p. Like (p ++ q) s) e h))
  | as_it_is n e ↦
      After-Behind c v q (escape_like v ++ q) s (Like→Behind v q)
        (literal_inv (escape_like v ++ q) s n (subst (λ p. Like (p ++ q) s) e h))
]

Behind→Like : (v q r : Text) → Like q r → Like (escape_like v ++ q) (v ++ r)
unfolding escape_like replace
Behind→Like [] q r h = h
Behind→Like (c ∷ v) q r h = elim (written c v) [
  | escaped e ↦
      subst (λ p. Like (p ++ q) (c ∷ v ++ r)) (sym e) (quoted refl refl (Behind→Like v q r h))
  | as_it_is n e ↦
      subst (λ p. Like (p ++ q) (c ∷ v ++ r)) (sym e) (literal n refl (Behind→Like v q r h))
]

percent→ : (p s : Text) → Like (percent ∷ p) s → (x r : Text) × (s ≡ x ++ r) × Like p r
percent→ p _ (literal n f d) = absurd (n.0 refl)
percent→ p _ (any f d) = absurd (omega arith)
percent→ p _ (quoted f g d) = absurd (omega arith)
percent→ p s (nothing f d) = ([], s, refl, d)
percent→ p (c ∷ s) (more f d) =
    let (x, r, e, h) = percent→ p s d in (c ∷ x, r, ap (λ t. c ∷ t) e, h)

percent← : (x p r : Text) → Like p r → Like (percent ∷ p) (x ++ r)
percent← [] p r h = nothing refl h
percent← (c ∷ x) p r h = more refl (percent← x p r h)

everything : (s : Text) → Like (percent ∷ []) s
everything [] = nothing refl end
everything (c ∷ s) = more refl (everything s)

-- LIKE takes the pattern for a part exactly for the texts in which the value stands, whatever
-- characters the value has that mean something to LIKE.
pub escape_like_iff :
    (v s : Text)
    → Like (percent ∷ (escape_like v ++ percent ∷ [])) s ↔ ((x y : Text) × (s ≡ x ++ v ++ y))
escape_like_iff v s = (
  (λ h.
      let (x, r, e, k) = percent→ (escape_like v ++ percent ∷ []) s h in
      let (y, f, l) = Like→Behind v (percent ∷ []) r k in
      (x, y, e ∙ ap (λ t. x ++ t) f ∙ sym (append_assoc x v y))),
  (λ (x, y, e).
      subst (λ t. Like (percent ∷ (escape_like v ++ percent ∷ [])) t) (sym (e ∙ append_assoc x v y))
        (percent← x (escape_like v ++ percent ∷ []) (v ++ y)
          (Behind→Like v (percent ∷ []) y (everything y)))),
)
