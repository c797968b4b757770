-- ===== src/Search/Query/Bounds.antt =====
-- What a match costs at least, where it is not a match of the basename's beginning.
use macevery.Prelude.{
  ℕ, ◌≤◌, ◌≡◌, refl, ap, Bool, true, false, Option, none, some, List, [], ◌∷◌, arith, inl, inr,
  Bool-cases, Option-cases,
}
use macevery.Prelude.Int.{ℤ, pos, ◌≤ℤ◌}
use macevery.Search.Text.{Bytes, bytes_eq, starts_with}
use macevery.Search.Query.{
  PreparedQuery, PreparedTerm, occurrence_score, term_score, terms_score, add_scores,
  term_score_with, rank_lowered,
}
use macevery.Paths.Ancestors.{bytes_eq_iff}

starts_with_refl : (s : Bytes) → starts_with s s ≡ true
unfolding starts_with
starts_with_refl [] = refl
starts_with_refl (c ∷ s) = ground (arith, starts_with_refl s)

not_equal :
    (basename token : Bytes) → starts_with basename token ≡ false → bytes_eq basename token ≡ false
not_equal basename token h = elim (Bool-cases (bytes_eq basename token)) [
  | inr e ↦ e
  | inl e ↦ absurd (differ (starts_with_refl token) (rw ((bytes_eq_iff basename token).0 e) at h))
]
  where
    differ : {b : Bool} → b ≡ true → b ≡ false → ⊥
    differ h k = cc

term_bound :
    (q : PreparedQuery) (term : PreparedTerm) (path basename : Bytes) (n : ℕ)
    → q.options.path_only ≡ false
    → starts_with basename term.finder.value ≡ false
    → term_score_with q none term path basename ≡ some n
    → 250 ≤ n
unfolding occurrence_score
term_bound q term path basename n o h e =
    ground (arith, o, h, e, not_equal basename term.finder.value h)

terms_bound :
    (q : PreparedQuery) (ts : List PreparedTerm) (term : PreparedTerm) (path basename : Bytes)
    (n : ℕ)
    → q.options.path_only ≡ false
    → ts ≡ term ∷ []
    → term.glob ≡ none
    → starts_with basename term.finder.value ≡ false
    → terms_score q ts path basename ≡ some n
    → 250 ≤ n
unfolding terms_score term_score
terms_bound q ts term path basename n o t g h e =
    let u = ap (λ x. terms_score q x path basename) t in
    let v = ap (λ x. term_score_with q x term path basename) g in
    elim (Option-cases (term_score_with q none term path basename)) [
      | inl w ↦ absurd (nothing _ _ u v w e)
      | inr (m, w) ↦ omega (arith, term_bound q term path basename m o h w, sum _ _ m n u v w e)
    ]
  where
    nothing :
        (s : Option ℕ) (x : Option ℕ) {y : Option ℕ}
        → s ≡ add_scores x (some 0)
        → x ≡ y
        → y ≡ none
        → s ≡ some n
        → ⊥
    nothing s x a b c d = cc

    sum :
        (s : Option ℕ) (x : Option ℕ) {y : Option ℕ} (m k : ℕ)
        → s ≡ add_scores x (some 0)
        → x ≡ y
        → y ≡ some m
        → s ≡ some k
        → k ≡ m
    sum s x m k a b c d = ground (arith, a, b, c, d)

-- With one term that is no glob, a record whose basename does not begin with the term scores at least
-- 250, fuzzy matches included.
pub rank_lowered-not_prefix :
    (q : PreparedQuery) (term : PreparedTerm) (path basename : Bytes) (path_len : ℕ)
    (mtime : Option ℤ) (score : ℤ)
    → q.options.path_only ≡ false
    → q.terms_ ≡ term ∷ []
    → term.glob ≡ none
    → starts_with basename term.finder.value ≡ false
    → rank_lowered q path basename path_len mtime ≡ some score
    → pos 250 ≤ℤ score
unfolding rank_lowered terms_score term_score
rank_lowered-not_prefix q term path basename path_len mtime score o t g h e =
    elim (Option-cases (terms_score q q.terms_ path basename)) [
      | inl u ↦ ground (arith, e, t, u)
      | inr (n, u) ↦ ground (arith, e, t, u, terms_bound q q.terms_ term path basename n o t g h u)
    ]
