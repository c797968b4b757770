-- ===== src/Search/Owned/Passes.antt =====
-- The passes of `search` over the rows: what one of them selects, and when the pass over the basenames
-- with a prefix may stand for the pass over all rows.
use mathlib.Core.List.{Permᴰ}
use macevery.Prelude.{
  ℕ, ◌≡◌, refl, true, false, Option, none, some, List, [], ◌∷◌, ◌++◌, take, length, arith, sym, ◌∙◌,
  ap, subst, All,
}
use macevery.Prelude.Int.{ℤ, pos, ◌≤ℤ◌}
use macevery.Search.Text.{Bytes, starts_with}
use macevery.Search.Heap.{sort_onto}
use macevery.Search.Query.{PreparedQuery, PreparedTerm}
use macevery.Search.Query.Bounds.{rank_lowered-not_prefix}
use macevery.Search.Owned.{
  DbRecordRef, OwnedTopHits, cmp, new, lowered_path, score_of, admit_if, admit_all, consider_record,
  consider_all, is_complete_below, finish,
}
use macevery.Search.Owned.Refinement.{
  hits_of, AreKeyed, ScoreFrom, finish-admit_all, finish-is_complete_below,
}

-- The basename does not begin with the term.
abbrev pub IsNotPrefixed : PreparedTerm → DbRecordRef → Type 0
IsNotPrefixed term row = starts_with row.basename_lower term.finder.value ≡ false

-- The id of a row decides the row.
abbrev pub AreRows : (ℤ → DbRecordRef) → List DbRecordRef → Type 0
AreRows table rows = All (λ row. table row.id ≡ row) rows

abbrev pub add_row : DbRecordRef → Option ℤ → List (ℤ × DbRecordRef) → List (ℤ × DbRecordRef)
add_row row none rest = rest
add_row row (some score) rest = (score, row) ∷ rest

add_row-append :
    (row : DbRecordRef) (o : Option ℤ) (xs ys : List (ℤ × DbRecordRef))
    → add_row row o (xs ++ ys) ≡ add_row row o xs ++ ys
add_row-append row none xs ys = refl
add_row-append row (some score) xs ys = refl

add_row-perm :
    (row : DbRecordRef) (o : Option ℤ) {xs ys : List (ℤ × DbRecordRef)}
    → Permᴰ xs ys
    → Permᴰ (add_row row o xs) (add_row row o ys)
add_row-perm row none p = p
add_row-perm row (some score) p = Permᴰ.cons refl p

perm_refl : (l : List (ℤ × DbRecordRef)) → Permᴰ l l
perm_refl [] = Permᴰ.nil
perm_refl (x ∷ l) = Permᴰ.cons refl (perm_refl l)

add_rows-swap :
    (a b : DbRecordRef) (o p : Option ℤ) (l : List (ℤ × DbRecordRef))
    → Permᴰ (add_row a o (add_row b p l)) (add_row b p (add_row a o l))
add_rows-swap a b none p l = perm_refl (add_row b p l)
add_rows-swap a b (some s) none l = perm_refl ((s, a) ∷ l)
add_rows-swap a b (some s) (some t) l = Permᴰ.swap refl refl

module _ (to_lowercase : Bytes → Bytes) (query : PreparedQuery) where
  -- The rows that match, with their scores.
  abbrev pub matching : List DbRecordRef → List (ℤ × DbRecordRef)
  matching [] = []
  matching (row ∷ rows) = add_row row (score_of to_lowercase query row) (matching rows)

  consider_row :
      (t : OwnedTopHits) (row : DbRecordRef) (o : Option ℤ) (rest : List (ℤ × DbRecordRef))
      → admit_all to_lowercase (admit_if to_lowercase t row o) rest
        ≡ admit_all to_lowercase t (add_row row o rest)
  unfolding admit_all
  consider_row t row none rest = refl
  consider_row t row (some score) rest = refl

  consider_all-matching :
      (t : OwnedTopHits) (rows : List DbRecordRef)
      → consider_all to_lowercase query t rows ≡ admit_all to_lowercase t (matching rows)
  unfolding consider_all consider_record admit_all
  consider_all-matching t [] = refl
  consider_all-matching t (row ∷ rows) =
      consider_all-matching (consider_record to_lowercase query t row) rows
      ∙ consider_row t row (score_of to_lowercase query row) (matching rows)

  -- A pass over the rows ends with the first `limit` hits, in order, of all rows that match the query.
  pub finish-consider_all :
      (limit : ℕ) (rows : List DbRecordRef)
      → finish (consider_all to_lowercase query (new limit) rows)
        ≡ take limit (sort_onto cmp (hits_of to_lowercase (matching rows)) [])
  finish-consider_all limit rows =
      ap finish (consider_all-matching (new limit) rows)
      ∙ finish-admit_all to_lowercase limit (matching rows)

  matching-append : (xs ys : List DbRecordRef) → matching (xs ++ ys) ≡ matching xs ++ matching ys
  matching-append [] ys = refl
  matching-append (row ∷ xs) ys =
      ap (add_row row (score_of to_lowercase query row)) (matching-append xs ys)
      ∙ add_row-append row (score_of to_lowercase query row) (matching xs) (matching ys)

  matching-perm : {xs ys : List DbRecordRef} → Permᴰ xs ys → Permᴰ (matching xs) (matching ys)
  matching-perm Permᴰ.nil = Permᴰ.nil
  matching-perm (Permᴰ.cons {a = a} {l₁ = xs} {l₂ = ys} e p) =
      subst (λ b. Permᴰ (matching (a ∷ xs)) (matching (b ∷ ys))) e
        (add_row-perm a (score_of to_lowercase query a) (matching-perm p))
  matching-perm (Permᴰ.swap {a = a} {b = b} {b' = d} {l = l} e f) =
      subst (λ c. Permᴰ (matching (a ∷ b ∷ l)) (matching (c ∷ d ∷ l))) f
        (subst (λ c. Permᴰ (matching (a ∷ b ∷ l)) (matching (b ∷ c ∷ l))) e
          (add_rows-swap a b (score_of to_lowercase query a) (score_of to_lowercase query b)
            (matching l)))
  matching-perm (Permᴰ.trans p q) = Permᴰ.trans (matching-perm p) (matching-perm q)

  abbrev pub or_zero : Option ℤ → ℤ
  or_zero none = pos 0
  or_zero (some z) = z

  abbrev pub scored : DbRecordRef → ℤ × DbRecordRef
  scored row = (or_zero (score_of to_lowercase query row), row)

  add_row-AreKeyed :
      (table : ℤ → DbRecordRef) (row : DbRecordRef) (o : Option ℤ) (rest : List (ℤ × DbRecordRef))
      → score_of to_lowercase query row ≡ o
      → table row.id ≡ row
      → AreKeyed to_lowercase (λ id. scored (table id)) rest
      → AreKeyed to_lowercase (λ id. scored (table id)) (add_row row o rest)
  add_row-AreKeyed table row none rest e k h = h
  add_row-AreKeyed table row (some score) rest e k h =
      (ap scored k ∙ ap (λ o. (or_zero o, row)) e, h)

  matching-AreKeyed :
      (table : ℤ → DbRecordRef) (rows : List DbRecordRef)
      → AreRows table rows
      → AreKeyed to_lowercase (λ id. scored (table id)) (matching rows)
  matching-AreKeyed table [] k = tt
  matching-AreKeyed table (row ∷ rows) k =
      add_row-AreKeyed table row (score_of to_lowercase query row) (matching rows) refl k.0
        (matching-AreKeyed table rows k.1)

  module _ (term : PreparedTerm) (names : query.options.path_only ≡ false)
      (one : query.terms_ ≡ term ∷ []) (plain : term.glob ≡ none) where
    score_of-not_prefix :
        (row : DbRecordRef) (score : ℤ)
        → IsNotPrefixed term row
        → score_of to_lowercase query row ≡ some score
        → pos 250 ≤ℤ score
    unfolding score_of
    score_of-not_prefix row score n e =
        rank_lowered-not_prefix query term (lowered_path to_lowercase row) row.basename_lower
          (length row.path) row.mtime score names one plain n (ground (arith, e))

    add_row-ScoreFrom :
        (row : DbRecordRef) (o : Option ℤ) (rest : List (ℤ × DbRecordRef))
        → IsNotPrefixed term row
        → score_of to_lowercase query row ≡ o
        → ScoreFrom to_lowercase (pos 250) rest
        → ScoreFrom to_lowercase (pos 250) (add_row row o rest)
    add_row-ScoreFrom row none rest n e h = h
    add_row-ScoreFrom row (some score) rest n e h =
        (ground (arith, score_of-not_prefix row score n e), h)

    matching-ScoreFrom :
        (rows : List DbRecordRef)
        → All (IsNotPrefixed term) rows
        → ScoreFrom to_lowercase (pos 250) (matching rows)
    matching-ScoreFrom [] n = tt
    matching-ScoreFrom (row ∷ rows) n =
        add_row-ScoreFrom row (score_of to_lowercase query row) (matching rows) n.0 refl
          (matching-ScoreFrom rows n.1)

    -- With one term that is no glob, and names searched: a pass over some of the rows selects what a
    -- pass over all rows does, in whatever order that one meets them, if it is complete below 250. The
    -- conditions are that no other row's basename begins with the term and that the id of a row decides
    -- the row.
    pub finish-prefix_pass :
        (limit : ℕ) (rows rest every : List DbRecordRef) (table : ℤ → DbRecordRef)
        → Permᴰ (rows ++ rest) every
        → AreRows table (rows ++ rest)
        → All (IsNotPrefixed term) rest
        → is_complete_below (consider_all to_lowercase query (new limit) rows) (pos 250) ≡ true
        → finish (consider_all to_lowercase query (new limit) rows)
          ≡ finish (consider_all to_lowercase query (new limit) every)
    finish-prefix_pass limit rows rest every table p k n c =
        let e = consider_all-matching (new limit) rows in
        let join = matching-append rows rest in
        ap finish e
        ∙ finish-is_complete_below to_lowercase limit (pos 250) (matching rows) (matching rest)
            (matching every) (λ id. scored (table id))
            (subst (λ l. Permᴰ l (matching every)) join (matching-perm p))
            (subst (AreKeyed to_lowercase (λ id. scored (table id))) join
              (matching-AreKeyed table (rows ++ rest) k))
            (subst (λ t. is_complete_below t (pos 250) ≡ true) e c) (matching-ScoreFrom rest n)
        ∙ ap finish (sym (consider_all-matching (new limit) every))
