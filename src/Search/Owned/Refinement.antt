-- ===== src/Search/Owned/Refinement.antt =====
-- What a pass over the rows selects.
use mathlib.Core.List.{Permᴰ}
use macevery.Prelude.{
  ℕ, ◌≡◌, refl, true, false, not, some, List, [], ◌∷◌, ◌++◌, Ordering, length, take, take_all,
  arith, sym, ◌∙◌, ap, Option-cases, inl, inr,
}
use macevery.Prelude.Int.{ℤ, ltb_ℤ}
use macevery.Prelude.Compare.{
  is_lt, IsComparison, IsComparison-on, IsComparison-on_reverse, IsComparison-then,
  IsComparison-compare, IsComparison-compare_ℤ, IsComparison-compare_option,
  IsComparison-compare_list, eq_of_compare_ℤ,
}
use macevery.Search.Text.{Bytes}
use macevery.Search.Heap.{peek, worst_is_above, offer, offer_all, sort_onto}
use macevery.Search.Heap.Selection.{offer_all-take}
use macevery.Search.Heap.Permute.{All, sort_onto-perm, NoneBelow, offer_all-NoneBelow}
use macevery.Search.Owned.{
  DbRecordRef, OwnedRankedHit, OwnedTopHits, cmp, compare_ref, new, lowered_path, hit_of,
  keeps_worst, admit_scored, admit_all, worst_is_below, is_complete_below, finish,
}

pub cmp-IsComparison : IsComparison cmp
unfolding cmp
cmp-IsComparison = IsComparison-then (IsComparison-on (λ h. h.score) IsComparison-compare_ℤ) (
    IsComparison-then
      (IsComparison-on_reverse (λ h. h.record_.mtime)
        (IsComparison-compare_option IsComparison-compare_ℤ))
      (IsComparison-then (IsComparison-on (λ h. length h.record_.path) IsComparison-compare) (
        IsComparison-then
          (IsComparison-on (λ h. h.record_.path) (IsComparison-compare_list IsComparison-compare))
          (IsComparison-on (λ h. h.record_.id) IsComparison-compare_ℤ))))

module _ (to_lowercase : Bytes → Bytes) where
  abbrev pub hits_of : List (ℤ × DbRecordRef) → List OwnedRankedHit
  hits_of [] = []
  hits_of ((score, row) ∷ rows) = hit_of score (lowered_path to_lowercase row) row ∷ hits_of rows

  compare_ref_lem :
      (w : OwnedRankedHit) (score : ℤ) (row : DbRecordRef)
      → compare_ref w score row ≡ cmp (hit_of score (lowered_path to_lowercase row) row) w
  unfolding compare_ref cmp hit_of
  compare_ref_lem w score row = refl

  peek-some :
      (x : OwnedRankedHit) (l : List OwnedRankedHit)
      → (w : OwnedRankedHit) × (peek (x ∷ l) ≡ some w)
  peek-some x [] = (x, refl)
  peek-some x (y ∷ l) = peek-some y l

  -- Where the heap is full, the early return is the round that changes nothing.
  keeps_worst_lem :
      (x : OwnedRankedHit) (l : List OwnedRankedHit) (score : ℤ) (row : DbRecordRef)
      → keeps_worst (peek (x ∷ l)) score row
        ≡ not (worst_is_above cmp (hit_of score (lowered_path to_lowercase row) row) (peek (x ∷ l)))
  unfolding keeps_worst
  keeps_worst_lem x l score row =
      let (w, e) = peek-some x l in rw e (ap (λ o. not (is_lt o)) (compare_ref_lem w score row))

  admit_hits :
      (hits : List OwnedRankedHit) (limit : ℕ) (score : ℤ) (row : DbRecordRef)
      → admit_scored to_lowercase (record { hits = hits; limit = limit }) score row ≡ record {
        hits = offer cmp limit (hit_of score (lowered_path to_lowercase row) row) hits;
        limit = limit;
      }
  unfolding admit_scored offer
  admit_hits [] limit score row = ground arith
  admit_hits (x ∷ l) limit score row = ground (arith, keeps_worst_lem x l score row)

  admit_scored-offer :
      (t : OwnedTopHits) (score : ℤ) (row : DbRecordRef)
      → admit_scored to_lowercase t score row ≡ record t {
        hits = offer cmp t.limit (hit_of score (lowered_path to_lowercase row) row) t.hits;
      }
  admit_scored-offer t score row = admit_hits t.hits t.limit score row

  admit_all-offer_all :
      (t : OwnedTopHits) (rows : List (ℤ × DbRecordRef))
      → admit_all to_lowercase t rows
        ≡ record t { hits = offer_all cmp t.limit (hits_of rows) t.hits }
  unfolding admit_all offer_all
  admit_all-offer_all t [] = refl
  admit_all-offer_all t ((score, row) ∷ rows) = rw (admit_scored-offer t score row) (
      admit_all-offer_all
        (record t {
          hits = offer cmp t.limit (hit_of score (lowered_path to_lowercase row) row) t.hits;
        })
        rows)

  -- A pass over the rows ends with the first `limit` hits of all of them in order.
  pub finish-admit_all :
      (limit : ℕ) (rows : List (ℤ × DbRecordRef))
      → finish (admit_all to_lowercase (new limit) rows)
        ≡ take limit (sort_onto cmp (hits_of rows) [])
  unfolding finish new
  finish-admit_all limit rows = rw (admit_all-offer_all (new limit) rows) (
      ap (offer_all cmp limit (hits_of rows)) (sym (take_all limit [] (omega arith)))
      ∙ offer_all-take cmp-IsComparison limit (hits_of rows) [] tt)

  hits_of-append : (xs ys : List (ℤ × DbRecordRef)) → hits_of (xs ++ ys) ≡ hits_of xs ++ hits_of ys
  hits_of-append [] ys = refl
  hits_of-append ((score, row) ∷ xs) ys =
      ap (λ l. hit_of score (lowered_path to_lowercase row) row ∷ l) (hits_of-append xs ys)

  abbrev pub hit_at : ℤ × DbRecordRef → OwnedRankedHit
  hit_at (score, row) = hit_of score (lowered_path to_lowercase row) row

  hits_of-perm : {xs ys : List (ℤ × DbRecordRef)} → Permᴰ xs ys → Permᴰ (hits_of xs) (hits_of ys)
  hits_of-perm Permᴰ.nil = Permᴰ.nil
  hits_of-perm (Permᴰ.cons e p) = Permᴰ.cons (ap hit_at e) (hits_of-perm p)
  hits_of-perm (Permᴰ.swap e f) = Permᴰ.swap (ap hit_at e) (ap hit_at f)
  hits_of-perm (Permᴰ.trans p q) = Permᴰ.trans (hits_of-perm p) (hits_of-perm q)

  -- The key of a row decides the row and its score.
  abbrev pub AreKeyed : (ℤ → ℤ × DbRecordRef) → List (ℤ × DbRecordRef) → Type 0
  AreKeyed table [] = Unit
  AreKeyed table (r ∷ rs) = (table r.1.id ≡ r) × AreKeyed table rs

  abbrev pub ScoreFrom : ℤ → List (ℤ × DbRecordRef) → Type 0
  ScoreFrom bound [] = Unit
  ScoreFrom bound ((score, row) ∷ rs) = (ltb_ℤ score bound ≡ false) × ScoreFrom bound rs

  abbrev pub IsKeyed : (ℤ → ℤ × DbRecordRef) → OwnedRankedHit → Type 0
  IsKeyed table h = hit_at (table h.record_.id) ≡ h

  IsKeyed_same :
      (table : ℤ → ℤ × DbRecordRef) (a b : OwnedRankedHit)
      → IsKeyed table a
      → IsKeyed table b
      → cmp a b ≡ Ordering.eq
      → a ≡ b
  unfolding cmp
  IsKeyed_same table a b h k e =
      let i = eq_of_compare_ℤ a.record_.id b.record_.id (ground (arith, e)) in
      sym h ∙ ap (λ x. hit_at (table x)) i ∙ k

  AreKeyed-All :
      (table : ℤ → ℤ × DbRecordRef) (rows : List (ℤ × DbRecordRef))
      → AreKeyed table rows
      → All cmp-IsComparison (IsKeyed table) (IsKeyed_same table) (hits_of rows)
  unfolding hit_of
  AreKeyed-All table [] k = tt
  AreKeyed-All table ((score, row) ∷ rs) k = (ap hit_at k.0, AreKeyed-All table rs k.1)

  none_below :
      (bound : ℤ) (w : OwnedRankedHit) (rows : List (ℤ × DbRecordRef))
      → ltb_ℤ w.score bound ≡ true
      → ScoreFrom bound rows
      → NoneBelow cmp w (hits_of rows)
  unfolding cmp hit_of
  none_below bound w [] l s = tt
  none_below bound w ((score, row) ∷ rs) l s = (ground (arith, l, s.0), none_below bound w rs l s.1)

  complete_below_rest :
      (t : OwnedTopHits) (bound : ℤ) (rest : List (ℤ × DbRecordRef))
      → is_complete_below t bound ≡ true
      → ScoreFrom bound rest
      → offer_all cmp t.limit (hits_of rest) t.hits ≡ t.hits
  unfolding is_complete_below worst_is_below
  complete_below_rest t bound rest c s = elim (Option-cases (peek t.hits)) [
    | inl e ↦ ground (arith, c, e)
    | inr (w, e) ↦
        offer_all-NoneBelow cmp t.limit (hits_of rest) t.hits w (ground (arith, c)) e
          (none_below bound w rest (ground (arith, c, e)) s)
  ]

  admit_all-append :
      (t : OwnedTopHits) (xs ys : List (ℤ × DbRecordRef))
      → admit_all to_lowercase t (xs ++ ys)
        ≡ admit_all to_lowercase (admit_all to_lowercase t xs) ys
  unfolding admit_all
  admit_all-append t [] ys = refl
  admit_all-append t ((score, row) ∷ xs) ys =
      admit_all-append (admit_scored to_lowercase t score row) xs ys

  -- Two passes over the same rows select the same hits, in whatever order they meet the rows, where
  -- the id of a row decides the row and its score.
  pub finish-perm :
      (limit : ℕ) (rows every : List (ℤ × DbRecordRef)) (table : ℤ → ℤ × DbRecordRef)
      → Permᴰ rows every
      → AreKeyed table rows
      → finish (admit_all to_lowercase (new limit) rows)
        ≡ finish (admit_all to_lowercase (new limit) every)
  finish-perm limit rows every table p k =
      finish-admit_all limit rows
      ∙ ap (take limit) (
          sort_onto-perm cmp-IsComparison (IsKeyed table) (IsKeyed_same table) (hits_of-perm p) []
            (AreKeyed-All table rows k))
      ∙ sym (finish-admit_all limit every)

  finish_complete :
      (t : OwnedTopHits) (bound : ℤ) (rest : List (ℤ × DbRecordRef))
      → is_complete_below t bound ≡ true
      → ScoreFrom bound rest
      → finish (admit_all to_lowercase t rest) ≡ finish t
  unfolding finish
  finish_complete t bound rest c s =
      rw (admit_all-offer_all t rest) (complete_below_rest t bound rest c s)

  -- A pass over some of the rows that is complete below a bound selects what a pass over all of them
  -- does, in whatever order that one meets them, where no other row scores below the bound and the
  -- id of a row decides the row.
  pub finish-is_complete_below :
      (limit : ℕ) (bound : ℤ) (rows rest every : List (ℤ × DbRecordRef))
      (table : ℤ → ℤ × DbRecordRef)
      → Permᴰ (rows ++ rest) every
      → AreKeyed table (rows ++ rest)
      → is_complete_below (admit_all to_lowercase (new limit) rows) bound ≡ true
      → ScoreFrom bound rest
      → finish (admit_all to_lowercase (new limit) rows)
        ≡ finish (admit_all to_lowercase (new limit) every)
  finish-is_complete_below limit bound rows rest every table p k c s =
      sym (finish_complete (admit_all to_lowercase (new limit) rows) bound rest c s)
      ∙ ap finish (sym (admit_all-append (new limit) rows rest))
      ∙ finish-perm limit (rows ++ rest) every table p k
