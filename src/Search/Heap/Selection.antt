-- ===== src/Search/Heap/Selection.antt =====
-- The bounded selection of search.rs against the sorted list of all hits.
use macevery.Prelude.{
  ℕ, zero, suc, ◌<◌, ◌≡◌, refl, inl, inr, true, false, some, List, [], ◌∷◌, arith, Ordering,
  if◌then◌else◌, ltb, length, take, Bool-cases, get_elem?, length-take, take_all, ap, sym, ◌∙◌,
}
use macevery.Prelude.Compare.{IsComparison, le_trans, lt_asym}
use macevery.Search.Heap.{
  below, push, peek, drop_last, replace_worst, offer, offer_all, sort_onto, AllAtLeast, IsSorted,
}

module _ {ℓ} {A : Type ℓ} {cmp : A → A → Ordering} (o : IsComparison cmp) where
  AllAtLeast-push :
      (x h : A) (l : List A)
      → below cmp h x ≡ false
      → AllAtLeast cmp x l
      → AllAtLeast cmp x (push cmp h l)
  unfolding push
  AllAtLeast-push x h [] p q = (p, tt)
  AllAtLeast-push x h (y ∷ l) p q = ground (arith, AllAtLeast-push x h l p q.1)

  AllAtLeast-trans :
      (x y : A) (l : List A) → below cmp y x ≡ false → AllAtLeast cmp y l → AllAtLeast cmp x l
  AllAtLeast-trans x y [] p q = tt
  AllAtLeast-trans x y (z ∷ l) p q = (le_trans o x y z p q.0, AllAtLeast-trans x y l p q.1)

  pub push-IsSorted : (h : A) (l : List A) → IsSorted cmp l → IsSorted cmp (push cmp h l)
  unfolding push
  push-IsSorted h [] s = (tt, tt)
  push-IsSorted h (x ∷ l) s = elim (Bool-cases (below cmp h x)) [
    | inl e ↦ let p = lt_asym o h x e in rw e ((p, AllAtLeast-trans h x l p s.0), s)
    | inr e ↦ rw e (AllAtLeast-push x h l e s.0, push-IsSorted h l s.1)
  ]

  AllAtLeast-get_elem? :
      (x w : A) (l : List A) (k : ℕ)
      → AllAtLeast cmp x l
      → get_elem? l k ≡ some w
      → below cmp w x ≡ false
  AllAtLeast-get_elem? x w [] k s e = cc
  AllAtLeast-get_elem? x w (y ∷ l) zero s e = ground (arith, s.0)
  AllAtLeast-get_elem? x w (y ∷ l) (suc k) s e = AllAtLeast-get_elem? x w l k s.1 e

  -- A hit that is not below the last of the first `k + 1` leaves these as they are.
  take-push-above :
      (k : ℕ) (h w : A) (l : List A)
      → IsSorted cmp l
      → get_elem? l k ≡ some w
      → below cmp h w ≡ false
      → take (suc k) (push cmp h l) ≡ take (suc k) l
  unfolding push
  take-push-above k h w [] s e p = cc
  take-push-above zero h w (x ∷ l) s e p = ground (arith, p)
  take-push-above (suc k) h w (x ∷ l) s e p =
      let q = le_trans o x w h (AllAtLeast-get_elem? x w l k s.0 e) p in
      rw q (ap (◌∷◌ x) (take-push-above k h w l s.1 e p))

  -- A hit that is below it takes its place.
  take-push-below :
      (k : ℕ) (h w : A) (l : List A)
      → get_elem? l k ≡ some w
      → below cmp h w ≡ true
      → take (suc k) (push cmp h l) ≡ push cmp h (take k l)
  unfolding push
  take-push-below k h w [] e p = cc
  take-push-below zero h w (x ∷ l) e p = ground (arith, p)
  take-push-below (suc k) h w (x ∷ l) e p = ground (arith, take-push-below k h w l e p)

module _ {ℓ} {A : Type ℓ} where
  get_elem?-lt : (l : List A) (k : ℕ) → k < length l → (w : A) × (get_elem? l k ≡ some w)
  get_elem?-lt [] k h = absurd (omega arith)
  get_elem?-lt (x ∷ l) zero h = (x, refl)
  get_elem?-lt (x ∷ l) (suc k) h = get_elem?-lt l k (omega arith)

  peek-take : (k : ℕ) (l : List A) → k < length l → peek (take (suc k) l) ≡ get_elem? l k
  peek-take k [] h = absurd (omega arith)
  peek-take zero (x ∷ l) h = refl
  peek-take (suc k) (x ∷ []) h = absurd (omega arith)
  peek-take (suc k) (x ∷ y ∷ l) h = peek-take k (y ∷ l) (omega arith)

  drop_last-take : (k : ℕ) (l : List A) → k < length l → drop_last (take (suc k) l) ≡ take k l
  drop_last-take k [] h = absurd (omega arith)
  drop_last-take zero (x ∷ l) h = refl
  drop_last-take (suc k) (x ∷ []) h = absurd (omega arith)
  drop_last-take (suc k) (x ∷ y ∷ l) h = ap (◌∷◌ x) (drop_last-take k (y ∷ l) (omega arith))

module _ {ℓ} {A : Type ℓ} (cmp : A → A → Ordering) where
  pub length-push : (h : A) (l : List A) → length (push cmp h l) ≡ suc (length l)
  unfolding push
  length-push h [] = refl
  length-push h (x ∷ l) = ground (arith, length-push h l)

  offer_full :
      (k : ℕ) (h w : A) (l : List A)
      → length l ≡ suc k
      → peek l ≡ some w
      → offer cmp (suc k) h l ≡ (if below cmp h w then push cmp h (drop_last l) else l)
  unfolding offer replace_worst
  offer_full k h w l n e = ground arith

  offer_room : (k : ℕ) (h : A) (l : List A) → length l < k → offer cmp k h l ≡ push cmp h l
  unfolding offer
  offer_room k h l n = ground arith

module _ {ℓ} {A : Type ℓ} {cmp : A → A → Ordering} (o : IsComparison cmp) where
  -- One round of the selection on the first `k` is the insertion into all, cut at `k`.
  pub offer-take :
      (k : ℕ) (h : A) (l : List A)
      → IsSorted cmp l
      → offer cmp k h (take k l) ≡ take k (push cmp h l)
  unfolding offer
  offer-take zero h l s = refl
  offer-take (suc k) h l s = elim (Bool-cases (ltb k (length l))) [
    | inr room ↦ rw (take_all (suc k) l (ground arith)) (
        offer_room cmp (suc k) h l (ground arith)
        ∙ sym (take_all (suc k) (push cmp h l) (ground (arith, length-push cmp h l))))
    | inl full ↦
        let n : k < length l = ground arith in
        let (w, e) = get_elem?-lt l k n in
        offer_full cmp k h w (take (suc k) l) (omega (arith, length-take (suc k) l))
          (peek-take k l n ∙ e)
        ∙ rw (drop_last-take k l n) (elim (Bool-cases (below cmp h w)) [
          | inl p ↦ rw p (sym (take-push-below o k h w l e p))
          | inr p ↦ rw p (sym (take-push-above o k h w l s e p))
        ])
  ]

  pub offer_all-take :
      (k : ℕ) (hs l : List A)
      → IsSorted cmp l
      → offer_all cmp k hs (take k l) ≡ take k (sort_onto cmp hs l)
  unfolding offer_all sort_onto
  offer_all-take k [] l s = refl
  offer_all-take k (h ∷ hs) l s =
      rw (offer-take k h l s) (offer_all-take k hs (push cmp h l) (push-IsSorted o h l s))
