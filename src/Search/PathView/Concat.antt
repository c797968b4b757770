-- ===== src/Search/PathView/Concat.antt =====
-- The comparison of two `PathView`s against that of the bytes that they stand for.
use macevery.Prelude.{
  ℕ, zero, suc, ◌+◌, ◌-◌, ◌≤◌, ◌<◌, ◌≡◌, refl, ◌⊎◌, inl, inr, ◌&&◌, Option, some, List, ◌++◌, [],
  ◌∷◌, compare, Ordering, if◌then◌else◌, ltb, ◌==◌, length, drop, min, true, arith,
  take-append-drop, length-take, length-drop, drop_all, drop-add, ◌∙◌, sym, Bool-cases,
  append_assoc,
}
use macevery.Prelude.Compare.{compare_list, then_with}
use macevery.Search.PathView.{PathView, bytes, segment, skip, slice, round, loop, cmp}

-- The bytes from a position on.
abbrev rest : PathView → ℕ → ℕ → List ℕ
rest p zero lo = drop lo p.prefix ++ p.suffix
rest p (suc zero) lo = drop lo p.suffix
rest p (suc (suc l)) lo = []

-- The slices that still hold a byte, at most.
abbrev left : PathView → ℕ → ℕ → ℕ
left p zero lo = if ltb lo (length p.prefix) then 2 else 1
left p (suc zero) lo = if ltb lo (length p.suffix) then 1 else 0
left p (suc (suc l)) lo = 0

abbrev InRange : PathView → ℕ → ℕ → Type 0
InRange p l lo = (l ≤ 2) × (l < 2 → lo ≤ length (segment p l))

-- After the skipping the position is at the end or before a byte.
record IsSkipped (p : PathView) (l lo l' lo' : ℕ) : Type 0 where
  same_rest : rest p l' lo' ≡ rest p l lo
  no_more : left p l' lo' ≤ left p l lo
  stops : (l' ≡ 2) ⊎ ((l' < 2) × (lo' < length (segment p l')))

skip_lem :
    (p : PathView) (l lo : ℕ)
    → InRange p l lo
    → IsSkipped p l lo (skip 2 p l lo).0 (skip 2 p l lo).1
unfolding skip
skip_lem p zero lo h = ground (arith, drop_all lo p.prefix, drop_all 0 p.suffix)
skip_lem p (suc zero) lo h = ground (arith, drop_all lo p.suffix)
skip_lem p (suc (suc zero)) lo h = ground arith
skip_lem p (suc (suc (suc l))) lo h = absurd (omega arith)

drop-cons {ℓ} :
    {A : Type ℓ} (n : ℕ) (xs : List A)
    → n < length xs
    → (y : A) × (ys : List A) × (drop n xs ≡ y ∷ ys)
drop-cons n [] h = absurd (omega arith)
drop-cons zero (x ∷ xs) h = (x, xs, refl)
drop-cons (suc n) (x ∷ xs) h = drop-cons n xs (omega arith)

rest-slice :
    (p : PathView) (l lo n : ℕ)
    → l < 2
    → rest p l lo ≡ slice (segment p l) lo n ++ rest p l (lo + n)
rest-slice p zero lo n h =
    rw (drop-add lo n p.prefix, ← append_assoc, take-append-drop n (drop lo p.prefix))
rest-slice p (suc zero) lo n h = rw (drop-add lo n p.suffix, take-append-drop n (drop lo p.suffix))
rest-slice p (suc (suc l)) lo n h = absurd (omega arith)

compare_list-append :
    (xs us ys vs : List ℕ)
    → length xs ≡ length ys
    → compare_list compare (xs ++ us) (ys ++ vs)
      ≡ then_with (compare_list compare xs ys) (compare_list compare us vs)
compare_list-append [] us [] vs h = refl
compare_list-append [] us (y ∷ ys) vs h = absurd (omega arith)
compare_list-append (x ∷ xs) us [] vs h = absurd (omega arith)
compare_list-append (x ∷ xs) us (y ∷ ys) vs h = ground (arith, compare_list-append xs us ys vs)

length-slice : (s : List ℕ) (lo n : ℕ) → n ≤ length s - lo → length (slice s lo n) ≡ n
length-slice s lo n h = omega (arith, length-take n (drop lo s), length-drop lo s)

-- A round that has used up one of the two slices.
left_less :
    (p : PathView) (l lo n : ℕ)
    → l < 2
    → lo < length (segment p l)
    → (left p l (lo + n) ≤ left p l lo)
      × (lo + n ≡ length (segment p l) → left p l (lo + n) < left p l lo)
left_less p zero lo n h k = (ground arith, λ e. ground arith)
left_less p (suc zero) lo n h k = (ground arith, λ e. ground arith)
left_less p (suc (suc l)) lo n h k = absurd (omega arith)

rest-cons :
    (p : PathView) (l lo : ℕ)
    → l < 2
    → lo < length (segment p l)
    → (x : ℕ) × (xs : List ℕ) × (rest p l lo ≡ x ∷ xs)
rest-cons p zero lo h k = let (x, xs, e) = drop-cons lo p.prefix k in (x, xs ++ p.suffix, rw e refl)
rest-cons p (suc zero) lo h k = drop-cons lo p.suffix k
rest-cons p (suc (suc l)) lo h k = absurd (omega arith)

abbrev Stops : PathView → ℕ → ℕ → Type 0
Stops p l lo = (l ≡ 2) ⊎ ((l < 2) × (lo < length (segment p l)))

module _ (f : ℕ) (p q : PathView) (next : ℕ → ℕ → ℕ → ℕ → Option Ordering)
    (correct : (l lo r ro : ℕ)
      → InRange p l lo
      → InRange q r ro
      → left p l lo + left q r ro < f
      → next l lo r ro ≡ some (compare_list compare (rest p l lo) (rest q r ro))) where
  both_at_end :
      (l lo r ro : ℕ)
      → l ≡ 2
      → r ≡ 2
      → round next p q (l, lo) (r, ro) ≡ some (compare_list compare (rest p l lo) (rest q r ro))
  unfolding round
  both_at_end l lo r ro e d = rw (e, d)

  left_at_end :
      (l lo r ro : ℕ)
      → l ≡ 2
      → r < 2
      → ro < length (segment q r)
      → round next p q (l, lo) (r, ro) ≡ some (compare_list compare (rest p l lo) (rest q r ro))
  unfolding round
  left_at_end l lo r ro e d k = let (x, xs, c) = rest-cons q r ro d k in rw (e, c) (ground arith)

  right_at_end :
      (l lo r ro : ℕ)
      → l < 2
      → lo < length (segment p l)
      → r ≡ 2
      → round next p q (l, lo) (r, ro) ≡ some (compare_list compare (rest p l lo) (rest q r ro))
  unfolding round
  right_at_end l lo r ro d k e = let (x, xs, c) = rest-cons p l lo d k in rw (e, c) (ground arith)

  both_inside :
      (l lo r ro : ℕ)
      → l < 2
      → lo < length (segment p l)
      → r < 2
      → ro < length (segment q r)
      → left p l lo + left q r ro < suc f
      → round next p q (l, lo) (r, ro) ≡ some (compare_list compare (rest p l lo) (rest q r ro))
  unfolding round
  both_inside l lo r ro d k e c m =
      let n = min (length (segment p l) - lo) (length (segment q r) - ro) in
      let us = slice (segment p l) lo n in
      let vs = slice (segment q r) ro n in
      let fewer : left p l (lo + n) + left q r (ro + n) < f =
        ground (arith, left_less p l lo n d k, left_less q r ro n e c) in
      let more =
        correct l (lo + n) r (ro + n) (omega arith, λ x. omega arith)
          (omega arith, λ x. omega arith) fewer in
      let split : compare_list compare (rest p l lo) (rest q r ro)
          ≡ then_with (compare_list compare us vs)
              (compare_list compare (rest p l (lo + n)) (rest q r (ro + n))) =
        rw (rest-slice p l lo n d, rest-slice q r ro n e)
          (compare_list-append us _ vs _ (
            length-slice (segment p l) lo n (omega arith)
            ∙ sym (length-slice (segment q r) ro n (omega arith)))) in
      ground (arith, more, split)

  round_lem :
      (l lo r ro : ℕ)
      → Stops p l lo
      → Stops q r ro
      → left p l lo + left q r ro < suc f
      → round next p q (l, lo) (r, ro) ≡ some (compare_list compare (rest p l lo) (rest q r ro))
  round_lem l lo r ro (inl e) (inl d) m = both_at_end l lo r ro e d
  round_lem l lo r ro (inl e) (inr d) m = left_at_end l lo r ro e d.0 d.1
  round_lem l lo r ro (inr e) (inl d) m = right_at_end l lo r ro e.0 e.1 d
  round_lem l lo r ro (inr e) (inr d) m = both_inside l lo r ro e.0 e.1 d.0 d.1 m

loop_lem :
    (f : ℕ) (p q : PathView) (l lo r ro : ℕ)
    → InRange p l lo
    → InRange q r ro
    → left p l lo + left q r ro < f
    → loop f p q l lo r ro ≡ some (compare_list compare (rest p l lo) (rest q r ro))
unfolding loop
loop_lem zero p q l lo r ro h k m = absurd (omega arith)
loop_lem (suc f) p q l lo r ro h k m =
    let s = skip_lem p l lo h in
    let t = skip_lem q r ro k in
    round_lem f p q (loop f p q) (loop_lem f p q) _ _ _ _ s.stops t.stops (omega arith)
    ∙ rw (s.same_rest, t.same_rest)

left-le : (p : PathView) (lo : ℕ) → left p 0 lo ≤ 2
left-le p lo = ground arith

both_equal : (a b c d : ℕ) → ((a == b) && (c == d)) ≡ true → (a ≡ b) × (c ≡ d)
both_equal a b c d h = ground arith

-- The same address and length name the same memory.
abbrev pub SharesMemory : PathView → PathView → Type 0
SharesMemory p q =
    p.prefix_ptr ≡ q.prefix_ptr → length p.prefix ≡ length q.prefix → p.prefix ≡ q.prefix

compare_list-same_prefix :
    (xs us vs : List ℕ) → compare_list compare (xs ++ us) (xs ++ vs) ≡ compare_list compare us vs
compare_list-same_prefix [] us vs = refl
compare_list-same_prefix (x ∷ xs) us vs = ground (arith, compare_list-same_prefix xs us vs)

-- Two paths compare as the bytes of their prefix and suffix together, wherever each is split, and
-- the loop always ends with an answer. The condition is that two prefixes at one address and of one
-- length hold the same bytes.
pub cmp_lem :
    (p q : PathView) → SharesMemory p q → cmp p q ≡ some (compare_list compare (bytes p) (bytes q))
unfolding cmp
cmp_lem p q same =
    let general =
      loop_lem 5 p q 0 0 0 0 (omega arith, λ h. omega arith) (omega arith, λ h. omega arith)
        (omega (arith, left-le p 0, left-le q 0)) in
    elim (Bool-cases (p.prefix_ptr == q.prefix_ptr && length p.prefix == length q.prefix)) [
      | inl e ↦
          let (a, b) = both_equal p.prefix_ptr q.prefix_ptr (length p.prefix) (length q.prefix) e in
          rw (e, same a b, compare_list-same_prefix q.prefix p.suffix q.suffix)
      | inr e ↦ rw e general
    ]
