-- ===== src/Search/Heap/Permute.antt =====
-- The bounded selection under a change of the order of the hits, and under hits that cannot compete.
use macevery.Prelude.{
  ℕ, ◌≡◌, refl, false, some, List, [], ◌∷◌, ◌++◌, arith, Ordering, length, ap, ◌∙◌,
}
use macevery.Prelude.Compare.{IsComparison}
use mathlib.Core.List.{Permᴰ}
use mathlib.Core.Path.{subst}
use macevery.Search.Heap.{below, push, peek, offer, offer_all, sort_onto}

module _ {ℓ κ} {A : Type ℓ} {cmp : A → A → Ordering} (o : IsComparison cmp) (P : A → Type κ)
    (distinct : (a b : A) → P a → P b → cmp a b ≡ Ordering.eq → a ≡ b) where
  push_comm :
      (a b : A) (l : List A) → P a → P b → push cmp a (push cmp b l) ≡ push cmp b (push cmp a l)
  unfolding push
  push_comm a b [] p q = ground (arith, o.flip a b, distinct a b p q)
  push_comm a b (x ∷ l) p q = ground (
    arith,
    o.flip a b,
    o.flip a x,
    o.flip b x,
    distinct a b p q,
    o.lt_trans a b x,
    o.lt_trans b a x,
    o.eq_left a b x,
    o.lt_trans a x b,
    o.lt_trans b x a,
    o.eq_left x a b,
    o.eq_left x b a,
    push_comm a b l p q,
  )

  abbrev pub All : List A → Type κ
  All [] = Unit
  All (x ∷ l) = P x × All l

  All-perm : {xs ys : List A} → Permᴰ xs ys → All xs → All ys
  All-perm Permᴰ.nil h = h
  All-perm (Permᴰ.cons e p) h = (subst P e h.0, All-perm p h.1)
  All-perm (Permᴰ.swap e f) h = (subst P f h.1.0, (subst P e h.0, h.1.1))
  All-perm (Permᴰ.trans p q) h = All-perm q (All-perm p h)

  pub sort_onto-perm :
      {xs ys : List A}
      → Permᴰ xs ys
      → (l : List A) → All xs
      → sort_onto cmp xs l ≡ sort_onto cmp ys l
  unfolding sort_onto
  sort_onto-perm Permᴰ.nil l h = refl
  sort_onto-perm (Permᴰ.cons {a = a} {l₂ = r} e p) l h =
      sort_onto-perm p (push cmp a l) h.1 ∙ ap (λ x. sort_onto cmp r (push cmp x l)) e
  sort_onto-perm (Permᴰ.swap {a = a} {b = b} {a' = c} {l = r} e f) l h =
      ap (sort_onto cmp r) (push_comm b a l h.1.0 h.0)
      ∙ ap (λ x. sort_onto cmp r (push cmp a (push cmp x l))) f
      ∙ ap (λ x. sort_onto cmp r (push cmp x (push cmp c l))) e
  sort_onto-perm (Permᴰ.trans p q) l h = sort_onto-perm p l h ∙ sort_onto-perm q l (All-perm p h)

module _ {ℓ} {A : Type ℓ} (cmp : A → A → Ordering) where
  abbrev pub NoneBelow : A → List A → Type 0
  NoneBelow w [] = Unit
  NoneBelow w (h ∷ hs) = (below cmp h w ≡ false) × NoneBelow w hs

  -- Hits that are not below the worst of a full selection change nothing.
  pub offer_all-NoneBelow :
      (k : ℕ) (hs l : List A) (w : A)
      → length l ≡ k
      → peek l ≡ some w
      → NoneBelow w hs
      → offer_all cmp k hs l ≡ l
  unfolding offer_all offer
  offer_all-NoneBelow k [] l w n e h = refl
  offer_all-NoneBelow k (x ∷ hs) l w n e h =
      ground (arith, h.0, offer_all-NoneBelow k hs l w n e h.1)

  pub offer_all-append :
      (k : ℕ) (xs ys l : List A)
      → offer_all cmp k (xs ++ ys) l ≡ offer_all cmp k ys (offer_all cmp k xs l)
  unfolding offer_all
  offer_all-append k [] ys l = refl
  offer_all-append k (x ∷ xs) ys l = offer_all-append k xs ys (offer cmp k x l)
