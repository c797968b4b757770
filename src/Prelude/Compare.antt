-- ===== src/Prelude/Compare.antt =====
-- `Ordering` and the laws of a comparison (`Ord::cmp`), with the ways the code builds one from others.
use macevery.Prelude.{
  ℕ, ◌+◌, ◌≡◌, refl, Bool, true, false, Option, none, some, List, [], ◌∷◌, arith, compare, Ordering,
}
use macevery.Prelude.Int.{ℤ, pos_part, neg_part, eq_of_parts}

-- `Ordering::reverse`.
abbrev pub reverse : Ordering → Ordering
reverse Ordering.lt = Ordering.gt
reverse Ordering.eq = Ordering.eq
reverse Ordering.gt = Ordering.lt

-- `Ordering::then_with`.
abbrev pub then_with : Ordering → Ordering → Ordering
then_with Ordering.lt o = Ordering.lt
then_with Ordering.eq o = o
then_with Ordering.gt o = Ordering.gt

abbrev pub is_lt : Ordering → Bool
is_lt Ordering.lt = true
is_lt _ = false

abbrev pub is_gt : Ordering → Bool
is_gt Ordering.gt = true
is_gt _ = false

abbrev pub is_eq : Ordering → Bool
is_eq Ordering.eq = true
is_eq _ = false

-- A total preorder.
pub record IsComparison {ℓ} {A : Type ℓ} (cmp : A → A → Ordering) : Type ℓ where
  pub flip : (a b : A) → cmp b a ≡ reverse (cmp a b)
  pub lt_trans : (a b c : A) → cmp a b ≡ Ordering.lt → cmp b c ≡ Ordering.lt → cmp a c ≡ Ordering.lt
  pub eq_left : (a b c : A) → cmp a b ≡ Ordering.eq → cmp a c ≡ cmp b c

module _ {ℓ} {A : Type ℓ} {cmp : A → A → Ordering} (o : IsComparison cmp) where
  pub cmp_self : (a : A) → cmp a a ≡ Ordering.eq
  cmp_self a = ground (arith, o.flip a a)

  -- At most is transitive, on the side of the tests that the code makes.
  pub le_trans :
      (a b c : A) → is_lt (cmp b a) ≡ false → is_lt (cmp c b) ≡ false → is_lt (cmp c a) ≡ false
  le_trans a b c h k = ground (
    arith,
    o.flip a b,
    o.flip b c,
    o.flip a c,
    o.lt_trans a b c,
    o.eq_left a b c,
    o.eq_left c b a,
  )

  pub lt_asym : (a b : A) → is_lt (cmp a b) ≡ true → is_lt (cmp b a) ≡ false
  lt_asym a b h = ground (arith, o.flip a b)

module _ {ℓ κ} {A : Type ℓ} {B : Type κ} (f : A → B) {cmp : B → B → Ordering} where
  pub IsComparison-on : IsComparison cmp → IsComparison (λ a b. cmp (f a) (f b))
  IsComparison-on o = record {
    flip = λ a b. o.flip (f a) (f b);
    lt_trans = λ a b c. o.lt_trans (f a) (f b) (f c);
    eq_left = λ a b c. o.eq_left (f a) (f b) (f c);
  }

  -- `other.f.cmp(&self.f)`.
  pub IsComparison-on_reverse : IsComparison cmp → IsComparison (λ a b. cmp (f b) (f a))
  IsComparison-on_reverse o = record {
    flip = λ a b. o.flip (f b) (f a);
    lt_trans = λ a b c h k. o.lt_trans (f c) (f b) (f a) k h;
    eq_left = λ a b c h. ground (
      arith,
      o.flip (f a) (f b),
      o.flip (f c) (f a),
      o.flip (f c) (f b),
      o.eq_left (f a) (f b) (f c),
    );
  }

module _ {ℓ} {A : Type ℓ} {c d : A → A → Ordering} where
  pub IsComparison-then :
      IsComparison c → IsComparison d → IsComparison (λ a b. then_with (c a b) (d a b))
  IsComparison-then o p = record {
    flip = λ a b. ground (arith, o.flip a b, p.flip a b);
    lt_trans = λ x y z h k. ground (
      arith,
      o.lt_trans x y z,
      o.eq_left x y z,
      o.eq_left z y x,
      o.flip x y,
      o.flip y z,
      o.flip x z,
      p.lt_trans x y z,
    );
    eq_left = λ x y z h. ground (arith, o.eq_left x y z, p.eq_left x y z);
  }

pub IsComparison-compare : IsComparison compare
IsComparison-compare = record {
  flip = λ a b. ground arith;
  lt_trans = λ a b c h k. ground arith;
  eq_left = λ a b c h. ground arith;
}

-- `i64::cmp`.
abbrev pub compare_ℤ : ℤ → ℤ → Ordering
compare_ℤ a b = compare (pos_part a + neg_part b) (pos_part b + neg_part a)

pub IsComparison-compare_ℤ : IsComparison compare_ℤ
IsComparison-compare_ℤ = record {
  flip = λ a b. ground arith;
  lt_trans = λ a b c h k. ground arith;
  eq_left = λ a b c h. ground arith;
}

module _ {ℓ} {A : Type ℓ} (cmp : A → A → Ordering) where
  -- `Option::cmp`: `None` comes first.
  abbrev pub compare_option : Option A → Option A → Ordering
  compare_option none none = Ordering.eq
  compare_option none (some b) = Ordering.lt
  compare_option (some a) none = Ordering.gt
  compare_option (some a) (some b) = cmp a b

  -- `slice::cmp`: the first difference decides, then the length.
  abbrev pub compare_list : List A → List A → Ordering
  compare_list [] [] = Ordering.eq
  compare_list [] (b ∷ r) = Ordering.lt
  compare_list (a ∷ l) [] = Ordering.gt
  compare_list (a ∷ l) (b ∷ r) = then_with (cmp a b) (compare_list l r)

module _ {ℓ} {A : Type ℓ} {cmp : A → A → Ordering} (o : IsComparison cmp) where
  option_flip : (a b : Option A) → compare_option cmp b a ≡ reverse (compare_option cmp a b)
  option_flip none none = refl
  option_flip none (some b) = refl
  option_flip (some a) none = refl
  option_flip (some a) (some b) = o.flip a b

  option_lt_trans :
      (a b c : Option A)
      → compare_option cmp a b ≡ Ordering.lt
      → compare_option cmp b c ≡ Ordering.lt
      → compare_option cmp a c ≡ Ordering.lt
  option_lt_trans none b (some c) h k = refl
  option_lt_trans none none none h k = h
  option_lt_trans none (some b) none h k = cc
  option_lt_trans (some a) none c h k = cc
  option_lt_trans (some a) (some b) none h k = cc
  option_lt_trans (some a) (some b) (some c) h k = o.lt_trans a b c h k

  option_eq_left :
      (a b c : Option A)
      → compare_option cmp a b ≡ Ordering.eq
      → compare_option cmp a c ≡ compare_option cmp b c
  option_eq_left none none c h = refl
  option_eq_left none (some b) c h = cc
  option_eq_left (some a) none c h = cc
  option_eq_left (some a) (some b) none h = refl
  option_eq_left (some a) (some b) (some c) h = o.eq_left a b c h

  pub IsComparison-compare_option : IsComparison (compare_option cmp)
  IsComparison-compare_option = record {
    flip = option_flip;
    lt_trans = option_lt_trans;
    eq_left = option_eq_left;
  }

  list_flip : (a b : List A) → compare_list cmp b a ≡ reverse (compare_list cmp a b)
  list_flip [] [] = refl
  list_flip [] (b ∷ r) = refl
  list_flip (a ∷ l) [] = refl
  list_flip (a ∷ l) (b ∷ r) = ground (arith, o.flip a b, list_flip l r)

  list_eq_left :
      (a b c : List A)
      → compare_list cmp a b ≡ Ordering.eq
      → compare_list cmp a c ≡ compare_list cmp b c
  list_eq_left [] [] c h = refl
  list_eq_left [] (b ∷ r) c h = cc
  list_eq_left (a ∷ l) [] c h = cc
  list_eq_left (a ∷ l) (b ∷ r) [] h = refl
  list_eq_left (a ∷ l) (b ∷ r) (c ∷ t) h = ground (arith, o.eq_left a b c, list_eq_left l r t)

  list_lt_trans :
      (a b c : List A)
      → compare_list cmp a b ≡ Ordering.lt
      → compare_list cmp b c ≡ Ordering.lt
      → compare_list cmp a c ≡ Ordering.lt
  list_lt_trans [] b (c ∷ t) h k = refl
  list_lt_trans [] [] [] h k = h
  list_lt_trans [] (b ∷ r) [] h k = cc
  list_lt_trans (a ∷ l) [] c h k = cc
  list_lt_trans (a ∷ l) (b ∷ r) [] h k = cc
  list_lt_trans (a ∷ l) (b ∷ r) (c ∷ t) h k = ground (
    arith,
    o.lt_trans a b c,
    o.eq_left a b c,
    o.eq_left c b a,
    o.flip a b,
    o.flip b c,
    o.flip a c,
    list_lt_trans l r t,
  )

  pub IsComparison-compare_list : IsComparison (compare_list cmp)
  IsComparison-compare_list = record {
    flip = list_flip;
    lt_trans = list_lt_trans;
    eq_left = list_eq_left;
  }

-- Comparisons that are equal only at equal values.
pub eq_of_compare : (a b : ℕ) → compare a b ≡ Ordering.eq → a ≡ b
eq_of_compare a b h = ground arith

pub eq_of_compare_ℤ : (a b : ℤ) → compare_ℤ a b ≡ Ordering.eq → a ≡ b
eq_of_compare_ℤ a b h = eq_of_parts a b (ground arith)
