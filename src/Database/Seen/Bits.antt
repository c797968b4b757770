-- ===== src/Database/Seen/Bits.antt =====
-- The bits and the pages of an id in `SeenIds` of db.rs.
use Prim.Native.Nat.{zero, suc}
use macevery.Prelude.{
  ℕ, ◌/◌, ◌%◌, ◌<◌, ◌≡◌, ◌≢◌, refl, sym, ap, ◌∙◌, subst, arith, Bool, true, false, ◌||◌, [], ◌∷◌,
  Ordering, ◌==◌, length, get_or, set, replicate, ℕ_discrete,
}
use macevery.Prelude.Int.{ℤ, pos, negsuc, pos_part, neg_part}
use macevery.Prelude.Compare.{compare_ℤ, is_eq, eq_of_compare_ℤ}
use macevery.Database.Seen.{page_of, bit_of, Words, has_bit, set_bit, set_in, empty_page, same_page}

has_bit-set_bit_self : (word bit : ℕ) → has_bit (set_bit word bit) bit ≡ true
unfolding set_bit has_bit
has_bit-set_bit_self word zero = ground arith
has_bit-set_bit_self word (suc bit) =
    ap (λ w. has_bit w bit) (omega arith) ∙ has_bit-set_bit_self (word / 2) bit

has_bit-set_bit_ne : (word i j : ℕ) → i ≢ j → has_bit (set_bit word i) j ≡ has_bit word j
unfolding set_bit has_bit
has_bit-set_bit_ne word zero zero n = absurd (n refl)
has_bit-set_bit_ne word zero (suc j) n = ap (λ w. has_bit w j) (omega arith)
has_bit-set_bit_ne word (suc i) zero n = ap (λ d. d == 1) (omega arith)
has_bit-set_bit_ne word (suc i) (suc j) n =
    ap (λ w. has_bit w j) (omega arith) ∙ has_bit-set_bit_ne (word / 2) i j (λ e. n (ap suc e))

get_or-set_self : (ws : Words) (i v : ℕ) → i < length ws → get_or (set ws i v) i 0 ≡ v
get_or-set_self [] i v h = absurd (omega arith)
get_or-set_self (w ∷ ws) zero v h = refl
get_or-set_self (w ∷ ws) (suc i) v h = get_or-set_self ws i v (omega arith)

get_or-set_ne : (ws : Words) (i j v : ℕ) → i ≢ j → get_or (set ws i v) j 0 ≡ get_or ws j 0
get_or-set_ne [] i j v n = refl
get_or-set_ne (w ∷ ws) zero zero v n = absurd (n refl)
get_or-set_ne (w ∷ ws) zero (suc j) v n = refl
get_or-set_ne (w ∷ ws) (suc i) zero v n = refl
get_or-set_ne (w ∷ ws) (suc i) (suc j) v n = get_or-set_ne ws i j v (λ e. n (ap suc e))

abbrev pub word_bit : Words → ℕ → Bool
word_bit words bit = has_bit (get_or words (bit / 64) 0) (bit % 64)

word_bit-set_in_self :
    (words : Words) (bit : ℕ) → bit / 64 < length words → word_bit (set_in words bit) bit ≡ true
word_bit-set_in_self words bit h =
    ap (λ w. has_bit w (bit % 64))
      (get_or-set_self words (bit / 64) (set_bit (get_or words (bit / 64) 0) (bit % 64)) h)
    ∙ has_bit-set_bit_self (get_or words (bit / 64) 0) (bit % 64)

word_bit-set_in_ne :
    (words : Words) (i j : ℕ)
    → i / 64 < length words
    → i ≢ j
    → word_bit (set_in words i) j ≡ word_bit words j
word_bit-set_in_ne words i j h n = elim (ℕ_discrete (i / 64) (j / 64)) [
  | no m ↦
      ap (λ w. has_bit w (j % 64))
        (get_or-set_ne words (i / 64) (j / 64) (set_bit (get_or words (i / 64) 0) (i % 64)) m)
  | yes e ↦
      ap (λ k. has_bit (get_or (set_in words i) k 0) (j % 64)) (sym e)
      ∙ ap (λ w. has_bit w (j % 64))
          (get_or-set_self words (i / 64) (set_bit (get_or words (i / 64) 0) (i % 64)) h)
      ∙ has_bit-set_bit_ne (get_or words (i / 64) 0) (i % 64) (j % 64) (λ f. n (omega arith))
      ∙ ap (λ k. has_bit (get_or words k 0) (j % 64)) e
]

pub eq_of_is_eq : (o : Ordering) → is_eq o ≡ true → o ≡ Ordering.eq
eq_of_is_eq Ordering.lt h = cc
eq_of_is_eq Ordering.eq h = refl
eq_of_is_eq Ordering.gt h = cc

-- An id is its page and its bit.
pub id_of_page : (a b : ℤ) → page_of a ≡ page_of b → bit_of a ≡ bit_of b → a ≡ b
unfolding page_of bit_of
id_of_page (pos m) (pos n) h k = ap pos (omega (arith, ap pos_part h, k))
id_of_page (pos m) (negsuc n) h k = absurd (omega (arith, ap neg_part h))
id_of_page (negsuc m) (pos n) h k = absurd (omega (arith, ap neg_part h))
id_of_page (negsuc m) (negsuc n) h k = ap negsuc (omega (arith, ap neg_part h, k))

pub bit_of_lt : (a : ℤ) → bit_of a < 4096
unfolding bit_of
bit_of_lt (pos n) = omega arith
bit_of_lt (negsuc n) = omega arith

pub same_page_self : (p : ℤ) → same_page p p ≡ true
same_page_self p = ground arith

pub page_of_same : (a b : ℤ) → same_page a b ≡ true → a ≡ b
page_of_same a b h = eq_of_compare_ℤ a b (eq_of_is_eq (compare_ℤ a b) h)

get_or-replicate : (n k : ℕ) → get_or {A = ℕ} (replicate n 0) k 0 ≡ 0
get_or-replicate zero k = refl
get_or-replicate (suc n) zero = refl
get_or-replicate (suc n) (suc k) = get_or-replicate n k

has_bit-zero : (bit : ℕ) → has_bit 0 bit ≡ false
unfolding has_bit
has_bit-zero zero = refl
has_bit-zero (suc bit) = has_bit-zero bit

pub ==_self : (i : ℕ) → (i == i) ≡ true
==_self i = ground arith

pub ==_other : (i j : ℕ) → i ≢ j → (i == j) ≡ false
==_other i j n = ground (arith, n)

pub empty_bit : (bit : ℕ) → word_bit empty_page bit ≡ false
empty_bit bit =
    ap (λ w. has_bit w (bit % 64)) (get_or-replicate 64 (bit / 64)) ∙ has_bit-zero (bit % 64)

pub word_bit-set_in :
    (words : Words) (i j : ℕ)
    → length words ≡ 64
    → i < 4096
    → word_bit (set_in words i) j ≡ (i == j || word_bit words j)
word_bit-set_in words i j h k = elim (ℕ_discrete i j) [
  | yes e ↦
      subst (λ x. word_bit (set_in words i) x ≡ (i == x || word_bit words x)) e
        (word_bit-set_in_self words i (omega arith)
          ∙ sym (ap (λ b. b || word_bit words i) (==_self i)))
  | no n ↦
      word_bit-set_in_ne words i j (omega arith) n
      ∙ sym (ap (λ b. b || word_bit words j) (==_other i j n))
]
