-- ===== src/Database/Seen/Members.antt =====
-- Which ids `SeenIds` of db.rs contains.
use Prim.Native.Nat.{suc}
use macevery.Prelude.{
  ℕ, ◌+◌, ◌/◌, ◌%◌, ◌<◌, ◌≤◌, ◌≡◌, ◌≢◌, refl, sym, ap, ◌∙◌, subst, arith, true, false, ◌||◌, [],
  ◌∷◌, ◌==◌, length, get_or, length-set, ℕ_discrete, Bool-cases, inl, inr, if_cases,
}
use macevery.Prelude.Int.{ℤ}
use macevery.Database.Seen.{
  page_of, bit_of, Words, Pages, set_bit, set_in, empty_page, same_page, get_page, set_in_page,
  is_some, in_page,
}
use macevery.Database.Seen.Bits.{
  id_of_page, bit_of_lt, same_page_self, page_of_same, empty_bit, word_bit-set_in, ==_self,
  ==_other,
}

pub true_is_not_false : true ≡ false → ⊥
true_is_not_false h = cc

-- Every page has its 64 words.
abbrev pub IsPaged : Pages → Type 0
IsPaged [] = Unit
IsPaged ((p, words) ∷ pages) = (length words ≡ 64) × IsPaged pages

length-set_in : (words : Words) (bit : ℕ) → length (set_in words bit) ≡ length words
length-set_in words bit =
    length-set words (bit / 64) (set_bit (get_or words (bit / 64) 0) (bit % 64))

pub set_in_page-IsPaged :
    (p : ℤ) (bit : ℕ) (pages : Pages) → IsPaged pages → IsPaged (set_in_page p bit pages)
unfolding set_in_page
set_in_page-IsPaged p bit [] h = (length-set_in empty_page bit, tt)
set_in_page-IsPaged p bit ((q, words) ∷ pages) (h, k) =
    if_cases IsPaged (same_page q p) ((q, set_in words bit) ∷ pages)
      ((q, words) ∷ set_in_page p bit pages) (λ e. (length-set_in words bit ∙ h, k))
      (λ e. (h, set_in_page-IsPaged p bit pages k))

-- The page that is set has its bit, and its other bits as they were.
page-set_in_page :
    (p : ℤ) (i j : ℕ) (pages : Pages)
    → i < 4096
    → IsPaged pages
    → in_page j (get_page p (set_in_page p i pages)) ≡ (i == j || in_page j (get_page p pages))
unfolding set_in_page get_page
page-set_in_page p i j [] h k =
    rw (same_page_self p)
      (word_bit-set_in empty_page i j refl h ∙ ap (λ b. i == j || b) (empty_bit j))
page-set_in_page p i j ((q, words) ∷ pages) h (k, l) = elim (Bool-cases (same_page q p)) [
  | inl e ↦ rw (e, e) (word_bit-set_in words i j k h)
  | inr e ↦ rw (e, e) (page-set_in_page p i j pages h l)
]

other-set_in_page :
    (p q : ℤ) (i j : ℕ) (pages : Pages)
    → same_page p q ≡ false
    → in_page j (get_page q (set_in_page p i pages)) ≡ in_page j (get_page q pages)
unfolding set_in_page get_page
other-set_in_page p q i j [] n = rw n refl
other-set_in_page p q i j ((r, words) ∷ pages) n = elim (Bool-cases (same_page r p)) [
  | inl e ↦ let apart = ap (λ x. same_page x q) (page_of_same r p e) ∙ n in rw (e, apart) refl
  | inr e ↦ elim (Bool-cases (same_page r q)) [
    | inl f ↦ rw (e, f) refl
    | inr f ↦ rw (e, f) (other-set_in_page p q i j pages n)
  ]
]

pub same_page_other : (a b : ℤ) → a ≢ b → same_page a b ≡ false
same_page_other a b n = elim (Bool-cases (same_page a b)) [
  | inl e ↦ absurd (n (page_of_same a b e))
  | inr e ↦ e
]

apart_of_page : (a b : ℤ) → same_page (page_of a) (page_of b) ≡ false → same_page a b ≡ false
apart_of_page a b h = same_page_other a b (λ e.
    true_is_not_false
      (sym (same_page_self (page_of b)) ∙ ap (λ x. same_page (page_of x) (page_of b)) (sym e) ∙ h))

-- In one page, the ids are the same if their bits are.
same_bit : (a b : ℤ) → page_of a ≡ page_of b → (bit_of a == bit_of b) ≡ same_page a b
same_bit a b h = elim (ℕ_discrete (bit_of a) (bit_of b)) [
  | yes e ↦
      let same = id_of_page a b h e in
      subst (λ x. (bit_of a == bit_of x) ≡ same_page a x) same
        (==_self (bit_of a) ∙ sym (same_page_self a))
  | no n ↦ ==_other (bit_of a) (bit_of b) n ∙ sym (same_page_other a b (λ e. n (ap bit_of e)))
]

-- The membership that an admitted id adds.
pub pages-insert :
    (a b : ℤ) (pages : Pages)
    → IsPaged pages
    → in_page (bit_of b) (get_page (page_of b) (set_in_page (page_of a) (bit_of a) pages))
      ≡ (same_page a b || in_page (bit_of b) (get_page (page_of b) pages))
pages-insert a b pages h = elim (Bool-cases (same_page (page_of a) (page_of b))) [
  | inr n ↦
      other-set_in_page (page_of a) (page_of b) (bit_of a) (bit_of b) pages n
      ∙ sym (ap (λ x. x || in_page (bit_of b) (get_page (page_of b) pages)) (apart_of_page a b n))
  | inl e ↦
      let same = page_of_same (page_of a) (page_of b) e in
      subst
        (λ p.
          in_page (bit_of b) (get_page p (set_in_page (page_of a) (bit_of a) pages))
          ≡ (same_page a b || in_page (bit_of b) (get_page p pages)))
        same
        (page-set_in_page (page_of a) (bit_of a) (bit_of b) pages (bit_of_lt a) h
          ∙ ap (λ x. x || in_page (bit_of b) (get_page (page_of a) pages)) (same_bit a b same))
]

pub length-set_in_page :
    (p : ℤ) (bit : ℕ) (pages : Pages)
    → is_some (get_page p pages) ≡ true
    → length (set_in_page p bit pages) ≡ length pages
unfolding set_in_page get_page
length-set_in_page p bit [] h = absurd cc
length-set_in_page p bit ((q, words) ∷ pages) h = elim (Bool-cases (same_page q p)) [
  | inl e ↦ rw e refl
  | inr e ↦ rw e (ap suc (length-set_in_page p bit pages (rw e at h)))
]

pub length-set_in_page_le :
    (p : ℤ) (bit : ℕ) (pages : Pages) → length (set_in_page p bit pages) ≤ length pages + 1
unfolding set_in_page
length-set_in_page_le p bit [] = omega arith
length-set_in_page_le p bit ((q, words) ∷ pages) =
    let rest = length-set_in_page_le p bit pages in
    if_cases (λ l. length l ≤ length ((q, words) ∷ pages) + 1) (same_page q p)
      ((q, set_in words bit) ∷ pages) ((q, words) ∷ set_in_page p bit pages) (λ e. omega arith)
      (λ e. omega (arith, rest))
