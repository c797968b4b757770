-- ===== src/Database/Seen.antt =====
-- `SeenIds` of db.rs: a set of ids as pages of bits.
pub mod Bits
pub mod Members
pub mod Inserts
use Prim.Native.Nat.{zero, suc}
use macevery.Prelude.{
  ℕ, ◌+◌, ◌-◌, ◌*◌, ◌/◌, ◌%◌, ◌^◌, Bool, true, false, not, ◌&&◌, Option, none, some, List, [], ◌∷◌,
  if◌then◌else◌, ltb, ◌==◌, length, get_or, set, replicate,
}
use macevery.Prelude.Int.{ℤ, pos, negsuc}
use macevery.Prelude.Compare.{compare_ℤ, is_eq}

abbrev pub seen_page_bits : ℕ
seen_page_bits = 4096

-- `id.div_euclid(4096)` and `id.rem_euclid(4096)`.
unfoldable pub page_of : ℤ → ℤ
page_of (pos n) = pos (n / seen_page_bits)
page_of (negsuc n) = negsuc (n / seen_page_bits)

unfoldable pub bit_of : ℤ → ℕ
bit_of (pos n) = n % seen_page_bits
bit_of (negsuc n) = seen_page_bits - 1 - n % seen_page_bits

abbrev pub Words : Type 0
Words = List ℕ

-- The map of pages, as the list of its entries in some order.
abbrev pub Pages : Type 0
Pages = List (ℤ × Words)

pub record SeenIds : Type 0 where
  pub pages : Pages
  pub max_pages : ℕ

unfoldable pub new : ℕ → SeenIds
new max_pages = record { pages = []; max_pages = max_pages }

-- `word & (1 << bit) != 0`, by the binary digits of the word.
unfoldable pub has_bit : ℕ → ℕ → Bool
has_bit word zero = word % 2 == 1
has_bit word (suc bit) = has_bit (word / 2) bit

-- `word |= 1 << bit`, by the binary digits of the word.
unfoldable pub set_bit : ℕ → ℕ → ℕ
set_bit word zero = word / 2 * 2 + 1
set_bit word (suc bit) = set_bit (word / 2) bit * 2 + word % 2

abbrev pub set_in : Words → ℕ → Words
set_in words bit = set words (bit / 64) (set_bit (get_or words (bit / 64) 0) (bit % 64))

abbrev pub empty_page : Words
empty_page = replicate 64 0

abbrev pub same_page : ℤ → ℤ → Bool
same_page a b = is_eq (compare_ℤ a b)

unfoldable pub get_page : ℤ → Pages → Option Words
get_page page [] = none
get_page page ((p, words) ∷ pages) = if same_page p page then some words else get_page page pages

-- The entry of a page, `[0; 64]` if it is vacant, with the bit set.
unfoldable pub set_in_page : ℤ → ℕ → Pages → Pages
set_in_page page bit [] = (page, set_in empty_page bit) ∷ []
set_in_page page bit ((p, words) ∷ pages) =
    let rest = set_in_page page bit pages in
    if same_page p page then (p, set_in words bit) ∷ pages else (p, words) ∷ rest

abbrev pub is_some {ℓ} : {A : Type ℓ} → Option A → Bool
is_some none = false
is_some (some a) = true

-- Whether the id was admitted, with the set after it.
unfoldable pub insert : ℤ → SeenIds → Bool × SeenIds
insert id s =
    let page = page_of id in
    let can_add_page = ltb (length s.pages) s.max_pages in
    let added = record s { pages = set_in_page page (bit_of id) s.pages } in
    if not (is_some (get_page page s.pages)) && not can_add_page then (false, s) else (true, added)

abbrev pub in_page : ℕ → Option Words → Bool
in_page bit none = false
in_page bit (some words) = has_bit (get_or words (bit / 64) 0) (bit % 64)

unfoldable pub contains : ℤ → SeenIds → Bool
contains id s = in_page (bit_of id) (get_page (page_of id) s.pages)
