-- ===== src/Search/Heap.antt =====
-- `std::collections::BinaryHeap` as the search uses it, and the bounded selection that `TopHits` and
-- `OwnedTopHits` of search.rs make with it: the heap is the list of its elements in ascending order,
-- so `into_sorted_vec` is the list and `peek` is its last element, the worst hit.
pub mod Selection
pub mod Permute
use macevery.Prelude.{
  ℕ, zero, suc, ◌+◌, ◌-◌, ◌≤◌, ◌<◌, ◌≡◌, refl, ◌⊎◌, inl, inr, Bool, true, false, Option, none, some,
  List, [], ◌∷◌, ◌++◌, arith, Ordering, if◌then◌else◌, ltb, leb, ◌==◌, length, take, Bool-cases,
  get_elem?, length-take, ap, sym, ◌∙◌,
}
use macevery.Prelude.Compare.{IsComparison, is_lt, reverse, le_trans, lt_asym}

module _ {ℓ} {A : Type ℓ} (cmp : A → A → Ordering) where
  abbrev pub below : A → A → Bool
  below a b = is_lt (cmp a b)

  -- `BinaryHeap::push`.
  unfoldable pub push : A → List A → List A
  push h [] = h ∷ []
  push h (x ∷ l) = if below h x then h ∷ x ∷ l else x ∷ push h l

module _ {ℓ} {A : Type ℓ} where
  -- `BinaryHeap::peek`.
  abbrev pub peek : List A → Option A
  peek [] = none
  peek (x ∷ []) = some x
  peek (x ∷ y ∷ l) = peek (y ∷ l)

  -- The heap without its greatest element.
  abbrev pub drop_last : List A → List A
  drop_last [] = []
  drop_last (x ∷ []) = []
  drop_last (x ∷ y ∷ l) = x ∷ drop_last (y ∷ l)

module _ {ℓ} {A : Type ℓ} (cmp : A → A → Ordering) where
  -- `*peek_mut().unwrap() = hit`: the greatest element is overwritten and the heap restored.
  unfoldable pub replace_worst : A → List A → List A
  replace_worst h l = push cmp h (drop_last l)

  abbrev pub worst_is_above : A → Option A → Bool
  worst_is_above h none = false
  worst_is_above h (some w) = below cmp h w

  -- One round of the selection: a hit enters a heap that has room, or takes the place of a worse one.
  unfoldable pub offer : ℕ → A → List A → List A
  offer limit h l =
      if limit == 0
      then l
      else if ltb (length l) limit
      then push cmp h l
      else if worst_is_above h (peek l)
      then replace_worst h l
      else l

  unfoldable pub offer_all : ℕ → List A → List A → List A
  offer_all limit [] l = l
  offer_all limit (h ∷ hs) l = offer_all limit hs (offer limit h l)

  -- The reference: all hits in order, equal ones as they came.
  unfoldable pub sort_onto : List A → List A → List A
  sort_onto [] l = l
  sort_onto (h ∷ hs) l = sort_onto hs (push cmp h l)

  abbrev pub AllAtLeast : A → List A → Type 0
  AllAtLeast x [] = Unit
  AllAtLeast x (y ∷ l) = (below cmp y x ≡ false) × AllAtLeast x l

  abbrev pub IsSorted : List A → Type 0
  IsSorted [] = Unit
  IsSorted (x ∷ l) = AllAtLeast x l × IsSorted l
