-- ===== src/Database/Seen/Inserts.antt =====
-- What `SeenIds` of db.rs contains after ids are inserted one after the other.
use macevery.Prelude.{
  ℕ, ◌+◌, ◌≤◌, ◌<◌, ◌≡◌, ◌⊎◌, refl, ap, ◌∙◌, arith, tests, Bool, true, false, not, ◌&&◌, ◌||◌,
  Option, none, some, List, [], ◌∷◌, ltb, length, inl, inr, if_cases,
}
use macevery.Prelude.Int.{ℤ}
use macevery.Database.Seen.{
  page_of, bit_of, SeenIds, new, same_page, get_page, set_in_page, is_some, insert, contains,
}
use macevery.Database.Seen.Members.{
  IsPaged, set_in_page-IsPaged, pages-insert, length-set_in_page, length-set_in_page_le,
}

-- The ids are inserted in turn, until one is refused.
abbrev pub insert_next : (SeenIds → Option SeenIds) → Bool × SeenIds → Option SeenIds
insert_next more (true, s) = more s
insert_next more (false, s) = none

abbrev pub insert_each : List ℤ → SeenIds → Option SeenIds
insert_each [] s = some s
insert_each (id ∷ ids) s = insert_next (insert_each ids) (insert id s)

abbrev pub is_among : ℤ → List ℤ → Bool
is_among x [] = false
is_among x (id ∷ ids) = same_page id x || is_among x ids

-- Pages are whole and within their number.
abbrev pub IsWhole : SeenIds → Type 0
IsWhole s = IsPaged s.pages × (length s.pages ≤ s.max_pages)

-- What an insertion promises of the set that it leaves, if it admits the id.
abbrev pub Adds : ℤ → SeenIds → Bool × SeenIds → Type 0
Adds id s (false, t) = s.max_pages ≤ length s.pages
Adds id s (true, t) =
    IsWhole t
    × (t.max_pages ≡ s.max_pages)
    × (length t.pages ≤ length s.pages + 1)
    × ((x : ℤ) → contains x t ≡ (same_page id x || contains x s))

either : (b c : Bool) → (not b && not c) ≡ false → (b ≡ true) ⊎ (c ≡ true)
either true c h = inl refl
either false true h = inr refl
either false false h = cc

full_of : (b : Bool) (m n : ℕ) → (not b && not (ltb m n)) ≡ true → n ≤ m
full_of true m n h = absurd cc
full_of false m n h = ground arith

-- A page is added only below the number.
added_length :
    (id : ℤ) (s : SeenIds)
    → (not (is_some (get_page (page_of id) s.pages)) && not (ltb (length s.pages) s.max_pages))
      ≡ false
    → length s.pages ≤ s.max_pages
    → length (set_in_page (page_of id) (bit_of id) s.pages) ≤ s.max_pages
added_length id s e k =
    elim (either (is_some (get_page (page_of id) s.pages)) (ltb (length s.pages) s.max_pages) e) [
      | inl f ↦ omega (arith, k, length-set_in_page (page_of id) (bit_of id) s.pages f)
      | inr f ↦ omega (tests, f, length-set_in_page_le (page_of id) (bit_of id) s.pages)
    ]

or_nothing : (b : Bool) → (b || false) ≡ b
or_nothing true = refl
or_nothing false = refl

or_move : (a b c : Bool) → (b || (a || c)) ≡ (a || b || c)
or_move true true c = refl
or_move true false c = refl
or_move false true c = refl
or_move false false c = refl

insert-Adds : (id : ℤ) (s : SeenIds) → IsWhole s → Adds id s (insert id s)
unfolding insert contains
insert-Adds id s (h, k) =
    let page = get_page (page_of id) s.pages in
    let added : SeenIds = record s { pages = set_in_page (page_of id) (bit_of id) s.pages } in
    if_cases (Adds id s) (not (is_some page) && not (ltb (length s.pages) s.max_pages)) (false, s)
      (true, added) (λ e. full_of (is_some page) (length s.pages) s.max_pages e)
      (λ e. (
        (set_in_page-IsPaged (page_of id) (bit_of id) s.pages h, added_length id s e k),
        refl,
        length-set_in_page_le (page_of id) (bit_of id) s.pages,
        (λ x. pages-insert id x s.pages h),
      ))

abbrev pub HasExactly : ℕ → List ℤ → SeenIds → Option SeenIds → Type 0
HasExactly n ids s none = n < length s.pages + length ids
HasExactly n ids s (some t) =
    (length t.pages ≤ n) × ((x : ℤ) → contains x t ≡ (is_among x ids || contains x s))

through :
    (n : ℕ) (id : ℤ) (ids : List ℤ) (s t : SeenIds) (o : Option SeenIds)
    → length t.pages ≤ length s.pages + 1
    → ((x : ℤ) → contains x t ≡ (same_page id x || contains x s))
    → HasExactly n ids t o
    → HasExactly n (id ∷ ids) s o
through n id ids s t none g h k = omega (arith, g, k)
through n id ids s t (some u) g h (l, k) = (
  l,
  λ x.
      k x
      ∙ ap (λ b. is_among x ids || b) (h x)
      ∙ or_move (same_page id x) (is_among x ids) (contains x s),
)

next-HasExactly :
    (n : ℕ) (id : ℤ) (ids : List ℤ) (s : SeenIds) (r : Bool × SeenIds)
    → s.max_pages ≡ n
    → Adds id s r
    → ((t : SeenIds) → IsWhole t → t.max_pages ≡ n → HasExactly n ids t (insert_each ids t))
    → HasExactly n (id ∷ ids) s (insert_next (insert_each ids) r)
next-HasExactly n id ids s (false, t) m h f = omega (arith, m, h)
next-HasExactly n id ids s (true, t) m (w, e, g, h) f =
    through n id ids s t (insert_each ids t) g h (f t w (e ∙ m))

insert_each-HasExactly :
    (n : ℕ) (ids : List ℤ) (s : SeenIds)
    → IsWhole s
    → s.max_pages ≡ n
    → HasExactly n ids s (insert_each ids s)
insert_each-HasExactly n [] s (h, k) m = (omega (arith, k, m), λ x. refl)
insert_each-HasExactly n (id ∷ ids) s w m =
    next-HasExactly n id ids s (insert id s) m (insert-Adds id s w) (insert_each-HasExactly n ids)

contains-new : (n : ℕ) (x : ℤ) → contains x (new n) ≡ false
unfolding contains new get_page
contains-new n x = refl

pages-new : (n : ℕ) → length (new n).pages ≡ 0
unfolding new
pages-new n = refl

new-IsWhole : (n : ℕ) → IsWhole (new n)
unfolding new
new-IsWhole n = (tt, omega arith)

max_pages-new : (n : ℕ) → (new n).max_pages ≡ n
unfolding new
max_pages-new n = refl

abbrev pub IsExactSet : ℕ → List ℤ → Option SeenIds → Type 0
IsExactSet n ids none = n < length ids
IsExactSet n ids (some t) = (length t.pages ≤ n) × ((x : ℤ) → contains x t ≡ is_among x ids)

exact_of_new :
    (n : ℕ) (ids : List ℤ) (o : Option SeenIds) → HasExactly n ids (new n) o → IsExactSet n ids o
exact_of_new n ids none h = omega (arith, h, pages-new n)
exact_of_new n ids (some t) (l, h) =
    (l, λ x. h x ∙ ap (λ b. is_among x ids || b) (contains-new n x) ∙ or_nothing (is_among x ids))

-- Ids that are inserted one after the other are all admitted if they are no more than the pages that
-- the set may have. If they are all admitted, the set contains exactly those that were inserted,
-- whatever their order and their signs, in no more pages than it may have.
pub insert_each-IsExactSet : (n : ℕ) (ids : List ℤ) → IsExactSet n ids (insert_each ids (new n))
insert_each-IsExactSet n ids =
    exact_of_new n ids (insert_each ids (new n))
      (insert_each-HasExactly n ids (new n) (new-IsWhole n) (max_pages-new n))
