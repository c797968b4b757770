-- ===== src/Search/PathView.antt =====
-- `PathView` of search.rs: a path in two slices, compared as the bytes of both.
pub mod Concat
use macevery.Prelude.{
  ℕ, zero, suc, ◌+◌, ◌-◌, Bool, ◌&&◌, ◌||◌, Option, none, some, List, ◌++◌, [], compare, Ordering,
  if◌then◌else◌, ltb, ◌==◌, length, take, drop, min, true, false,
}
use macevery.Prelude.Compare.{compare_list, is_eq}

-- `prefix_ptr` is the address that `as_ptr` returns for the prefix.
pub record PathView : Type 0 where
  pub prefix_ptr : ℕ
  pub prefix : List ℕ
  pub suffix : List ℕ

-- The address of the empty literal, which `From<&str>` takes for its prefix.
abbrev pub empty_ptr : ℕ
empty_ptr = 1

unfoldable pub from_str : List ℕ → PathView
from_str path = record { prefix_ptr = empty_ptr; prefix = []; suffix = path }

-- The bytes that the view stands for.
abbrev pub bytes : PathView → List ℕ
bytes p = p.prefix ++ p.suffix

unfoldable pub len : PathView → ℕ
len p = length p.prefix + length p.suffix

-- `left[l]`.
abbrev pub segment : PathView → ℕ → List ℕ
segment p zero = p.prefix
segment p (suc l) = p.suffix

-- `while l < 2 && lo == left[l].len() { l += 1; lo = 0; }`: two rounds at most.
unfoldable pub skip : ℕ → PathView → ℕ → ℕ → ℕ × ℕ
skip zero p l lo = (l, lo)
skip (suc n) p l lo =
    let rest = skip n p (l + 1) 0 in if ltb l 2 && lo == length (segment p l) then rest else (l, lo)

-- `slice[lo..lo + n]`.
abbrev pub slice : List ℕ → ℕ → ℕ → List ℕ
slice s lo n = take n (drop lo s)

abbrev pub compare_bool : Bool → Bool → Ordering
compare_bool false true = Ordering.lt
compare_bool true false = Ordering.gt
compare_bool _ _ = Ordering.eq

-- The loop's body behind the two skips; `next` is the next round.
unfoldable pub round :
    (ℕ → ℕ → ℕ → ℕ → Option Ordering) → PathView → PathView → ℕ × ℕ → ℕ × ℕ → Option Ordering
round next p q (l, lo) (r, ro) =
    let left = segment p l in
    let right = segment q r in
    let n = min (length left - lo) (length right - ro) in
    let order = compare_list compare (slice left lo n) (slice right ro n) in
    let rest = next l (lo + n) r (ro + n) in
    if l == 2 || r == 2
    then some (compare_bool (r == 2) (l == 2))
    else if is_eq order
    then rest
    else some order

-- `none` is an exhausted fuel, which the comparison never meets.
unfoldable pub loop : ℕ → PathView → PathView → ℕ → ℕ → ℕ → ℕ → Option Ordering
loop zero p q l lo r ro = none
loop (suc f) p q l lo r ro = round (loop f p q) p q (skip 2 p l lo) (skip 2 q r ro)

unfoldable pub cmp : PathView → PathView → Option Ordering
unfolding loop round skip
cmp p q =
    if p.prefix_ptr == q.prefix_ptr && length p.prefix == length q.prefix
    then some (compare_list compare p.suffix q.suffix)
    else loop 5 p q 0 0 0 0
