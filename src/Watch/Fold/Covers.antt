-- ===== src/Watch/Fold/Covers.antt =====
-- `fold_refresh_paths` of watch.rs: what lies under the paths that it keeps.
use macevery.Prelude.{
  Bool, true, false, ◌||◌, List, [], ◌∷◌, ◌++◌, compare, Ordering, ◌≡◌, refl, arith, All,
  Bool-cases, ◌↔◌, sym, subst, inl, inr,
}
use macevery.Prelude.Compare.{compare_list}
use macevery.Search.Heap.{push, sort_onto, below}
use macevery.Search.Text.{Bytes, bytes_eq}
use macevery.Paths.{any, ancestors, path_starts_with}
use macevery.Paths.Ancestors.{
  bytes_eq_iff, bytes_eq_refl, IsUnder, ancestors-IsUnder, path_starts_with_refl,
  path_starts_with_trans,
}
use macevery.Watch.Fold.{
  contains, insert_set, sort_paths, is_covered, fold_loop, fold_refresh_paths,
}

pub any-append {ℓ} :
    {A : Type ℓ} (f : A → Bool) (xs ys : List A) → any f (xs ++ ys) ≡ (any f xs || any f ys)
unfolding any
any-append f [] ys = refl
any-append f (x ∷ xs) ys = ground (arith, any-append f xs ys)

-- One of the elements, with what is known of each.
pub any-witness {ℓ κ} :
    {A : Type ℓ} (P : A → Type κ) (f : A → Bool) (xs : List A)
    → All P xs
    → any f xs ≡ true
    → (x : A) × P x × (f x ≡ true)
unfolding any
any-witness P f [] h e = cc
any-witness P f (x ∷ xs) h e = elim (Bool-cases (f x)) [
  | inl t ↦ (x, h.0, t)
  | inr t ↦ any-witness P f xs h.1 (rw t at e)
]

pub any_of_contains :
    (f : Bytes → Bool) (set : List Bytes) (p : Bytes)
    → contains set p ≡ true
    → f p ≡ true
    → any f set ≡ true
unfolding contains any
any_of_contains f [] p h e = cc
any_of_contains f (x ∷ set) p h e = elim (Bool-cases (bytes_eq p x)) [
  | inl t ↦ rw (← (bytes_eq_iff p x).0 t, e)
  | inr t ↦ ground (arith, any_of_contains f set p (rw t at h) e)
]

push-All {ℓ κ} :
    {A : Type ℓ} (cmp : A → A → Ordering) (P : A → Type κ) (h : A) (l : List A)
    → All P (push cmp h l) ↔ (P h × All P l)
unfolding push
push-All cmp P h [] = (λ x. x, λ x. x)
push-All cmp P h (x ∷ l) = elim (Bool-cases (below cmp h x)) [
  | inl e ↦ rw e (λ y. y, λ y. y)
  | inr e ↦
      let (to, from) = push-All cmp P h l in
      rw e (λ y. ((to y.1).0, (y.0, (to y.1).1)), λ y. (y.1.0, from (y.0, y.1.1)))
]

sort_onto-All {ℓ κ} :
    {A : Type ℓ} (cmp : A → A → Ordering) (P : A → Type κ) (xs l : List A)
    → All P (sort_onto cmp xs l) ↔ (All P xs × All P l)
unfolding sort_onto
sort_onto-All cmp P [] l = (λ h. (tt, h), λ h. h.1)
sort_onto-All cmp P (x ∷ xs) l =
    let (to, from) = sort_onto-All cmp P xs (push cmp x l) in
    let (down, up) = push-All cmp P x l in
    (λ h. (((down (to h).1).0, (to h).0), (down (to h).1).1), λ h. from (h.0.1, up (h.0.0, h.1)))

-- A path that is not covered is not in the set itself.
insert_new :
    (set : List Bytes) (p : Bytes) → is_covered set p ≡ false → insert_set set p ≡ set ++ p ∷ []
unfolding insert_set is_covered any ancestors
insert_new set p h = ground (arith, h)

-- Under one of the paths.
abbrev pub CoveredBy : List Bytes → Bytes → Type 0
CoveredBy fs p = any (path_starts_with p) fs ≡ true

CoveredBy-of_is_covered : (set : List Bytes) (p : Bytes) → is_covered set p ≡ true → CoveredBy set p
CoveredBy-of_is_covered set p h =
    let (a, under, e) =
      any-witness (IsUnder p) (contains set) (ancestors p) (ancestors-IsUnder p)
        (unfold is_covered in h) in
    any_of_contains (path_starts_with p) set a e under

fold_loop-keeps :
    (f : Bytes → Bool) (paths set folded : List Bytes)
    → any f folded ≡ true
    → any f (fold_loop paths set folded) ≡ true
unfolding fold_loop
fold_loop-keeps f [] set folded h = h
fold_loop-keeps f (p ∷ paths) set folded h = elim (Bool-cases (is_covered set p)) [
  | inl e ↦ rw e (fold_loop-keeps f paths set folded h)
  | inr e ↦ rw e (
      fold_loop-keeps f paths (insert_set set p) (folded ++ p ∷ [])
        (ground (arith, any-append f folded (p ∷ []), h)))
]

own : (folded : List Bytes) (p : Bytes) → CoveredBy (folded ++ p ∷ []) p
own folded p =
    rw (any-append (path_starts_with p) folded (p ∷ []))
      (unfold any in ground (arith, path_starts_with_refl p))

fold_loop-old :
    (p : Bytes) (paths folded : List Bytes)
    → is_covered folded p ≡ true
    → fold_loop (p ∷ paths) folded folded ≡ fold_loop paths folded folded
unfolding fold_loop
fold_loop-old p paths folded e = rw e

fold_loop-new :
    (p : Bytes) (paths folded : List Bytes)
    → is_covered folded p ≡ false
    → fold_loop (p ∷ paths) folded folded ≡ fold_loop paths (folded ++ p ∷ []) (folded ++ p ∷ [])
unfolding fold_loop
fold_loop-new p paths folded e = rw (e, insert_new folded p e)

fold_loop-covers :
    (paths folded : List Bytes) → All (CoveredBy (fold_loop paths folded folded)) paths
fold_loop-covers [] folded = tt
fold_loop-covers (p ∷ paths) folded = elim (Bool-cases (is_covered folded p)) [
  | inl e ↦
      subst (λ r. All (CoveredBy r) (p ∷ paths)) (sym (fold_loop-old p paths folded e))
        (
          fold_loop-keeps (path_starts_with p) paths folded folded
              (CoveredBy-of_is_covered folded p e),
          fold_loop-covers paths folded,
        )
  | inr e ↦
      subst (λ r. All (CoveredBy r) (p ∷ paths)) (sym (fold_loop-new p paths folded e))
        (
          fold_loop-keeps (path_starts_with p) paths _ _ (own folded p),
          fold_loop-covers paths (folded ++ p ∷ []),
        )
]

All-append {ℓ κ} :
    {A : Type ℓ} (P : A → Type κ) (xs ys : List A) → All P xs → All P ys → All P (xs ++ ys)
All-append P [] ys h k = k
All-append P (x ∷ xs) ys h k = (h.0, All-append P xs ys h.1 k)

fold_loop-All {κ} :
    (P : Bytes → Type κ) (paths set folded : List Bytes)
    → All P paths
    → All P folded
    → All P (fold_loop paths set folded)
unfolding fold_loop
fold_loop-All P [] set folded h k = k
fold_loop-All P (p ∷ paths) set folded h k = elim (Bool-cases (is_covered set p)) [
  | inl e ↦ rw e (fold_loop-All P paths set folded h.1 k)
  | inr e ↦ rw e (
      fold_loop-All P paths (insert_set set p) (folded ++ p ∷ []) h.1
        (All-append P folded (p ∷ []) k (h.0, tt)))
]

pub All-contains : (xs : List Bytes) → All (λ p. contains xs p ≡ true) xs
All-contains [] = tt
All-contains (x ∷ xs) =
    (unfold contains any in ground (arith, bytes_eq_refl x), All-mono xs (All-contains xs))
  where
    All-mono :
        (ys : List Bytes)
        → All (λ p. contains xs p ≡ true) ys
        → All (λ p. contains (x ∷ xs) p ≡ true) ys
    All-mono [] h = tt
    All-mono (y ∷ ys) h = (unfold contains any in ground (arith, h.0), All-mono ys h.1)

-- Whatever holds of every given path holds of every path that is kept.
pub fold_refresh_paths-All {κ} :
    (P : Bytes → Type κ) (paths : List Bytes) → All P paths → All P (fold_refresh_paths paths)
unfolding fold_refresh_paths sort_paths
fold_refresh_paths-All P paths h =
    fold_loop-All P _ [] [] ((sort_onto-All (compare_list compare) P paths []).1 (h, tt)) tt

-- Every given path lies, by whole components, under a path that is kept, and every path that is kept
-- is one of those given.
pub fold_refresh_paths-covers :
    (paths : List Bytes)
    → All (λ p. any (path_starts_with p) (fold_refresh_paths paths) ≡ true) paths
      × All (λ f. contains paths f ≡ true) (fold_refresh_paths paths)
fold_refresh_paths-covers paths = (
  ((sort_onto-All (compare_list compare) (CoveredBy (fold_refresh_paths paths)) paths []).0
      (unfold fold_refresh_paths sort_paths in fold_loop-covers (sort_paths paths) [])).0,
  fold_refresh_paths-All (λ f. contains paths f ≡ true) paths (All-contains paths),
)

any_trans :
    (x k : Bytes) (fs : List Bytes)
    → path_starts_with x k ≡ true
    → any (path_starts_with k) fs ≡ true
    → any (path_starts_with x) fs ≡ true
unfolding any
any_trans x k [] u h = cc
any_trans x k (f ∷ fs) u h = elim (Bool-cases (path_starts_with k f)) [
  | inl v ↦ ground (arith, path_starts_with_trans f k x v u)
  | inr v ↦ ground (arith, any_trans x k fs u (rw v at h))
]

-- Folding keeps a path above `x`.
pub any-fold :
    (x : Bytes) (ps : List Bytes)
    → any (path_starts_with x) ps ≡ true
    → any (path_starts_with x) (fold_refresh_paths ps) ≡ true
any-fold x ps h =
    let (k, covered, u) =
      any-witness _ (path_starts_with x) ps (fold_refresh_paths-covers ps).0 h in
    any_trans x k (fold_refresh_paths ps) u covered
