-- ===== src/Paths/Ancestors.antt =====
-- `ancestors` and `starts_with` of `std::path::Path`, as the watcher relies on them.
use macevery.Prelude.{
  ℕ, Bool, true, false, List, [], ◌∷◌, ◌++◌, if◌then◌else◌, ltb, length, ◌≡◌, refl, arith, ◌⊎◌, inl,
  inr, ◌↔◌, ap, ◌∙◌, sym, append_assoc, append-nil, subst, Bool-cases, All,
}
use macevery.Search.Text.{Bytes, bytes_eq, split}
use macevery.Paths.{
  slash, is_slash, root_dir, is_kept, kept_parts, is_absolute, lead, components, is_prefix,
  path_starts_with, map_front, before_slashes, is_parent_of, select, reverse_onto, top, ancestors,
}

pub bytes_eq_iff : (a b : Bytes) → (bytes_eq a b ≡ true) ↔ (a ≡ b)
unfolding bytes_eq
bytes_eq_iff [] [] = (λ h. refl, λ h. refl)
bytes_eq_iff [] (y ∷ b) = (λ h. cc, λ h. cc)
bytes_eq_iff (x ∷ a) [] = (λ h. cc, λ h. cc)
bytes_eq_iff (x ∷ a) (y ∷ b) =
    (λ h. ground (arith, (bytes_eq_iff a b).0), λ h. ground (arith, (bytes_eq_iff a b).1))

pub bytes_eq_refl : (a : Bytes) → bytes_eq a a ≡ true
bytes_eq_refl a = (bytes_eq_iff a a).1 refl

pub is_prefix-append : (b c : List Bytes) → is_prefix b (b ++ c) ≡ true
unfolding is_prefix
is_prefix-append [] c = refl
is_prefix-append (x ∷ b) c = rw (bytes_eq_refl x) (is_prefix-append b c)

pub is_prefix_trans :
    (a b c : List Bytes) → is_prefix a b ≡ true → is_prefix b c ≡ true → is_prefix a c ≡ true
unfolding is_prefix
is_prefix_trans [] b c h k = refl
is_prefix_trans (x ∷ a) [] c h k = cc
is_prefix_trans (x ∷ a) (y ∷ b) [] h k = cc
is_prefix_trans (x ∷ a) (y ∷ b) (z ∷ c) h k =
    ground (
      arith,
      (bytes_eq_iff x y).0,
      (bytes_eq_iff y z).0,
      (bytes_eq_iff x z).1,
      is_prefix_trans a b c,
    )

pub path_starts_with_trans :
    (a b c : Bytes)
    → path_starts_with b a ≡ true
    → path_starts_with c b ≡ true
    → path_starts_with c a ≡ true
unfolding path_starts_with
path_starts_with_trans a b c h k = is_prefix_trans (components a) (components b) (components c) h k

pub path_starts_with_refl : (a : Bytes) → path_starts_with a a ≡ true
unfolding path_starts_with
path_starts_with_refl a = rw append-nil at (is_prefix-append (components a) [])

-- A path that continues another's components.
path_starts_with_of :
    (p f : Bytes) (r : List Bytes) → components p ≡ components f ++ r → path_starts_with p f ≡ true
unfolding path_starts_with
path_starts_with_of p f r e = rw e (is_prefix-append (components f) r)

split-cons : (s : Bytes) → (part : Bytes) × (parts : List Bytes) × (split is_slash s ≡ part ∷ parts)
unfolding split
split-cons [] = ([], [], refl)
split-cons (c ∷ s) =
    let (part, parts, e) = split-cons s in
    elim (Bool-cases (is_slash c)) [
      | inl h ↦ ([], split is_slash s, rw h)
      | inr h ↦ (c ∷ part, parts, rw (h, e))
    ]

-- A separator splits what stands on its two sides.
split-slash : (f r : Bytes) → split is_slash (f ++ slash ∷ r) ≡ split is_slash f ++ split is_slash r
unfolding split
split-slash [] r = refl
split-slash (c ∷ f) r =
    let (part, parts, e) = split-cons f in
    elim (Bool-cases (is_slash c)) [
      | inl h ↦ rw h (ap (◌∷◌ []) (split-slash f r))
      | inr h ↦ rw (h, split-slash f r, e)
    ]

kept_parts-append : (a b : List Bytes) → kept_parts (a ++ b) ≡ kept_parts a ++ kept_parts b
unfolding kept_parts
kept_parts-append [] b = refl
kept_parts-append (x ∷ a) b = ground (arith, kept_parts-append a b)

lead-slash : (c : ℕ) (f r : Bytes) → lead ((c ∷ f) ++ slash ∷ r) ≡ lead (c ∷ f)
unfolding lead is_absolute
lead-slash c f r = let (part, parts, e) = split-cons (c ∷ f) in rw (split-slash (c ∷ f) r, e)

components-slash :
    (c : ℕ) (f r : Bytes)
    → components ((c ∷ f) ++ slash ∷ r) ≡ components (c ∷ f) ++ kept_parts (split is_slash r)
components-slash c f r =
    components-of ((c ∷ f) ++ slash ∷ r)
    ∙ rw (lead-slash c f r, split-slash (c ∷ f) r, kept_parts-append)
        (sym (append_assoc (lead (c ∷ f)) _ _)
          ∙ ap (λ x. x ++ kept_parts (split is_slash r)) (sym (components-of (c ∷ f))))
  where
    components-of : (p : Bytes) → components p ≡ lead p ++ kept_parts (split is_slash p)
    components-of p = unfold components in refl

-- Every string is followed by a separator in `p`.
abbrev Continues : Bytes → Bytes → Type 0
Continues p f = (r : Bytes) × (p ≡ f ++ slash ∷ r)

map_front-Continues :
    (c : ℕ) (p : Bytes) (fs : List Bytes)
    → All (Continues p) fs
    → All (Continues (c ∷ p)) (map_front c fs)
map_front-Continues c p [] h = tt
map_front-Continues c p (f ∷ fs) h = ((h.0.0, ap (◌∷◌ c) h.0.1), map_front-Continues c p fs h.1)

before_slashes-Continues : (p : Bytes) → All (Continues p) (before_slashes p)
unfolding before_slashes
before_slashes-Continues [] = tt
before_slashes-Continues (c ∷ p) =
    let more = map_front-Continues c p (before_slashes p) (before_slashes-Continues p) in
    elim (Bool-cases (is_slash c)) [
      | inl h ↦ rw h ((p, ground (arith, h)), more)
      | inr h ↦ rw h more
    ]

abbrev pub IsUnder : Bytes → Bytes → Type 0
IsUnder p f = path_starts_with p f ≡ true

parent-IsUnder : (p f : Bytes) → is_parent_of p f ≡ true → Continues p f → IsUnder p f
unfolding is_parent_of
parent-IsUnder p [] h e = unfold is_kept bytes_eq split in cc
parent-IsUnder p (c ∷ f) h (r, e) =
    path_starts_with_of p (c ∷ f) (kept_parts (split is_slash r))
      (ap components e ∙ components-slash c f r)

select-IsUnder :
    (p : Bytes) (fs : List Bytes)
    → All (Continues p) fs
    → All (IsUnder p) (select (is_parent_of p) fs)
unfolding select
select-IsUnder p [] h = tt
select-IsUnder p (f ∷ fs) h = elim (Bool-cases (is_parent_of p f)) [
  | inl e ↦ rw e (parent-IsUnder p f e h.0, select-IsUnder p fs h.1)
  | inr e ↦ rw e (select-IsUnder p fs h.1)
]

reverse_onto-All {κ} :
    (P : Bytes → Type κ) (xs acc : List Bytes) → All P xs → All P acc → All P (reverse_onto xs acc)
unfolding reverse_onto
reverse_onto-All P [] acc h k = k
reverse_onto-All P (x ∷ xs) acc h k = reverse_onto-All P xs (x ∷ acc) h.1 (h.0, k)

root-IsUnder : (p : Bytes) → is_absolute p ≡ true → IsUnder p root_dir
root-IsUnder p h =
    path_starts_with_of p root_dir (kept_parts (split is_slash p)) (unfold components in rw h)

empty-IsUnder : (p : Bytes) → IsUnder p []
unfolding path_starts_with
empty-IsUnder p = refl

one_or_none {κ} :
    (P : Bytes → Type κ) (b : Bool) (x : Bytes) → P x → All P (if b then x ∷ [] else [])
one_or_none P true x h = (h, tt)
one_or_none P false x h = tt

top-IsUnder : (p : Bytes) → All (IsUnder p) (top p)
top-IsUnder p = elim (Bool-cases (is_absolute p)) [
  | inl h ↦
      subst (All (IsUnder p)) (sym (absolute h))
        (one_or_none (IsUnder p) _ root_dir (root-IsUnder p h))
  | inr h ↦
      subst (All (IsUnder p)) (sym (relative h)) (one_or_none (IsUnder p) _ [] (empty-IsUnder p))
]
  where
    absolute :
        is_absolute p ≡ true → top p ≡ (if ltb 1 (length (components p)) then root_dir ∷ [] else [])
    absolute h = unfold top in rw (h, components, lead)

    relative :
        is_absolute p ≡ false → top p ≡ (if ltb 0 (length (components p)) then [] ∷ [] else [])
    relative h = unfold top in rw (h, components, lead)

pub ancestors-IsUnder : (p : Bytes) → All (IsUnder p) (ancestors p)
unfolding ancestors
ancestors-IsUnder p = (
  path_starts_with_refl p,
  reverse_onto-All (IsUnder p) _ (top p)
      (select-IsUnder p (before_slashes p) (before_slashes-Continues p)) (top-IsUnder p),
)

-- Two paths above one path lie one above the other.
is_prefix-comparable :
    (a b c : List Bytes)
    → is_prefix a c ≡ true
    → is_prefix b c ≡ true
    → (is_prefix a b ≡ true) ⊎ (is_prefix b a ≡ true)
unfolding is_prefix
is_prefix-comparable [] b c h k = inl refl
is_prefix-comparable (x ∷ a) [] c h k = inr refl
is_prefix-comparable (x ∷ a) (y ∷ b) [] h k = cc
is_prefix-comparable (x ∷ a) (y ∷ b) (z ∷ c) h k = ground (
  arith,
  (bytes_eq_iff x z).0,
  (bytes_eq_iff y z).0,
  (bytes_eq_iff x y).1,
  (bytes_eq_iff y x).1,
  is_prefix-comparable a b c,
)

pub path_starts_with-comparable :
    (a b x : Bytes)
    → path_starts_with x a ≡ true
    → path_starts_with x b ≡ true
    → (path_starts_with b a ≡ true) ⊎ (path_starts_with a b ≡ true)
unfolding path_starts_with
path_starts_with-comparable a b x h k =
    is_prefix-comparable (components a) (components b) (components x) h k
