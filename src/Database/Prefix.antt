-- ===== src/Database/Prefix.antt =====
-- `path_prefix_bounds` of db.rs: the range of keys that stands for a directory.
use Prim.Native.Nat.{zero, suc}
use macevery.Prelude.{
  ℕ, Bool, false, not, ◌&&◌, ◌||◌, Option, none, some, [], ◌∷◌, ◌++◌, if◌then◌else◌, ◌==◌, compare,
  replicate, ◌≡◌, refl, ap, ◌∙◌, arith, if_cases,
}
use macevery.Prelude.Compare.{compare_list, is_lt}
use macevery.Search.Text.{Bytes, starts_with, is_empty, bytes_eq}
use macevery.Model.Text.{trim_end}

abbrev pub slash : ℕ
slash = b'/'

abbrev pub starts_with_slash : Bytes → Bool
starts_with_slash [] = false
starts_with_slash (c ∷ s) = c == slash

-- `String::pop`, which takes the last character off; here it is ASCII.
unfoldable pub pop : Bytes → Bytes
pop [] = []
pop (c ∷ s) = let rest = pop s in if is_empty s then [] else c ∷ rest

unfoldable pub root_of : Bytes → Bytes
root_of path =
    let trimmed = trim_end (λ c. c == slash) path in
    if is_empty trimmed && starts_with_slash path then slash ∷ [] else trimmed

unfoldable pub lower_of : Bytes → Bytes
lower_of root = if bytes_eq root (slash ∷ []) then slash ∷ [] else root ++ slash ∷ []

unfoldable pub upper_of : Bytes → Bytes
upper_of lower = pop lower ++ b'0' ∷ []

unfoldable pub path_prefix_bounds : Bytes → Option (Bytes × Bytes × Bytes)
path_prefix_bounds path =
    let root = root_of path in
    let lower = lower_of root in if is_empty root then none else some (root, lower, upper_of lower)

-- `path >= lower AND path < upper`, in the BINARY order of bytes.
abbrev pub in_range : Bytes → Bytes → Bytes → Bool
in_range p lower upper =
    not (is_lt (compare_list compare p lower)) && is_lt (compare_list compare p upper)

range_at_end : (p : Bytes) → in_range p (slash ∷ []) (b'0' ∷ []) ≡ starts_with p (slash ∷ [])
unfolding starts_with
range_at_end [] = refl
range_at_end (c ∷ []) = ground arith
range_at_end (c ∷ d ∷ s) = ground arith

in_range-append :
    (root p : Bytes)
    → in_range p (root ++ slash ∷ []) (root ++ b'0' ∷ []) ≡ starts_with p (root ++ slash ∷ [])
unfolding starts_with
in_range-append [] p = range_at_end p
in_range-append (r ∷ root) [] = refl
in_range-append (r ∷ root) (c ∷ p) = ground (arith, in_range-append root p)

pop-append : (x : Bytes) (c : ℕ) → pop (x ++ c ∷ []) ≡ x
unfolding pop
pop-append [] c = refl
pop-append (d ∷ []) c = refl
pop-append (d ∷ e ∷ x) c = ap (λ l. d ∷ l) (pop-append (e ∷ x) c)

range_at_slash :
    (p : Bytes)
    → in_range p (slash ∷ []) (pop (slash ∷ []) ++ b'0' ∷ []) ≡ starts_with p (slash ∷ [])
unfolding pop
range_at_slash p = range_at_end p

in_range_lem :
    (root p : Bytes)
    → in_range p (lower_of root) (upper_of (lower_of root)) ≡ starts_with p (lower_of root)
unfolding lower_of upper_of
in_range_lem root p =
    if_cases (λ l. in_range p l (pop l ++ b'0' ∷ []) ≡ starts_with p l) (bytes_eq root (slash ∷ []))
      (slash ∷ []) (root ++ slash ∷ []) (λ e. range_at_slash p)
      (λ e.
        ap (λ l. in_range p (root ++ slash ∷ []) (l ++ b'0' ∷ [])) (pop-append root slash)
        ∙ in_range-append root p)

-- The condition of DELETE_PATH_PREFIX_SQL, at the bounds that are bound to it.
abbrev pub selects : Option (Bytes × Bytes × Bytes) → Bytes → Bool
selects none p = false
selects (some (root, lower, upper)) p = bytes_eq p root || in_range p lower upper

-- What the bounds of a root select.
abbrev is_at : Bytes → Bytes → Bool
is_at root p = not (is_empty root) && (bytes_eq p root || starts_with p (lower_of root))

selects_root :
    (root p : Bytes)
    → selects
        (if is_empty root then none else some (root, lower_of root, upper_of (lower_of root)))
        p
      ≡ is_at root p
selects_root [] p = refl
selects_root (c ∷ root) p = ap (λ b. bytes_eq p (c ∷ root) || b) (in_range_lem (c ∷ root) p)

abbrev pub ends_in_slash : Bytes → Bool
ends_in_slash [] = false
ends_in_slash (c ∷ []) = c == slash
ends_in_slash (c ∷ d ∷ s) = ends_in_slash (d ∷ s)

trim_end-replicate : (n : ℕ) → trim_end (λ c. c == slash) (replicate n slash) ≡ []
unfolding trim_end
trim_end-replicate zero = refl
trim_end-replicate (suc n) = rw (trim_end-replicate n) refl

trim_end-append :
    (r : Bytes) (n : ℕ)
    → ends_in_slash r ≡ false
    → trim_end (λ c. c == slash) (r ++ replicate n slash) ≡ r
unfolding trim_end
trim_end-append [] n h = trim_end-replicate n
trim_end-append (c ∷ []) n h = rw (trim_end-replicate n, h) refl
trim_end-append (c ∷ d ∷ r) n h = rw (trim_end-append (d ∷ r) n h) (ground arith)

-- The root of a path that is written as a name and slashes.
abbrev name_of : Bytes → ℕ → Bytes
name_of [] zero = []
name_of [] (suc n) = slash ∷ []
name_of (c ∷ r) n = c ∷ r

root_of-append :
    (r : Bytes) (n : ℕ) → ends_in_slash r ≡ false → root_of (r ++ replicate n slash) ≡ name_of r n
unfolding root_of
root_of-append [] zero h = rw (trim_end-append [] zero h) refl
root_of-append [] (suc n) h = rw (trim_end-append [] (suc n) h) refl
root_of-append (c ∷ r) n h = rw (trim_end-append (c ∷ r) n h) refl

lower_of-append : (r : Bytes) → ends_in_slash r ≡ false → lower_of r ≡ r ++ slash ∷ []
unfolding lower_of bytes_eq
lower_of-append [] h = refl
lower_of-append (c ∷ []) h = rw h refl
lower_of-append (c ∷ d ∷ r) h = ground arith

-- What is in a directory whose name ends in no slash and that is written with a number of slashes
-- behind the name: the directory, and what goes on from it with a slash. Slashes alone are the root of
-- all that is absolute, and nothing is in the empty path.
abbrev pub is_in : Bytes → ℕ → Bytes → Bool
is_in [] zero p = false
is_in [] (suc n) p = starts_with p (slash ∷ [])
is_in (c ∷ r) n p = bytes_eq p (c ∷ r) || starts_with p ((c ∷ r) ++ slash ∷ [])

root_in :
    (p : Bytes)
    → (bytes_eq p (slash ∷ []) || starts_with p (slash ∷ [])) ≡ starts_with p (slash ∷ [])
unfolding bytes_eq starts_with
root_in [] = refl
root_in (c ∷ []) = ground arith
root_in (c ∷ d ∷ p) = ground arith

is_at-is_in :
    (r : Bytes) (n : ℕ) (p : Bytes) → ends_in_slash r ≡ false → is_at (name_of r n) p ≡ is_in r n p
unfolding lower_of bytes_eq
is_at-is_in [] zero p h = refl
is_at-is_in [] (suc n) p h = lower_root ∙ root_in p
  where
    lower_root : is_at (slash ∷ []) p ≡ (bytes_eq p (slash ∷ []) || starts_with p (slash ∷ []))
    lower_root = refl
is_at-is_in (c ∷ r) n p h =
    ap (λ l. bytes_eq p (c ∷ r) || starts_with p l) (lower_of-append (c ∷ r) h)

-- Take a path that is a name, which does not end in a slash, followed by any number of slashes. If the
-- name is not empty, its bounds select exactly the path that is the name, and the paths that go on from
-- the name with a slash: none that only begins as the name does. If it is empty, they select exactly the
-- paths that begin with a slash where the path has a slash, and nothing where it has none.
pub selects-path_prefix_bounds :
    (r : Bytes) (n : ℕ) (p : Bytes)
    → ends_in_slash r ≡ false
    → selects (path_prefix_bounds (r ++ replicate n slash)) p ≡ is_in r n p
unfolding path_prefix_bounds
selects-path_prefix_bounds r n p h =
    selects_root (root_of (r ++ replicate n slash)) p
    ∙ ap (λ root. is_at root p) (root_of-append r n h)
    ∙ is_at-is_in r n p h
