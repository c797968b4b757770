-- ===== src/Paths.antt =====
-- What the code uses of `std::path::Path`, on the bytes of a path: its components, `starts_with`,
-- `is_absolute` and `ancestors`.
pub mod Ancestors
use macevery.Prelude.{
  ℕ, Bool, true, false, not, ◌&&◌, ◌||◌, List, [], ◌∷◌, ◌++◌, if◌then◌else◌, ltb, ◌==◌, length,
}
use macevery.Search.Text.{Bytes, bytes_eq, split, is_empty}

abbrev pub slash : ℕ
slash = b'/'

abbrev pub is_slash : ℕ → Bool
is_slash c = c == slash

abbrev pub dot : Bytes
dot = b'.' ∷ []

abbrev pub dot_dot : Bytes
dot_dot = b'.' ∷ b'.' ∷ []

-- `Component::RootDir`, which no other component is spelled like.
abbrev pub root_dir : Bytes
root_dir = slash ∷ []

-- A part between separators is a component unless it is empty or a single dot.
unfoldable pub is_kept : Bytes → Bool
unfolding bytes_eq
is_kept part = not (is_empty part) && not (bytes_eq part dot)

unfoldable pub kept_parts : List Bytes → List Bytes
kept_parts [] = []
kept_parts (part ∷ parts) =
    let rest = kept_parts parts in if is_kept part then part ∷ rest else rest

unfoldable pub is_absolute : Bytes → Bool
is_absolute [] = false
is_absolute (c ∷ p) = is_slash c

abbrev first_part : List Bytes → Bytes
first_part [] = []
first_part (part ∷ parts) = part

-- The root of an absolute path, or the dot that a relative path may begin with.
unfoldable pub lead : Bytes → List Bytes
lead p =
    if is_absolute p
    then root_dir ∷ []
    else if bytes_eq (first_part (split is_slash p)) dot
    then dot ∷ []
    else []

-- `path.components()`.
unfoldable pub components : Bytes → List Bytes
unfolding is_kept kept_parts is_absolute lead split bytes_eq
components p = lead p ++ kept_parts (split is_slash p)

unfoldable pub is_prefix : List Bytes → List Bytes → Bool
unfolding bytes_eq
is_prefix [] cs = true
is_prefix (b ∷ bs) [] = false
is_prefix (b ∷ bs) (c ∷ cs) = bytes_eq b c && is_prefix bs cs

-- `path.starts_with(base)`: whole components.
unfoldable pub path_starts_with : Bytes → Bytes → Bool
unfolding components is_prefix
path_starts_with path base = is_prefix (components base) (components path)

unfoldable pub any {ℓ} : {A : Type ℓ} → (A → Bool) → List A → Bool
any f [] = false
any f (x ∷ xs) = f x || any f xs

unfoldable pub all {ℓ} : {A : Type ℓ} → (A → Bool) → List A → Bool
all f [] = true
all f (x ∷ xs) = f x && all f xs

-- `components().any(|part| matches!(part, Component::ParentDir))`.
unfoldable pub has_parent_dir : Bytes → Bool
unfolding any components bytes_eq
has_parent_dir p = any (λ part. bytes_eq part dot_dot) (components p)

abbrev map_front : ℕ → List Bytes → List Bytes
map_front c [] = []
map_front c (s ∷ ss) = (c ∷ s) ∷ map_front c ss

-- The prefixes that a separator follows, the shortest first.
unfoldable pub before_slashes : Bytes → List Bytes
before_slashes [] = []
before_slashes (c ∷ p) =
    let rest = map_front c (before_slashes p) in if is_slash c then [] ∷ rest else rest

abbrev last_part : List Bytes → Bytes
last_part [] = []
last_part (part ∷ []) = part
last_part (part ∷ next ∷ parts) = last_part (next ∷ parts)

-- The prefix ends in a component, and the path has further ones.
unfoldable pub is_parent_of : Bytes → Bytes → Bool
unfolding components
is_parent_of p f =
    (is_kept (last_part (split is_slash f)) || bytes_eq f dot)
    && ltb (length (components f)) (length (components p))

unfoldable pub select : (Bytes → Bool) → List Bytes → List Bytes
select f [] = []
select f (x ∷ xs) = let rest = select f xs in if f x then x ∷ rest else rest

unfoldable pub reverse_onto : List Bytes → List Bytes → List Bytes
reverse_onto [] acc = acc
reverse_onto (x ∷ xs) acc = reverse_onto xs (x ∷ acc)

-- Where the walk upwards ends: the root, or the empty path that stands for no component.
unfoldable pub top : Bytes → List Bytes
unfolding components
top p =
    if is_absolute p
    then (if ltb 1 (length (components p)) then root_dir ∷ [] else [])
    else (if ltb 0 (length (components p)) then [] ∷ [] else [])

-- `path.ancestors()`: the path itself, then each parent.
unfoldable pub ancestors : Bytes → List Bytes
unfolding before_slashes is_parent_of select reverse_onto top
ancestors p = p ∷ reverse_onto (select (is_parent_of p) (before_slashes p)) (top p)
