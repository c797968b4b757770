-- ===== src/Watch/Fold.antt =====
-- `fold_refresh_paths` of watch.rs: the paths to refresh without those that lie under another.
pub mod Covers
use macevery.Prelude.{ℕ, Bool, true, false, List, [], ◌∷◌, ◌++◌, if◌then◌else◌, compare}
use macevery.Prelude.Compare.{compare_list}
use macevery.Search.Heap.{sort_onto}
use macevery.Search.Text.{Bytes, bytes_eq}
use macevery.Paths.{any, ancestors}

-- `BTreeSet::contains`.
unfoldable pub contains : List Bytes → Bytes → Bool
unfolding any bytes_eq
contains set p = any (bytes_eq p) set

-- `BTreeSet::insert`.
unfoldable pub insert_set : List Bytes → Bytes → List Bytes
unfolding contains
insert_set set p = if contains set p then set else set ++ p ∷ []

-- `paths.sort()`, bytewise.
unfoldable pub sort_paths : List Bytes → List Bytes
unfolding sort_onto
sort_paths paths = sort_onto (compare_list compare) paths []

unfoldable pub is_covered : List Bytes → Bytes → Bool
is_covered set path = any (contains set) (ancestors path)

-- The `for path in paths` loop; `set` is the local `ancestors`.
unfoldable pub fold_loop : List Bytes → List Bytes → List Bytes → List Bytes
fold_loop [] set folded = folded
fold_loop (path ∷ paths) set folded =
    let covered = is_covered set path in
    fold_loop paths (if covered then set else insert_set set path)
      (if covered then folded else folded ++ path ∷ [])

unfoldable pub fold_refresh_paths : List Bytes → List Bytes
fold_refresh_paths paths = fold_loop (sort_paths paths) [] []
