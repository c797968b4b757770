-- ===== src/Samples/Tables.antt =====
-- Runs of src/db.rs, src/scanner.rs and the event filter of src/watch.rs.
use macevery.Prelude.{◌≡◌, refl, ◌↔◌, some, List, [], ◌∷◌, ◌++◌, replicate}
use macevery.Prelude.Int.{ℤ, pos, negsuc}
use macevery.Model.Text.{trim_end, Text, codes}
use macevery.Search.Glob.Matches.{Matches}
use macevery.Search.Text.{bytes_eq}
use macevery.Database.Prefix.{
  slash, lower_of, upper_of, pop, path_prefix_bounds, root_of, selects, is_in,
  selects-path_prefix_bounds,
}
use macevery.Database.Like.{like_char, percent, escape_like, glob_to_like}
use macevery.Database.Like.Pattern.{Like}
use macevery.Database.Like.Contains.{escape_like_iff}
use macevery.Prelude.{arith}
use macevery.Scanner.Exclude.{is_excluded, exclude_new}
use macevery.Scanner.Exclude.Infix.{any_stands_in, is_excluded-exclude_new}
use macevery.Watch.Event.{FsEvent}
use macevery.Watch.Filter.{EventFilter, FilterCounters, accept_all}
use macevery.Watch.Filter.Counted.{IsCounted, recoveries, accept_all_lem}
use macevery.Database.Seen.{new}
use macevery.Database.Seen.Inserts.{insert_each, IsExactSet, insert_each-IsExactSet}

bounds_of_dir :
    path_prefix_bounds (codes "/r/a//") ≡ some (codes "/r/a", codes "/r/a/", codes "/r/a0")
unfolding path_prefix_bounds root_of trim_end lower_of upper_of bytes_eq pop
bounds_of_dir = refl

selects-path_prefix_bounds_example :
    selects (path_prefix_bounds (codes "/r/a" ++ replicate 2 slash)) (codes "/r/a b")
    ≡ is_in (codes "/r/a") 2 (codes "/r/a b")
selects-path_prefix_bounds_example =
    selects-path_prefix_bounds (codes "/r/a") 2 (codes "/r/a b") refl

like_of_glob : glob_to_like (codes "50%_*.t?t") ≡ codes "50\\%\\_%.t_t"
unfolding glob_to_like like_char
like_of_glob = refl

escape_like_iff_example :
    Like (percent ∷ (escape_like (codes "100%") ++ percent ∷ [])) (codes "x100%y")
    ↔ ((x y : Text) × (codes "x100%y" ≡ x ++ codes "100%" ++ y))
escape_like_iff_example = escape_like_iff (codes "100%") (codes "x100%y")

-- Ids of both signs, on three pages.
abbrev pub three_ids : List ℤ
three_ids = pos 5 ∷ negsuc 0 ∷ pos 9000 ∷ []

insert_each-IsExactSet_example : IsExactSet 3 three_ids (insert_each three_ids (new 3))
insert_each-IsExactSet_example = insert_each-IsExactSet 3 three_ids

-- A pattern of two components, and one that is repeated with other slashes.
abbrev pub two_excludes : List Text
two_excludes = codes ".git/objects" ∷ codes "/node_modules" ∷ codes " node_modules/ " ∷ []

is_excluded-exclude_new_example :
    is_excluded
      (exclude_new two_excludes)
      (codes "r" ∷ codes ".git" ∷ codes "objects" ∷ codes "p" ∷ [])
    ≡ any_stands_in two_excludes (codes "r" ∷ codes ".git" ∷ codes "objects" ∷ codes "p" ∷ [])
is_excluded-exclude_new_example =
    is_excluded-exclude_new two_excludes
      (codes "r" ∷ codes ".git" ∷ codes "objects" ∷ codes "p" ∷ [])

abbrev pub filter : EventFilter
filter = record {
  db_path = codes "/d/i.db";
  db_dir = some (codes "/d");
  excludes = exclude_new two_excludes;
}

-- A change under the database, an excluded one, and a signal that ids have wrapped.
abbrev pub three_events : List FsEvent
three_events =
    record { path = codes "/d/i.db-wal"; flags = 0; id = 1 }
    ∷ record { path = codes "/r/node_modules/x"; flags = 0; id = 2 }
    ∷ record { path = codes "/"; flags = 8; id = 3 }
    ∷ []

abbrev pub no_counts : FilterCounters
no_counts = record { received = 0; rejected = 0; flags = 0 }

-- How the names are read, which are all ASCII.
abbrev pub as_ascii : Text → Text
as_ascii name = name

accept_all_lem_example :
    IsCounted no_counts (accept_all as_ascii filter three_events no_counts)
    × (recoveries (accept_all as_ascii filter three_events no_counts).0 ≡ recoveries three_events)
accept_all_lem_example =
    accept_all_lem as_ascii filter three_events no_counts (omega arith) (omega arith)
