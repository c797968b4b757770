-- ===== src/Samples/Searcher.antt =====
-- Runs of src/search.rs on short texts and rows.
use mathlib.Core.List.{Permᴰ}
use macevery.Prelude.{
  ℕ, Bool, true, false, none, some, [], ◌∷◌, ◌≡◌, refl, ◌↔◌, inr, arith, compare, if◌then◌else◌,
}
use macevery.Prelude.Int.{ℤ, pos}
use macevery.Prelude.Compare.{compare_list, compare_ℤ, is_eq}
use macevery.Search.Text.{Bytes, contains_byte}
use macevery.Search.Heap.{push}
use macevery.Search.PathView.{PathView, bytes}
use macevery.Search.PathView
use macevery.Search.PathView.Concat.{SharesMemory, cmp_lem}
use macevery.Search.Glob.{star, glob_match}
use macevery.Search.Glob.Matches.{Matches, empty, byte}
use macevery.Search.Glob.Decides.{glob_match_sound, glob_match_iff}
use macevery.Search.Glob.Literal.{glob_match_misses}
use macevery.Model.Kind.{file}
use macevery.Search.Owned.{
  DbRecordRef, new, admit_all, admit_scored, hit_of, worst_is_below, is_complete_below, finish,
}
use macevery.Search.Owned.Refinement.{AreKeyed, finish-perm, finish-is_complete_below}
use macevery.Samples.{child, grandchild}

-- a*
abbrev starts_with_a : Bytes
starts_with_a = b'a' ∷ b'*' ∷ []

-- ab
abbrev ab : Bytes
ab = b'a' ∷ b'b' ∷ []

accepts_ab : glob_match ab starts_with_a ≡ some true
unfolding glob_match
accepts_ab = refl

no_star_in_ab : contains_byte ab star ≡ false
unfolding contains_byte
no_star_in_ab = refl

glob_match_iff_example : (glob_match ab starts_with_a ≡ some true) ↔ Matches starts_with_a ab
glob_match_iff_example = glob_match_iff ab starts_with_a no_star_in_ab

glob_match_sound_example :
    (b : Bool) × (glob_match ab starts_with_a ≡ some b) × (b ≡ true → Matches starts_with_a ab)
glob_match_sound_example = glob_match_sound ab starts_with_a

Matches-b : Matches (b'b' ∷ []) (b'b' ∷ [])
Matches-b = byte (omega arith, inr refl) empty

-- The text *xb and the pattern *b.
glob_match_misses_example :
    Matches (star ∷ b'b' ∷ []) (star ∷ b'x' ∷ b'b' ∷ [])
    × (glob_match (star ∷ b'x' ∷ b'b' ∷ []) (star ∷ b'b' ∷ []) ≡ some false)
glob_match_misses_example =
    glob_match_misses b'b' b'x' [] (b'b' ∷ []) (omega arith) (omega arith) (omega arith) Matches-b

-- ab in one slice, and in two.
abbrev whole : PathView
whole = record { prefix_ptr = 1; prefix = []; suffix = ab }

abbrev halves : PathView
halves = record { prefix_ptr = 9; prefix = b'a' ∷ []; suffix = b'b' ∷ [] }

other_memory : SharesMemory whole halves
other_memory p = absurd (omega arith)

cmp_lem_example :
    macevery.Search.PathView.cmp whole halves
    ≡ some (compare_list compare (bytes whole) (bytes halves))
cmp_lem_example = cmp_lem whole halves other_memory

abbrev row : ℕ → Bytes → DbRecordRef
row id path = record {
  id = pos id;
  path = path;
  path_lower = some path;
  basename = path;
  basename_lower = path;
  ext_lower = none;
  kind = file;
  size = none;
  mtime = none;
  ctime = none;
  dev = none;
  inode = none;
  indexed_at = pos 0;
}

abbrev to_lowercase : Bytes → Bytes
to_lowercase path = path

abbrev good : ℤ × DbRecordRef
good = (pos 100, row 1 child)

abbrev bad : ℤ × DbRecordRef
bad = (pos 400, row 2 grandchild)

abbrev table : ℤ → ℤ × DbRecordRef
table id = if is_eq (compare_ℤ id (pos 1)) then good else bad

swapped : Permᴰ (good ∷ bad ∷ []) (bad ∷ good ∷ [])
swapped = Permᴰ.swap refl refl

keyed : AreKeyed to_lowercase table (good ∷ bad ∷ [])
keyed = (refl, (refl, tt))

finish-perm_example :
    finish (admit_all to_lowercase (new 1) (good ∷ bad ∷ []))
    ≡ finish (admit_all to_lowercase (new 1) (bad ∷ good ∷ []))
finish-perm_example =
    finish-perm to_lowercase 1 (good ∷ bad ∷ []) (bad ∷ good ∷ []) table swapped keyed

complete_after_good :
    is_complete_below (admit_all to_lowercase (new 1) (good ∷ [])) (pos 250) ≡ true
unfolding is_complete_below admit_all admit_scored new hit_of worst_is_below push
complete_after_good = refl

finish-is_complete_below_example :
    finish (admit_all to_lowercase (new 1) (good ∷ []))
    ≡ finish (admit_all to_lowercase (new 1) (bad ∷ good ∷ []))
finish-is_complete_below_example =
    finish-is_complete_below to_lowercase 1 (pos 250) (good ∷ []) (bad ∷ []) (bad ∷ good ∷ []) table
      swapped keyed complete_after_good (refl, tt)
