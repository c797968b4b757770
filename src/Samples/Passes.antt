-- ===== src/Samples/Passes.antt =====
-- Passes of src/search.rs over two rows.
use mathlib.Core.List.{Permᴰ}
use macevery.Prelude.{ℕ, true, none, [], ◌∷◌, ◌≡◌, refl, take, if◌then◌else◌, All}
use macevery.Prelude.Int.{ℤ, pos}
use macevery.Prelude.Compare.{compare_ℤ, is_eq}
use macevery.Model.Text.{codes}
use macevery.Model.Kind.{file}
use macevery.Search.Text.{Bytes, starts_with, bytes_eq}
use macevery.Search.Heap
use macevery.Search.Heap.{sort_onto}
use macevery.Search.Finder.{finder_new}
use macevery.Model.Options.{has}
use macevery.Paths.{any}
use macevery.Search.Query.{matches_metadata, rank_lowered, terms_score, term_score}
use macevery.Search.Owned.{
  consider_record, score_of, admit_scored, worst_is_below, hit_of, DbRecordRef, cmp, new,
  consider_all, is_complete_below, finish,
}
use macevery.Search.Owned.Refinement.{hits_of}
use macevery.Search.Owned.Passes.{
  matching, AreRows, IsNotPrefixed, finish-consider_all, finish-prefix_pass,
}
use macevery.Samples.Queries.{as_is, query, term}

abbrev row : ℕ → Bytes → DbRecordRef
row id name = record {
  id = pos id;
  path = b'/' ∷ name;
  path_lower = none;
  basename = name;
  basename_lower = name;
  ext_lower = none;
  kind = file;
  size = none;
  mtime = none;
  ctime = none;
  dev = none;
  inode = none;
  indexed_at = pos 0;
}

abbrev prefixed : DbRecordRef
prefixed = row 1 (codes "abc")

abbrev inner : DbRecordRef
inner = row 2 (codes "xab")

abbrev table : ℤ → DbRecordRef
table id = if is_eq (compare_ℤ id (pos 1)) then prefixed else inner

finish-consider_all_example :
    finish (consider_all as_is query (new 1) (inner ∷ prefixed ∷ []))
    ≡ take 1 (sort_onto cmp (hits_of as_is (matching as_is query (inner ∷ prefixed ∷ []))) [])
finish-consider_all_example = finish-consider_all as_is query 1 (inner ∷ prefixed ∷ [])

other_order : Permᴰ (prefixed ∷ inner ∷ []) (inner ∷ prefixed ∷ [])
other_order = Permᴰ.swap refl refl

two_rows : AreRows table (prefixed ∷ inner ∷ [])
two_rows = (refl, (refl, tt))

no_other : All (IsNotPrefixed term) (inner ∷ [])
unfolding starts_with finder_new
no_other = (refl, tt)

complete : is_complete_below (consider_all as_is query (new 1) (prefixed ∷ [])) (pos 250) ≡ true
unfolding is_complete_below consider_all consider_record score_of matches_metadata has rank_lowered
    any terms_score term_score bytes_eq finder_new starts_with admit_scored new Heap.push
    worst_is_below hit_of
complete = refl

finish-prefix_pass_example :
    finish (consider_all as_is query (new 1) (prefixed ∷ []))
    ≡ finish (consider_all as_is query (new 1) (inner ∷ prefixed ∷ []))
finish-prefix_pass_example =
    finish-prefix_pass as_is query term refl refl refl 1 (prefixed ∷ []) (inner ∷ [])
      (inner ∷ prefixed ∷ []) table other_order two_rows no_other complete
