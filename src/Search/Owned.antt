-- ===== src/Search/Owned.antt =====
-- `OwnedTopHits` of search.rs: the best hits of the rows that SQLite streams, up to a limit.
pub mod Refinement
pub mod Passes
use macevery.Prelude.{
  ℕ, Bool, true, false, not, ◌&&◌, ◌||◌, Option, none, some, List, [], ◌∷◌, Ordering, compare,
  if◌then◌else◌, ltb, leb, ◌==◌, length,
}
use macevery.Prelude.Int.{ℤ, ltb_ℤ}
use macevery.Prelude.Compare.{then_with, is_lt, compare_ℤ, compare_option, compare_list}
use macevery.Model.Kind.{FileKind}
use macevery.Search.Query.{PreparedQuery, matches_metadata, rank_lowered}
use macevery.Search.Text.{Bytes, is_empty}
use macevery.Search.Heap.{push, peek, replace_worst}

-- `DbRecordRef` of db.rs: a row, while the statement stands on it.
pub record DbRecordRef : Type 0 where
  pub id : ℤ
  pub path : Bytes
  pub path_lower : Option Bytes
  pub basename : Bytes
  pub basename_lower : Bytes
  pub ext_lower : Option Bytes
  pub kind : FileKind
  pub size : Option ℤ
  pub mtime : Option ℤ
  pub ctime : Option ℤ
  pub dev : Option ℤ
  pub inode : Option ℤ
  pub indexed_at : ℤ

-- `FileRecord` of model.rs.
pub record FileRecord : Type 0 where
  pub id : ℤ
  pub path : Bytes
  pub path_lower : Bytes
  pub basename : Bytes
  pub basename_lower : Bytes
  pub ext_lower : Option Bytes
  pub kind : FileKind
  pub size : Option ℤ
  pub mtime : Option ℤ
  pub ctime : Option ℤ
  pub dev : Option ℤ
  pub inode : Option ℤ
  pub indexed_at : ℤ

pub record OwnedRankedHit : Type 0 where
  pub score : ℤ
  pub record_ : FileRecord

-- `Ord for OwnedRankedHit`: the smaller hit is the better one.
unfoldable pub cmp : OwnedRankedHit → OwnedRankedHit → Ordering
cmp a b = then_with (compare_ℤ a.score b.score) (
    then_with (compare_option compare_ℤ b.record_.mtime a.record_.mtime) (
      then_with (compare (length a.record_.path) (length b.record_.path)) (
        then_with (compare_list compare a.record_.path b.record_.path)
          (compare_ℤ a.record_.id b.record_.id))))

-- A row and its score against a hit, before the row is copied.
unfoldable pub compare_ref : OwnedRankedHit → ℤ → DbRecordRef → Ordering
compare_ref hit score row = then_with (compare_ℤ score hit.score) (
    then_with (compare_option compare_ℤ hit.record_.mtime row.mtime) (
      then_with (compare (length row.path) (length hit.record_.path)) (
        then_with (compare_list compare row.path hit.record_.path)
          (compare_ℤ row.id hit.record_.id))))

pub record OwnedTopHits : Type 0 where
  pub hits : List OwnedRankedHit
  pub limit : ℕ

unfoldable pub new : ℕ → OwnedTopHits
new limit = record { hits = []; limit = limit }

-- `path_lower`, unless it is missing or empty; `to_lowercase` is the language's.
unfoldable pub lowered_path : (Bytes → Bytes) → DbRecordRef → Bytes
lowered_path to_lowercase row = elim row.path_lower [
  | none ↦ to_lowercase row.path
  | some path ↦ if not (is_empty path) then path else to_lowercase row.path
]

-- The copy of the row.
unfoldable pub hit_of : ℤ → Bytes → DbRecordRef → OwnedRankedHit
hit_of score lowered row = record {
  score = score;
  record_ = record {
    id = row.id;
    path = row.path;
    path_lower = lowered;
    basename = row.basename;
    basename_lower = row.basename_lower;
    ext_lower = row.ext_lower;
    kind = row.kind;
    size = row.size;
    mtime = row.mtime;
    ctime = row.ctime;
    dev = row.dev;
    inode = row.inode;
    indexed_at = row.indexed_at;
  };
}

-- `is_some_and(|worst| worst.compare_ref(score, &record) != Ordering::Less)`.
unfoldable pub keeps_worst : Option OwnedRankedHit → ℤ → DbRecordRef → Bool
keeps_worst none score row = false
keeps_worst (some worst) score row = not (is_lt (compare_ref worst score row))

-- `consider_record` from the point where the row's score is known.
unfoldable pub admit_scored : (Bytes → Bytes) → OwnedTopHits → ℤ → DbRecordRef → OwnedTopHits
admit_scored to_lowercase t score row =
    let hit = hit_of score (lowered_path to_lowercase row) row in
    if t.limit == 0 || (leb t.limit (length t.hits) && keeps_worst (peek t.hits) score row)
    then t
    else if ltb (length t.hits) t.limit
    then record t { hits = push cmp hit t.hits }
    else record t { hits = replace_worst cmp hit t.hits }

-- The matching rows of one pass, with their scores.
unfoldable pub admit_all : (Bytes → Bytes) → OwnedTopHits → List (ℤ × DbRecordRef) → OwnedTopHits
admit_all to_lowercase t [] = t
admit_all to_lowercase t ((score, row) ∷ rows) =
    admit_all to_lowercase (admit_scored to_lowercase t score row) rows

-- The score of a row, if it matches the query.
unfoldable pub score_of : (Bytes → Bytes) → PreparedQuery → DbRecordRef → Option ℤ
score_of to_lowercase query row =
    if not (matches_metadata query row.kind row.mtime row.ext_lower)
    then none
    else rank_lowered query (lowered_path to_lowercase row) row.basename_lower (length row.path)
        row.mtime

abbrev pub admit_if : (Bytes → Bytes) → OwnedTopHits → DbRecordRef → Option ℤ → OwnedTopHits
admit_if to_lowercase t row none = t
admit_if to_lowercase t row (some score) = admit_scored to_lowercase t score row

unfoldable pub consider_record :
    (Bytes → Bytes) → PreparedQuery → OwnedTopHits → DbRecordRef → OwnedTopHits
consider_record to_lowercase query t row =
    admit_if to_lowercase t row (score_of to_lowercase query row)

-- One pass over the rows.
unfoldable pub consider_all :
    (Bytes → Bytes) → PreparedQuery → OwnedTopHits → List DbRecordRef → OwnedTopHits
consider_all to_lowercase query t [] = t
consider_all to_lowercase query t (row ∷ rows) =
    consider_all to_lowercase query (consider_record to_lowercase query t row) rows

unfoldable pub worst_is_below : ℤ → Option OwnedRankedHit → Bool
worst_is_below bound none = false
worst_is_below bound (some worst) = ltb_ℤ worst.score bound

unfoldable pub is_complete_below : OwnedTopHits → ℤ → Bool
is_complete_below t bound = length t.hits == t.limit && worst_is_below bound (peek t.hits)

-- `finish`: the hits in order, each with its score.
unfoldable pub finish : OwnedTopHits → List OwnedRankedHit
finish t = t.hits
