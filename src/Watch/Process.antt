-- ===== src/Watch/Process.antt =====
-- `process_pending_logged` of watch.rs: one pass of the worker over its work. What the scanner returns
-- for a path and for the roots is an argument; the log is not modelled.
pub mod Coverage
use macevery.Prelude.{
  ℕ, Bool, true, false, not, ◌&&◌, ◌||◌, Option, none, some, List, [], ◌∷◌, if◌then◌else◌,
}
use macevery.Prelude.Int.{ℤ, ltb_ℤ}
use macevery.Search.Text.{Bytes, is_empty}
use macevery.Paths.{path_starts_with}
use macevery.Watch.Fold.{fold_refresh_paths}
use macevery.Watch.PathMap.{Entry, copied, upsert, insert, append, retain, keys, total_capacity}
use macevery.Watch.Pending.{Pending, clear_paths}

pub record IndexSummary : Type 0 where
  pub indexed : ℕ
  pub rows_written : ℕ
  pub unchanged : ℕ
  pub deleted : ℕ
  pub warnings : List Bytes
  pub retry_paths : List Bytes
  pub deferred_cleanups : List (Entry ℤ)
  pub legacy_fallback : Bool

-- `Result<IndexSummary>`.
pub data Scan : Type 0 where
  ok : IndexSummary → Scan
  err : Scan

abbrev pub max_ℤ : ℤ → ℤ → ℤ
max_ℤ a b = if ltb_ℤ a b then b else a

unfoldable pub add_retries : List (Entry ℕ) → List Bytes → List (Entry ℕ)
add_retries m [] = m
add_retries m (p ∷ ps) = add_retries (insert (copied p 0) m) ps

unfoldable pub add_cleanups : List (Entry ℤ) → List (Entry ℤ) → List (Entry ℤ)
add_cleanups m [] = m
add_cleanups m (e ∷ es) = add_cleanups (upsert (λ previous. max_ℤ previous e.value) e m) es

-- Paths are in UTF-8, so `to_string_lossy` leaves those that are to be scanned again as they are.
unfoldable pub retain_incomplete : Pending → IndexSummary → Pending
retain_incomplete w s = record w {
  retry_paths = add_retries w.retry_paths s.retry_paths;
  deferred_cleanups = add_cleanups w.deferred_cleanups s.deferred_cleanups;
}

-- The retries that are due go back to the work.
unfoldable pub take_retries : Bool → Pending → Pending
take_retries false w = w
take_retries true w =
    let paths = append w.paths w.retry_paths in
    record w {
      paths = paths;
      retry_paths = [];
      path_bytes = total_capacity paths;
      rescan_roots = w.rescan_roots || w.retry_roots;
      retry_roots = false;
    }

-- The recovery of everything is done once all roots are scanned.
unfoldable pub end_recovery : Pending → Pending
end_recovery w =
    if w.full_recovery_obligation && not w.worker_scope_failure
    then record w {
      full_recovery_obligation = false;
      full_recovery_generation = none;
      deferred_cleanups = [];
    }
    else w

unfoldable pub insert_retry : Pending → Bytes → Pending
insert_retry w path = record w { retry_paths = insert (copied path 0) w.retry_paths }

-- The body of `for path in paths`, on what the scan of the path returned.
unfoldable pub after_refresh : Pending → Bytes → Scan → Pending
after_refresh w path (ok s) =
    if is_empty s.warnings
    then record w { retry_paths = retain (λ old. not (path_starts_with old path)) w.retry_paths }
    else if is_empty s.retry_paths
    then insert_retry (retain_incomplete w s) path
    else retain_incomplete w s
after_refresh w path err = insert_retry w path

unfoldable pub refresh_loop : (Bytes → Scan) → List Bytes → Pending → Pending
refresh_loop refresh [] w = w
refresh_loop refresh (path ∷ paths) w =
    refresh_loop refresh paths (after_refresh w path (refresh path))

unfoldable pub refresh_paths : (Bytes → Scan) → Pending → Pending
refresh_paths refresh w = refresh_loop refresh (fold_refresh_paths (keys w.paths)) (clear_paths w)

-- The arms of `match rescan()`.
unfoldable pub after_rescan : (Bytes → Scan) → Pending → Scan → Pending
after_rescan refresh w (ok s) =
    let w' = record (clear_paths w) { retry_paths = [] } in
    if is_empty s.warnings
    then end_recovery (record w' { retry_roots = false })
    else retain_incomplete (record w' { retry_roots = is_empty s.retry_paths }) s
after_rescan refresh w err = refresh_paths refresh (record w { retry_roots = true })

unfoldable pub process_pending : Bool → (Bytes → Scan) → Scan → Pending → Pending
process_pending retry_due refresh rescan w =
    let w' = take_retries retry_due w in
    if w'.rescan_roots
    then after_rescan refresh (record w' { rescan_roots = false }) rescan
    else refresh_paths refresh w'
