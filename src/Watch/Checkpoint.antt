-- ===== src/Watch/Checkpoint.antt =====
-- The event checkpoint of watch.rs: when it is written, and what a start does with the stored one.
pub mod Decision
use macevery.Prelude.{
  ℕ, Bool, true, false, not, ◌&&◌, ◌||◌, Option, none, some, List, [], ◌∷◌, ◌++◌, if◌then◌else◌,
  ltb, ◌==◌,
}
use macevery.Prelude.Int.{ℤ}
use macevery.Search.Text.{Bytes, is_empty}
use macevery.Watch.PathMap.{Entry}
use macevery.Watch.Counts.{u64_max}
use macevery.Watch.Pending.{Pending, clear_diagnostics, has_work}

-- What the database keeps: the stored event id (`watch_last_event_id`), and the clean-ups of stale
-- rows that were committed.
pub record Store : Type 0 where
  pub last_event_id : Option ℕ
  pub cleaned : List (Entry ℤ)

-- Which of the calls of the database succeed.
pub record DbCalls : Type 0 where
  pub reset_succeeds : Bool
  pub cleanup_succeeds : Bool
  pub persist_succeeds : Bool

-- `invalidate_wrapped_checkpoint`: the new state, and whether it is `Ok`.
unfoldable pub invalidate_wrapped_checkpoint : DbCalls → Store → Pending → Store × Pending × Bool
invalidate_wrapped_checkpoint db s w =
    if w.checkpoint_reset && not w.checkpoint_invalidated
    then if db.reset_succeeds
      then (record s { last_event_id = some 0 }, record w { checkpoint_invalidated = true }, true)
      else (s, w, false)
    else (s, w, true)

-- The clean-ups that incomplete scans left, in one transaction.
unfoldable pub run_cleanups : DbCalls → Store → Pending → Store × Pending × Bool
run_cleanups db s w =
    if is_empty w.deferred_cleanups
    then (s, w, true)
    else if db.cleanup_succeeds
    then (
      record s { cleaned = s.cleaned ++ w.deferred_cleanups },
      record w { deferred_cleanups = [] },
      true,
    )
    else (s, w, false)

-- The write of the watermark.
unfoldable pub store_watermark : DbCalls → Store → Pending → Store × Pending × Bool
store_watermark db s w =
    if ltb 0 w.max_event_id || w.checkpoint_reset
    then if db.persist_succeeds
      then (
        record s { last_event_id = some w.max_event_id },
        clear_diagnostics (record w {
          max_event_id = 0;
          checkpoint_reset = false;
          checkpoint_invalidated = false;
        }),
        true,
      )
      else (s, w, false)
    else (s, clear_diagnostics w, true)

-- One step after another, as far as they succeed.
abbrev pub and_then :
    Store × Pending × Bool → (Store → Pending → Store × Pending × Bool) → Store × Pending × Bool
and_then (s, w, true) f = f s w
and_then (s, w, false) f = (s, w, false)

-- `if pending.has_work() { return false; }`.
abbrev pub unless_work : Store → Pending → Store × Pending × Bool
unless_work s w = (s, w, not (has_work w))

unfoldable pub persist_checkpoint : DbCalls → Store → Pending → Store × Pending × Bool
persist_checkpoint db s w =
    and_then
      (and_then (and_then (invalidate_wrapped_checkpoint db s w) unless_work) (run_cleanups db))
      (store_watermark db)

pub data CheckpointDecision : Type 0 where
  use_checkpoint : ℕ → CheckpointDecision
  full_rescan : CheckpointDecision

abbrev pub since_now : ℕ
since_now = u64_max

unfoldable pub resolve_since_when : Option ℕ → ℕ → CheckpointDecision
resolve_since_when none current_system_id = full_rescan
resolve_since_when (some stored_id) current_system_id =
    if stored_id == 0 || stored_id == since_now
    then full_rescan
    else if ltb current_system_id stored_id
    then full_rescan
    else use_checkpoint stored_id
