-- ===== src/Server/State/Apply.antt =====
-- What a refresh of server.rs reads, and `apply_delta_with_method`.
use macevery.Prelude.{ℕ, Bool, true, false, none, some, List, if◌then◌else◌, length}
use macevery.Prelude.Int.{ℤ, pos}
use macevery.Model.Text.{Text, codes}
use macevery.Server.Outcome.{Outcome, Done, ok, err}
use macevery.Server.Backend.{
  BackendPreference, auto, memory, compact, sqlite, select_backend, estimate_backend_memory_bytes,
}
use macevery.Server.State.{
  ContentStamp, PackedIndex, Backend, packed, sqlite_backend, unavailable, loaded_records,
  ServiceState, saturating_add, publish_memory, invalidate_backend,
}
use macevery.Server.State.Load.{Transaction, LoadAnswers, full_reload, full_reload_with_capture}

-- `FileChangeRead` of db.rs, and `SnapshotDiff` and `ApplyOutcome` of compact_index.rs.
pub data FileChangeRead (Change : Type 0) : Type 0 where
  available : ContentStamp → List Change → FileChangeRead Change
  fallback : Text → FileChangeRead Change

pub data SnapshotDiff (Change : Type 0) : Type 0 where
  diff_available : List Change → SnapshotDiff Change
  diff_fallback : Text → SnapshotDiff Change

pub data ApplyOutcome : Type 0 where
  applied : ApplyOutcome
  needs_full_reload : Text → ApplyOutcome

module _ (I : PackedIndex) where
  -- What an open database answers while the changes are read.
  pub record DeltaDatabase : Type 0 where
    pub transaction : Transaction
    pub file_changes_since : ContentStamp → Outcome (FileChangeRead I.Change)
    pub snapshot_diff : I.Index → Outcome (SnapshotDiff I.Change)

  -- The answers of one refresh: the two observations, the database of the changes, `apply_changes`
  -- with the index that it leaves, and a full load.
  pub record RefreshAnswers : Type 0 where
    pub observed : Outcome ContentStamp
    pub observed_again : Outcome ContentStamp
    pub delta_database : Outcome DeltaDatabase
    pub apply_changes : I.Index → List I.Change → I.Index × Outcome ApplyOutcome
    pub load_answers : LoadAnswers I

  abbrev pub Refreshed : Type 0
  Refreshed = ServiceState I.Index × Done

  -- The backend chosen after the changes are applied, by the one requested and the one selected.
  unfoldable pub reselect : ℕ → BackendPreference → BackendPreference → ℤ → BackendPreference
  reselect budget auto selected total = select_backend budget auto total
  reselect budget memory selected total = selected
  reselect budget compact selected total = selected
  reselect budget sqlite selected total = selected

  abbrev pub is_sqlite : BackendPreference → Bool
  is_sqlite sqlite = true
  is_sqlite auto = false
  is_sqlite memory = false
  is_sqlite compact = false

  -- The fields after every change is applied.
  unfoldable pub publish_applied :
      ContentStamp
      → ℕ
      → Text
      → BackendPreference
      → ℤ
      → ℤ
      → ServiceState I.Index
      → ServiceState I.Index
  publish_applied target change_ids method selected total now s =
      publish_memory (codes "incremental_after") (record s {
        loaded_stamp = some target;
        records_total = total;
        selected_backend = selected;
        estimated_memory_bytes = estimate_backend_memory_bytes selected total;
        refreshed_at = now;
        incremental_applies = saturating_add s.incremental_applies 1;
        incremental_change_ids = saturating_add s.incremental_change_ids change_ids;
        last_incremental_change_ids = change_ids;
        last_refresh_method = method;
        last_fallback_reason = none;
        last_load_error = none;
        last_refresh_error = none;
      })

  unfoldable pub fail_apply : Text → ServiceState I.Index → ServiceState I.Index
  fail_apply e s = publish_memory (codes "incremental_failed") (record (invalidate_backend s) {
    pending_full_reason = some (codes "apply_failed");
    last_fallback_reason = some (codes "apply_failed");
    last_refresh_method = codes "incremental_failed";
    last_refresh_error = some e;
  })

  -- The `match outcome`, on the state whose index `apply_changes` has left.
  unfoldable pub finish_apply :
      RefreshAnswers
      → ContentStamp
      → ℕ
      → Text
      → Outcome ApplyOutcome
      → ServiceState I.Index
      → Refreshed
  finish_apply a target change_ids method (ok (needs_full_reload reason)) s =
      full_reload_with_capture I a.load_answers (codes "fallback_full") (some reason) false s
  finish_apply a target change_ids method (ok applied) s =
      let total = pos (loaded_records I s.backend) in
      let selected = reselect a.load_answers.budget s.requested_backend s.selected_backend total in
      if is_sqlite selected
      then full_reload I a.load_answers (codes "fallback_full") (some (codes "auto_backend_change"))
          s
      else (
        publish_applied target change_ids method selected total a.load_answers.now_epoch s,
        ok tt,
      )
  finish_apply a target change_ids method (err e) s = (fail_apply e s, err e)

  unfoldable pub apply_to :
      RefreshAnswers
      → ContentStamp
      → List I.Change
      → Text
      → Backend I.Index
      → ServiceState I.Index
      → Refreshed
  apply_to a target changes method (packed index) s =
      let (changed, outcome) = a.apply_changes index changes in
      finish_apply a target (length changes) method outcome (record s { backend = packed changed })
  apply_to a target changes method sqlite_backend s =
      full_reload_with_capture I a.load_answers (codes "fallback_full")
        (some (codes "backend_not_packed")) false s
  apply_to a target changes method unavailable s =
      full_reload_with_capture I a.load_answers (codes "fallback_full")
        (some (codes "backend_not_packed")) false s

  unfoldable pub apply_delta_with_method :
      RefreshAnswers → ContentStamp → List I.Change → Text → ServiceState I.Index → Refreshed
  apply_delta_with_method a target changes method s =
      let before = publish_memory (codes "incremental_before") s in
      apply_to a target changes method before.backend before
