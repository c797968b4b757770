-- ===== src/Server/State/Refresh.antt =====
-- `needs_reload`, `reload_if_changed` and `ensure_fresh` of server.rs.
use macevery.Prelude.{Bool, true, not, ◌&&◌, Option, none, some, if◌then◌else◌}
use macevery.Model.Text.{Text, codes, text_eq}
use macevery.Server.Outcome.{Outcome, ok, err, and_then}
use macevery.Server.State.{
  ContentStamp, identity_eq, stamp_eq, PackedIndex, Backend, packed, sqlite_backend, unavailable,
  is_ready, ServiceState, saturating_add, publish_memory,
}
use macevery.Server.State.Load.{with_read_snapshot, full_reload}
use macevery.Server.State.Apply.{
  FileChangeRead, available, fallback, SnapshotDiff, diff_available, diff_fallback, DeltaDatabase,
  RefreshAnswers, Refreshed, apply_delta_with_method,
}

module _ (I : PackedIndex) where
  -- `self.loaded_stamp.as_ref() != Some(&current)`.
  abbrev pub differs : Option ContentStamp → ContentStamp → Bool
  differs none current = true
  differs (some stamp) current = not (stamp_eq stamp current)

  abbrev pub is_stale : Option ContentStamp → Outcome ContentStamp → Bool
  is_stale loaded (ok current) = differs loaded current
  is_stale loaded (err e) = true

  unfoldable pub needs_reload : Outcome ContentStamp → ServiceState I.Index → Bool
  needs_reload observed s = if is_ready I s.backend then is_stale s.loaded_stamp observed else true

  -- The changes, with the method that found them.
  abbrev pub Delta : Type 0
  Delta = FileChangeRead I.Change × Text

  abbrev pub reconciled : ContentStamp → SnapshotDiff I.Change → Delta
  reconciled target (diff_available changes) =
      (available target changes, codes "snapshot_reconcile")
  reconciled target (diff_fallback reason) = (fallback reason, codes "incremental")

  abbrev pub or_reconciled :
      I.Index → DeltaDatabase I → ContentStamp → FileChangeRead I.Change → Outcome Delta
  or_reconciled index db target (available t changes) =
      ok (available t changes, codes "incremental")
  or_reconciled index db target (fallback reason) =
      if text_eq reason (codes "history_gap")
      then and_then (db.snapshot_diff index) (λ diff. ok (reconciled target diff))
      else ok (fallback reason, codes "incremental")

  unfoldable pub read_delta : I.Index → ContentStamp → Outcome (DeltaDatabase I) → Outcome Delta
  read_delta index base opened = and_then opened (λ db.
      and_then
        (with_read_snapshot db.transaction
          (λ target. and_then (db.file_changes_since base) (or_reconciled index db target)))
        (λ (stamp, delta). ok delta))

  -- The `match delta`.
  unfoldable pub use_delta : RefreshAnswers I → Outcome Delta → ServiceState I.Index → Refreshed I
  use_delta a (ok (fallback reason, method)) s =
      full_reload I a.load_answers (codes "fallback_full") (some reason) s
  use_delta a (ok (available target changes, method)) s =
      apply_delta_with_method I a target changes method s
  use_delta a (err e) s = (
    publish_memory (codes "incremental_read_failed") (record s {
      last_refresh_method = codes "incremental_failed";
      last_refresh_error = some e;
    }),
    err e,
  )

  -- From the check of the backend on, with both stamps of one database.
  unfoldable pub refresh_packed :
      RefreshAnswers I → ContentStamp → Backend I.Index → ServiceState I.Index → Refreshed I
  refresh_packed a base (packed index) s =
      use_delta a (read_delta index base a.delta_database)
        (record s { incremental_attempts = saturating_add s.incremental_attempts 1 })
  refresh_packed a base sqlite_backend s =
      full_reload I a.load_answers (codes "fallback_full") (some (codes "backend_not_packed")) s
  refresh_packed a base unavailable s =
      full_reload I a.load_answers (codes "fallback_full") (some (codes "backend_not_packed")) s

  unfoldable pub refresh_from :
      RefreshAnswers I
      → Outcome ContentStamp
      → Option ContentStamp
      → ServiceState I.Index
      → Refreshed I
  refresh_from a (err e) base s =
      full_reload I a.load_answers (codes "fallback_full") (some (codes "database_unavailable")) s
  refresh_from a (ok current) none s =
      full_reload I a.load_answers (codes "fallback_full") (some (codes "missing_loaded_stamp")) s
  refresh_from a (ok current) (some base) s =
      if text_eq current.database_id base.database_id
        && identity_eq current.file_identity base.file_identity
      then refresh_packed a base s.backend s
      else full_reload I a.load_answers (codes "fallback_full") (some (codes "database_replaced")) s

  abbrev pub reason_or : Option Text → Text → Text
  reason_or none t = t
  reason_or (some u) t = u

  unfoldable pub reload_if_changed : RefreshAnswers I → ServiceState I.Index → Refreshed I
  reload_if_changed a s =
      if needs_reload a.observed s
      then if is_ready I s.backend
        then refresh_from a a.observed_again s.loaded_stamp s
        else full_reload I a.load_answers (codes "fallback_full")
            (some (reason_or s.pending_full_reason (codes "index_unavailable"))) s
      else (s, ok tt)

  -- `ensure_fresh`, with the observation under the read lock before those under the write lock.
  unfoldable pub ensure_fresh :
      Outcome ContentStamp → RefreshAnswers I → ServiceState I.Index → Refreshed I
  ensure_fresh observed a s = if needs_reload observed s then reload_if_changed a s else (s, ok tt)
