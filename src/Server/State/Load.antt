-- ===== src/Server/State/Load.antt =====
-- `load_backend`, `full_reload` and `ServiceState::load` of server.rs.
use macevery.Prelude.{ℕ, Bool, true, not, Option, none, some, [], if◌then◌else◌}
use macevery.Prelude.Int.{ℤ, pos}
use macevery.Model.Text.{Text, codes}
use macevery.Server.Outcome.{Outcome, Done, ok, err, and_then}
use macevery.Server.Backend.{
  BackendPreference, auto, memory, compact, sqlite, select_backend, estimate_backend_memory_bytes,
}
use macevery.Server.State.{
  ContentStamp, PackedIndex, Backend, packed, sqlite_backend, unavailable, ServiceState,
  saturating_add, publish_memory, cache_memory, invalidate_backend,
}

-- What a transaction on the database answers: `begin_read`, the stamp that pins its snapshot, and
-- `commit`.
pub record Transaction : Type 0 where
  pub begin_read : Done
  pub content_stamp : Outcome ContentStamp
  pub commit : Done

unfoldable pub with_read_snapshot :
    {T : Type 0} → Transaction → (ContentStamp → Outcome T) → Outcome (ContentStamp × T)
with_read_snapshot db read = and_then db.begin_read (λ u.
    let result =
      and_then db.content_stamp (λ stamp. and_then (read stamp) (λ value. ok (stamp, value))) in
    and_then result (λ value. and_then db.commit (λ u. ok value)))

module _ (I : PackedIndex) where
  -- What a database that is opened to be read answers while the index is loaded from it; `stats` is
  -- the sum of the five kinds.
  pub record Readable : Type 0 where
    pub lacks_content_state : Bool
    pub has_change_journal : Outcome Bool
    pub transaction : Transaction
    pub stats : Outcome ℤ
    pub load_index : Outcome I.Index

  -- The answers of `open_read_only`, of `open_existing` and of the second `open_read_only`.
  pub record LoadAnswers : Type 0 where
    pub first : Outcome Readable
    pub open_existing : Done
    pub second : Outcome Readable
    pub budget : ℕ
    pub now_epoch : ℤ

  abbrev pub Loaded : Type 0
  Loaded = BackendPreference × Option I.Index × ℤ

  -- The `matches!` on a stamp's error, or a missing journal.
  unfoldable pub needs_install : Readable → Outcome Bool
  needs_install db =
      if db.lacks_content_state
      then ok true
      else and_then db.has_change_journal (λ has. ok (not has))

  unfoldable pub open_for_load : LoadAnswers → Outcome Readable
  open_for_load a = and_then a.first (λ db.
      and_then (needs_install db)
        (λ install. if install then and_then a.open_existing (λ u. a.second) else ok db))

  unfoldable pub choose : BackendPreference → ℕ → Outcome ℤ → Outcome BackendPreference
  choose auto budget stats = and_then stats (λ total. ok (select_backend budget auto total))
  choose memory budget stats = ok memory
  choose compact budget stats = ok compact
  choose sqlite budget stats = ok sqlite

  abbrev pub packed_of : BackendPreference → Outcome I.Index → Outcome Loaded
  packed_of selected loaded =
      and_then loaded (λ index. ok (selected, some index, pos (I.len index)))

  unfoldable pub read_selected : BackendPreference → Readable → Outcome Loaded
  read_selected memory db = packed_of memory db.load_index
  read_selected compact db = packed_of compact db.load_index
  read_selected auto db = and_then db.stats (λ total. ok (auto, none, total))
  read_selected sqlite db = and_then db.stats (λ total. ok (sqlite, none, total))

  abbrev pub backend_of : Option I.Index → Backend I.Index
  backend_of (some index) = packed index
  backend_of none = sqlite_backend

  unfoldable pub load_backend :
      BackendPreference
      → LoadAnswers
      → Outcome (Backend I.Index × BackendPreference × ContentStamp × ℤ)
  load_backend requested a = and_then (open_for_load a) (λ db.
      and_then
        (with_read_snapshot db.transaction (λ stamp.
          and_then (choose requested a.budget db.stats) (λ selected. read_selected selected db)))
        (λ (stamp, (selected, index, total)). ok (backend_of index, selected, stamp, total)))

  -- The `match self.load_backend()`.
  unfoldable pub finish_load :
      Text
      → ℤ
      → Outcome (Backend I.Index × BackendPreference × ContentStamp × ℤ)
      → ServiceState I.Index
      → ServiceState I.Index × Done
  finish_load method now (ok (backend, selected, stamp, total)) s = (
    publish_memory (codes "full_after") (record s {
      backend = backend;
      selected_backend = selected;
      loaded_stamp = some stamp;
      records_total = total;
      estimated_memory_bytes = estimate_backend_memory_bytes selected total;
      loaded_at = now;
      refreshed_at = now;
      successful_loads = saturating_add s.successful_loads 1;
      last_load_error = none;
      last_refresh_error = none;
      last_refresh_method = method;
      pending_full_reason = none;
    }),
    ok tt,
  )
  finish_load method now (err e) s = (
    publish_memory (codes "full_failed") (record s {
      last_load_error = some e;
      last_refresh_error = some e;
      last_refresh_method = codes "full_failed";
    }),
    err e,
  )

  unfoldable pub full_reload_with_capture :
      LoadAnswers → Text → Option Text → Bool → ServiceState I.Index → ServiceState I.Index × Done
  full_reload_with_capture a method fallback_reason capture_before s =
      let counted : ServiceState I.Index = record s {
        load_attempts = saturating_add s.load_attempts 1;
        last_fallback_reason = fallback_reason;
      } in
      let before = publish_memory (codes "full_before") counted in
      let captured = if capture_before then before else counted in
      let empty = cache_memory (codes "full_loading") (invalidate_backend captured) in
      finish_load method a.now_epoch (load_backend empty.requested_backend a) empty

  abbrev pub full_reload :
      LoadAnswers → Text → Option Text → ServiceState I.Index → ServiceState I.Index × Done
  full_reload a method fallback_reason s = full_reload_with_capture a method fallback_reason true s

  abbrev pub reload : LoadAnswers → ServiceState I.Index → ServiceState I.Index × Done
  reload a s = full_reload a (codes "explicit_full") none s

  abbrev pub initial : BackendPreference → ServiceState I.Index
  initial requested = record {
    requested_backend = requested;
    selected_backend = requested;
    backend = unavailable;
    loaded_stamp = none;
    records_total = pos 0;
    estimated_memory_bytes = 0;
    loaded_at = pos 0;
    load_attempts = 0;
    successful_loads = 0;
    last_load_error = none;
    incremental_attempts = 0;
    incremental_applies = 0;
    incremental_change_ids = 0;
    last_incremental_change_ids = 0;
    refreshed_at = pos 0;
    last_refresh_method = codes "unavailable";
    last_fallback_reason = none;
    last_refresh_error = none;
    pending_full_reason = none;
    memory_audit = [];
  }

  -- `ServiceState::load`, once the database is open and observed.
  unfoldable pub load : LoadAnswers → BackendPreference → ServiceState I.Index
  load a requested = (full_reload a (codes "startup_full") none (initial requested)).0
