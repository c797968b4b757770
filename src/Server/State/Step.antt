-- ===== src/Server/State/Step.antt =====
-- The ways in which `reload_if_changed` of server.rs can end, as a relation.
use macevery.Prelude.{
  ◌≡◌, refl, sym, subst, ◌⊎◌, inl, inr, Bool, true, false, Option, none, some, List, if◌then◌else◌,
  length, if_cases, ◌&&◌,
}
use macevery.Prelude.Int.{pos}
use macevery.Model.Text.{Text, codes, text_eq}
use macevery.Server.Outcome.{Outcome, ok, err}
use macevery.Server.Backend.{BackendPreference}
use macevery.Server.State.{
  ContentStamp, identity_eq, PackedIndex, Backend, packed, sqlite_backend, unavailable, is_ready,
  ServiceState, saturating_add, publish_memory, loaded_records,
}
use macevery.Server.State.Load.{full_reload, full_reload_with_capture}
use macevery.Server.State.Apply.{
  available, fallback, ApplyOutcome, applied, needs_full_reload, RefreshAnswers, Refreshed,
  reselect, is_sqlite, publish_applied, fail_apply, finish_apply, apply_to, apply_delta_with_method,
}
use macevery.Server.State.Refresh.{
  Delta, needs_reload, read_delta, use_delta, refresh_packed, refresh_from, reload_if_changed,
  reason_or,
}

module _ (I : PackedIndex) where
  abbrev pub counted : ServiceState I.Index → ServiceState I.Index
  counted s = record s { incremental_attempts = saturating_add s.incremental_attempts 1 }

  -- The state in which the changes are applied, but for its index.
  abbrev pub captured : ServiceState I.Index → ServiceState I.Index
  captured s = publish_memory (codes "incremental_before") (counted s)

  -- A state before a full reload: the backend and what is captured may differ from `s`, and an attempt
  -- may be counted.
  abbrev pub Agrees : ServiceState I.Index → ServiceState I.Index → Type 0
  Agrees s t =
      (t.load_attempts ≡ s.load_attempts)
      × (t.successful_loads ≡ s.successful_loads)
      × (t.requested_backend ≡ s.requested_backend)
      × (t.incremental_applies ≡ s.incremental_applies)
      × ((t.incremental_attempts ≡ s.incremental_attempts)
          ⊎ (t.incremental_attempts ≡ saturating_add s.incremental_attempts 1))

module _ (I : PackedIndex) (a : RefreshAnswers I) where
  pub data RefreshStep (s : ServiceState I.Index) : Refreshed I → Type 0 where
    unneeded : needs_reload I a.observed s ≡ false → RefreshStep s (s, ok tt)
    reloaded :
        (t : ServiceState I.Index) (method : Text) (reason : Option Text) (capture : Bool)
        → Agrees I s t
        → RefreshStep s (full_reload_with_capture I a.load_answers method reason capture t)
    unread :
        (e : Text)
        → RefreshStep s (
          publish_memory (codes "incremental_read_failed") (record (counted I s) {
            last_refresh_method = codes "incremental_failed";
            last_refresh_error = some e;
          }),
          err e,
        )
    changed :
        (index next : I.Index) (base target : ContentStamp) (changes : List I.Change)
        (method : Text) (selected : BackendPreference)
        → s.backend ≡ packed index
        → s.loaded_stamp ≡ some base
        → read_delta I index base a.delta_database ≡ ok (available target changes, method)
        → a.apply_changes index changes ≡ (next, ok applied)
        → RefreshStep s (
          publish_applied I target
              (length changes)
              method
              selected
              (pos (I.len next))
              a.load_answers.now_epoch
              (record (captured I s) { backend = packed next }),
          ok tt,
        )
    broken :
        (index next : I.Index) (changes : List I.Change) (e : Text)
        → a.apply_changes index changes ≡ (next, err e)
        → RefreshStep s (fail_apply I e (record (captured I s) { backend = packed next }), err e)

  finish_apply-RefreshStep :
      (s : ServiceState I.Index) (index next : I.Index) (base target : ContentStamp)
      (changes : List I.Change) (method : Text) (outcome : Outcome ApplyOutcome)
      → s.backend ≡ packed index
      → s.loaded_stamp ≡ some base
      → read_delta I index base a.delta_database ≡ ok (available target changes, method)
      → a.apply_changes index changes ≡ (next, outcome)
      → RefreshStep s (
          finish_apply I a target
            (length changes)
            method
            outcome
            (record (captured I s) { backend = packed next }))
  unfolding finish_apply loaded_records
  finish_apply-RefreshStep s index next base target changes method (ok applied) h k l m =
      let t : ServiceState I.Index = record (captured I s) { backend = packed next } in
      let total = pos (I.len next) in
      let selected =
        reselect I a.load_answers.budget s.requested_backend s.selected_backend total in
      if_cases (RefreshStep s) (is_sqlite I selected)
        (full_reload_with_capture I a.load_answers (codes "fallback_full")
          (some (codes "auto_backend_change")) true t)
        (
          publish_applied I target (length changes) method selected total a.load_answers.now_epoch
              t,
          ok tt,
        )
        (λ e.
          reloaded t (codes "fallback_full") (some (codes "auto_backend_change")) true
            (refl, refl, refl, refl, inr refl))
        (λ e. changed index next base target changes method selected h k l m)
  finish_apply-RefreshStep s index next base target changes method (ok (needs_full_reload r)) h k l
        m =
      reloaded (record (captured I s) { backend = packed next }) (codes "fallback_full") (some r)
        false (refl, refl, refl, refl, inr refl)
  finish_apply-RefreshStep s index next base target changes method (err e) h k l m =
      broken index next changes e m

  Agrees-self : (s : ServiceState I.Index) → Agrees I s s
  Agrees-self s = (refl, refl, refl, refl, inl refl)

  Agrees-counted : (s : ServiceState I.Index) → Agrees I s (counted I s)
  Agrees-counted s = (refl, refl, refl, refl, inr refl)

  full_reload-RefreshStep :
      (s t : ServiceState I.Index) (reason : Text)
      → Agrees I s t
      → RefreshStep s (full_reload I a.load_answers (codes "fallback_full") (some reason) t)
  full_reload-RefreshStep s t reason h = reloaded t (codes "fallback_full") (some reason) true h

  use_delta-RefreshStep :
      (s : ServiceState I.Index) (index : I.Index) (base : ContentStamp) (delta : Outcome (Delta I))
      → s.backend ≡ packed index
      → s.loaded_stamp ≡ some base
      → read_delta I index base a.delta_database ≡ delta
      → RefreshStep s (use_delta I a delta (counted I s))
  unfolding use_delta apply_delta_with_method apply_to
  use_delta-RefreshStep s index base (ok (fallback reason, method)) h k l =
      full_reload-RefreshStep s (counted I s) reason (Agrees-counted s)
  use_delta-RefreshStep s index base (ok (available target changes, method)) h k l =
      subst (λ b. RefreshStep s (apply_to I a target changes method b (captured I s))) (sym h)
        (finish_apply-RefreshStep s index (a.apply_changes index changes).0 base target changes
          method (a.apply_changes index changes).1 h k l refl)
  use_delta-RefreshStep s index base (err e) h k l = unread e

  refresh_packed-RefreshStep :
      (s : ServiceState I.Index) (base : ContentStamp) (b : Backend I.Index)
      → s.backend ≡ b
      → s.loaded_stamp ≡ some base
      → RefreshStep s (refresh_packed I a base b s)
  unfolding refresh_packed
  refresh_packed-RefreshStep s base (packed index) h k =
      use_delta-RefreshStep s index base (read_delta I index base a.delta_database) h k refl
  refresh_packed-RefreshStep s base sqlite_backend h k =
      full_reload-RefreshStep s s (codes "backend_not_packed") (Agrees-self s)
  refresh_packed-RefreshStep s base unavailable h k =
      full_reload-RefreshStep s s (codes "backend_not_packed") (Agrees-self s)

  refresh_from-RefreshStep :
      (s : ServiceState I.Index) (current : Outcome ContentStamp) (base : Option ContentStamp)
      → s.loaded_stamp ≡ base
      → RefreshStep s (refresh_from I a current base s)
  unfolding refresh_from
  refresh_from-RefreshStep s (err e) base k =
      full_reload-RefreshStep s s (codes "database_unavailable") (Agrees-self s)
  refresh_from-RefreshStep s (ok current) none k =
      full_reload-RefreshStep s s (codes "missing_loaded_stamp") (Agrees-self s)
  refresh_from-RefreshStep s (ok current) (some base) k =
      if_cases (RefreshStep s)
        (text_eq current.database_id base.database_id
          && identity_eq current.file_identity base.file_identity)
        (refresh_packed I a base s.backend s)
        (full_reload I a.load_answers (codes "fallback_full") (some (codes "database_replaced")) s)
        (λ e. refresh_packed-RefreshStep s base s.backend refl k)
        (λ e. full_reload-RefreshStep s s (codes "database_replaced") (Agrees-self s))

  -- Every refresh is a step of the relation.
  pub reload_if_changed-RefreshStep :
      (s : ServiceState I.Index) → RefreshStep s (reload_if_changed I a s)
  unfolding reload_if_changed
  reload_if_changed-RefreshStep s =
      let reason = reason_or I s.pending_full_reason (codes "index_unavailable") in
      if_cases (RefreshStep s) (needs_reload I a.observed s)
        (if is_ready I s.backend
          then refresh_from I a a.observed_again s.loaded_stamp s
          else full_reload I a.load_answers (codes "fallback_full") (some reason) s)
        (s, ok tt)
        (λ e.
          if_cases (RefreshStep s) (is_ready I s.backend)
            (refresh_from I a a.observed_again s.loaded_stamp s)
            (full_reload I a.load_answers (codes "fallback_full") (some reason) s)
            (λ r. refresh_from-RefreshStep s a.observed_again s.loaded_stamp refl)
            (λ r. full_reload-RefreshStep s s reason (Agrees-self s)))
        unneeded
