-- ===== src/Server/State/Fresh.antt =====
-- What a refresh of server.rs leaves when the database stays as it is.
use macevery.Prelude.{
  ◌≡◌, refl, subst, Bool, true, false, Option, none, some, List, if_cases, arith,
}
use macevery.Prelude.Int.{ℤ}
use macevery.Paths.Ancestors.{bytes_eq_refl}
use macevery.Model.Text.{Text, codes, text_eq}
use macevery.Server.Outcome.{Outcome, ok, err, and_then, and_then_cases}
use macevery.Server.Backend.{BackendPreference}
use macevery.Server.State.{ContentStamp, identity_eq, stamp_eq, PackedIndex, is_ready, ServiceState}
use macevery.Server.State.Load.{
  Readable, LoadAnswers, open_for_load, backend_of, load_backend, finish_load,
  full_reload_with_capture,
}
use macevery.Server.State.Measured.{with_read_snapshot_cases, load_backend_cases, Answer}
use macevery.Server.State.Apply.{
  FileChangeRead, available, fallback, SnapshotDiff, diff_available, diff_fallback, DeltaDatabase,
  RefreshAnswers, Refreshed, publish_applied,
}
use macevery.Server.State.Refresh.{
  Delta, or_reconciled, reconciled, read_delta, needs_reload, reload_if_changed,
}
use macevery.Server.State.Step.{
  RefreshStep, unneeded, reloaded, unread, changed, broken, reload_if_changed-RefreshStep,
}

stamp_eq_self : (s : ContentStamp) → stamp_eq s s ≡ true
unfolding stamp_eq identity_eq
stamp_eq_self s = rw (bytes_eq_refl s.database_id) (ground arith)

module _ (I : PackedIndex) where
  -- Every stamp that is answered while a refresh runs is the given one.
  pub record IsSteady (a : RefreshAnswers I) (current : ContentStamp) : Type 0 where
    pub observed : a.observed ≡ ok current
    pub load_stamp :
        (db : Readable I) (stamp : ContentStamp)
        → open_for_load I a.load_answers ≡ ok db
        → db.transaction.content_stamp ≡ ok stamp
        → stamp ≡ current
    pub delta_stamp :
        (db : DeltaDatabase I) (stamp : ContentStamp)
        → a.delta_database ≡ ok db
        → db.transaction.content_stamp ≡ ok stamp
        → stamp ≡ current
    pub journal_target :
        (db : DeltaDatabase I) (base target : ContentStamp) (changes : List I.Change)
        → a.delta_database ≡ ok db
        → db.file_changes_since base ≡ ok (available target changes)
        → target ≡ current

  -- After a refresh that succeeds, no reload is needed.
  abbrev pub IsFresh : ContentStamp → Refreshed I → Type 0
  IsFresh current (t, ok u) = needs_reload I (ok current) t ≡ false
  IsFresh current (t, err e) = Unit

  abbrev pub FreshAnswer : ContentStamp → Answer I → Type 0
  FreshAnswer current (err e) = Unit
  FreshAnswer current (ok (backend, selected, stamp, total)) =
      (is_ready I backend ≡ true) × (stamp ≡ current)

  needs_reload-same :
      (current stamp : ContentStamp) (s : ServiceState I.Index)
      → is_ready I s.backend ≡ true
      → s.loaded_stamp ≡ some stamp
      → stamp ≡ current
      → needs_reload I (ok current) s ≡ false
  unfolding needs_reload
  needs_reload-same current stamp s h k l = rw (h, k, l, stamp_eq_self current) refl

  finish_load-IsFresh :
      (method : Text) (now : ℤ) (current : ContentStamp) (o : Answer I) (s : ServiceState I.Index)
      → FreshAnswer current o
      → IsFresh current (finish_load I method now o s)
  unfolding finish_load
  finish_load-IsFresh method now current (ok (backend, selected, stamp, total)) s (h, k) =
      needs_reload-same current stamp
        (finish_load I method now (ok (backend, selected, stamp, total)) s).0 h refl k
  finish_load-IsFresh method now current (err e) s h = tt

  backend_of-is_ready : (index : Option I.Index) → is_ready I (backend_of I index) ≡ true
  unfolding is_ready
  backend_of-is_ready (some index) = refl
  backend_of-is_ready none = refl

  load_backend-FreshAnswer :
      (requested : BackendPreference) (a : LoadAnswers I) (current : ContentStamp)
      → ((db : Readable I) (stamp : ContentStamp)
          → open_for_load I a ≡ ok db
          → db.transaction.content_stamp ≡ ok stamp
          → stamp ≡ current)
      → FreshAnswer current (load_backend I requested a)
  load_backend-FreshAnswer requested a current h =
      load_backend_cases I (FreshAnswer current) requested a (λ e. tt)
        (λ db stamp selected index total k l m. (backend_of-is_ready index, h db stamp k l))

  full_reload-IsFresh :
      (a : LoadAnswers I) (method : Text) (reason : Option Text) (capture : Bool)
      (current : ContentStamp) (s : ServiceState I.Index)
      → ((db : Readable I) (stamp : ContentStamp)
          → open_for_load I a ≡ ok db
          → db.transaction.content_stamp ≡ ok stamp
          → stamp ≡ current)
      → IsFresh current (full_reload_with_capture I a method reason capture s)
  unfolding full_reload_with_capture
  full_reload-IsFresh a method reason true current s h =
      finish_load-IsFresh method a.now_epoch current (load_backend I s.requested_backend a) _
        (load_backend-FreshAnswer s.requested_backend a current h)
  full_reload-IsFresh a method reason false current s h =
      finish_load-IsFresh method a.now_epoch current (load_backend I s.requested_backend a) _
        (load_backend-FreshAnswer s.requested_backend a current h)

  -- The target of a refresh's changes.
  abbrev pub HasTarget : ContentStamp → Outcome (Delta I) → Type 0
  HasTarget current (err e) = Unit
  HasTarget current (ok (fallback reason, method)) = Unit
  HasTarget current (ok (available target changes, method)) = target ≡ current

  module _ (a : RefreshAnswers I) (current : ContentStamp) (k : IsSteady a current) where
    reconciled-HasTarget :
        (target : ContentStamp) (diff : SnapshotDiff I.Change)
        → target ≡ current
        → HasTarget current (ok (reconciled I target diff))
    reconciled-HasTarget target (diff_available changes) h = h
    reconciled-HasTarget target (diff_fallback reason) h = tt

    or_reconciled-HasTarget :
        (db : DeltaDatabase I) (index : I.Index) (base target : ContentStamp)
        (found : FileChangeRead I.Change)
        → a.delta_database ≡ ok db
        → db.file_changes_since base ≡ ok found
        → target ≡ current
        → HasTarget current (or_reconciled I index db target found)
    or_reconciled-HasTarget db index base target (available t changes) h l m =
        k.journal_target db base t changes h l
    or_reconciled-HasTarget db index base target (fallback reason) h l m =
        if_cases (HasTarget current) (text_eq reason (codes "history_gap"))
          (and_then (db.snapshot_diff index) (λ diff. ok (reconciled I target diff)))
          (ok (fallback reason, codes "incremental"))
          (λ e.
            and_then_cases (HasTarget current) (db.snapshot_diff index)
              (λ diff. ok (reconciled I target diff)) (λ e. tt)
              (λ diff g. reconciled-HasTarget target diff m))
          (λ e. tt)

    read_delta-HasTarget :
        (index : I.Index) (base : ContentStamp)
        → HasTarget current (read_delta I index base a.delta_database)
    unfolding read_delta
    read_delta-HasTarget index base =
        and_then_cases (HasTarget current) a.delta_database _ (λ e. tt)
          (λ db h.
            with_read_snapshot_cases
              (λ o. HasTarget current (and_then o (λ (stamp, delta). ok delta))) db.transaction _
              (λ e. tt)
              (λ target delta l m. subst (HasTarget current) m (
                and_then_cases (HasTarget current) (db.file_changes_since base)
                  (or_reconciled I index db target) (λ e. tt)
                  (λ found g.
                    or_reconciled-HasTarget db index base target found h g
                      (k.delta_stamp db target h l)))))

    unneeded-IsFresh :
        (s : ServiceState I.Index)
        → needs_reload I a.observed s ≡ false
        → needs_reload I (ok current) s ≡ false
    unneeded-IsFresh s h = subst (λ o. needs_reload I o s ≡ false) k.observed h

    step-IsFresh :
        (s : ServiceState I.Index) (r : Refreshed I) → RefreshStep I a s r → IsFresh current r
    unfolding publish_applied is_ready
    step-IsFresh s _ (unneeded e) = unneeded-IsFresh s e
    step-IsFresh s _ (reloaded t method reason capture g) =
        full_reload-IsFresh a.load_answers method reason capture current t k.load_stamp
    step-IsFresh s _ (unread e) = tt
    step-IsFresh s _ (changed index next base target changes method selected b l d e) =
        needs_reload-same current target _ refl refl
          (subst (HasTarget current) d (read_delta-HasTarget index base))
    step-IsFresh s _ (broken index next changes e h) = tt

    -- If every stamp that is answered while a refresh runs is the same, then after the refresh, if it
    -- succeeds, the state needs no reload at that stamp: one refresh is enough for a search.
    pub reload_if_changed-IsFresh :
        (s : ServiceState I.Index) → IsFresh current (reload_if_changed I a s)
    reload_if_changed-IsFresh s =
        step-IsFresh s (reload_if_changed I a s) (reload_if_changed-RefreshStep I a s)
