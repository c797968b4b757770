-- ===== src/Samples/Watcher.antt =====
-- Runs of src/watch.rs on one watched root.
use macevery.Prelude.{
  ℕ, true, false, none, some, List, [], ◌∷◌, ◌++◌, ◌≡◌, refl, ◌↔◌, ◌⊎◌, inr, arith, All, ◌<◌, ◌≤◌,
  ◌≢◌,
}
use macevery.Prelude.Int.{pos}
use macevery.Search.Text.{Bytes}
use macevery.Paths.{ancestors, any, path_starts_with}
use macevery.Search.Heap.{sort_onto}
use macevery.Search.Heap
use macevery.Samples.{root, child, grandchild}
use macevery.Watch.Event.{FsEvent}
use macevery.Watch.Counts.{saturating_add, no_counts, record_all, merge}
use macevery.Watch.Counts.Merge.{InRange, merge-batches}
use macevery.Watch.Fold.{
  fold_loop, is_covered, insert_set, sort_paths, contains, fold_refresh_paths,
}
use macevery.Watch.Fold.Covers.{fold_refresh_paths-covers}
use macevery.Watch.PathMap.{copied, keys, upsert, has_key, append, insert, retain}
use macevery.Watch.Pending.{
  clear_paths, has_work, has_retries, clear_diagnostics, merge_marks, merge_paths, insert_entries,
  insert_path, Pending, with_hash_state, merge_incoming, needs_legacy_generation,
}
use macevery.Watch.Inbox.{InboxState, new, push}
use macevery.Watch.Inbox.Bounds.{IsBounded, push-IsBounded}
use macevery.Watch.Inbox.Admission.{push-Asks}
use macevery.Watch.Process.{
  IndexSummary, ok, err, take_retries, process_pending, refresh_paths, refresh_loop, after_refresh,
}
use macevery.Watch.Process.Coverage.{Asks, Tracked, Scanned, process_pending-covers}
use macevery.Watch.Checkpoint.{
  invalidate_wrapped_checkpoint, run_cleanups, store_watermark, Store, DbCalls, persist_checkpoint,
  use_checkpoint, resolve_since_when, since_now,
}
use macevery.Watch.Checkpoint.Decision.{
  IsComplete, IsBlocked, persist-IsComplete, persist-IsBlocked, resolve_since_when_iff,
}
use macevery.Watch.Worker.{
  Worker, Turn, retry_due, carry_out, worker_plan_size, scan_and_persist, enforce_worker_plan_bound,
  turn,
}
use macevery.Watch.Worker.Bounds.{IsWithin, enforce-IsWithin}
use macevery.Watch.Worker.Safety.{NotAdvanced, ScannedFrom, planned, turn-IsSafe}

abbrev no_hash : Bytes → ℕ
no_hash p = 0

abbrev roots : List Bytes
roots = root ∷ []

-- A file event at /r/a with id 7.
abbrev event : FsEvent
event = record { path = child; flags = 0; id = 7 }

-- One path waits, and the id 7 with it.
abbrev one_path : Pending
one_path = record (with_hash_state no_hash) {
  paths = copied child 0 ∷ [];
  path_bytes = 4;
  max_event_id = 7;
}

abbrev no_work : Pending
no_work = record (with_hash_state no_hash) { max_event_id = 7 }

abbrev clean : IndexSummary
clean = record {
  indexed = 1;
  rows_written = 1;
  unchanged = 0;
  deleted = 0;
  warnings = [];
  retry_paths = [];
  deferred_cleanups = [];
  legacy_fallback = false;
}

abbrev all_calls : DbCalls
all_calls = record { reset_succeeds = true; cleanup_succeeds = true; persist_succeeds = true }

abbrev no_persist : DbCalls
no_persist = record { reset_succeeds = true; cleanup_succeeds = true; persist_succeeds = false }

abbrev stored : Store
stored = record { last_event_id = some 5; cleaned = [] }

abbrev worker : Worker
worker = record { pending = no_work; store = stored; retry_delay = 1000; retry_at = none }

-- The batch is the one path, and its scan is clean.
abbrev good_turn : Turn
good_turn = record {
  incoming = one_path;
  closed = false;
  now = 0;
  later = 0;
  reset_db = all_calls;
  db = all_calls;
  refresh = λ legacy path. ok clean;
  rescan = λ legacy. err;
}

Asks-child : Asks one_path grandchild
unfolding any path_starts_with with_hash_state
Asks-child = refl

Tracked-child : Tracked one_path grandchild
unfolding any path_starts_with with_hash_state
Tracked-child = refl

-- The turn stores the id of the batch.
turn_stores : (turn roots good_turn worker).store.last_event_id ≡ some 7
unfolding turn with_hash_state retry_due carry_out enforce_worker_plan_bound worker_plan_size
    invalidate_wrapped_checkpoint scan_and_persist process_pending refresh_paths clear_paths
    refresh_loop fold_refresh_paths after_refresh persist_checkpoint run_cleanups store_watermark
    has_work has_retries clear_diagnostics merge_incoming merge_marks merge_paths insert_entries
    insert_path upsert has_key saturating_add take_retries needs_legacy_generation append insert
    retain fold_loop is_covered insert_set sort_paths contains sort_onto Heap.push merge ancestors
turn_stores = refl

turn-IsSafe_example :
    (Tracked (turn roots good_turn worker).pending grandchild
      × NotAdvanced worker.store (turn roots good_turn worker).store)
    ⊎ ScannedFrom
        (planned roots good_turn stored (merge_incoming no_work one_path))
        good_turn
        (retry_due good_turn worker)
        grandchild
turn-IsSafe_example = turn-IsSafe roots good_turn worker grandchild (inr Asks-child)

process_pending-covers_example :
    Tracked (process_pending true (λ p. ok clean) err one_path) grandchild
    ⊎ Scanned
        (take_retries true one_path).rescan_roots
        (contains (fold_refresh_paths (keys (take_retries true one_path).paths)))
        (λ p. ok clean)
        err
        grandchild
process_pending-covers_example =
    process_pending-covers true (λ p. ok clean) err one_path grandchild Tracked-child

completes : (persist_checkpoint all_calls stored no_work).2 ≡ true
unfolding with_hash_state persist_checkpoint invalidate_wrapped_checkpoint run_cleanups
    store_watermark has_work has_retries
completes = refl

persist-IsComplete_example :
    IsComplete stored no_work
      (persist_checkpoint all_calls stored no_work).0
      (persist_checkpoint all_calls stored no_work).1
persist-IsComplete_example = persist-IsComplete all_calls stored no_work completes

fails : (persist_checkpoint no_persist stored no_work).2 ≡ false
unfolding with_hash_state persist_checkpoint invalidate_wrapped_checkpoint run_cleanups
    store_watermark has_work has_retries
fails = refl

persist-IsBlocked_example :
    IsBlocked stored no_work
      (persist_checkpoint no_persist stored no_work).0
      (persist_checkpoint no_persist stored no_work).1
persist-IsBlocked_example = persist-IsBlocked no_persist stored no_work fails

child_in_root :
    (path_starts_with grandchild child ≡ true) × (any (path_starts_with grandchild) roots ≡ true)
unfolding any path_starts_with
child_in_root = (refl, refl)

abbrev inbox : InboxState
inbox = new no_hash

inbox_open : inbox.closed ≡ false
unfolding new
inbox_open = refl

push-Asks_example : Asks (push roots 0 event inbox).0.pending grandchild
push-Asks_example = push-Asks roots 0 event inbox grandchild inbox_open (inr child_in_root)

inbox-IsBounded : IsBounded inbox.pending
unfolding new with_hash_state
inbox-IsBounded = record { measured = refl; entries = omega arith; bytes = omega arith }

push-IsBounded_example : IsBounded (push roots 0 event inbox).0.pending
push-IsBounded_example = push-IsBounded roots 0 event inbox inbox-IsBounded

plan_fits : (enforce_worker_plan_bound roots one_path).1 ≡ true
unfolding with_hash_state enforce_worker_plan_bound worker_plan_size
plan_fits = refl

enforce-IsWithin_example : IsWithin (enforce_worker_plan_bound roots one_path).0
enforce-IsWithin_example = enforce-IsWithin roots one_path plan_fits

-- A plan with the debt of a full recovery, and a clean-up of generation 3 under the root.
abbrev pub in_debt : Pending
in_debt = record one_path {
  full_recovery_obligation = true;
  deferred_cleanups = copied child (pos 3) ∷ [];
}

fold_refresh_paths-covers_example :
    All
      (λ p. any (path_starts_with p) (fold_refresh_paths (child ∷ grandchild ∷ [])) ≡ true)
      (child ∷ grandchild ∷ [])
    × All
        (λ f. contains (child ∷ grandchild ∷ []) f ≡ true)
        (fold_refresh_paths (child ∷ grandchild ∷ []))
fold_refresh_paths-covers_example = fold_refresh_paths-covers (child ∷ grandchild ∷ [])

no_counts-InRange : InRange no_counts
no_counts-InRange = omega arith

merge-batches_example :
    merge (record_all (event ∷ []) no_counts) (record_all (event ∷ []) no_counts)
    ≡ record_all ((event ∷ []) ++ (event ∷ [])) no_counts
merge-batches_example = merge-batches no_counts (event ∷ []) (event ∷ []) no_counts-InRange

abbrev id : ℕ
id = 7

resolve_since_when_iff_example :
    (resolve_since_when (some id) 9 ≡ use_checkpoint id)
    ↔ ((some id ≡ some id) × (0 < id) × (id ≢ since_now) × (id ≤ 9))
resolve_since_when_iff_example = resolve_since_when_iff (some id) 9 id
