-- ===== src/Watch/Worker.antt =====
-- The worker of watch.rs: the bound on what it keeps, and one turn of its loop.
pub mod Bounds
pub mod Kept
pub mod Tracking
pub mod Safety
use macevery.Prelude.{
  ℕ, ◌+◌, ◌*◌, Bool, true, false, not, ◌&&◌, ◌||◌, Option, none, some, List, [], ◌∷◌, if◌then◌else◌,
  ltb, leb, length, min,
}
use macevery.Prelude.Int.{ℤ}
use macevery.Search.Text.{Bytes, is_empty}
use macevery.Paths.{any, all, is_absolute, has_parent_dir, path_starts_with}
use macevery.Watch.PathMap.{Entry, keys, values, total_capacity}
use macevery.Watch.Pending.{
  Pending, clear_paths, merge_incoming, needs_legacy_generation, with_hash_state,
}
use macevery.Watch.Inbox.{inbox_max_paths, inbox_max_path_bytes}
use macevery.Watch.Process.{Scan, max_ℤ, process_pending}
use macevery.Watch.Checkpoint.{Store, DbCalls, invalidate_wrapped_checkpoint, persist_checkpoint}

unfoldable pub worker_plan_size : Pending → ℕ × ℕ
worker_plan_size w = (
  length w.paths + length w.retry_paths + length w.deferred_cleanups,
  total_capacity w.paths + total_capacity w.retry_paths + total_capacity w.deferred_cleanups,
)

abbrev pub same : Bool → Bool → Bool
same true b = b
same false b = not b

-- The closure `covered`.
unfoldable pub covered : List Bytes → Bytes → Bool
covered roots path =
    not (has_parent_dir path)
    && any
        (λ root.
          same (is_absolute path) (is_absolute root)
          && not (has_parent_dir root)
          && path_starts_with path root)
        roots

abbrev pub max_option : Option ℤ → Option ℤ → Option ℤ
max_option none o = o
max_option (some a) none = some a
max_option (some a) (some b) = some (max_ℤ a b)

-- `values().copied().chain(option).max()`.
unfoldable pub max_of : List ℤ → Option ℤ → Option ℤ
max_of [] o = o
max_of (z ∷ zs) o = max_option (some z) (max_of zs o)

abbrev pub exceeds : ℕ × ℕ → Bool
exceeds (entries, bytes) = ltb inbox_max_paths entries || ltb inbox_max_path_bytes bytes

abbrev pub all_covered : List Bytes → Pending → Bool
all_covered roots w =
    all (covered roots) (keys w.paths)
    && all (covered roots) (keys w.retry_paths)
    && all (covered roots) (keys w.deferred_cleanups)

-- The exact debts become the debt of all roots.
unfoldable pub collapse_plan : Pending → Pending
collapse_plan w = record (clear_paths w) {
  full_recovery_obligation = true;
  worker_overflow = w.worker_overflow || exceeds (worker_plan_size w);
  full_recovery_generation = max_of (values w.deferred_cleanups) w.full_recovery_generation;
  retry_paths = [];
  deferred_cleanups = [];
  retry_roots = true;
}

-- The state, and whether the plan can be carried out.
unfoldable pub enforce_worker_plan_bound : List Bytes → Pending → Pending × Bool
enforce_worker_plan_bound roots w =
    if not w.full_recovery_obligation && not (exceeds (worker_plan_size w))
    then (w, not w.worker_scope_failure)
    else if not (all_covered roots w)
    then (record w { worker_scope_failure = true }, false)
    else (collapse_plan w, true)

-- Delays and instants in milliseconds.
abbrev pub min_retry_delay : ℕ
min_retry_delay = 1000

abbrev pub max_retry_delay : ℕ
max_retry_delay = 60_000

pub record Worker : Type 0 where
  pub pending : Pending
  pub store : Store
  pub retry_delay : ℕ
  pub retry_at : Option ℕ

-- What a turn meets: the batch, whether the inbox is closed, the clock when it looks whether the retry
-- is due and when it sets the next one, the calls of the database before and after the scans, and what
-- the scanner returns, with generations (the argument is true) or by seen ids.
pub record Turn : Type 0 where
  pub incoming : Pending
  pub closed : Bool
  pub now : ℕ
  pub later : ℕ
  pub reset_db : DbCalls
  pub db : DbCalls
  pub refresh : Bool → Bytes → Scan
  pub rescan : Bool → Scan

abbrev pub is_due : Option ℕ → ℕ → Bool
is_due none now = true
is_due (some deadline) now = leb deadline now

unfoldable pub retry_due : Turn → Worker → Bool
retry_due t k = t.closed || is_due k.retry_at t.now

-- The scans of the turn, then the checkpoint: the last `Bool` is `complete`.
unfoldable pub scan_and_persist :
    List Bytes → Turn → Bool → Store → Pending → Store × Pending × Bool
scan_and_persist roots t due s w =
    let legacy = needs_legacy_generation w in
    let (w', scoped) =
      enforce_worker_plan_bound roots
        (process_pending due (t.refresh legacy) (t.rescan legacy) w) in
    if scoped then persist_checkpoint t.db s w' else (s, w', false)

-- From the merged work to `complete`.
unfoldable pub carry_out : List Bytes → Turn → Bool → Store → Pending → Store × Pending × Bool
carry_out roots t due s w =
    let (w1, scoped_plan) = enforce_worker_plan_bound roots w in
    let (s2, w2, epoch_ready) = invalidate_wrapped_checkpoint t.reset_db s w1 in
    if not scoped_plan
    then (s2, w2, false)
    else if epoch_ready
    then scan_and_persist roots t due s2 w2
    else (s2, w2, false)

abbrev pub is_none {ℓ} : {A : Type ℓ} → Option A → Bool
is_none none = true
is_none (some a) = false

unfoldable pub turn : List Bytes → Turn → Worker → Worker
turn roots t k =
    let due = retry_due t k in
    let (s, w, complete) = carry_out roots t due k.store (merge_incoming k.pending t.incoming) in
    let back_off = due || is_none k.retry_at in
    record {
      pending = w;
      store = s;
      retry_delay =
          if complete
          then min_retry_delay
          else if back_off
          then min (k.retry_delay * 2) max_retry_delay
          else k.retry_delay;
      retry_at =
          if complete
          then none
          else if back_off
          then some (t.later + k.retry_delay)
          else k.retry_at;
    }
