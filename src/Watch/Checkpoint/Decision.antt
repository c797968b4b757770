-- ===== src/Watch/Checkpoint/Decision.antt =====
-- When the event checkpoint of watch.rs is written, and when a start goes on from it.
use macevery.Prelude.{
  Bool, refl, ◌∙◌, ℕ, true, false, ◌||◌, Option, none, some, [], ◌++◌, if◌then◌else◌, ltb, ◌≡◌, ◌≢◌,
  ◌≤◌, ◌<◌, ◌↔◌, ◌⊎◌, arith, append-nil,
}
use macevery.Watch.Pending.{Pending, has_work, clear_diagnostics}
use macevery.Watch.Checkpoint.{
  Store, DbCalls, invalidate_wrapped_checkpoint, run_cleanups, store_watermark, persist_checkpoint,
  and_then, unless_work, use_checkpoint, since_now, resolve_since_when,
}

use_checkpoint-cases :
    (s c id : ℕ)
    → resolve_since_when (some s) c ≡ use_checkpoint id
    → (s ≡ id) × (0 < id) × (id ≢ since_now) × (id ≤ c)
unfolding resolve_since_when
use_checkpoint-cases s c id h =
    (ground (arith, h), ground (arith, h), λ e. ground (arith, h, e), ground (arith, h))

use_checkpoint-of :
    (c id : ℕ)
    → 0 < id
    → id ≢ since_now
    → id ≤ c
    → resolve_since_when (some id) c ≡ use_checkpoint id
unfolding resolve_since_when
use_checkpoint-of c id h k l = ground arith

-- A start goes on from an event id exactly if that id is stored, is neither 0 nor the id that stands
-- for now, and is not beyond the system's current one.
pub resolve_since_when_iff :
    (stored : Option ℕ) (current id : ℕ)
    → (resolve_since_when stored current ≡ use_checkpoint id)
      ↔ ((stored ≡ some id) × (0 < id) × (id ≢ since_now) × (id ≤ current))
resolve_since_when_iff none current id = (λ h. unfold resolve_since_when in cc, λ h. cc (h.0))
resolve_since_when_iff (some s) current id = (
  λ h. let (e, a, b, c) = use_checkpoint-cases s current id h in (rw e, a, b, c),
  λ h. rw h.0 (use_checkpoint-of current id h.1 h.2 h.3),
)

-- What a completed checkpoint has done.
pub record IsComplete (s : Store) (w : Pending) (s' : Store) (w' : Pending) : Type 0 where
  pub no_work : has_work w ≡ false
  pub written : s'.last_event_id ≡ (
      if ltb 0 w.max_event_id || w.checkpoint_reset then some w.max_event_id else s.last_event_id)
  pub cleaned : s'.cleaned ≡ s.cleaned ++ w.deferred_cleanups
  pub no_cleanups : w'.deferred_cleanups ≡ []
  pub no_watermark : w'.max_event_id ≡ 0
  pub no_reset : w'.checkpoint_reset ≡ false

-- A checkpoint is complete only if no scan is to be made or repeated. It has then stored the greatest
-- event id, if there is one or the ids have begun anew, and else left the stored id; it has committed
-- every clean-up that incomplete scans left; and no id and no clean-up is waiting any more.
pub persist-IsComplete :
    (db : DbCalls) (s : Store) (w : Pending)
    → (persist_checkpoint db s w).2 ≡ true
    → IsComplete s w (persist_checkpoint db s w).0 (persist_checkpoint db s w).1
unfolding persist_checkpoint invalidate_wrapped_checkpoint run_cleanups store_watermark has_work
    clear_diagnostics
persist-IsComplete db s w h = record {
  no_work = ground (arith, h);
  written = ground (arith, h);
  cleaned = ground (arith, h, append-nil s.cleaned);
  no_cleanups = ground (arith, h);
  no_watermark = ground (arith, h);
  no_reset = ground (arith, h);
}

-- The work is the same: every path and root to be scanned, now or again, and every mark.
pub record SameWork (w w' : Pending) : Type 0 where
  pub paths : w'.paths ≡ w.paths
  pub path_bytes : w'.path_bytes ≡ w.path_bytes
  pub rescan_roots : w'.rescan_roots ≡ w.rescan_roots
  pub retry_paths : w'.retry_paths ≡ w.retry_paths
  pub retry_roots : w'.retry_roots ≡ w.retry_roots
  pub obligation : w'.full_recovery_obligation ≡ w.full_recovery_obligation
  pub generation : w'.full_recovery_generation ≡ w.full_recovery_generation
  pub scope_failure : w'.worker_scope_failure ≡ w.worker_scope_failure

SameWork-refl : (w : Pending) → SameWork w w
SameWork-refl w = record {
  paths = refl;
  path_bytes = refl;
  rescan_roots = refl;
  retry_paths = refl;
  retry_roots = refl;
  obligation = refl;
  generation = refl;
  scope_failure = refl;
}

SameWork-trans : (u v w : Pending) → SameWork u v → SameWork v w → SameWork u w
SameWork-trans u v w h k = record {
  paths = k.paths ∙ h.paths;
  path_bytes = k.path_bytes ∙ h.path_bytes;
  rescan_roots = k.rescan_roots ∙ h.rescan_roots;
  retry_paths = k.retry_paths ∙ h.retry_paths;
  retry_roots = k.retry_roots ∙ h.retry_roots;
  obligation = k.obligation ∙ h.obligation;
  generation = k.generation ∙ h.generation;
  scope_failure = k.scope_failure ∙ h.scope_failure;
}

-- The work of a step's result is that of the work it is given.
abbrev KeepsWork : Pending → Store × Pending × Bool → Type 0
KeepsWork w (s', w', done) = SameWork w w'

KeepsWork-and_then :
    (w : Pending) (r : Store × Pending × Bool) (f : Store → Pending → Store × Pending × Bool)
    → KeepsWork w r
    → ((s : Store) (v : Pending) → KeepsWork v (f s v))
    → KeepsWork w (and_then r f)
KeepsWork-and_then w (s, v, true) f h k = SameWork-trans w v (f s v).1 h (k s v)
KeepsWork-and_then w (s, v, false) f h k = h

reset-KeepsWork :
    (db : DbCalls) (s : Store) (w : Pending) → KeepsWork w (invalidate_wrapped_checkpoint db s w)
unfolding invalidate_wrapped_checkpoint
reset-KeepsWork db s w = ground arith

cleanups-KeepsWork : (db : DbCalls) (s : Store) (w : Pending) → KeepsWork w (run_cleanups db s w)
unfolding run_cleanups
cleanups-KeepsWork db s w = ground arith

watermark-KeepsWork :
    (db : DbCalls) (s : Store) (w : Pending) → KeepsWork w (store_watermark db s w)
unfolding store_watermark clear_diagnostics
watermark-KeepsWork db s w = ground arith

persist-SameWork :
    (db : DbCalls) (s : Store) (w : Pending) → SameWork w (persist_checkpoint db s w).1
unfolding persist_checkpoint
persist-SameWork db s w =
    let reset = invalidate_wrapped_checkpoint db s w in
    let idle = and_then reset unless_work in
    let cleaned = and_then idle (run_cleanups db) in
    KeepsWork-and_then w cleaned (store_watermark db)
      (KeepsWork-and_then w idle (run_cleanups db)
        (KeepsWork-and_then w reset unless_work (reset-KeepsWork db s w) (λ s' v. SameWork-refl v))
        (cleanups-KeepsWork db))
      (watermark-KeepsWork db)

-- What a checkpoint that was not completed leaves.
pub record IsBlocked (s : Store) (w : Pending) (s' : Store) (w' : Pending) : Type 0 where
  pub stored :
      (s'.last_event_id ≡ s.last_event_id)
      ⊎ ((w.checkpoint_reset ≡ true) × (s'.last_event_id ≡ some 0))
  pub same_watermark : w'.max_event_id ≡ w.max_event_id
  pub same_work : SameWork w w'
  pub same_reset : w'.checkpoint_reset ≡ w.checkpoint_reset
  pub cleanups : s'.cleaned ++ w'.deferred_cleanups ≡ s.cleaned ++ w.deferred_cleanups

-- A checkpoint that fails or is blocked never stores a new event id: the stored one stays, or is 0
-- where the ids have begun anew. The greatest id and the mark of a new beginning stay, and so does the
-- work: the paths to scan, the paths and roots to scan again, the debt of a full recovery with its
-- generation, and the failure of the scope. A clean-up that was waiting still waits or has been
-- committed, in the order in which they waited.
pub persist-IsBlocked :
    (db : DbCalls) (s : Store) (w : Pending)
    → (persist_checkpoint db s w).2 ≡ false
    → IsBlocked s w (persist_checkpoint db s w).0 (persist_checkpoint db s w).1
unfolding persist_checkpoint invalidate_wrapped_checkpoint run_cleanups store_watermark has_work
    clear_diagnostics
persist-IsBlocked db s w h = record {
  stored = ground (arith, h);
  same_watermark = ground (arith, h);
  same_work = persist-SameWork db s w;
  same_reset = ground (arith, h);
  cleanups = ground (arith, h, append-nil (s.cleaned ++ w.deferred_cleanups));
}
