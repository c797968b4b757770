-- ===== src/Watch/Worker/Safety.antt =====
-- The checkpoint of a turn of the worker of watch.rs against its scans.
use macevery.Prelude.{
  Bool, true, false, not, some, List, if◌then◌else◌, ◌≡◌, refl, arith, Bool-cases, ◌⊎◌, inl, inr,
  ◌∙◌,
}
use macevery.Search.Text.{Bytes}
use macevery.Watch.Fold.{contains, fold_refresh_paths}
use macevery.Watch.PathMap.{keys}
use macevery.Watch.Pending.{Pending, merge_incoming, needs_legacy_generation}
use macevery.Watch.Process.{take_retries, process_pending}
use macevery.Watch.Process.Coverage.{Asks, Tracked, Scanned, process_pending-covers}
use macevery.Watch.Checkpoint.{Store, invalidate_wrapped_checkpoint, persist_checkpoint}
use macevery.Watch.Checkpoint.Decision.{persist-IsComplete, IsBlocked, persist-IsBlocked}
use macevery.Watch.Worker.{
  Turn, Worker, enforce_worker_plan_bound, retry_due, scan_and_persist, carry_out, turn,
}
use macevery.Watch.Worker.Kept.{enforce-Tracked}
use macevery.Watch.Worker.Tracking.{merge-Tracked, invalidate-Tracked, persist-Tracked, not-Tracked}

-- A scan of a pass that starts from `w` has read everything of `x`.
abbrev pub ScannedFrom : Pending → Turn → Bool → Bytes → Type 0
ScannedFrom w t due x =
    let legacy = needs_legacy_generation w in
    Scanned (take_retries due w).rescan_roots
      (contains (fold_refresh_paths (keys (take_retries due w).paths))) (t.refresh legacy)
      (t.rescan legacy) x

-- The stored id is not ahead of what it was.
abbrev pub NotAdvanced : Store → Store → Type 0
NotAdvanced s s' = (s'.last_event_id ≡ s.last_event_id) ⊎ (s'.last_event_id ≡ some 0)

-- `x` is still to be scanned and the stored id has not advanced, or `x` has been scanned.
abbrev pub IsSafe : Store → Store × Pending × Bool → Type 0 → Bytes → Type 0
IsSafe s (s', w', complete) Done x = (Tracked w' x × NotAdvanced s s') ⊎ Done

NotAdvanced-of_IsBlocked : (s s' : Store) (w w' : Pending) → IsBlocked s w s' w' → NotAdvanced s s'
NotAdvanced-of_IsBlocked s s' w w' b = elim b.stored [ inl e ↦ inl e | inr (r, e) ↦ inr e ]

-- A plan that is still tracked behind the scans blocks the checkpoint.
persist-IsSafe :
    (t : Turn) (s : Store) (w : Pending) (Done : Type 0) (x : Bytes)
    → (Tracked w x ⊎ Done)
    → IsSafe s (persist_checkpoint t.db s w) Done x
persist-IsSafe t s w Done x (inr d) = inr d
persist-IsSafe t s w Done x (inl k) = elim (Bool-cases (persist_checkpoint t.db s w).2) [
  | inl e ↦ absurd (not-Tracked w x (persist-IsComplete t.db s w e).no_work k)
  | inr e ↦ inl (
    persist-Tracked t.db s w x k,
    NotAdvanced-of_IsBlocked _ _ _ _ (persist-IsBlocked t.db s w e),
  )
]

IsSafe-if :
    (b : Bool) (s : Store) (r q : Store × Pending × Bool) (Done : Type 0) (x : Bytes)
    → (b ≡ true → IsSafe s r Done x)
    → (b ≡ false → IsSafe s q Done x)
    → IsSafe s (if b then r else q) Done x
IsSafe-if true s r q Done x h k = h refl
IsSafe-if false s r q Done x h k = k refl

stays :
    (s : Store) (w : Pending) (Done : Type 0) (x : Bytes)
    → (Tracked w x ⊎ Done)
    → IsSafe s (s, w, false) Done x
stays s w Done x (inl t) = inl (t, inl refl)
stays s w Done x (inr d) = inr d

scan-IsSafe :
    (roots : List Bytes) (t : Turn) (due : Bool) (s : Store) (w : Pending) (x : Bytes)
    → Tracked w x
    → IsSafe s (scan_and_persist roots t due s w) (ScannedFrom w t due x) x
unfolding scan_and_persist
scan-IsSafe roots t due s w x k =
    IsSafe-if (enforce_worker_plan_bound roots passed).1 s _ _ (ScannedFrom w t due x) x
      (λ _.
        persist-IsSafe t s (enforce_worker_plan_bound roots passed).0 (ScannedFrom w t due x) x
          bounded)
      (λ _. stays s (enforce_worker_plan_bound roots passed).0 (ScannedFrom w t due x) x bounded)
  where
    passed : Pending
    passed =
        process_pending due (t.refresh (needs_legacy_generation w))
          (t.rescan (needs_legacy_generation w)) w

    bounded : Tracked (enforce_worker_plan_bound roots passed).0 x ⊎ ScannedFrom w t due x
    bounded =
        elim (process_pending-covers due (t.refresh (needs_legacy_generation w))
          (t.rescan (needs_legacy_generation w)) w x k) [
            | inl p ↦ inl (enforce-Tracked roots passed x p)
            | inr d ↦ inr d
          ]

-- The work that the scans of a turn start from.
abbrev pub planned : List Bytes → Turn → Store → Pending → Pending
planned roots t s w =
    (invalidate_wrapped_checkpoint t.reset_db s (enforce_worker_plan_bound roots w).0).1

invalidate-NotAdvanced :
    (t : Turn) (s : Store) (w : Pending)
    → NotAdvanced s (invalidate_wrapped_checkpoint t.reset_db s w).0
unfolding invalidate_wrapped_checkpoint
invalidate-NotAdvanced t s w = ground arith

IsSafe-from :
    (s s2 : Store) (r : Store × Pending × Bool) (Done : Type 0) (x : Bytes)
    → NotAdvanced s s2
    → IsSafe s2 r Done x
    → IsSafe s r Done x
IsSafe-from s s2 r Done x n (inr d) = inr d
IsSafe-from s s2 r Done x n (inl (t, inr e)) = inl (t, inr e)
IsSafe-from s s2 r Done x (inl n) (inl (t, inl e)) = inl (t, inl (e ∙ n))
IsSafe-from s s2 r Done x (inr n) (inl (t, inl e)) = inl (t, inr (e ∙ n))

carry_out-IsSafe :
    (roots : List Bytes) (t : Turn) (due : Bool) (s : Store) (w : Pending) (x : Bytes)
    → Tracked w x
    → IsSafe s (carry_out roots t due s w) (ScannedFrom (planned roots t s w) t due x) x
unfolding carry_out
carry_out-IsSafe roots t due s w x k =
    let w1 = (enforce_worker_plan_bound roots w).0 in
    let s2 = (invalidate_wrapped_checkpoint t.reset_db s w1).0 in
    let w2 = planned roots t s w in
    let n = invalidate-NotAdvanced t s w1 in
    let k2 : Tracked w2 x = invalidate-Tracked t.reset_db s w1 x (enforce-Tracked roots w x k) in
    let Done = ScannedFrom w2 t due x in
    let ready = (invalidate_wrapped_checkpoint t.reset_db s w1).2 in
    let stopped : Store × Pending × Bool = (s2, w2, false) in
    let scans = scan_and_persist roots t due s2 w2 in
    let stop : IsSafe s stopped Done x =
      IsSafe-from s s2 stopped Done x n (stays s2 w2 Done x (inl k2)) in
    let go : IsSafe s scans Done x =
      IsSafe-from s s2 scans Done x n (scan-IsSafe roots t due s2 w2 x k2) in
    IsSafe-if (not (enforce_worker_plan_bound roots w).1) s stopped
      (if ready then scans else stopped) Done x (λ _. stop)
      (λ _. IsSafe-if ready s scans stopped Done x (λ _. go) (λ _. stop))

-- In a turn of the worker, take any path that its work, or the batch it takes from the inbox, asks to
-- scan. Behind the turn the path is still to be scanned and the stored event id is the old one or 0;
-- or a scan that the turn made, of all roots or of a folded path above it, has read everything of it.
-- It holds whatever the scanner and the database return.
pub turn-IsSafe :
    (roots : List Bytes) (t : Turn) (k : Worker) (x : Bytes)
    → (Tracked k.pending x ⊎ Asks t.incoming x)
    → (Tracked (turn roots t k).pending x × NotAdvanced k.store (turn roots t k).store)
      ⊎ ScannedFrom
          (planned roots t k.store (merge_incoming k.pending t.incoming))
          t
          (retry_due t k)
          x
unfolding turn
turn-IsSafe roots t k x h =
    carry_out-IsSafe roots t (retry_due t k) k.store (merge_incoming k.pending t.incoming) x
      (merge-Tracked k.pending t.incoming x h)
