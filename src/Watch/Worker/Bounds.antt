-- ===== src/Watch/Worker/Bounds.antt =====
-- `enforce_worker_plan_bound` of watch.rs.
use macevery.Prelude.{
  ◌+◌, ◌≤◌, Bool, true, false, not, ◌&&◌, List, length, ◌≡◌, arith, Bool-cases, inl, inr,
}
use macevery.Search.Text.{Bytes}
use macevery.Watch.PathMap.{total_capacity}
use macevery.Watch.Pending.{Pending, clear_paths}
use macevery.Watch.Inbox.{inbox_max_paths, inbox_max_path_bytes}
use macevery.Watch.Worker.{
  worker_plan_size, exceeds, all_covered, collapse_plan, enforce_worker_plan_bound,
}

pub record IsWithin (w : Pending) : Type 0 where
  pub entries : length w.paths + length w.retry_paths + length w.deferred_cleanups ≤ inbox_max_paths
  pub bytes :
      total_capacity w.paths + total_capacity w.retry_paths + total_capacity w.deferred_cleanups
      ≤ inbox_max_path_bytes

exceeds-IsWithin : (w : Pending) → exceeds (worker_plan_size w) ≡ false → IsWithin w
unfolding worker_plan_size
exceeds-IsWithin w h = record { entries = ground (arith, h); bytes = ground (arith, h) }

collapse_plan-IsWithin : (w : Pending) → IsWithin (collapse_plan w)
unfolding collapse_plan clear_paths
collapse_plan-IsWithin w = record { entries = omega arith; bytes = omega arith }

-- A plan that the bound lets through keeps at most 16384 paths and clean-ups, whose keys take at most
-- 4 MiB together.
pub enforce-IsWithin :
    (roots : List Bytes) (w : Pending)
    → (enforce_worker_plan_bound roots w).1 ≡ true
    → IsWithin (enforce_worker_plan_bound roots w).0
unfolding enforce_worker_plan_bound
enforce-IsWithin roots w h =
    elim (Bool-cases (not w.full_recovery_obligation && not (exceeds (worker_plan_size w)))) [
      | inl e ↦ rw e (exceeds-IsWithin w (both_not _ _ e))
      | inr e ↦ elim (Bool-cases (not (all_covered roots w))) [
        | inl d ↦ absurd (differ (rw (e, d) at h))
        | inr d ↦ rw (e, d) (collapse_plan-IsWithin w)
      ]
    ]
  where
    both_not : (a b : Bool) → (not a && not b) ≡ true → b ≡ false
    both_not a b h = ground arith

    differ : false ≡ true → ⊥
    differ h = cc
