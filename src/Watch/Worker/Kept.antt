-- ===== src/Watch/Worker/Kept.antt =====
-- What `enforce_worker_plan_bound` of watch.rs keeps of a plan.
use macevery.Prelude.{
  Bool, true, false, not, ◌&&◌, Option, none, some, List, ◌≡◌, arith, Bool-cases, ◌⊎◌, inl, inr,
  All,
}
use macevery.Prelude.Int.{ℤ, ◌≤ℤ◌}
use macevery.Search.Text.{Bytes}
use macevery.Paths.{any, has_parent_dir, path_starts_with}
use macevery.Watch.PathMap.{keys, values}
use macevery.Watch.Pending.{Pending, clear_paths}
use macevery.Watch.Process.Coverage.{Tracked}
use macevery.Watch.Worker.{
  worker_plan_size, exceeds, all_covered, collapse_plan, enforce_worker_plan_bound,
}

-- The path lies under one of the roots, and neither leads through a parent directory.
abbrev pub IsUnder : List Bytes → Bytes → Type 0
IsUnder roots p =
    (has_parent_dir p ≡ false)
    × (any (λ root. not (has_parent_dir root) && path_starts_with p root) roots ≡ true)

-- The generation of a clean-up is at most the one that is noted.
abbrev pub AtMost : Option ℤ → ℤ → Type 0
AtMost none z = ⊥
AtMost (some g) z = z ≤ℤ g

-- All roots are to be scanned in place of what the plan had, which lay under them.
pub record IsCollapsed (roots : List Bytes) (w w' : Pending) : Type 0 where
  pub obligation : w'.full_recovery_obligation ≡ true
  pub roots_again : w'.retry_roots ≡ true
  pub paths : All (IsUnder roots) (keys w.paths)
  pub retries : All (IsUnder roots) (keys w.retry_paths)
  pub cleanups : All (IsUnder roots) (keys w.deferred_cleanups)
  pub generations : All (AtMost w'.full_recovery_generation) (values w.deferred_cleanups)
  pub same_failure : w'.worker_scope_failure ≡ w.worker_scope_failure

-- The plan is refused with all that it had, and its scope is marked as failed.
pub record IsRefused (w w' : Pending) : Type 0 where
  pub paths : w'.paths ≡ w.paths
  pub retries : w'.retry_paths ≡ w.retry_paths
  pub cleanups : w'.deferred_cleanups ≡ w.deferred_cleanups
  pub failure : w'.worker_scope_failure ≡ true

-- What becomes of a plan, by whether it is let through.
abbrev pub IsKept : List Bytes → Pending → Pending × Bool → Type 0
IsKept roots w (w', true) = (w' ≡ w) ⊎ IsCollapsed roots w w'
IsKept roots w (w', false) = IsRefused w w'

-- Whatever the plan was to scan is still to be scanned behind the bound.
pub enforce-Tracked :
    (roots : List Bytes) (w : Pending) (x : Bytes)
    → Tracked w x
    → Tracked (enforce_worker_plan_bound roots w).0 x
unfolding enforce_worker_plan_bound collapse_plan clear_paths
enforce-Tracked roots w x t =
    elim (Bool-cases (not w.full_recovery_obligation && not (exceeds (worker_plan_size w)))) [
      | inl e ↦ rw e t
      | inr e ↦ elim (Bool-cases (not (all_covered roots w))) [
        | inl d ↦ rw (e, d) (ground arith)
        | inr d ↦ rw (e, d) (ground arith)
      ]
    ]
