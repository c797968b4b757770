-- ===== src/Watch/Process/Coverage.antt =====
-- What becomes of a path in `process_pending_logged` of watch.rs.
use macevery.Prelude.{
  ℕ, Bool, true, false, not, ◌&&◌, ◌||◌, List, [], ◌∷◌, ◌≡◌, refl, ◌⊎◌, inl, inr, arith, Bool-cases,
  All, subst, sym, if_true, if_false,
}
use macevery.Search.Text.{Bytes, is_empty}
use macevery.Paths.{any, path_starts_with}
use macevery.Paths.Ancestors.{path_starts_with_trans}
use macevery.Watch.Fold.{contains, fold_refresh_paths}
use macevery.Watch.Fold.Covers.{any-fold, All-contains}
use macevery.Watch.PathMap.{Entry, copied, insert, retain, keys}
use macevery.Watch.PathMap.Laws.{any-upsert, any-append_map, any-retain}
use macevery.Watch.Pending.{Pending, clear_paths}
use macevery.Watch.Process.{
  IndexSummary, Scan, ok, err, add_retries, retain_incomplete, take_retries, insert_retry,
  after_refresh, refresh_loop, refresh_paths, after_rescan, process_pending,
}

-- All roots are to be scanned.
abbrev pub has_global : Pending → Bool
has_global w =
    w.rescan_roots || w.retry_roots || w.full_recovery_obligation || w.worker_scope_failure

-- The path lies under a key of the map.
abbrev pub under_key : Bytes → List (Entry ℕ) → Bool
under_key x m = any (path_starts_with x) (keys m)

-- The batch asks for a scan of `x`.
abbrev pub Asks : Pending → Bytes → Type 0
Asks w x = (w.rescan_roots || under_key x w.paths) ≡ true

-- The work will scan the path `x`.
abbrev pub Tracked : Pending → Bytes → Type 0
Tracked w x = (has_global w || under_key x w.paths || under_key x w.retry_paths) ≡ true

-- The scan has read everything of `x`: it gave no warning, or only for paths that `x` is not under.
abbrev pub Clean : Scan → Bytes → Type 0
Clean (ok s) x =
    (is_empty s.warnings
      || (not (is_empty s.retry_paths) && not (any (path_starts_with x) s.retry_paths)))
    ≡ true
Clean err x = ⊥

-- A scan that was made has read everything of `x`: that of all roots, if `asked`, or that of a path
-- above `x` among those that were scanned.
abbrev pub Scanned : Bool → (Bytes → Bool) → (Bytes → Scan) → Scan → Bytes → Type 0
Scanned asked made refresh rescan x =
    ((asked ≡ true) × Clean rescan x)
    ⊎ ((q : Bytes) × (made q ≡ true) × (path_starts_with x q ≡ true) × Clean (refresh q) x)

module _ (x : Bytes) where
  under_key-insert :
      (p : Bytes) (m : List (Entry ℕ))
      → under_key x (insert (copied p 0) m) ≡ (under_key x m || path_starts_with x p)
  unfolding insert
  under_key-insert p m = any-upsert (path_starts_with x) (λ _. 0) (copied p 0) m

  under_key-add_retries :
      (ps : List Bytes) (m : List (Entry ℕ))
      → under_key x (add_retries m ps) ≡ (under_key x m || any (path_starts_with x) ps)
  unfolding add_retries any
  under_key-add_retries [] m = ground arith
  under_key-add_retries (p ∷ ps) m =
      ground (arith, under_key-add_retries ps (insert (copied p 0) m), under_key-insert p m)

  module _ (asked : Bool) (made : Bytes → Bool) (refresh : Bytes → Scan) (rescan : Scan) where
    abbrev Outcome : Pending → Type 0
    Outcome w = Tracked w x ⊎ Scanned asked made refresh rescan x

    -- A scan of a path above `x` that was read in full, or that leaves what `x` is under.
    Clean-or_retry :
        (s : IndexSummary)
        → is_empty s.warnings ≡ false
        → is_empty s.retry_paths ≡ false
        → Clean (ok s) x ⊎ (any (path_starts_with x) s.retry_paths ≡ true)
    Clean-or_retry s e f = elim (Bool-cases (any (path_starts_with x) s.retry_paths)) [
      | inl t ↦ inr t
      | inr t ↦ inl (rw (e, f, t))
    ]

    Tracked-retain :
        (w : Pending) (s : IndexSummary)
        → (Tracked w x ⊎ (any (path_starts_with x) s.retry_paths ≡ true))
        → Tracked (retain_incomplete w s) x
    unfolding retain_incomplete
    Tracked-retain w s (inl t) =
        rw (under_key-add_retries s.retry_paths w.retry_paths) (ground (arith, t))
    Tracked-retain w s (inr t) =
        rw (under_key-add_retries s.retry_paths w.retry_paths) (ground (arith, t))

    Tracked-insert_retry :
        (w : Pending) (p : Bytes)
        → (Tracked w x ⊎ (path_starts_with x p ≡ true))
        → Tracked (insert_retry w p) x
    unfolding insert_retry
    Tracked-insert_retry w p (inl t) = rw (under_key-insert p w.retry_paths) (ground (arith, t))
    Tracked-insert_retry w p (inr t) = rw (under_key-insert p w.retry_paths) (ground (arith, t))

    after_refresh-under :
        (w : Pending) (p : Bytes) (r : Scan)
        → made p ≡ true
        → refresh p ≡ r
        → path_starts_with x p ≡ true
        → Outcome (after_refresh w p r)
    unfolding after_refresh
    after_refresh-under w p err m e u = inl (Tracked-insert_retry w p (inr u))
    after_refresh-under w p (ok s) m e u = elim (Bool-cases (is_empty s.warnings)) [
      | inl a ↦ inr (inr (p, m, u, rw (e, a)))
      | inr a ↦ elim (Bool-cases (is_empty s.retry_paths)) [
        | inl b ↦ inl (rw (a, b) (Tracked-insert_retry (retain_incomplete w s) p (inr u)))
        | inr b ↦ elim (Clean-or_retry s a b) [
          | inl c ↦ inr (inr (p, m, u, rw e c))
          | inr c ↦ inl (rw (a, b) (Tracked-retain w s (inr c)))
        ]
      ]
    ]

    -- A complete scan takes the retries below its path, and answers for these.
    after_retain :
        (w : Pending) (p : Bytes) (r : Scan)
        → made p ≡ true
        → refresh p ≡ r
        → Clean r x
        → Tracked w x
        → Outcome
            (record w { retry_paths = retain (λ old. not (path_starts_with old p)) w.retry_paths })
    after_retain w p r m e c t = elim (Bool-cases (has_global w || under_key x w.paths)) [
      | inl a ↦ inl (ground (arith, a))
      | inr a ↦
          elim (any-retain (path_starts_with x) (λ old. not (path_starts_with old p)) w.retry_paths
            (ground (arith, a, t))) [
              | inl b ↦ inl (ground (arith, b))
              | inr (k, u, n) ↦
                  inr (inr (p, m, path_starts_with_trans p k x (ground (arith, n)) u, rw e c))
            ]
    ]

    -- A scan of another path keeps what is settled.
    after_refresh-keeps :
        (w : Pending) (p : Bytes) (r : Scan)
        → made p ≡ true
        → refresh p ≡ r
        → Outcome w
        → Outcome (after_refresh w p r)
    unfolding after_refresh
    after_refresh-keeps w p r m e (inr d) = inr d
    after_refresh-keeps w p err m e (inl t) = inl (Tracked-insert_retry w p (inl t))
    after_refresh-keeps w p (ok s) m e (inl t) = elim (Bool-cases (is_empty s.warnings)) [
      | inl a ↦ rw a (after_retain w p (ok s) m e (rw a) t)
      | inr a ↦ elim (Bool-cases (is_empty s.retry_paths)) [
        | inl b ↦ inl (
            rw (a, b)
              (Tracked-insert_retry (retain_incomplete w s) p (inl (Tracked-retain w s (inl t)))))
        | inr b ↦ inl (rw (a, b) (Tracked-retain w s (inl t)))
      ]
    ]

    abbrev Made : List Bytes → Type 0
    Made ps = All (λ p. made p ≡ true) ps

    refresh_loop-keeps :
        (ps : List Bytes) (w : Pending) → Made ps → Outcome w → Outcome (refresh_loop refresh ps w)
    unfolding refresh_loop
    refresh_loop-keeps [] w m h = h
    refresh_loop-keeps (p ∷ ps) w m h =
        refresh_loop-keeps ps _ m.1 (after_refresh-keeps w p (refresh p) m.0 refl h)

    refresh_loop-under :
        (ps : List Bytes) (w : Pending)
        → Made ps
        → any (path_starts_with x) ps ≡ true
        → Outcome (refresh_loop refresh ps w)
    unfolding refresh_loop any
    refresh_loop-under [] w m h = cc
    refresh_loop-under (p ∷ ps) w m h = elim (Bool-cases (path_starts_with x p)) [
      | inl u ↦ refresh_loop-keeps ps _ m.1 (after_refresh-under w p (refresh p) m.0 refl u)
      | inr u ↦ refresh_loop-under ps _ m.1 (rw u at h)
    ]

    refresh_paths-Outcome :
        (w : Pending)
        → Made (fold_refresh_paths (keys w.paths))
        → Tracked w x
        → Outcome (refresh_paths refresh w)
    unfolding refresh_paths clear_paths
    refresh_paths-Outcome w m t = elim (Bool-cases (under_key x w.paths)) [
      | inl u ↦ refresh_loop-under _ _ m (any-fold x (keys w.paths) u)
      | inr u ↦ refresh_loop-keeps _ _ m (inl (ground (arith, t, u)))
    ]

    after_rescan-Outcome :
        (w : Pending) (r : Scan)
        → Made (fold_refresh_paths (keys w.paths))
        → asked ≡ true
        → rescan ≡ r
        → Outcome (after_rescan refresh w r)
    unfolding after_rescan
    after_rescan-Outcome w err m a e =
        refresh_paths-Outcome (record w { retry_roots = true }) m (ground arith)
    after_rescan-Outcome w (ok s) m a e = elim (Bool-cases (is_empty s.warnings)) [
      | inl b ↦ inr (inl (a, rw (e, b)))
      | inr b ↦ elim (Bool-cases (is_empty s.retry_paths)) [
        | inl c ↦ inl (rw (b, c) (Tracked-retain _ s (inl (ground arith))))
        | inr c ↦ elim (Clean-or_retry s b c) [
          | inl d ↦ inr (inl (a, rw e d))
          | inr d ↦ inl (rw (b, c) (Tracked-retain _ s (inr d)))
        ]
      ]
    ]

  Tracked-take_retries : (due : Bool) (w : Pending) → Tracked w x → Tracked (take_retries due w) x
  unfolding take_retries any
  Tracked-take_retries false w t = t
  Tracked-take_retries true w t =
      rw (any-append_map (path_starts_with x) w.paths w.retry_paths) (ground (arith, t))

process-rescan :
    (due : Bool) (refresh : Bytes → Scan) (rescan : Scan) (w : Pending)
    → (take_retries due w).rescan_roots ≡ true
    → process_pending due refresh rescan w
      ≡ after_rescan refresh (record (take_retries due w) { rescan_roots = false }) rescan
unfolding process_pending
process-rescan due refresh rescan w e = if_true _ _ _ e

process-refresh :
    (due : Bool) (refresh : Bytes → Scan) (rescan : Scan) (w : Pending)
    → (take_retries due w).rescan_roots ≡ false
    → process_pending due refresh rescan w ≡ refresh_paths refresh (take_retries due w)
unfolding process_pending
process-refresh due refresh rescan w e = if_false _ _ _ e

-- After a pass of the worker every path that its work was to scan is still to be scanned, or it was
-- read completely by a scan of the pass: that of all roots, made if it was asked for or its retry is
-- due, or that of one of the folded paths that lies above it. It holds for all results of the scans.
pub process_pending-covers :
    (retry_due : Bool) (refresh : Bytes → Scan) (rescan : Scan) (w : Pending) (x : Bytes)
    → Tracked w x
    → Tracked (process_pending retry_due refresh rescan w) x
      ⊎ Scanned
          (take_retries retry_due w).rescan_roots
          (contains (fold_refresh_paths (keys (take_retries retry_due w).paths)))
          refresh
          rescan
          x
process_pending-covers due refresh rescan w x t =
    let w' = take_retries due w in
    let made = contains (fold_refresh_paths (keys w'.paths)) in
    let m = All-contains (fold_refresh_paths (keys w'.paths)) in
    elim (Bool-cases w'.rescan_roots) [
      | inl e ↦
          subst (λ r. Tracked r x ⊎ Scanned w'.rescan_roots made refresh rescan x)
            (sym (process-rescan due refresh rescan w e))
            (after_rescan-Outcome x w'.rescan_roots made refresh rescan
              (record w' { rescan_roots = false }) rescan m e refl)
      | inr e ↦
          subst (λ r. Tracked r x ⊎ Scanned w'.rescan_roots made refresh rescan x)
            (sym (process-refresh due refresh rescan w e))
            (refresh_paths-Outcome x w'.rescan_roots made refresh rescan w' m
              (Tracked-take_retries x due w t))
    ]
