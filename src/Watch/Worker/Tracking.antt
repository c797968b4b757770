-- ===== src/Watch/Worker/Tracking.antt =====
-- What is to be scanned, through the steps of watch.rs around the scans.
use macevery.Prelude.{
  ℕ, true, false, List, [], ◌∷◌, if◌then◌else◌, ◌≡◌, arith, Bool-cases, ◌⊎◌, inl, inr, sym, ◌∙◌,
  subst, if_false,
}
use macevery.Search.Text.{Bytes}
use macevery.Paths.{any, path_starts_with}
use macevery.Watch.PathMap.{Entry}
use macevery.Watch.PathMap.Laws.{any-upsert}
use macevery.Watch.Pending.{
  Pending, insert_entry, insert_entries, merge_marks, merge_paths, merge_incoming,
  clear_diagnostics, clear_paths, has_work, has_retries,
}
use macevery.Watch.Process.Coverage.{Asks, Tracked, under_key}
use macevery.Watch.Checkpoint.{
  Store, DbCalls, invalidate_wrapped_checkpoint, run_cleanups, store_watermark, persist_checkpoint,
}

insert_entry-Tracked :
    (w : Pending) (e : Entry ℕ) (x : Bytes)
    → (Tracked w x ⊎ (path_starts_with x e.key ≡ true))
    → Tracked (insert_entry w e) x
insert_entry-Tracked w e x h = rw (any-upsert (path_starts_with x) _ e w.paths) (ground (arith, h))

insert_entries-Tracked :
    (w : Pending) (es : List (Entry ℕ)) (x : Bytes)
    → (Tracked w x ⊎ (under_key x es ≡ true))
    → Tracked (insert_entries w es) x
unfolding insert_entries any
insert_entries-Tracked w [] x (inl t) = t
insert_entries-Tracked w [] x (inr u) = cc
insert_entries-Tracked w (e ∷ es) x (inl t) =
    insert_entries-Tracked (insert_entry w e) es x (inl (insert_entry-Tracked w e x (inl t)))
insert_entries-Tracked w (e ∷ es) x (inr u) = elim (Bool-cases (path_starts_with x e.key)) [
  | inl s ↦
      insert_entries-Tracked (insert_entry w e) es x (inl (insert_entry-Tracked w e x (inr s)))
  | inr s ↦ insert_entries-Tracked (insert_entry w e) es x (inr (rw s at u))
]

merge_paths-Tracked :
    (w : Pending) (es : List (Entry ℕ)) (x : Bytes)
    → (Tracked w x ⊎ (under_key x es ≡ true))
    → Tracked (merge_paths w es) x
unfolding merge_paths clear_paths
merge_paths-Tracked w es x h = elim (Bool-cases w.worker_scope_failure) [
  | inl e ↦ failed w e
  | inr e ↦ elim (Bool-cases w.rescan_roots) [
    | inl d ↦ recovering w d e
    | inr d ↦
        subst (λ r. Tracked r x) (sym (if_false _ _ _ e ∙ if_false _ _ _ d))
          (insert_entries-Tracked w es x h)
  ]
]
  where
    failed :
        (v : Pending)
        → v.worker_scope_failure ≡ true
        → Tracked
            (if v.worker_scope_failure
              then v
              else if v.rescan_roots
              then record v { paths = []; path_bytes = 0 }
              else insert_entries v es)
            x
    failed v e = ground (arith, e)

    recovering :
        (v : Pending)
        → v.rescan_roots ≡ true
        → v.worker_scope_failure ≡ false
        → Tracked
            (if v.worker_scope_failure
              then v
              else if v.rescan_roots
              then record v { paths = []; path_bytes = 0 }
              else insert_entries v es)
            x
    recovering v d e = ground (arith, d, e)

merge_marks-Tracked :
    (w incoming : Pending) (x : Bytes) → Tracked w x → Tracked (merge_marks w incoming) x
unfolding merge_marks
merge_marks-Tracked w incoming x t = ground (arith, t)

merge_marks-Asks :
    (w incoming : Pending) (x : Bytes)
    → Asks incoming x
    → Tracked (merge_marks w incoming) x ⊎ (under_key x incoming.paths ≡ true)
unfolding merge_marks
merge_marks-Asks w incoming x a = elim (Bool-cases incoming.rescan_roots) [
  | inl e ↦ inl (ground (arith, e))
  | inr e ↦ inr (ground (arith, a, e))
]

-- What was to be scanned, and what the batch asks for, is to be scanned when they are merged.
pub merge-Tracked :
    (w incoming : Pending) (x : Bytes)
    → (Tracked w x ⊎ Asks incoming x)
    → Tracked (merge_incoming w incoming) x
unfolding merge_incoming
merge-Tracked w incoming x (inl t) =
    merge_paths-Tracked _ incoming.paths x (inl (merge_marks-Tracked w incoming x t))
merge-Tracked w incoming x (inr a) =
    merge_paths-Tracked _ incoming.paths x (merge_marks-Asks w incoming x a)

pub invalidate-Tracked :
    (db : DbCalls) (s : Store) (w : Pending) (x : Bytes)
    → Tracked w x
    → Tracked (invalidate_wrapped_checkpoint db s w).1 x
unfolding invalidate_wrapped_checkpoint
invalidate-Tracked db s w x t = ground (arith, t)

pub persist-Tracked :
    (db : DbCalls) (s : Store) (w : Pending) (x : Bytes)
    → Tracked w x
    → Tracked (persist_checkpoint db s w).1 x
unfolding persist_checkpoint invalidate_wrapped_checkpoint run_cleanups store_watermark
    clear_diagnostics
persist-Tracked db s w x t = ground (arith, t)

-- Without work nothing is to be scanned.
pub not-Tracked : (w : Pending) (x : Bytes) → has_work w ≡ false → ¬ Tracked w x
unfolding has_work has_retries any
not-Tracked w x h t = ground (arith, h, t)
