-- ===== src/Watch/Inbox/Bounds.antt =====
-- The bounds of `EventInbox` in watch.rs.
use macevery.Prelude.{
  ℕ, ◌≤◌, Bool, true, false, not, Option, none, some, List, [], ◌∷◌, if◌then◌else◌, length, min,
  ◌≡◌, arith, if_cases,
}
use macevery.Search.Text.{Bytes}
use macevery.Watch.Event.{FsEvent, is_rescan, action_for_flags}
use macevery.Watch.Counts.{u64_max, saturating_add}
use macevery.Watch.PathMap.{copied, total_capacity}
use macevery.Watch.PathMap.Laws.{capacity-upsert}
use macevery.Watch.Pending.{
  Pending, clear_paths, insert_path, insert_paths, record_event, add, subtree_targets, fall_back,
  add_targets, add_scoped,
}
use macevery.Watch.Inbox.{
  InboxState, inbox_max_paths, inbox_max_path_bytes, is_over, collapse, push,
}

-- The count of bytes is right, as far as 64 bits go.
abbrev pub IsMeasured : Pending → Type 0
IsMeasured w = w.path_bytes ≡ min (total_capacity w.paths) u64_max

insert_path-IsMeasured :
    (w : Pending) (p : Bytes) (flags : ℕ) → IsMeasured w → IsMeasured (insert_path w p flags)
unfolding insert_path saturating_add
insert_path-IsMeasured w p flags h =
    rw (capacity-upsert _ (copied p flags) w.paths) (ground (arith, h))

insert_paths-IsMeasured :
    (w : Pending) (ps : List Bytes) (flags : ℕ)
    → IsMeasured w
    → IsMeasured (insert_paths w ps flags)
unfolding insert_paths
insert_paths-IsMeasured w [] flags h = h
insert_paths-IsMeasured w (p ∷ ps) flags h =
    insert_paths-IsMeasured (insert_path w p flags) ps flags (insert_path-IsMeasured w p flags h)

record_event-IsMeasured : (w : Pending) (e : FsEvent) → IsMeasured w → IsMeasured (record_event w e)
unfolding record_event
record_event-IsMeasured w e h = h

cleared : (w : Pending) → IsMeasured (clear_paths w)
unfolding clear_paths
cleared w = omega arith

-- A path that is kept unless all roots are to be scanned.
unless_rescan :
    (b : Bool) (v w : Pending) → IsMeasured v → IsMeasured w → IsMeasured (if b then v else w)
unless_rescan true v w h k = h
unless_rescan false v w h k = k

add-IsMeasured : (w : Pending) (e : FsEvent) → IsMeasured w → IsMeasured (add w e)
unfolding add
add-IsMeasured w e h =
    let r = record_event-IsMeasured w e h in
    let v = record_event w e in
    let rescan : Pending = record v { rescan_roots = true } in
    unless_rescan (is_rescan (action_for_flags e.flags)) (clear_paths rescan)
      (if not v.rescan_roots then insert_path v e.path e.flags else v) (cleared rescan)
      (unless_rescan (not v.rescan_roots) (insert_path v e.path e.flags) v
        (insert_path-IsMeasured v e.path e.flags r) r)

add_targets-IsMeasured :
    (w : Pending) (ts : Option (List Bytes)) (flags : ℕ)
    → IsMeasured w
    → IsMeasured (add_targets w ts flags)
unfolding fall_back clear_paths
add_targets-IsMeasured w none flags h = omega arith
add_targets-IsMeasured w (some ps) flags h =
    unless_rescan (not w.rescan_roots) (insert_paths w ps flags) w
      (insert_paths-IsMeasured w ps flags h) h

add_scoped-IsMeasured :
    (w : Pending) (e : FsEvent) (roots : List Bytes)
    → IsMeasured w
    → IsMeasured (add_scoped w e roots)
unfolding add_scoped
add_scoped-IsMeasured w e roots h =
    let v = record_event w e in
    let ts = subtree_targets e.path roots in
    unless_rescan (is_rescan (action_for_flags e.flags)) (add w e) (add_targets v ts e.flags)
      (add-IsMeasured w e h) (add_targets-IsMeasured v ts e.flags (record_event-IsMeasured w e h))

pub record IsBounded (w : Pending) : Type 0 where
  pub measured : IsMeasured w
  pub entries : length w.paths ≤ inbox_max_paths
  pub bytes : total_capacity w.paths ≤ inbox_max_path_bytes

collapsed : (w : Pending) → IsBounded (collapse w)
unfolding collapse clear_paths
collapsed w = omega arith

not_over : (w : Pending) → IsMeasured w → is_over w ≡ false → IsBounded w
not_over w m h = record { measured = m; entries = ground (arith, h); bytes = ground (arith, h, m) }

IsBounded-if : (w : Pending) → IsMeasured w → IsBounded (if is_over w then collapse w else w)
IsBounded-if w m = if_cases IsBounded (is_over w) (collapse w) w (λ _. collapsed w) (not_over w m)

-- A closed inbox stays as it is.
pending_of {κ} :
    (P : Pending → Type κ) (closed : Bool) (s t : InboxState × Bool)
    → P s.0.pending
    → P t.0.pending
    → P (if closed then s else t).0.pending
pending_of P true s t h k = h
pending_of P false s t h k = k

-- Whatever is pushed, the inbox keeps at most 16384 paths, these take at most 4 MiB, and the count of
-- their bytes is exact.
pub push-IsBounded :
    (roots : List Bytes) (at : ℕ) (e : FsEvent) (s : InboxState)
    → IsBounded s.pending
    → IsBounded (push roots at e s).0.pending
unfolding push
push-IsBounded roots at e s b = pending_of IsBounded s.closed _ _ b (
    IsBounded-if (add_scoped s.pending e roots)
      (add_scoped-IsMeasured s.pending e roots b.measured))
