-- ===== src/Watch/Inbox.antt =====
-- `EventInbox` of watch.rs: the work that arrives while the worker scans. A call holds the lock for
-- its whole length, so each is one step on the state.
pub mod Bounds
pub mod Admission
use macevery.Prelude.{
  ℕ, Bool, true, false, not, ◌&&◌, ◌||◌, Option, none, some, List, [], ◌*◌, if◌then◌else◌, ltb, leb,
  ◌==◌, length, max,
}
use macevery.Search.Text.{Bytes}
use macevery.Watch.Event.{FsEvent}
use macevery.Watch.Counts.{saturating_add, or_else}
use macevery.Watch.Pending.{Pending, with_hash_state, clear_paths, add_scoped}

abbrev pub inbox_max_paths : ℕ
inbox_max_paths = 16_384

abbrev pub inbox_max_path_bytes : ℕ
inbox_max_path_bytes = 4 * 1024 * 1024

-- Instants are numbers.
pub record InboxStats : Type 0 where
  pub admitted : ℕ
  pub coalesced : ℕ
  pub overflows : ℕ
  pub highwater_paths : ℕ
  pub highwater_bytes : ℕ
  pub first_delivery : Option ℕ
  pub last_delivery : Option ℕ

abbrev pub no_stats : InboxStats
no_stats = record {
  admitted = 0;
  coalesced = 0;
  overflows = 0;
  highwater_paths = 0;
  highwater_bytes = 0;
  first_delivery = none;
  last_delivery = none;
}

pub record InboxState : Type 0 where
  pub pending : Pending
  pub stats : InboxStats
  pub closed : Bool

unfoldable pub new : (Bytes → ℕ) → InboxState
new hash_state = record { pending = with_hash_state hash_state; stats = no_stats; closed = false }

abbrev pub is_over : Pending → Bool
is_over w = ltb inbox_max_paths (length w.paths) || ltb inbox_max_path_bytes w.path_bytes

-- The collapse to a scan of all roots.
unfoldable pub collapse : Pending → Pending
collapse w = clear_paths (record w { rescan_roots = true; inbox_overflow = true })

-- `push`, with the time of the delivery: the new state, and whether the worker is woken.
unfoldable pub push : List Bytes → ℕ → FsEvent → InboxState → InboxState × Bool
push roots delivered event s =
    let was_empty = s.pending.event_count == 0 in
    let w = add_scoped s.pending event roots in
    let over = is_over w in
    let t : InboxStats = record s.stats {
      admitted = saturating_add s.stats.admitted 1;
      coalesced =
          if not was_empty && leb (length w.paths) (length s.pending.paths)
          then saturating_add s.stats.coalesced 1
          else s.stats.coalesced;
      highwater_paths = max s.stats.highwater_paths (length w.paths);
      highwater_bytes = max s.stats.highwater_bytes w.path_bytes;
      overflows = if over then saturating_add s.stats.overflows 1 else s.stats.overflows;
      first_delivery = or_else s.stats.first_delivery (some delivered);
      last_delivery = some delivered;
    } in
    if s.closed then (s, false) else (
      record { pending = if over then collapse w else w; stats = t; closed = s.closed },
      was_empty,
    )

unfoldable pub close : InboxState → InboxState
close s = record s { closed = true }

-- `take_locked`: the batch that is taken, and what is left.
unfoldable pub take_locked : InboxState → InboxState × InboxState
take_locked s = (
  s,
  record { pending = with_hash_state s.pending.hash_state; stats = no_stats; closed = s.closed },
)
