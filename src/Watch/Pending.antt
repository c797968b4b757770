-- ===== src/Watch/Pending.antt =====
-- `PendingWork` of watch.rs: what is known to be scanned still, and the event checkpoint to write.
use Prim.Native.Nat.{bit_or}
use macevery.Prelude.{
  ℕ, Bool, true, false, not, ◌&&◌, ◌||◌, Option, none, some, List, [], ◌∷◌, ◌++◌, if◌then◌else◌,
  ltb, length, set, drop, take, min, max,
}
use macevery.Prelude.Int.{ℤ}
use macevery.Search.Text.{Bytes, is_empty}
use macevery.Paths.{any, is_absolute, has_parent_dir, path_starts_with}
use macevery.Watch.Fold.{fold_refresh_paths}
use macevery.Watch.Event.{
  FsEvent, EventSample, has_flag, flag_ids_wrapped, action_for_flags, is_rescan,
}
use macevery.Watch.Counts.{RawEventCounts, no_counts, record_flags, merge, saturating_add, or_else}
use macevery.Watch.PathMap.{Entry, copied, has_key, upsert}

pub record Pending : Type 0 where
  pub paths : List (Entry ℕ)
  pub path_bytes : ℕ
  pub retry_paths : List (Entry ℕ)
  pub rescan_roots : Bool
  pub retry_roots : Bool
  pub max_event_id : ℕ
  pub deferred_cleanups : List (Entry ℤ)
  pub checkpoint_reset : Bool
  pub checkpoint_invalidated : Bool
  pub scope_fallback : Bool
  pub event_count : ℕ
  pub raw_flags : ℕ
  pub raw_counts : RawEventCounts
  pub first_events : List (Option EventSample)
  pub last_event : Option EventSample
  pub recovery_event : Option EventSample
  pub hash_state : Bytes → ℕ
  pub inbox_overflow : Bool
  pub worker_overflow : Bool
  pub full_recovery_obligation : Bool
  pub full_recovery_generation : Option ℤ
  pub worker_scope_failure : Bool

abbrev pub no_events : List (Option EventSample)
no_events = none ∷ none ∷ none ∷ []

unfoldable pub with_hash_state : (Bytes → ℕ) → Pending
with_hash_state hash_state = record {
  paths = [];
  path_bytes = 0;
  retry_paths = [];
  rescan_roots = false;
  retry_roots = false;
  max_event_id = 0;
  deferred_cleanups = [];
  checkpoint_reset = false;
  checkpoint_invalidated = false;
  scope_fallback = false;
  event_count = 0;
  raw_flags = 0;
  raw_counts = no_counts;
  first_events = no_events;
  last_event = none;
  recovery_event = none;
  hash_state = hash_state;
  inbox_overflow = false;
  worker_overflow = false;
  full_recovery_obligation = false;
  full_recovery_generation = none;
  worker_scope_failure = false;
}

unfoldable pub clear_paths : Pending → Pending
clear_paths w = record w { paths = []; path_bytes = 0 }

-- `insert_path`, with the key that is moved into the map.
abbrev pub insert_entry : Pending → Entry ℕ → Pending
insert_entry w new = record w {
  paths = upsert (λ old. bit_or old new.value) new w.paths;
  path_bytes =
      if has_key new.key w.paths then w.path_bytes else saturating_add w.path_bytes new.capacity;
}

unfoldable pub insert_path : Pending → Bytes → ℕ → Pending
insert_path w path flags = insert_entry w (copied path flags)

abbrev pub is_some {ℓ} : {A : Type ℓ} → Option A → Bool
is_some none = false
is_some (some a) = true

-- The watermark, the samples and the counts of one event.
unfoldable pub record_event : Pending → FsEvent → Pending
record_event w e =
    let wrapped = has_flag e.flags flag_ids_wrapped in
    let sample : EventSample = record {
      flags = e.flags;
      id = e.id;
      path_hash = w.hash_state e.path;
    } in
    record w {
      raw_counts = record_flags w.raw_counts e.flags e.id;
      max_event_id = if wrapped then e.id else max w.max_event_id e.id;
      checkpoint_reset = if wrapped then true else w.checkpoint_reset;
      checkpoint_invalidated = if wrapped then false else w.checkpoint_invalidated;
      first_events =
          if ltb w.event_count (length w.first_events)
          then set w.first_events w.event_count (some sample)
          else w.first_events;
      event_count = saturating_add w.event_count 1;
      raw_flags = bit_or w.raw_flags e.flags;
      last_event = some sample;
      recovery_event =
          if not (is_some w.recovery_event) && is_rescan (action_for_flags e.flags)
          then some sample
          else w.recovery_event;
    }

unfoldable pub add : Pending → FsEvent → Pending
add w e =
    let w' = record_event w e in
    if is_rescan (action_for_flags e.flags)
    then clear_paths (record w' { rescan_roots = true })
    else if not w'.rescan_roots
    then insert_path w' e.path e.flags
    else w'

-- `known_namespace` of `subtree_targets`.
unfoldable pub known_namespace : Bytes → Bool
known_namespace p = is_absolute p && not (has_parent_dir p)

-- The `for root in roots` loop.
unfoldable pub targets : Bytes → List Bytes → List Bytes
targets path [] = []
targets path (root ∷ roots) =
    let rest = targets path roots in
    if path_starts_with path root
    then path ∷ rest
    else if path_starts_with root path
    then root ∷ rest
    else rest

unfoldable pub subtree_targets : Bytes → List Bytes → Option (List Bytes)
subtree_targets path roots =
    let found = targets path roots in
    if not (known_namespace path) || any (λ root. not (known_namespace root)) roots
    then none
    else if is_empty found
    then none
    else some (fold_refresh_paths found)

-- `for path in paths { self.insert_path(path, event.flags); }`.
unfoldable pub insert_paths : Pending → List Bytes → ℕ → Pending
insert_paths w [] flags = w
insert_paths w (p ∷ ps) flags = insert_paths (insert_path w p flags) ps flags

-- An event whose place among the roots is not known: all roots are to be scanned.
unfoldable pub fall_back : Pending → Pending
fall_back w =
    let w' = clear_paths (record w { scope_fallback = true; rescan_roots = true }) in
    record w' { recovery_event = w'.last_event }

abbrev pub add_targets : Pending → Option (List Bytes) → ℕ → Pending
add_targets w none flags = fall_back w
add_targets w (some ps) flags = if not w.rescan_roots then insert_paths w ps flags else w

unfoldable pub add_scoped : Pending → FsEvent → List Bytes → Pending
add_scoped w e roots =
    if is_rescan (action_for_flags e.flags)
    then add w e
    else add_targets (record_event w e) (subtree_targets e.path roots) e.flags

unfoldable pub clear_diagnostics : Pending → Pending
clear_diagnostics w = record w {
  scope_fallback = false;
  event_count = 0;
  raw_flags = 0;
  raw_counts = no_counts;
  first_events = no_events;
  last_event = none;
  recovery_event = none;
  inbox_overflow = false;
  worker_overflow = false;
}

-- `incoming.first_events.iter().flatten()`.
abbrev pub present : List (Option EventSample) → List EventSample
present [] = []
present (none ∷ os) = present os
present (some s ∷ os) = s ∷ present os

-- The samples are written into the places that are left, as far as either goes.
abbrev pub write_samples : List (Option EventSample) → List EventSample → List (Option EventSample)
write_samples [] ss = []
write_samples (o ∷ os) [] = o ∷ os
write_samples (o ∷ os) (s ∷ ss) = some s ∷ write_samples os ss

-- `for (path, flags) in take(&mut incoming.paths) { self.insert_path(path, flags); }`.
unfoldable pub insert_entries : Pending → List (Entry ℕ) → Pending
insert_entries w [] = w
insert_entries w (e ∷ es) = insert_entries (insert_entry w e) es

-- What both say, but for the paths.
unfoldable pub merge_marks : Pending → Pending → Pending
merge_marks w incoming =
    let next = min w.event_count (length w.first_events) in
    record w {
      max_event_id =
          if incoming.checkpoint_reset
          then incoming.max_event_id
          else max w.max_event_id incoming.max_event_id;
      checkpoint_reset = if incoming.checkpoint_reset then true else w.checkpoint_reset;
      checkpoint_invalidated =
          if incoming.checkpoint_reset then false else w.checkpoint_invalidated;
      first_events =
          take next w.first_events
          ++ write_samples (drop next w.first_events) (present incoming.first_events);
      event_count = saturating_add w.event_count incoming.event_count;
      raw_flags = bit_or w.raw_flags incoming.raw_flags;
      raw_counts = merge w.raw_counts incoming.raw_counts;
      last_event = or_else incoming.last_event w.last_event;
      recovery_event = or_else w.recovery_event incoming.recovery_event;
      scope_fallback = w.scope_fallback || incoming.scope_fallback;
      inbox_overflow = w.inbox_overflow || incoming.inbox_overflow;
      rescan_roots = w.rescan_roots || incoming.rescan_roots;
    }

-- The incoming paths, unless an unexpected namespace is kept as it is or all roots are to be scanned.
unfoldable pub merge_paths : Pending → List (Entry ℕ) → Pending
merge_paths w incoming =
    if w.worker_scope_failure
    then w
    else if w.rescan_roots
    then clear_paths w
    else insert_entries w incoming

unfoldable pub merge_incoming : Pending → Pending → Pending
merge_incoming w incoming = merge_paths (merge_marks w incoming) incoming.paths

unfoldable pub has_retries : Pending → Bool
has_retries w = w.retry_roots || not (is_empty w.retry_paths) || w.full_recovery_obligation

unfoldable pub needs_legacy_generation : Pending → Bool
needs_legacy_generation w = not (is_empty w.deferred_cleanups) || is_some w.full_recovery_generation

unfoldable pub has_work : Pending → Bool
unfolding has_retries
has_work w = w.rescan_roots || not (is_empty w.paths) || has_retries w || w.worker_scope_failure

unfoldable pub has_pending : Pending → Bool
unfolding has_work
has_pending w =
    has_work w || ltb 0 w.max_event_id || w.checkpoint_reset || not (is_empty w.deferred_cleanups)
