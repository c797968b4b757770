-- ===== src/Watch/Counts.antt =====
-- `RawEventCounts` of watch.rs: how often each recovery flag was delivered, in 64-bit counters that
-- stop at their greatest value.
pub mod Merge
use macevery.Prelude.{ℕ, ◌+◌, Bool, true, false, Option, none, some, List, [], ◌∷◌, min}
use macevery.Watch.Event.{
  FsEvent, has_flag, flag_must_scan_subdirs, flag_user_dropped, flag_kernel_dropped,
  flag_ids_wrapped, flag_root_changed,
}

abbrev pub u64_max : ℕ
u64_max = 18_446_744_073_709_551_615

-- `u64::saturating_add`.
unfoldable pub saturating_add : ℕ → ℕ → ℕ
saturating_add a b = min (a + b) u64_max

pub record RawEventCounts : Type 0 where
  pub must_scan : ℕ
  pub user_dropped : ℕ
  pub kernel_dropped : ℕ
  pub ids_wrapped : ℕ
  pub root_changed : ℕ
  pub first_id : Option ℕ
  pub last_id : Option ℕ

abbrev pub no_counts : RawEventCounts
no_counts = record {
  must_scan = 0;
  user_dropped = 0;
  kernel_dropped = 0;
  ids_wrapped = 0;
  root_changed = 0;
  first_id = none;
  last_id = none;
}

-- `u64::from(bool)`.
abbrev pub from_bool : Bool → ℕ
from_bool true = 1
from_bool false = 0

-- `a.or(b)`.
abbrev pub or_else {ℓ} : {A : Type ℓ} → Option A → Option A → Option A
or_else (some a) o = some a
or_else none o = o

-- `*count = count.saturating_add(u64::from(flags & flag != 0))`.
abbrev pub count_flag : ℕ → ℕ → ℕ → ℕ
count_flag count flags flag = saturating_add count (from_bool (has_flag flags flag))

unfoldable pub record_flags : RawEventCounts → ℕ → ℕ → RawEventCounts
record_flags c flags id = record {
  must_scan = count_flag c.must_scan flags flag_must_scan_subdirs;
  user_dropped = count_flag c.user_dropped flags flag_user_dropped;
  kernel_dropped = count_flag c.kernel_dropped flags flag_kernel_dropped;
  ids_wrapped = count_flag c.ids_wrapped flags flag_ids_wrapped;
  root_changed = count_flag c.root_changed flags flag_root_changed;
  first_id = or_else c.first_id (some id);
  last_id = some id;
}

unfoldable pub merge : RawEventCounts → RawEventCounts → RawEventCounts
merge c incoming = record {
  must_scan = saturating_add c.must_scan incoming.must_scan;
  user_dropped = saturating_add c.user_dropped incoming.user_dropped;
  kernel_dropped = saturating_add c.kernel_dropped incoming.kernel_dropped;
  ids_wrapped = saturating_add c.ids_wrapped incoming.ids_wrapped;
  root_changed = saturating_add c.root_changed incoming.root_changed;
  first_id = or_else c.first_id incoming.first_id;
  last_id = or_else incoming.last_id c.last_id;
}

-- The events of a batch, recorded in the order of their delivery.
unfoldable pub record_all : List FsEvent → RawEventCounts → RawEventCounts
unfolding record_flags
record_all [] c = c
record_all (e ∷ es) c = record_all es (record_flags c e.flags e.id)
