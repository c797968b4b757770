-- ===== src/Watch/Event.antt =====
-- Event flags, events and samples of watch.rs.
use Prim.Native.Nat.{bit_and, bit_or}
use macevery.Prelude.{ℕ, Bool, not, ◌==◌, if◌then◌else◌, true, false}
use macevery.Search.Text.{Bytes}

abbrev pub flag_must_scan_subdirs : ℕ
flag_must_scan_subdirs = 0x1

abbrev pub flag_user_dropped : ℕ
flag_user_dropped = 0x2

abbrev pub flag_kernel_dropped : ℕ
flag_kernel_dropped = 0x4

abbrev pub flag_ids_wrapped : ℕ
flag_ids_wrapped = 0x8

abbrev pub flag_history_done : ℕ
flag_history_done = 0x10

abbrev pub flag_root_changed : ℕ
flag_root_changed = 0x20

-- `flags & mask != 0`.
unfoldable pub has_flag : ℕ → ℕ → Bool
has_flag flags mask = not (bit_and flags mask == 0)

pub data WatchAction : Type 0 where
  refresh_paths rescan_roots : WatchAction

abbrev pub recovery_mask : ℕ
recovery_mask =
    bit_or (bit_or (bit_or flag_user_dropped flag_kernel_dropped) flag_ids_wrapped)
      flag_root_changed

unfoldable pub action_for_flags : ℕ → WatchAction
unfolding has_flag
action_for_flags flags = if has_flag flags recovery_mask then rescan_roots else refresh_paths

-- `action_for_flags(flags) == WatchAction::RescanRoots`.
abbrev pub is_rescan : WatchAction → Bool
is_rescan rescan_roots = true
is_rescan refresh_paths = false

pub record FsEvent : Type 0 where
  pub path : Bytes
  pub flags : ℕ
  pub id : ℕ

pub record EventSample : Type 0 where
  pub flags : ℕ
  pub id : ℕ
  pub path_hash : ℕ
