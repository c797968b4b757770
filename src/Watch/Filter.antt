-- ===== src/Watch/Filter.antt =====
-- `EventFilter` of watch.rs: which events the callback lets through, and what it counts.
pub mod Counted
use Prim.Native.Nat.{bit_or}
use macevery.Prelude.{
  ℕ, ◌+◌, ◌%◌, Bool, true, false, not, ◌&&◌, ◌||◌, Option, none, some, List, [], ◌∷◌, if◌then◌else◌,
}
use macevery.Search.Text.{Bytes, bytes_eq}
use macevery.Paths.{components, root_dir, is_prefix, path_starts_with}
use macevery.Model.Text.{Text}
use macevery.Scanner.Exclude.{Patterns, is_excluded}
use macevery.Watch.Event.{
  FsEvent, has_flag, action_for_flags, is_rescan, flag_history_done, flag_must_scan_subdirs,
}

-- Without `counters`.
pub record EventFilter : Type 0 where
  pub db_path : Bytes
  pub db_dir : Option Bytes
  pub excludes : Patterns

-- The counters that `accepts` keeps, of 64 and of 32 bits.
pub record FilterCounters : Type 0 where
  pub received : ℕ
  pub rejected : ℕ
  pub flags : ℕ

abbrev pub two_64 : ℕ
two_64 = 18446744073709551616

abbrev pub fetch_add : ℕ → ℕ
fetch_add n = (n + 1) % two_64

-- `==` of paths, which compares their components.
abbrev pub path_eq : Bytes → Bytes → Bool
path_eq a b = is_prefix (components a) (components b) && is_prefix (components b) (components a)

abbrev pub in_dir : Bytes → Option Bytes → Bool
in_dir path none = false
in_dir path (some db_dir) = path_eq path db_dir || path_starts_with path db_dir

unfoldable pub is_ignored_event_path : Bytes → Bytes → Option Bytes → Bool
is_ignored_event_path path db_path db_dir = path_eq path db_path || in_dir path db_dir

abbrev pub count_rejected : Bool → FilterCounters → FilterCounters
count_rejected true c = c
count_rejected false c = record c { rejected = fetch_add c.rejected }

abbrev pub keep : FsEvent → Bool → List FsEvent → List FsEvent
keep e true es = e ∷ es
keep e false es = es

-- `to_string_lossy` is the language's: the characters of the bytes of a name.
module _ (to_string_lossy : Bytes → Text) where
  -- `component_text` of scanner.rs, which leaves out the root; the other components, of which a dot and two
  -- dots are among the texts, are read by `to_string_lossy`.
  unfoldable pub component_texts : List Bytes → List Text
  component_texts [] = []
  component_texts (c ∷ cs) =
      let rest = component_texts cs in
      if bytes_eq c root_dir then rest else to_string_lossy c ∷ rest

  -- The decision, for a path that is not ignored.
  unfoldable pub lets_through : EventFilter → Bytes → ℕ → Bool
  lets_through f path flags =
      is_rescan (action_for_flags flags)
      || ((not (has_flag flags flag_history_done) || has_flag flags flag_must_scan_subdirs)
          && not (is_excluded f.excludes (component_texts (components path))))

  unfoldable pub accepts : EventFilter → Bytes → ℕ → FilterCounters → Bool × FilterCounters
  accepts f path flags c =
      let global_recovery = is_rescan (action_for_flags flags) in
      let accepted = lets_through f path flags in
      let received : FilterCounters = record c {
        received = fetch_add c.received;
        flags = bit_or c.flags flags;
      } in
      if not global_recovery && is_ignored_event_path path f.db_path f.db_dir
      then (false, c)
      else (accepted, count_rejected accepted received)

  -- The events of a callback, one after the other: those accepted, and the counters.
  unfoldable pub accept_all :
      EventFilter → List FsEvent → FilterCounters → List FsEvent × FilterCounters
  accept_all f [] c = ([], c)
  accept_all f (e ∷ es) c =
      let (accepted, d) = accepts f e.path e.flags c in
      let (rest, last) = accept_all f es d in (keep e accepted rest, last)
