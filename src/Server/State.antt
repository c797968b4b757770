-- ===== src/Server/State.antt =====
-- `ServiceState` of server.rs: the index in memory, what it was loaded from, and what is counted.
pub mod Load
pub mod Apply
pub mod Refresh
pub mod Step
pub mod Measured
pub mod Consistent
pub mod Untouched
pub mod Fresh
use macevery.Prelude.{
  ℕ, ◌+◌, Bool, true, false, ◌&&◌, Option, none, some, List, [], ◌∷◌, ◌++◌, min, ◌==◌,
}
use macevery.Prelude.Int.{ℤ, pos}
use macevery.Prelude.Compare.{compare_ℤ, is_eq}
use macevery.Model.Text.{Text, codes, text_eq}
use macevery.Model.Options.{SearchOptions}
use macevery.Server.Json.{SearchResult}
use macevery.Server.Backend.{BackendPreference, u64_max}

-- `DatabaseFileIdentity` and `ContentStamp` of db.rs.
pub record DatabaseFileIdentity : Type 0 where
  pub device : ℕ
  pub inode : ℕ

pub record ContentStamp : Type 0 where
  pub database_id : Text
  pub revision : ℤ
  pub file_identity : DatabaseFileIdentity

unfoldable pub identity_eq : DatabaseFileIdentity → DatabaseFileIdentity → Bool
identity_eq a b = a.device == b.device && a.inode == b.inode

unfoldable pub stamp_eq : ContentStamp → ContentStamp → Bool
stamp_eq a b =
    text_eq a.database_id b.database_id
    && is_eq (compare_ℤ a.revision b.revision)
    && identity_eq a.file_identity b.file_identity

-- What the service takes of `CompactIndex`: the changes are of `Change`, `search_index` is its `search`.
pub record PackedIndex : Type 1 where
  pub Index : Type 0
  pub Change : Type 0
  pub len : Index → ℕ
  pub search_index : Index → SearchOptions → List SearchResult

-- `backend`; the connection of a `sqlite` backend is not read here.
pub data Backend (Index : Type 0) : Type 0 where
  packed : Index → Backend Index
  sqlite_backend : Backend Index
  unavailable : Backend Index

module _ (I : PackedIndex) where
  unfoldable pub loaded_records : Backend I.Index → ℕ
  loaded_records (packed index) = I.len index
  loaded_records sqlite_backend = 0
  loaded_records unavailable = 0

  unfoldable pub is_ready : Backend I.Index → Bool
  is_ready (packed index) = true
  is_ready sqlite_backend = true
  is_ready unavailable = false

-- Whether the whole sum of memory is `published` or only kept, with its phase.
pub data Capture : Type 0 where
  published : Text → Capture
  cached : Text → Capture

-- The path is not kept, and of `memory_snapshot` and `memory_audit` the calls that change them.
pub record ServiceState (Index : Type 0) : Type 0 where
  pub requested_backend : BackendPreference
  pub selected_backend : BackendPreference
  pub backend : Backend Index
  pub loaded_stamp : Option ContentStamp
  pub records_total : ℤ
  pub estimated_memory_bytes : ℕ
  pub loaded_at : ℤ
  pub load_attempts : ℕ
  pub successful_loads : ℕ
  pub last_load_error : Option Text
  pub incremental_attempts : ℕ
  pub incremental_applies : ℕ
  pub incremental_change_ids : ℕ
  pub last_incremental_change_ids : ℕ
  pub refreshed_at : ℤ
  pub last_refresh_method : Text
  pub last_fallback_reason : Option Text
  pub last_refresh_error : Option Text
  pub pending_full_reason : Option Text
  pub memory_audit : List Capture

-- `saturating_add` of a `u64`.
abbrev pub saturating_add : ℕ → ℕ → ℕ
saturating_add a b = min (a + b) u64_max

module _ {Index : Type 0} where
  abbrev pub publish_memory : Text → ServiceState Index → ServiceState Index
  publish_memory phase s = record s { memory_audit = s.memory_audit ++ published phase ∷ [] }

  abbrev pub cache_memory : Text → ServiceState Index → ServiceState Index
  cache_memory phase s = record s { memory_audit = s.memory_audit ++ cached phase ∷ [] }

  abbrev pub invalidate_backend : ServiceState Index → ServiceState Index
  invalidate_backend s = record s {
    backend = unavailable;
    loaded_stamp = none;
    records_total = pos 0;
    estimated_memory_bytes = 0;
    loaded_at = pos 0;
    refreshed_at = pos 0;
  }
