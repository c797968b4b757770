-- ===== src/Server/Backend.antt =====
-- `BackendPreference` of server.rs, and the choice of a backend by what it would take of memory.
use macevery.Prelude.{ℕ, ◌*◌, min, Option, none, some, [], ◌∷◌, if◌then◌else◌, leb}
use macevery.Prelude.Int.{ℤ, pos_part}
use macevery.Model.Text.{Text, codes, one_of}
use macevery.Server.Outcome.{Outcome, ok, err}

pub data BackendPreference : Type 0 where
  auto memory compact sqlite : BackendPreference

unfoldable pub as_str : BackendPreference → Text
as_str auto = codes "auto"
as_str memory = codes "memory"
as_str compact = codes "compact"
as_str sqlite = codes "sqlite"

-- `to_lowercase` is the language's.
unfoldable pub from_str : (Text → Text) → Text → Outcome BackendPreference
from_str to_lowercase value =
    let lowered = to_lowercase value in
    if one_of lowered (codes "auto" ∷ codes "automatic" ∷ [])
    then ok auto
    else if one_of lowered (codes "memory" ∷ codes "fast" ∷ codes "fastest" ∷ [])
    then ok memory
    else if one_of lowered (codes "compact" ∷ codes "balanced" ∷ codes "compressed" ∷ [])
    then ok compact
    else if one_of lowered
        (codes "sqlite" ∷ codes "sql" ∷ codes "low-memory" ∷ codes "low_memory" ∷ [])
    then ok sqlite
    else err (codes "--backend must be auto, memory, compact, or sqlite")

abbrev pub default_memory_budget_bytes : ℕ
default_memory_budget_bytes = 2560 * 1024 * 1024

abbrev pub estimated_record_bytes : ℕ
estimated_record_bytes = 900

abbrev pub estimated_compact_record_bytes : ℕ
estimated_compact_record_bytes = 420

abbrev pub u64_max : ℕ
u64_max = 18446744073709551615

-- The value of MACEVERY_MEMORY_BUDGET_MB, if it is set and is a number of 64 bits.
unfoldable pub memory_budget_bytes : Option ℕ → ℕ
memory_budget_bytes none = default_memory_budget_bytes
memory_budget_bytes (some value) = min (value * (1024 * 1024)) u64_max

-- `records_total.max(0) as u64`; no table has so many rows that the product wraps.
unfoldable pub estimate_memory_bytes : ℤ → ℕ
estimate_memory_bytes records_total = pos_part records_total * estimated_record_bytes

unfoldable pub estimate_compact_memory_bytes : ℤ → ℕ
estimate_compact_memory_bytes records_total =
    pos_part records_total * estimated_compact_record_bytes

unfoldable pub estimate_backend_memory_bytes : BackendPreference → ℤ → ℕ
estimate_backend_memory_bytes auto records_total = estimate_memory_bytes records_total
estimate_backend_memory_bytes memory records_total = estimate_memory_bytes records_total
estimate_backend_memory_bytes compact records_total = estimate_compact_memory_bytes records_total
estimate_backend_memory_bytes sqlite records_total = 0

unfoldable pub select_backend : ℕ → BackendPreference → ℤ → BackendPreference
select_backend budget auto records_total =
    if leb (estimate_memory_bytes records_total) budget
    then memory
    else if leb (estimate_compact_memory_bytes records_total) budget
    then compact
    else sqlite
select_backend budget memory records_total = memory
select_backend budget compact records_total = compact
select_backend budget sqlite records_total = sqlite
