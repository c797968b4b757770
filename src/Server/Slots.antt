-- ===== src/Server/Slots.antt =====
-- `try_acquire_request_slot`, `ActiveRequestGuard` and `SearchSlots` of server.rs with
-- `TrafficCounters` of serve_memory.rs: threads that take turns at atomic operations.
pub mod Total
pub mod Counted
pub mod Alone
use macevery.Prelude.{
  ℕ, ◌+◌, ◌-◌, ◌%◌, Option, none, some, List, [], ◌∷◌, if◌then◌else◌, leb, ◌==◌, get_elem?, set,
  replicate,
}

pub data CompletionKind : Type 0 where
  http search : CompletionKind

-- The atomic counters, of 64 bits; `active` is the slots' own.
pub record Counters : Type 0 where
  pub active : ℕ
  pub http_accepted : ℕ
  pub http_completed : ℕ
  pub http_rejected : ℕ
  pub searches_started : ℕ
  pub searches_completed : ℕ

abbrev pub two_64 : ℕ
two_64 = 18446744073709551616

-- `fetch_add(1, …)` and `fetch_sub(1, …)`, which wrap.
abbrev pub fetch_add : ℕ → ℕ
fetch_add n = (n + 1) % two_64

abbrev pub fetch_sub : ℕ → ℕ
fetch_sub n = (n + (two_64 - 1)) % two_64

abbrev pub http_accept : Counters → Counters
http_accept c = record c { http_accepted = fetch_add c.http_accepted }

abbrev pub http_complete : Counters → Counters
http_complete c = record c { http_completed = fetch_add c.http_completed }

abbrev pub http_reject : Counters → Counters
http_reject c = record c { http_rejected = fetch_add c.http_rejected }

abbrev pub search_start : Counters → Counters
search_start c = record c { searches_started = fetch_add c.searches_started }

abbrev pub search_complete : Counters → Counters
search_complete c = record c { searches_completed = fetch_add c.searches_completed }

-- Where a request stands, between two atomic operations: before it, before the load, before the
-- exchange of the value that was loaded, without a slot, with a slot, with a guard, with the slot given
-- back, and at its two ends.
pub data Phase : Type 0 where
  arriving : Phase
  loading : Phase
  exchanging : ℕ → Phase
  refused : Phase
  acquired : Phase
  guarded : Phase
  released : Phase
  completed : Phase
  rejected : Phase

-- `ActiveRequestGuard::http` counts every request; `SearchSlots::try_acquire` only those with a slot.
abbrev pub arrive : CompletionKind → Counters → Counters × Phase
arrive http c = (http_accept c, loading)
arrive search c = (c, loading)

abbrev pub refuse : CompletionKind → Counters → Counters × Phase
refuse http c = (http_reject c, rejected)
refuse search c = (c, rejected)

abbrev pub guard : CompletionKind → Counters → Counters × Phase
guard http c = (c, guarded)
guard search c = (search_start c, guarded)

-- The `match self.completion` of `drop`.
abbrev pub complete : CompletionKind → Counters → Counters × Phase
complete http c = (http_complete c, completed)
complete search c = (search_complete c, completed)

-- The two operations of the loop of `try_acquire_request_slot`.
unfoldable pub load_slot : ℕ → Counters → Counters × Phase
load_slot limit c = if leb limit c.active then (c, refused) else (c, exchanging c.active)

unfoldable pub exchange_slot : ℕ → Counters → Counters × Phase
exchange_slot current c =
    if c.active == current then (record c { active = current + 1 }, acquired) else (c, loading)

abbrev pub release : Counters → Counters × Phase
release c = (record c { active = fetch_sub c.active }, released)

-- The next operation of a request.
unfoldable pub advance : CompletionKind → ℕ → Phase → Counters → Counters × Phase
advance kind limit arriving c = arrive kind c
advance kind limit loading c = load_slot limit c
advance kind limit (exchanging current) c = exchange_slot current c
advance kind limit refused c = refuse kind c
advance kind limit acquired c = guard kind c
advance kind limit guarded c = release c
advance kind limit released c = complete kind c
advance kind limit completed c = (c, completed)
advance kind limit rejected c = (c, rejected)

abbrev pub System : Type 0
System = Counters × List Phase

abbrev pub put_at : ℕ → List Phase → Counters × Phase → System
put_at i threads (c, phase) = (c, set threads i phase)

abbrev pub step_at : CompletionKind → ℕ → ℕ → Option Phase → System → System
step_at kind limit i none s = s
step_at kind limit i (some phase) (c, threads) = put_at i threads (advance kind limit phase c)

-- One operation of the thread whose turn it is.
unfoldable pub step : CompletionKind → ℕ → ℕ → System → System
step kind limit i s = step_at kind limit i (get_elem? s.1 i) s

-- The threads take turns in the given order.
unfoldable pub run : CompletionKind → ℕ → List ℕ → System → System
run kind limit [] s = s
run kind limit (i ∷ turns) s = run kind limit turns (step kind limit i s)

abbrev pub idle : Counters
idle = record {
  active = 0;
  http_accepted = 0;
  http_completed = 0;
  http_rejected = 0;
  searches_started = 0;
  searches_completed = 0;
}

-- Requests that are still to come.
abbrev pub before : ℕ → System
before n = (idle, replicate n arriving)
