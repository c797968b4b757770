-- ===== src/Server/Slots/Total.antt =====
-- Sums over the phases of the threads of server.rs.
use Prim.Native.Nat.{zero, suc}
use macevery.Prelude.{
  ℕ, ◌+◌, ◌≤◌, ◌≡◌, ap, arith, Option, none, some, List, [], ◌∷◌, length, get_elem?, set,
}
use macevery.Server.Slots.{
  Phase, arriving, loading, exchanging, refused, acquired, guarded, released, completed, rejected,
}

-- How many threads are in some phases, by the weight of each.
abbrev pub total : (Phase → ℕ) → List Phase → ℕ
total f [] = 0
total f (p ∷ ps) = f p + total f ps

abbrev pub holds : Phase → ℕ
holds acquired = 1
holds guarded = 1
holds _ = 0

abbrev pub has_arrived : Phase → ℕ
has_arrived arriving = 0
has_arrived _ = 1

abbrev pub is_completed : Phase → ℕ
is_completed completed = 1
is_completed _ = 0

abbrev pub is_rejected : Phase → ℕ
is_rejected rejected = 1
is_rejected _ = 0

-- Those that are under way.
abbrev pub is_open : Phase → ℕ
is_open arriving = 0
is_open completed = 0
is_open rejected = 0
is_open _ = 1

abbrev pub is_started : Phase → ℕ
is_started guarded = 1
is_started released = 1
is_started completed = 1
is_started _ = 0

abbrev pub phase_or : Phase → Option Phase → Phase
phase_or q none = q
phase_or q (some p) = p

same_phase : (x p : Phase) → some x ≡ some p → x ≡ p
same_phase x p h = ap (phase_or x) h

pub total-set :
    (f : Phase → ℕ) (ps : List Phase) (i : ℕ) (p q : Phase)
    → get_elem? ps i ≡ some p
    → total f (set ps i q) + f p ≡ total f ps + f q
total-set f [] i p q h = absurd cc
total-set f (x ∷ ps) zero p q h = let e = ap f (same_phase x p h) in omega (arith, e)
total-set f (x ∷ ps) (suc i) p q h = omega (arith, total-set f ps i p q h)

pub total_le : (f : Phase → ℕ) (ps : List Phase) → ((q : Phase) → f q ≤ 1) → total f ps ≤ length ps
total_le f [] h = omega arith
total_le f (x ∷ ps) h = let rest = total_le f ps h in let one = h x in omega (arith, rest, one)

-- A thread whose weight is not counted yet leaves room for it.
pub total_room :
    (f : Phase → ℕ) (ps : List Phase) (i : ℕ) (p : Phase)
    → ((q : Phase) → f q ≤ 1)
    → get_elem? ps i ≡ some p
    → (total f ps + 1 ≤ length ps + f p) × (f p ≤ total f ps)
total_room f [] i p h k = absurd cc
total_room f (x ∷ ps) zero p h k =
    let e = ap f (same_phase x p k) in
    let rest = total_le f ps h in (omega (arith, e, rest), omega (arith, e))
total_room f (x ∷ ps) (suc i) p h k =
    let (room, least) = total_room f ps i p h k in
    let one = h x in (omega (arith, room, one), omega (arith, least))

pub holds_le : (p : Phase) → holds p ≤ 1
holds_le arriving = omega arith
holds_le loading = omega arith
holds_le (exchanging n) = omega arith
holds_le refused = omega arith
holds_le acquired = omega arith
holds_le guarded = omega arith
holds_le released = omega arith
holds_le completed = omega arith
holds_le rejected = omega arith

pub arrived_le : (p : Phase) → has_arrived p ≤ 1
arrived_le arriving = omega arith
arrived_le loading = omega arith
arrived_le (exchanging n) = omega arith
arrived_le refused = omega arith
arrived_le acquired = omega arith
arrived_le guarded = omega arith
arrived_le released = omega arith
arrived_le completed = omega arith
arrived_le rejected = omega arith

pub completed_le : (p : Phase) → is_completed p ≤ 1
completed_le arriving = omega arith
completed_le loading = omega arith
completed_le (exchanging n) = omega arith
completed_le refused = omega arith
completed_le acquired = omega arith
completed_le guarded = omega arith
completed_le released = omega arith
completed_le completed = omega arith
completed_le rejected = omega arith

pub rejected_le : (p : Phase) → is_rejected p ≤ 1
rejected_le arriving = omega arith
rejected_le loading = omega arith
rejected_le (exchanging n) = omega arith
rejected_le refused = omega arith
rejected_le acquired = omega arith
rejected_le guarded = omega arith
rejected_le released = omega arith
rejected_le completed = omega arith
rejected_le rejected = omega arith

pub open_le : (p : Phase) → is_open p ≤ 1
open_le arriving = omega arith
open_le loading = omega arith
open_le (exchanging n) = omega arith
open_le refused = omega arith
open_le acquired = omega arith
open_le guarded = omega arith
open_le released = omega arith
open_le completed = omega arith
open_le rejected = omega arith
