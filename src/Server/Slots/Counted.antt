-- ===== src/Server/Slots/Counted.antt =====
-- What the counters of server.rs say of the threads, in every order of their operations.
use Prim.Native.Nat.{zero, suc}
use macevery.Prelude.{
  ℕ, ◌+◌, ◌≤◌, ◌<◌, ◌≡◌, refl, subst, sym, arith, Option, none, some, List, [], ◌∷◌, leb, ◌==◌,
  if_cases, ==_iff, All, length, get_elem?, set, length-set, replicate, length-replicate,
}
use macevery.Server.Slots.{
  http, Counters, Phase, arriving, loading, exchanging, refused, acquired, guarded, released,
  completed, rejected, advance, load_slot, exchange_slot, System, put_at, step_at, step, run,
  before, two_64,
}
use macevery.Server.Slots.Total.{
  total, holds, has_arrived, is_completed, is_rejected, is_open, total-set, total_le, total_room,
  holds_le, arrived_le, completed_le, rejected_le,
}

-- What is exchanged is below the limit.
abbrev pub IsBelow : ℕ → Phase → Type 0
IsBelow limit (exchanging current) = current < limit
IsBelow limit _ = Unit

-- The counters of slots and of requests, by the threads' phases.
abbrev pub IsCounted : ℕ → System → Type 0
IsCounted limit (c, ps) =
    (c.active ≡ total holds ps)
    × (c.active ≤ limit)
    × (c.http_accepted ≡ total has_arrived ps)
    × (c.http_completed ≡ total is_completed ps)
    × (c.http_rejected ≡ total is_rejected ps)
    × All (IsBelow limit) ps
    × (length ps < two_64)

-- What one operation changes, in the counters and in the thread's own weights.
abbrev pub IsMoved : ℕ → Phase → Counters → Counters × Phase → Type 0
IsMoved limit p c (d, q) =
    (d.active + holds p ≡ c.active + holds q)
    × (d.active ≤ limit)
    × (d.http_accepted + has_arrived p ≡ c.http_accepted + has_arrived q)
    × (d.http_completed + is_completed p ≡ c.http_completed + is_completed q)
    × (d.http_rejected + is_rejected p ≡ c.http_rejected + is_rejected q)
    × IsBelow limit q

abbrev pub HasRoom : ℕ → Phase → Counters → Type 0
HasRoom n p c =
    (n < two_64)
    × (c.active ≤ n)
    × (holds p ≤ c.active)
    × (c.http_accepted + 1 ≤ n + has_arrived p)
    × (c.http_completed + 1 ≤ n + is_completed p)
    × (c.http_rejected + 1 ≤ n + is_rejected p)

module _ (limit n : ℕ) (c : Counters) where
  load_slot-IsMoved : c.active ≤ limit → IsMoved limit loading c (load_slot limit c)
  unfolding load_slot
  load_slot-IsMoved h =
      if_cases (IsMoved limit loading c) (leb limit c.active) (c, refused) (c, exchanging c.active)
        (λ e. (refl, h, refl, refl, refl, tt)) (λ e. (refl, h, refl, refl, refl, ground arith))

  exchange_slot-IsMoved :
      (current : ℕ)
      → c.active ≤ limit
      → current < limit
      → IsMoved limit (exchanging current) c (exchange_slot current c)
  unfolding exchange_slot
  exchange_slot-IsMoved current h k =
      if_cases (IsMoved limit (exchanging current) c) (c.active == current)
        (record c { active = current + 1 }, acquired) (c, loading)
        (λ e.
          let same = (==_iff c.active current).0 e in
          (omega (arith, same), omega arith, refl, refl, refl, tt))
        (λ e. (refl, h, refl, refl, refl, tt))

  advance-IsMoved :
      (p : Phase)
      → HasRoom n p c
      → c.active ≤ limit
      → IsBelow limit p
      → IsMoved limit p c (advance http limit p c)
  unfolding advance
  advance-IsMoved arriving (a, b, d, e, f, g) h k = (refl, h, omega arith, refl, refl, tt)
  advance-IsMoved loading r h k = load_slot-IsMoved h
  advance-IsMoved (exchanging current) r h k = exchange_slot-IsMoved current h k
  advance-IsMoved refused (a, b, d, e, f, g) h k = (refl, h, refl, refl, omega arith, tt)
  advance-IsMoved acquired r h k = (refl, h, refl, refl, refl, tt)
  advance-IsMoved guarded (a, b, d, e, f, g) h k = (omega arith, omega arith, refl, refl, refl, tt)
  advance-IsMoved released (a, b, d, e, f, g) h k = (refl, h, refl, omega arith, refl, tt)
  advance-IsMoved completed r h k = (refl, h, refl, refl, refl, tt)
  advance-IsMoved rejected r h k = (refl, h, refl, refl, refl, tt)

abbrev pub IfSome : {A : Type 0} → (A → Type 0) → Option A → Type 0
IfSome P none = Unit
IfSome P (some x) = P x

All-get_elem? :
    {A : Type 0} (P : A → Type 0) (xs : List A) (i : ℕ) (x : A)
    → All P xs
    → get_elem? xs i ≡ some x
    → P x
All-get_elem? P [] i x h k = absurd cc
All-get_elem? P (y ∷ xs) zero x (h, _) k = subst (IfSome P) k h
All-get_elem? P (y ∷ xs) (suc i) x (_, h) k = All-get_elem? P xs i x h k

All-set :
    {A : Type 0} (P : A → Type 0) (xs : List A) (i : ℕ) (x : A)
    → All P xs
    → P x
    → All P (set xs i x)
All-set P [] i x h k = tt
All-set P (y ∷ xs) zero x (_, h) k = (k, h)
All-set P (y ∷ xs) (suc i) x (g, h) k = (g, All-set P xs i x h k)

put_at-IsCounted :
    (limit i : ℕ) (c : Counters) (ps : List Phase) (p : Phase) (r : Counters × Phase)
    → get_elem? ps i ≡ some p
    → IsCounted limit (c, ps)
    → IsMoved limit p c r
    → IsCounted limit (put_at i ps r)
put_at-IsCounted limit i c ps p (d, q) h (a, b, e, f, g, l, m) (u, v, w, x, y, z) =
    let held = total-set holds ps i p q h in
    let arrived = total-set has_arrived ps i p q h in
    let done = total-set is_completed ps i p q h in
    let away = total-set is_rejected ps i p q h in
    let long = length-set ps i q in
    (
      omega (arith, held),
      v,
      omega (arith, arrived),
      omega (arith, done),
      omega (arith, away),
      All-set (IsBelow limit) ps i q l z,
      omega (arith, long),
    )

step_at-IsCounted :
    (limit i : ℕ) (c : Counters) (ps : List Phase) (o : Option Phase)
    → get_elem? ps i ≡ o
    → IsCounted limit (c, ps)
    → IsCounted limit (step_at http limit i o (c, ps))
step_at-IsCounted limit i c ps none h k = k
step_at-IsCounted limit i c ps (some p) h (a, b, e, f, g, l, m) =
    let (room1, least) = total_room holds ps i p holds_le h in
    let (room2, _) = total_room has_arrived ps i p arrived_le h in
    let (room3, _) = total_room is_completed ps i p completed_le h in
    let (room4, _) = total_room is_rejected ps i p rejected_le h in
    let most = total_le holds ps holds_le in
    put_at-IsCounted limit i c ps p (advance http limit p c) h (a, b, e, f, g, l, m)
      (advance-IsMoved limit (length ps) c p
        (m, omega arith, omega arith, omega arith, omega arith, omega arith) b
        (All-get_elem? (IsBelow limit) ps i p l h))

run-IsCounted :
    (limit : ℕ) (turns : List ℕ) (s : System)
    → IsCounted limit s
    → IsCounted limit (run http limit turns s)
unfolding run step
run-IsCounted limit [] s h = h
run-IsCounted limit (i ∷ turns) s h =
    run-IsCounted limit turns (step http limit i s)
      (step_at-IsCounted limit i s.0 s.1 (get_elem? s.1 i) refl h)

total_arriving : (f : Phase → ℕ) (n : ℕ) → f arriving ≡ 0 → total f (replicate n arriving) ≡ 0
total_arriving f zero h = refl
total_arriving f (suc n) h = omega (arith, total_arriving f n h)

arriving-IsBelow : (limit n : ℕ) → All (IsBelow limit) (replicate n arriving)
arriving-IsBelow limit zero = tt
arriving-IsBelow limit (suc n) = (tt, arriving-IsBelow limit n)

before-IsCounted : (limit n : ℕ) → n < two_64 → IsCounted limit (before n)
before-IsCounted limit n h = (
  sym (total_arriving holds n refl),
  omega arith,
  sym (total_arriving has_arrived n refl),
  sym (total_arriving is_completed n refl),
  sym (total_arriving is_rejected n refl),
  arriving-IsBelow limit n,
  omega (arith, length-replicate n arriving),
)

arrived_split : (p : Phase) → has_arrived p ≡ is_completed p + is_rejected p + is_open p
arrived_split arriving = omega arith
arrived_split loading = omega arith
arrived_split (exchanging n) = omega arith
arrived_split refused = omega arith
arrived_split acquired = omega arith
arrived_split guarded = omega arith
arrived_split released = omega arith
arrived_split completed = omega arith
arrived_split rejected = omega arith

total-arrived :
    (ps : List Phase)
    → total has_arrived ps ≡ total is_completed ps + total is_rejected ps + total is_open ps
total-arrived [] = omega arith
total-arrived (p ∷ ps) = omega (arith, total-arrived ps, arrived_split p)

-- What the service's counters mean for its threads.
abbrev pub IsBalanced : ℕ → System → Type 0
IsBalanced limit (c, ps) =
    (c.active ≤ limit)
    × (c.active ≡ total holds ps)
    × (c.http_accepted ≡ c.http_completed + c.http_rejected + total is_open ps)

-- Whatever the order in which fewer than 2^64 requests take their atomic operations: no more than the
-- limit have a slot at once, the slots counted are those that requests have, and the requests
-- accepted are those completed, those rejected and those under way.
pub run-IsBalanced :
    (limit n : ℕ) (turns : List ℕ) → n < two_64 → IsBalanced limit (run http limit turns (before n))
run-IsBalanced limit n turns h =
    let s = run http limit turns (before n) in
    let (a, b, d, e, f, _, _) = run-IsCounted limit turns (before n) (before-IsCounted limit n h) in
    (b, a, omega (arith, d, e, f, total-arrived s.1))
