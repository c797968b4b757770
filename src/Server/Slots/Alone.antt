-- ===== src/Server/Slots/Alone.antt =====
-- The requests of server.rs that run with no other thread between their operations.
use Prim.Native.Nat.{zero, suc}
use macevery.Prelude.{
  ℕ, ◌-◌, ◌≤◌, ◌<◌, ◌≡◌, refl, subst, sym, ◌⊎◌, inl, inr, arith, some, List, [], ◌∷◌, if◌then◌else◌,
  leb, ◌==◌, if_cases, length, get_elem?, set, get_elem?-set_self, replicate,
}
use macevery.Server.Slots.{
  CompletionKind, http, search, Counters, Phase, arriving, loading, exchanging, refused, acquired,
  guarded, released, completed, rejected, arrive, refuse, guard, complete, advance, load_slot,
  exchange_slot, System, step_at, step, run,
}

-- The operations that are left to a thread alone: after an exchange that fails, the loop again.
abbrev pub left : Counters → Phase → ℕ
left c arriving = 6
left c loading = 5
left c (exchanging current) = if c.active == current then 4 else 6
left c refused = 1
left c acquired = 3
left c guarded = 2
left c released = 1
left c completed = 0
left c rejected = 0

lt_of_get_elem? : (ps : List Phase) (i : ℕ) (p : Phase) → get_elem? ps i ≡ some p → i < length ps
lt_of_get_elem? [] i p h = absurd cc
lt_of_get_elem? (x ∷ ps) zero p h = omega arith
lt_of_get_elem? (x ∷ ps) (suc i) p h = omega (arith, lt_of_get_elem? ps i p h)

phase_at : (ps : List Phase) (i : ℕ) → i < length ps → (p : Phase) × (get_elem? ps i ≡ some p)
phase_at [] i h = absurd (omega arith)
phase_at (x ∷ ps) zero h = (x, refl)
phase_at (x ∷ ps) (suc i) h = phase_at ps i (omega arith)

module _ (kind : CompletionKind) (limit : ℕ) where
  -- An operation brings a thread that is alone nearer to its end.
  abbrev pub IsNearer : ℕ → Counters × Phase → Type 0
  IsNearer n (c, p) = left c p ≤ n - 1

  load_slot-IsNearer : (c : Counters) → IsNearer 5 (load_slot limit c)
  unfolding load_slot
  load_slot-IsNearer c =
      if_cases (IsNearer 5) (leb limit c.active) (c, refused) (c, exchanging c.active)
        (λ e. omega arith) (λ e. ground arith)

  exchange_slot-IsNearer :
      (c : Counters) (current : ℕ)
      → IsNearer (left c (exchanging current)) (exchange_slot current c)
  unfolding exchange_slot
  exchange_slot-IsNearer c current = ground arith

  arrive-IsNearer : (k : CompletionKind) (c : Counters) → IsNearer 6 (arrive k c)
  arrive-IsNearer http c = omega arith
  arrive-IsNearer search c = omega arith

  refuse-IsNearer : (k : CompletionKind) (c : Counters) → IsNearer 1 (refuse k c)
  refuse-IsNearer http c = omega arith
  refuse-IsNearer search c = omega arith

  guard-IsNearer : (k : CompletionKind) (c : Counters) → IsNearer 3 (guard k c)
  guard-IsNearer http c = omega arith
  guard-IsNearer search c = omega arith

  complete-IsNearer : (k : CompletionKind) (c : Counters) → IsNearer 1 (complete k c)
  complete-IsNearer http c = omega arith
  complete-IsNearer search c = omega arith

  advance-IsNearer : (c : Counters) (p : Phase) → IsNearer (left c p) (advance kind limit p c)
  unfolding advance
  advance-IsNearer c arriving = arrive-IsNearer kind c
  advance-IsNearer c loading = load_slot-IsNearer c
  advance-IsNearer c (exchanging current) = exchange_slot-IsNearer c current
  advance-IsNearer c refused = refuse-IsNearer kind c
  advance-IsNearer c acquired = guard-IsNearer kind c
  advance-IsNearer c guarded = omega arith
  advance-IsNearer c released = complete-IsNearer kind c
  advance-IsNearer c completed = omega arith
  advance-IsNearer c rejected = omega arith

  -- The thread is at one of its two ends.
  abbrev pub IsOver : ℕ → System → Type 0
  IsOver i s = (get_elem? s.1 i ≡ some completed) ⊎ (get_elem? s.1 i ≡ some rejected)

  exchanging_left : (c : Counters) (current : ℕ) → 0 < left c (exchanging current)
  exchanging_left c current = ground arith

  IsOver-of_left :
      (c : Counters) (ps : List Phase) (i : ℕ) (p : Phase)
      → get_elem? ps i ≡ some p
      → left c p ≤ 0
      → IsOver i (c, ps)
  IsOver-of_left c ps i arriving h k = absurd (omega arith)
  IsOver-of_left c ps i loading h k = absurd (omega arith)
  IsOver-of_left c ps i (exchanging current) h k = absurd (omega (arith, exchanging_left c current))
  IsOver-of_left c ps i refused h k = absurd (omega arith)
  IsOver-of_left c ps i acquired h k = absurd (omega arith)
  IsOver-of_left c ps i guarded h k = absurd (omega arith)
  IsOver-of_left c ps i released h k = absurd (omega arith)
  IsOver-of_left c ps i completed h k = inl h
  IsOver-of_left c ps i rejected h k = inr h

  run-left :
      (n i : ℕ) (c : Counters) (ps : List Phase) (p : Phase)
      → get_elem? ps i ≡ some p
      → left c p ≤ n
      → IsOver i (run kind limit (replicate n i) (c, ps))
  unfolding run step
  run-left zero i c ps p h k = IsOver-of_left c ps i p h k
  run-left (suc n) i c ps p h k =
      let r = advance kind limit p c in
      let nearer = advance-IsNearer c p in
      subst (λ o. IsOver i (run kind limit (replicate n i) (step_at kind limit i o (c, ps))))
        (sym h)
        (run-left n i r.0 (set ps i r.1) r.1
          (get_elem?-set_self ps i r.1 (lt_of_get_elem? ps i p h)) (omega (arith, nearer)))

  left_le : (c : Counters) (p : Phase) → left c p ≤ 6
  left_le c arriving = omega arith
  left_le c loading = omega arith
  left_le c (exchanging n) = ground arith
  left_le c refused = omega arith
  left_le c acquired = omega arith
  left_le c guarded = omega arith
  left_le c released = omega arith
  left_le c completed = omega arith
  left_le c rejected = omega arith

  -- A thread that runs alone, from whatever point and with whatever counters others have left, has its
  -- request completed or rejected after six operations: the loop for a slot does not go on for ever.
  pub run-IsOver :
      (i : ℕ) (c : Counters) (ps : List Phase)
      → i < length ps
      → IsOver i (run kind limit (replicate 6 i) (c, ps))
  run-IsOver i c ps h = let (p, e) = phase_at ps i h in run-left 6 i c ps p e (left_le c p)
