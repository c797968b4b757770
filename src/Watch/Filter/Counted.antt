-- ===== src/Watch/Filter/Counted.antt =====
-- What `EventFilter` of watch.rs counts of the events of a callback, and which it always lets through.
use macevery.Prelude.{
  ℕ, ◌+◌, ◌%◌, ◌≤◌, ◌<◌, ◌≡◌, refl, ap, ◌∙◌, arith, Bool, true, false, not, ◌&&◌, List, [], ◌∷◌,
  length, if_cases, Bool-cases, inl, inr,
}
use macevery.Search.Text.{Bytes}
use macevery.Model.Text.{Text}
use macevery.Watch.Event.{FsEvent, action_for_flags, is_rescan}
use macevery.Watch.Filter.{
  EventFilter, FilterCounters, two_64, is_ignored_event_path, lets_through, count_rejected, accepts,
  keep, accept_all,
}

-- The signals that ask for a scan of all roots.
abbrev pub recoveries : List FsEvent → List FsEvent
recoveries [] = []
recoveries (e ∷ es) = keep e (is_rescan (action_for_flags e.flags)) (recoveries es)

abbrev pub one_if : Bool → ℕ
one_if true = 1
one_if false = 0

-- What one decision changes: an event that is accepted is counted as received, one that is not is
-- counted as both received and rejected or as neither.
abbrev pub IsStep : ℕ → FilterCounters → Bool × FilterCounters → Type 0
IsStep n c (accepted, d) =
    (d.received + c.rejected ≡ c.received + one_if accepted + d.rejected)
    × (d.rejected ≤ d.received)
    × (d.received ≤ c.received + 1)

count_rejected-IsStep :
    (b : Bool) (n : ℕ) (c d : FilterCounters)
    → c.rejected ≤ c.received
    → c.received + 1 < two_64
    → d.received ≡ (c.received + 1) % two_64
    → d.rejected ≡ c.rejected
    → IsStep n c (b, count_rejected b d)
count_rejected-IsStep true n c d h k l m = (omega arith, omega arith, omega arith)
count_rejected-IsStep false n c d h k l m = (omega arith, omega arith, omega arith)

-- The counters after the events of a callback, by how many were accepted.
abbrev pub IsCounted : FilterCounters → List FsEvent × FilterCounters → Type 0
IsCounted c (accepted, d) =
    (d.received + c.rejected ≡ c.received + length accepted + d.rejected)
    × (d.rejected ≤ d.received)

length-keep :
    (e : FsEvent) (b : Bool) (es : List FsEvent) → length (keep e b es) ≡ one_if b + length es
length-keep e true es = omega arith
length-keep e false es = omega arith

false_is_not_true : false ≡ true → ⊥
false_is_not_true h = cc

recoveries-keep :
    (e : FsEvent) (a : Bool) (es : List FsEvent)
    → (is_rescan (action_for_flags e.flags) ≡ true → a ≡ true)
    → recoveries (keep e a es) ≡ keep e (is_rescan (action_for_flags e.flags)) (recoveries es)
recoveries-keep e true es h = refl
recoveries-keep e false es h = elim (Bool-cases (is_rescan (action_for_flags e.flags))) [
  | inl k ↦ absurd (false_is_not_true (h k))
  | inr k ↦ rw k refl
]

module _ (to_string_lossy : Bytes → Text) where
  accepts-IsStep :
      (f : EventFilter) (path : Bytes) (flags n : ℕ) (c : FilterCounters)
      → c.rejected ≤ c.received
      → c.received + 1 < two_64
      → IsStep n c (accepts to_string_lossy f path flags c)
  unfolding accepts
  accepts-IsStep f path flags n c h k =
      if_cases (IsStep n c)
        (not (is_rescan (action_for_flags flags)) && is_ignored_event_path path f.db_path f.db_dir)
        (false, c) _ (λ e. (omega arith, h, omega arith))
        (λ e. count_rejected-IsStep (lets_through to_string_lossy f path flags) n c _ h k refl refl)

  accept_all-IsCounted :
      (f : EventFilter) (es : List FsEvent) (c : FilterCounters)
      → c.rejected ≤ c.received
      → c.received + length es < two_64
      → IsCounted c (accept_all to_string_lossy f es c)
  unfolding accept_all
  accept_all-IsCounted f [] c h k = (omega arith, h)
  accept_all-IsCounted f (e ∷ es) c h k =
      let (one, less, most) = accepts-IsStep f e.path e.flags (length es) c h (omega arith) in
      let (a, d) = accepts to_string_lossy f e.path e.flags c in
      let (more, last) = accept_all-IsCounted f es d less (omega (arith, most)) in
      (omega (arith, one, more, length-keep e a (accept_all to_string_lossy f es d).0), last)

  recovers :
      (f : EventFilter) (e : FsEvent) (c : FilterCounters)
      → is_rescan (action_for_flags e.flags) ≡ true
      → (accepts to_string_lossy f e.path e.flags c).0 ≡ true
  unfolding accepts lets_through
  recovers f e c h = rw h refl

  accept_all-recoveries :
      (f : EventFilter) (es : List FsEvent) (c : FilterCounters)
      → recoveries (accept_all to_string_lossy f es c).0 ≡ recoveries es
  unfolding accept_all
  accept_all-recoveries f [] c = refl
  accept_all-recoveries f (e ∷ es) c =
      let (a, d) = accepts to_string_lossy f e.path e.flags c in
      recoveries-keep e a (accept_all to_string_lossy f es d).0 (recovers f e c)
      ∙ ap (keep e (is_rescan (action_for_flags e.flags))) (accept_all-recoveries f es d)

  -- While fewer than 2^64 events are counted, the events received are those accepted and those rejected,
  -- and of the signals that ask for a scan of all roots none is left out, whatever their paths and
  -- whatever is excluded.
  pub accept_all_lem :
      (f : EventFilter) (es : List FsEvent) (c : FilterCounters)
      → c.rejected ≤ c.received
      → c.received + length es < two_64
      → IsCounted c (accept_all to_string_lossy f es c)
        × (recoveries (accept_all to_string_lossy f es c).0 ≡ recoveries es)
  accept_all_lem f es c h k = (accept_all-IsCounted f es c h k, accept_all-recoveries f es c)
