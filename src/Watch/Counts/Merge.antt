-- ===== src/Watch/Counts/Merge.antt =====
-- `RawEventCounts` of watch.rs: counting a batch apart against counting its events where they come.
use macevery.Prelude.{
  ℕ, ◌≤◌, ◌≡◌, refl, List, [], ◌∷◌, ◌++◌, Option, none, some, arith, ◌∙◌, ap, sym,
}
use macevery.Watch.Event.{FsEvent}
use macevery.Watch.Counts.{
  u64_max, saturating_add, RawEventCounts, no_counts, or_else, record_flags, merge, record_all,
}

saturating_add_assoc :
    (a b c : ℕ) → saturating_add a (saturating_add b c) ≡ saturating_add (saturating_add a b) c
unfolding saturating_add
saturating_add_assoc a b c = omega arith

saturating_add_zero : (a : ℕ) → a ≤ u64_max → saturating_add a 0 ≡ a
unfolding saturating_add
saturating_add_zero a h = omega arith

saturating_add-le : (a b : ℕ) → saturating_add a b ≤ u64_max
unfolding saturating_add
saturating_add-le a b = omega arith

or_else_assoc {ℓ} :
    {A : Type ℓ} (a b c : Option A) → or_else a (or_else b c) ≡ or_else (or_else a b) c
or_else_assoc none b c = refl
or_else_assoc (some a) b c = refl

or_else-none {ℓ} : {A : Type ℓ} (a : Option A) → or_else a none ≡ a
or_else-none none = refl
or_else-none (some a) = refl

-- Every counter is a 64-bit value.
pub record InRange (c : RawEventCounts) : Type 0 where
  pub must_scan_le : c.must_scan ≤ u64_max
  pub user_dropped_le : c.user_dropped ≤ u64_max
  pub kernel_dropped_le : c.kernel_dropped ≤ u64_max
  pub ids_wrapped_le : c.ids_wrapped ≤ u64_max
  pub root_changed_le : c.root_changed ≤ u64_max

pub record_flags-InRange : (c : RawEventCounts) (flags id : ℕ) → InRange (record_flags c flags id)
unfolding record_flags
record_flags-InRange c flags id = omega (arith, saturating_add-le)

merge-record_flags :
    (c d : RawEventCounts) (flags id : ℕ)
    → merge c (record_flags d flags id) ≡ record_flags (merge c d) flags id
unfolding merge record_flags
merge-record_flags c d flags id = simp (saturating_add_assoc, or_else_assoc)

merge-no_counts : (c : RawEventCounts) → InRange c → merge c no_counts ≡ c
unfolding merge
merge-no_counts c h = simp (
  saturating_add_zero c.must_scan h.must_scan_le,
  saturating_add_zero c.user_dropped h.user_dropped_le,
  saturating_add_zero c.kernel_dropped h.kernel_dropped_le,
  saturating_add_zero c.ids_wrapped h.ids_wrapped_le,
  saturating_add_zero c.root_changed h.root_changed_le,
  or_else-none,
)

merge-record_all :
    (c d : RawEventCounts) (es : List FsEvent)
    → merge c (record_all es d) ≡ record_all es (merge c d)
unfolding record_all
merge-record_all c d [] = refl
merge-record_all c d (e ∷ es) =
    merge-record_all c (record_flags d e.flags e.id) es
    ∙ ap (record_all es) (merge-record_flags c d e.flags e.id)

record_all-append :
    (c : RawEventCounts) (xs ys : List FsEvent)
    → record_all (xs ++ ys) c ≡ record_all ys (record_all xs c)
unfolding record_all
record_all-append c [] ys = refl
record_all-append c (x ∷ xs) ys = record_all-append (record_flags c x.flags x.id) xs ys

record_all-InRange :
    (c : RawEventCounts) (es : List FsEvent) → InRange c → InRange (record_all es c)
unfolding record_all
record_all-InRange c [] h = h
record_all-InRange c (e ∷ es) h =
    record_all-InRange (record_flags c e.flags e.id) es (record_flags-InRange c e.flags e.id)

-- Merging the counts of a later batch, counted from zero, gives the counts, the first and the last
-- event id of all the events recorded in one sequence. The counters may have stopped at their greatest
-- value; the condition is that they are 64-bit values at the start.
pub merge-batches :
    (c : RawEventCounts) (xs ys : List FsEvent)
    → InRange c
    → merge (record_all xs c) (record_all ys no_counts) ≡ record_all (xs ++ ys) c
merge-batches c xs ys h =
    merge-record_all (record_all xs c) no_counts ys
    ∙ ap (record_all ys) (merge-no_counts (record_all xs c) (record_all-InRange c xs h))
    ∙ sym (record_all-append c xs ys)
