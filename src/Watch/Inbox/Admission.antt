-- ===== src/Watch/Inbox/Admission.antt =====
-- What `EventInbox::push` of watch.rs asks to scan.
use macevery.Prelude.{
  ℕ, Bool, true, false, not, Option, none, some, List, [], ◌∷◌, if◌then◌else◌, ◌≡◌, refl, arith,
  Bool-cases, ◌⊎◌, inl, inr, if_cases,
}
use macevery.Search.Text.{Bytes}
use macevery.Paths.{any, path_starts_with}
use macevery.Paths.Ancestors.{path_starts_with-comparable}
use macevery.Watch.Event.{FsEvent, is_rescan, action_for_flags}
use macevery.Watch.Fold.Covers.{any-fold}
use macevery.Watch.PathMap.{copied}
use macevery.Watch.PathMap.Laws.{any-upsert}
use macevery.Watch.Pending.{
  Pending, clear_paths, insert_path, insert_paths, record_event, add, targets, subtree_targets,
  fall_back, add_targets, add_scoped,
}
use macevery.Watch.Process.Coverage.{Asks}
use macevery.Watch.Inbox.{InboxState, is_over, collapse, push}

-- What lies under the event's path and under a root lies under a target.
targets-covers :
    (x p : Bytes) (roots : List Bytes)
    → path_starts_with x p ≡ true
    → any (path_starts_with x) roots ≡ true
    → any (path_starts_with x) (targets p roots) ≡ true
unfolding targets any
targets-covers x p [] u h = cc
targets-covers x p (r ∷ roots) u h = elim (Bool-cases (path_starts_with x r)) [
  | inr n ↦ ground (arith, targets-covers x p roots u (rw n at h), u, n)
  | inl v ↦ ground (arith, u, v, path_starts_with-comparable p r x u v)
]

-- One of the two ways to ask for a scan of `x`.
insert_path-Asks :
    (w : Pending) (p : Bytes) (flags : ℕ) (x : Bytes)
    → (Asks w x ⊎ (path_starts_with x p ≡ true))
    → Asks (insert_path w p flags) x
unfolding insert_path
insert_path-Asks w p flags x h =
    rw (any-upsert (path_starts_with x) _ (copied p flags) w.paths) (ground (arith, h))

insert_paths-Asks :
    (w : Pending) (ps : List Bytes) (flags : ℕ) (x : Bytes)
    → (Asks w x ⊎ (any (path_starts_with x) ps ≡ true))
    → Asks (insert_paths w ps flags) x
unfolding insert_paths any
insert_paths-Asks w [] flags x (inl a) = a
insert_paths-Asks w [] flags x (inr u) = cc
insert_paths-Asks w (p ∷ ps) flags x (inl a) =
    insert_paths-Asks (insert_path w p flags) ps flags x
      (inl (insert_path-Asks w p flags x (inl a)))
insert_paths-Asks w (p ∷ ps) flags x (inr u) = elim (Bool-cases (path_starts_with x p)) [
  | inl s ↦
      insert_paths-Asks (insert_path w p flags) ps flags x
        (inl (insert_path-Asks w p flags x (inr s)))
  | inr s ↦ insert_paths-Asks (insert_path w p flags) ps flags x (inr (rw s at u))
]

-- `x` is asked for already, or is part of what the event is about.
abbrev pub Concerns : Pending → List Bytes → FsEvent → Bytes → Type 0
Concerns w roots e x =
    Asks w x ⊎ ((path_starts_with x e.path ≡ true) × (any (path_starts_with x) roots ≡ true))

add-Asks :
    (w : Pending) (e : FsEvent) (x : Bytes)
    → is_rescan (action_for_flags e.flags) ≡ true
    → Asks (add w e) x
unfolding add clear_paths
add-Asks w e x h = rw h

record_event-Asks : (w : Pending) (e : FsEvent) (x : Bytes) → Asks w x → Asks (record_event w e) x
unfolding record_event
record_event-Asks w e x a = a

add_targets-Asks :
    (w : Pending) (ts : Option (List Bytes)) (flags : ℕ) (x : Bytes)
    → (Asks w x ⊎ ((ps : List Bytes) → ts ≡ some ps → any (path_starts_with x) ps ≡ true))
    → Asks (add_targets w ts flags) x
unfolding fall_back clear_paths
add_targets-Asks w none flags x h = refl
add_targets-Asks w (some ps) flags x h =
    if_cases (λ v. Asks v x) (not w.rescan_roots) _ _
      (λ _. insert_paths-Asks w ps flags x (elim h [ inl a ↦ inl a | inr u ↦ inr (u ps refl) ]))
      (λ e. ground (arith, e))

subtree_targets-covers :
    (x p : Bytes) (roots ps : List Bytes)
    → path_starts_with x p ≡ true
    → any (path_starts_with x) roots ≡ true
    → subtree_targets p roots ≡ some ps
    → any (path_starts_with x) ps ≡ true
unfolding subtree_targets
subtree_targets-covers x p roots ps u h e =
    let f = any-fold x (targets p roots) (targets-covers x p roots u h) in ground (arith, e, f)

add_scoped-Asks :
    (w : Pending) (e : FsEvent) (roots : List Bytes) (x : Bytes)
    → Concerns w roots e x
    → Asks (add_scoped w e roots) x
unfolding add_scoped
add_scoped-Asks w e roots x c =
    if_cases (λ v. Asks v x) (is_rescan (action_for_flags e.flags)) _ _ (add-Asks w e x)
      λ _. add_targets-Asks (record_event w e) (subtree_targets e.path roots) e.flags x (elim c [
        | inl a ↦ inl (record_event-Asks w e x a)
        | inr (u, h) ↦ inr (λ ps s. subtree_targets-covers x e.path roots ps u h s)
      ])

collapse-Asks : (w : Pending) (x : Bytes) → Asks (collapse w) x
unfolding collapse clear_paths
collapse-Asks w x = refl

-- The pending work of an open inbox.
when_open {κ} :
    (P : Pending → Type κ) (closed : Bool) (s t : InboxState × Bool)
    → closed ≡ false
    → P t.0.pending
    → P (if closed then s else t).0.pending
when_open P true s t n k = cc
when_open P false s t n k = k

-- Behind a push to an open inbox every path that it was asked to scan is still asked for, and so is
-- every path that lies under the event's path and under a root, if only by a scan of all roots.
pub push-Asks :
    (roots : List Bytes) (at : ℕ) (e : FsEvent) (s : InboxState) (x : Bytes)
    → s.closed ≡ false
    → Concerns s.pending roots e x
    → Asks (push roots at e s).0.pending x
unfolding push
push-Asks roots at e s x open_ c =
    let w = add_scoped s.pending e roots in
    when_open (λ v. Asks v x) s.closed _ _ open_
      (if_cases (λ v. Asks v x) (is_over w) (collapse w) w (λ _. collapse-Asks w x)
        (λ _. add_scoped-Asks s.pending e roots x c))
