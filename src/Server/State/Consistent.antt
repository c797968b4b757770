-- ===== src/Server/State/Consistent.antt =====
-- What the fields of `ServiceState` of server.rs say of each other, through every load and refresh.
use macevery.Prelude.{
  ℕ, ◌≤◌, ◌≡◌, refl, ap, subst, sym, ◌⊎◌, inl, inr, arith, Bool, true, false, Option, none, some,
  List, if_cases,
}
use macevery.Prelude.Int.{ℤ, pos}
use macevery.Model.Text.{Text, codes}
use macevery.Server.Outcome.{Outcome, ok, err}
use macevery.Server.Backend.{BackendPreference, estimate_backend_memory_bytes, u64_max}
use macevery.Server.State.{
  ContentStamp, PackedIndex, Backend, packed, sqlite_backend, unavailable, ServiceState,
  saturating_add, Capture,
}
use macevery.Server.State.Load.{
  LoadAnswers, load_backend, finish_load, full_reload_with_capture, initial, load, reload,
}
use macevery.Server.State.Measured.{IsMeasured, load_backend-IsMeasured}
use macevery.Server.State.Apply.{RefreshAnswers, Refreshed, publish_applied, fail_apply}
use macevery.Server.State.Refresh.{needs_reload, reload_if_changed, ensure_fresh}
use macevery.Server.State.Step.{
  Agrees, RefreshStep, unneeded, reloaded, unread, changed, broken, reload_if_changed-RefreshStep,
}

module _ (I : PackedIndex) where
  abbrev pub HasStamp : Option ContentStamp → Type 0
  HasStamp none = ⊥
  HasStamp (some stamp) = Unit

  -- What is published of a backend: nothing of a missing one, and the totals of the one that answers.
  abbrev pub IsPublished : Backend I.Index → ServiceState I.Index → Type 0
  IsPublished (packed index) s =
      HasStamp s.loaded_stamp
      × (s.records_total ≡ pos (I.len index))
      × (s.estimated_memory_bytes
          ≡ estimate_backend_memory_bytes s.selected_backend s.records_total)
  IsPublished sqlite_backend s =
      HasStamp s.loaded_stamp
      × (s.estimated_memory_bytes
          ≡ estimate_backend_memory_bytes s.selected_backend s.records_total)
  IsPublished unavailable s =
      (s.loaded_stamp ≡ none)
      × (s.records_total ≡ pos 0)
      × (s.estimated_memory_bytes ≡ 0)
      × (s.loaded_at ≡ pos 0)
      × (s.refreshed_at ≡ pos 0)

  abbrev pub HasLoads : ServiceState I.Index → Type 0
  HasLoads s = (s.successful_loads ≤ s.load_attempts) × (s.load_attempts ≤ u64_max)

  abbrev pub HasApplies : ServiceState I.Index → Type 0
  HasApplies s =
      (s.incremental_applies ≤ s.incremental_attempts) × (s.incremental_attempts ≤ u64_max)

  abbrev pub IsConsistent : ServiceState I.Index → Type 0
  IsConsistent s = IsPublished s.backend s × HasLoads s × HasApplies s

  -- The counters after one more load that may have succeeded.
  loads_step :
      (s t : ServiceState I.Index)
      → HasLoads s
      → t.load_attempts ≡ saturating_add s.load_attempts 1
      → (t.successful_loads ≡ s.successful_loads)
        ⊎ (t.successful_loads ≡ saturating_add s.successful_loads 1)
      → HasLoads t
  loads_step s t (h, k) a (inl e) = (omega arith, omega arith)
  loads_step s t (h, k) a (inr e) = (omega arith, omega arith)

  applies_step : (s t : ServiceState I.Index) → HasApplies s → Agrees I s t → HasApplies t
  applies_step s t (h, k) (_, _, _, a, inl e) = (omega arith, omega arith)
  applies_step s t (h, k) (_, _, _, a, inr e) = (omega arith, omega arith)

  HasLoads-Agrees : (s t : ServiceState I.Index) → HasLoads s → Agrees I s t → HasLoads t
  HasLoads-Agrees s t (h, k) (a, b, _, _, _) = (omega arith, omega arith)

  -- The state that a load leaves, from one that has counted it and has no backend.
  finish_load-IsConsistent :
      (method : Text) (now : ℤ)
      (o : Outcome (Backend I.Index × BackendPreference × ContentStamp × ℤ))
      (s t : ServiceState I.Index)
      → IsMeasured I o
      → HasLoads s
      → t.load_attempts ≡ saturating_add s.load_attempts 1
      → t.successful_loads ≡ s.successful_loads
      → HasApplies t
      → t.backend ≡ unavailable
      → IsPublished unavailable t
      → IsConsistent (finish_load I method now o t).0
  unfolding finish_load
  finish_load-IsConsistent method now (ok (packed index, selected, stamp, total)) s t m h a b c d
        e =
      (
        (tt, m, refl),
        loads_step s (finish_load I method now (ok (packed index, selected, stamp, total)) t).0 h a
            (inr (ap (λ n. saturating_add n 1) b)),
        c,
      )
  finish_load-IsConsistent method now (ok (sqlite_backend, selected, stamp, total)) s t m h a b c d
        e =
      (
        (tt, refl),
        loads_step s (finish_load I method now (ok (sqlite_backend, selected, stamp, total)) t).0 h
            a (inr (ap (λ n. saturating_add n 1) b)),
        c,
      )
  finish_load-IsConsistent method now (ok (unavailable, selected, stamp, total)) s t m h a b c d e =
      absurd m
  finish_load-IsConsistent method now (err x) s t m h a b c d e = (
    subst (λ g. IsPublished g (finish_load I method now (err x) t).0) (sym d) e,
    loads_step s t h a (inl b),
    c,
  )

  full_reload-IsConsistent :
      (a : LoadAnswers I) (method : Text) (reason : Option Text) (capture : Bool)
      (s : ServiceState I.Index)
      → HasLoads s
      → HasApplies s
      → IsConsistent (full_reload_with_capture I a method reason capture s).0
  unfolding full_reload_with_capture
  full_reload-IsConsistent a method reason true s h k =
      finish_load-IsConsistent method a.now_epoch (load_backend I s.requested_backend a) s _
        (load_backend-IsMeasured I s.requested_backend a) h refl refl k refl
        (refl, refl, refl, refl, refl)
  full_reload-IsConsistent a method reason false s h k =
      finish_load-IsConsistent method a.now_epoch (load_backend I s.requested_backend a) s _
        (load_backend-IsMeasured I s.requested_backend a) h refl refl k refl
        (refl, refl, refl, refl, refl)

  unread-IsPublished :
      (b : Backend I.Index) (s : ServiceState I.Index) (n : ℕ) (e method : Text)
      (audit : List Capture)
      → IsPublished b s
      → IsPublished b (record s {
        incremental_attempts = n;
        last_refresh_method = method;
        last_refresh_error = some e;
        memory_audit = audit;
      })
  unread-IsPublished (packed index) s n e method audit h = h
  unread-IsPublished sqlite_backend s n e method audit h = h
  unread-IsPublished unavailable s n e method audit h = h

  step-IsConsistent :
      (a : RefreshAnswers I) (s : ServiceState I.Index) (r : Refreshed I)
      → IsConsistent s
      → RefreshStep I a s r
      → IsConsistent r.0
  unfolding publish_applied fail_apply
  step-IsConsistent a s _ h (unneeded e) = h
  step-IsConsistent a s _ (p, h, k) (reloaded t method reason capture g) =
      full_reload-IsConsistent a.load_answers method reason capture t (HasLoads-Agrees s t h g)
        (applies_step s t k g)
  step-IsConsistent a s _ (p, h, (k, l)) (unread e) =
      (unread-IsPublished s.backend s _ e _ _ p, h, (omega arith, omega arith))
  step-IsConsistent a s _ (p, h, (k, l))
        (changed index next base target changes method selected _ _ _ _) =
      ((tt, refl, refl), h, (omega arith, omega arith))
  step-IsConsistent a s _ (p, h, (k, l)) (broken index next changes e _) =
      ((refl, refl, refl, refl, refl), h, (omega arith, omega arith))

  reload_if_changed-IsConsistent :
      (a : RefreshAnswers I) (s : ServiceState I.Index)
      → IsConsistent s
      → IsConsistent (reload_if_changed I a s).0
  reload_if_changed-IsConsistent a s h =
      step-IsConsistent a s (reload_if_changed I a s) h (reload_if_changed-RefreshStep I a s)

  -- The states of a service: it is loaded, reloaded on request, and refreshed for searches.
  pub data Reaches : ServiceState I.Index → Type 1 where
    started : (a : LoadAnswers I) (requested : BackendPreference) → Reaches (load I a requested)
    on_reload :
        (a : LoadAnswers I) (s : ServiceState I.Index) → Reaches s → Reaches (reload I a s).0
    on_search :
        (observed : Outcome ContentStamp) (a : RefreshAnswers I) (s : ServiceState I.Index)
        → Reaches s
        → Reaches (ensure_fresh I observed a s).0

  -- In every state of a service, whatever its database answers: nothing is published of a backend that
  -- is missing; one that is there has a stamp and its own totals; successful loads are among the
  -- attempts at loading, applied changes among the attempts at them, and both attempts fit 64 bits.
  pub Reaches-IsConsistent : (s : ServiceState I.Index) → Reaches s → IsConsistent s
  unfolding load ensure_fresh
  Reaches-IsConsistent _ (started a requested) =
      full_reload-IsConsistent a (codes "startup_full") none true (initial I requested)
        (omega arith, omega arith) (omega arith, omega arith)
  Reaches-IsConsistent _ (on_reload a s r) =
      let (p, h, k) = Reaches-IsConsistent s r in
      full_reload-IsConsistent a (codes "explicit_full") none true s h k
  Reaches-IsConsistent _ (on_search observed a s r) =
      let h = Reaches-IsConsistent s r in
      if_cases (λ x. IsConsistent x.0) (needs_reload I observed s) (reload_if_changed I a s)
        (s, ok tt) (λ e. reload_if_changed-IsConsistent a s h) (λ e. h)
