-- ===== src/Server/State/Untouched.antt =====
-- What a refresh of server.rs leaves of the index when it fails.
use macevery.Prelude.{◌≡◌, refl, ◌⊎◌, inl, inr, Bool, true, false, Option}
use macevery.Prelude.Int.{ℤ}
use macevery.Model.Text.{Text}
use macevery.Server.Outcome.{ok, err}
use macevery.Server.State.{PackedIndex, unavailable, ServiceState}
use macevery.Server.State.Load.{LoadAnswers, load_backend, finish_load, full_reload_with_capture}
use macevery.Server.State.Measured.{Answer}
use macevery.Server.State.Apply.{RefreshAnswers, Refreshed, fail_apply}
use macevery.Server.State.Refresh.{reload_if_changed}
use macevery.Server.State.Step.{
  RefreshStep, unneeded, reloaded, unread, changed, broken, reload_if_changed-RefreshStep,
}

module _ (I : PackedIndex) where
  -- A refresh that fails has no backend, or has not touched the index and its stamp.
  abbrev pub IsUntouched : ServiceState I.Index → Refreshed I → Type 0
  IsUntouched s (t, ok u) = Unit
  IsUntouched s (t, err e) =
      (t.backend ≡ unavailable) ⊎ ((t.backend ≡ s.backend) × (t.loaded_stamp ≡ s.loaded_stamp))

  finish_load-IsUntouched :
      (method : Text) (now : ℤ) (o : Answer I) (s t : ServiceState I.Index)
      → t.backend ≡ unavailable
      → IsUntouched s (finish_load I method now o t)
  unfolding finish_load
  finish_load-IsUntouched method now (ok (backend, selected, stamp, total)) s t h = tt
  finish_load-IsUntouched method now (err e) s t h = inl h

  full_reload-IsUntouched :
      (a : LoadAnswers I) (method : Text) (reason : Option Text) (capture : Bool)
      (s t : ServiceState I.Index)
      → IsUntouched s (full_reload_with_capture I a method reason capture t)
  unfolding full_reload_with_capture
  full_reload-IsUntouched a method reason true s t =
      finish_load-IsUntouched method a.now_epoch (load_backend I t.requested_backend a) s _ refl
  full_reload-IsUntouched a method reason false s t =
      finish_load-IsUntouched method a.now_epoch (load_backend I t.requested_backend a) s _ refl

  step-IsUntouched :
      (a : RefreshAnswers I) (s : ServiceState I.Index) (r : Refreshed I)
      → RefreshStep I a s r
      → IsUntouched s r
  unfolding fail_apply
  step-IsUntouched a s _ (unneeded e) = tt
  step-IsUntouched a s _ (reloaded t method reason capture g) =
      full_reload-IsUntouched a.load_answers method reason capture s t
  step-IsUntouched a s _ (unread e) = inr (refl, refl)
  step-IsUntouched a s _ (changed index next base target changes method selected b l d e) = tt
  step-IsUntouched a s _ (broken index next changes e h) = inl refl

  -- Whatever the database answers, a refresh that fails leaves either no backend at all or the index
  -- and the stamp as they were: an index to which changes were partly applied is never kept.
  pub reload_if_changed-IsUntouched :
      (a : RefreshAnswers I) (s : ServiceState I.Index) → IsUntouched s (reload_if_changed I a s)
  reload_if_changed-IsUntouched a s =
      step-IsUntouched a s (reload_if_changed I a s) (reload_if_changed-RefreshStep I a s)
