-- ===== src/Samples/Service.antt =====
-- Runs of src/server.rs: a database at its second revision, and an index of the first.
use Prim.Native.Nat.{zero, suc}
use macevery.Server.State.Load.{needs_install}
use macevery.Prelude.{
  ℕ, ◌≡◌, refl, ap, sym, subst, if_cases, true, false, List, [], ◌∷◌, ◌++◌, if◌then◌else◌,
}
use macevery.Prelude.Int.{pos}
use macevery.Search.Text.{bytes_eq}
use macevery.Model.Text.{codes}
use macevery.Server.Outcome.{Outcome, ok, err}
use macevery.Server.Backend.{memory}
use macevery.Server.State.{
  ContentStamp, stamp_eq, PackedIndex, packed, ServiceState, is_ready, identity_eq, loaded_records,
}
use macevery.Server.State.Load.{
  Transaction, Readable, LoadAnswers, open_for_load, load, needs_install, full_reload_with_capture,
  finish_load, load_backend, with_read_snapshot, choose, read_selected,
}
use macevery.Server.State.Apply.{
  FileChangeRead, available, fallback, diff_fallback, applied, DeltaDatabase, RefreshAnswers,
  apply_delta_with_method, apply_to, finish_apply, publish_applied, reselect,
}
use macevery.Server.State.Refresh.{
  reload_if_changed, ensure_fresh, needs_reload, refresh_from, refresh_packed, read_delta,
  use_delta,
}
use macevery.Server.State.Consistent.{
  Reaches, started, on_search, IsConsistent, Reaches-IsConsistent,
}
use macevery.Server.State.Fresh.{IsSteady, IsFresh, reload_if_changed-IsFresh}
use macevery.Server.State.Untouched.{IsUntouched, reload_if_changed-IsUntouched}

-- An index of the numbers of its records, to which a change adds one.
abbrev pub numbers : PackedIndex
numbers = record { Index = List ℕ; Change = ℕ; len = count; search_index = λ index options. [] }
  where
    count : List ℕ → ℕ
    count [] = 0
    count (x ∷ xs) = suc (count xs)

abbrev pub stamp_at : ℕ → ContentStamp
stamp_at n = record {
  database_id = codes "d";
  revision = pos n;
  file_identity = record { device = 1; inode = 2 };
}

abbrev pub up_to : ℕ → List ℕ
up_to zero = []
up_to (suc n) = suc n ∷ up_to n

abbrev pub pinned : ℕ → Transaction
pinned n = record { begin_read = ok tt; content_stamp = ok (stamp_at n); commit = ok tt }

abbrev pub readable : ℕ → Readable numbers
readable n = record {
  lacks_content_state = false;
  has_change_journal = ok true;
  transaction = pinned n;
  stats = ok (pos n);
  load_index = ok (up_to n);
}

abbrev pub load_at : ℕ → LoadAnswers numbers
load_at n = record {
  first = ok (readable n);
  open_existing = ok tt;
  second = err (codes "closed");
  budget = 4000;
  now_epoch = pos 100;
}

-- The journal of the second revision, after the first.
abbrev pub second_row : ContentStamp → Outcome (FileChangeRead ℕ)
second_row base =
    if stamp_eq base (stamp_at 1)
    then ok (available (stamp_at 2) (2 ∷ []))
    else ok (fallback (codes "too old"))

abbrev pub journal : DeltaDatabase numbers
journal = record {
  transaction = pinned 2;
  file_changes_since = second_row;
  snapshot_diff = λ index. ok (diff_fallback (codes "too many"));
}

abbrev pub answers : RefreshAnswers numbers
answers = record {
  observed = ok (stamp_at 2);
  observed_again = ok (stamp_at 2);
  delta_database = ok journal;
  apply_changes = λ index changes. (changes ++ index, ok applied);
  load_answers = load_at 2;
}

abbrev pub loaded : ServiceState (List ℕ)
loaded = load numbers (load_at 1) memory

refreshed : (reload_if_changed numbers answers loaded).0.backend ≡ packed (2 ∷ 1 ∷ [])
unfolding reload_if_changed needs_reload is_ready load full_reload_with_capture finish_load
    load_backend open_for_load needs_install with_read_snapshot choose read_selected stamp_eq
    bytes_eq refresh_from identity_eq refresh_packed apply_delta_with_method apply_to finish_apply
    publish_applied reselect read_delta use_delta loaded_records
refreshed = refl

abbrev pub IfOk {ℓ} : {A : Type ℓ} → (A → Type 0) → Outcome A → Type 0
IfOk P (ok a) = P a
IfOk P (err e) = Unit

abbrev pub or_stamp : Outcome ContentStamp → ContentStamp
or_stamp (ok stamp) = stamp
or_stamp (err e) = stamp_at 0

opened_stamp :
    (db : Readable numbers) (stamp : ContentStamp)
    → open_for_load numbers (load_at 2) ≡ ok db
    → db.transaction.content_stamp ≡ ok stamp
    → stamp ≡ stamp_at 2
unfolding open_for_load needs_install
opened_stamp db stamp h =
    subst (IfOk (λ d. d.transaction.content_stamp ≡ ok stamp → stamp ≡ stamp_at 2)) h
      (λ k. sym (ap or_stamp k))

abbrev pub LeadsToSecond : Outcome (FileChangeRead ℕ) → Type 0
LeadsToSecond (ok (available target changes)) = target ≡ stamp_at 2
LeadsToSecond (ok (fallback reason)) = Unit
LeadsToSecond (err e) = Unit

second_row-LeadsToSecond : (base : ContentStamp) → LeadsToSecond (second_row base)
second_row-LeadsToSecond base =
    if_cases LeadsToSecond (stamp_eq base (stamp_at 1)) (ok (available (stamp_at 2) (2 ∷ [])))
      (ok (fallback (codes "too old"))) (λ e. refl) (λ e. tt)

abbrev pub Leads : DeltaDatabase numbers → Type 0
Leads db = (base : ContentStamp) → LeadsToSecond (db.file_changes_since base)

opened-Leads : (db : DeltaDatabase numbers) → answers.delta_database ≡ ok db → Leads db
opened-Leads db h = subst (IfOk Leads) h second_row-LeadsToSecond

pinned_stamp :
    (db : DeltaDatabase numbers) (stamp : ContentStamp)
    → answers.delta_database ≡ ok db
    → db.transaction.content_stamp ≡ ok stamp
    → stamp ≡ stamp_at 2
pinned_stamp db stamp h =
    subst (IfOk (λ d. d.transaction.content_stamp ≡ ok stamp → stamp ≡ stamp_at 2)) h
      (λ k. sym (ap or_stamp k))

pub answers-IsSteady : IsSteady numbers answers (stamp_at 2)
answers-IsSteady = record {
  observed = refl;
  load_stamp = opened_stamp;
  delta_stamp = pinned_stamp;
  journal_target = λ db base target changes h k. subst LeadsToSecond k (opened-Leads db h base);
}

loaded-Reaches : Reaches numbers (ensure_fresh numbers (ok (stamp_at 2)) answers loaded).0
loaded-Reaches = on_search (ok (stamp_at 2)) answers loaded (started (load_at 1) memory)

Reaches-IsConsistent_example :
    IsConsistent numbers (ensure_fresh numbers (ok (stamp_at 2)) answers loaded).0
Reaches-IsConsistent_example =
    Reaches-IsConsistent numbers (ensure_fresh numbers (ok (stamp_at 2)) answers loaded).0
      loaded-Reaches

reload_if_changed-IsFresh_example :
    IsFresh numbers (stamp_at 2) (reload_if_changed numbers answers loaded)
reload_if_changed-IsFresh_example =
    reload_if_changed-IsFresh numbers answers (stamp_at 2) answers-IsSteady loaded

-- An index to which no change can be applied.
abbrev pub breaking : RefreshAnswers numbers
breaking = record answers { apply_changes = λ index changes. (changes, err (codes "slot")) }

reload_if_changed-IsUntouched_example :
    IsUntouched numbers loaded (reload_if_changed numbers breaking loaded)
reload_if_changed-IsUntouched_example = reload_if_changed-IsUntouched numbers breaking loaded
