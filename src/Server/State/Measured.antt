-- ===== src/Server/State/Measured.antt =====
-- What `load_backend` of server.rs gives of a database.
use macevery.Prelude.{◌≡◌, refl, subst, Option, none, some}
use macevery.Prelude.Int.{ℤ, pos}
use macevery.Model.Text.{Text}
use macevery.Server.Outcome.{Outcome, ok, err, and_then, and_then_cases}
use macevery.Server.Backend.{BackendPreference, auto, memory, compact, sqlite}
use macevery.Server.State.{ContentStamp, PackedIndex, Backend, packed, sqlite_backend, unavailable}
use macevery.Server.State.Load.{
  Transaction, Readable, LoadAnswers, Loaded, with_read_snapshot, open_for_load, choose, packed_of,
  read_selected, backend_of, load_backend,
}

-- A property of a snapshot's value: of an error, or of what is read at the stamp that pins it.
pub with_read_snapshot_cases {κ} :
    {T : Type 0} (P : Outcome (ContentStamp × T) → Type κ) (db : Transaction)
    (read : ContentStamp → Outcome T)
    → ((e : Text) → P (err e))
    → ((stamp : ContentStamp) (value : T)
        → db.content_stamp ≡ ok stamp
        → read stamp ≡ ok value
        → P (ok (stamp, value)))
    → P (with_read_snapshot db read)
unfolding with_read_snapshot
with_read_snapshot_cases P db read bad good = and_then_cases P db.begin_read _ bad (λ u h.
    and_then_cases (λ o. P (and_then o (λ value. and_then db.commit (λ u. ok value))))
      db.content_stamp _ bad
      (λ stamp k.
        and_then_cases (λ o. P (and_then o (λ value. and_then db.commit (λ u. ok value))))
          (read stamp) _ bad
          (λ value l. and_then_cases P db.commit _ bad (λ u m. good stamp value k l))))

module _ (I : PackedIndex) where
  -- A load gives a backend that is there, with its own number of records.
  abbrev pub IsMeasured : Outcome (Backend I.Index × BackendPreference × ContentStamp × ℤ) → Type 0
  IsMeasured (err e) = Unit
  IsMeasured (ok (packed index, selected, stamp, total)) = total ≡ pos (I.len index)
  IsMeasured (ok (sqlite_backend, selected, stamp, total)) = Unit
  IsMeasured (ok (unavailable, selected, stamp, total)) = ⊥

  -- The index that is read is the database's own, with its number of records.
  abbrev pub IsMeasuredIndex : Readable I → Outcome (Loaded I) → Type 0
  IsMeasuredIndex db (err e) = Unit
  IsMeasuredIndex db (ok (selected, some index, total)) =
      (total ≡ pos (I.len index)) × (db.load_index ≡ ok index)
  IsMeasuredIndex db (ok (selected, none, total)) = Unit

  module _ (db : Readable I) where
    packed_of-IsMeasuredIndex :
        (selected : BackendPreference) → IsMeasuredIndex db (packed_of I selected db.load_index)
    packed_of-IsMeasuredIndex selected =
        and_then_cases (IsMeasuredIndex db) db.load_index _ (λ e. tt) (λ index h. (refl, h))

    stats-IsMeasuredIndex :
        (selected : BackendPreference)
        → IsMeasuredIndex db (and_then db.stats (λ total. ok (selected, none, total)))
    stats-IsMeasuredIndex selected =
        and_then_cases (IsMeasuredIndex db) db.stats _ (λ e. tt) (λ total h. tt)

    read_selected-IsMeasuredIndex :
        (selected : BackendPreference) → IsMeasuredIndex db (read_selected I selected db)
    unfolding read_selected
    read_selected-IsMeasuredIndex auto = stats-IsMeasuredIndex auto
    read_selected-IsMeasuredIndex memory = packed_of-IsMeasuredIndex memory
    read_selected-IsMeasuredIndex compact = packed_of-IsMeasuredIndex compact
    read_selected-IsMeasuredIndex sqlite = stats-IsMeasuredIndex sqlite

    pub chosen-IsMeasuredIndex :
        (o : Outcome BackendPreference)
        → IsMeasuredIndex db (and_then o (λ selected. read_selected I selected db))
    chosen-IsMeasuredIndex o =
        and_then_cases (IsMeasuredIndex db) o _ (λ e. tt)
          (λ selected h. read_selected-IsMeasuredIndex selected)

  backend_of-IsMeasured :
      (selected : BackendPreference) (index : Option I.Index) (stamp : ContentStamp) (total : ℤ)
      (db : Readable I)
      → IsMeasuredIndex db (ok (selected, index, total))
      → IsMeasured (ok (backend_of I index, selected, stamp, total))
  backend_of-IsMeasured selected (some index) stamp total db h = h.0
  backend_of-IsMeasured selected none stamp total db h = tt

  abbrev pub Answer : Type 0
  Answer = Outcome (Backend I.Index × BackendPreference × ContentStamp × ℤ)

  -- A property of what is loaded: of an error, or of what an open database gives at its stamp.
  pub load_backend_cases {κ} :
      (P : Answer → Type κ) (requested : BackendPreference) (a : LoadAnswers I)
      → ((e : Text) → P (err e))
      → ((db : Readable I) (stamp : ContentStamp) (selected : BackendPreference)
            (index : Option I.Index) (total : ℤ)
          → open_for_load I a ≡ ok db
          → db.transaction.content_stamp ≡ ok stamp
          → and_then
              (choose I requested a.budget db.stats)
              (λ selected. read_selected I selected db)
            ≡ ok (selected, index, total)
          → P (ok (backend_of I index, selected, stamp, total)))
      → P (load_backend I requested a)
  unfolding load_backend
  load_backend_cases P requested a bad good = and_then_cases P (open_for_load I a) _ bad (λ db h.
      with_read_snapshot_cases
        (λ o. P (
          and_then o
            (λ (stamp, (selected, index, total)). ok (backend_of I index, selected, stamp, total))))
        db.transaction _ bad
        (λ stamp (selected, index, total) k l. good db stamp selected index total h k l))

  pub load_backend-IsMeasured :
      (requested : BackendPreference) (a : LoadAnswers I) → IsMeasured (load_backend I requested a)
  load_backend-IsMeasured requested a =
      load_backend_cases IsMeasured requested a (λ e. tt)
        (λ db stamp selected index total h k l.
          backend_of-IsMeasured selected index stamp total db (
            subst (IsMeasuredIndex db) l
              (chosen-IsMeasuredIndex db (choose I requested a.budget db.stats))))
