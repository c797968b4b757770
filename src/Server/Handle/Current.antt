-- ===== src/Server/Handle/Current.antt =====
-- What a search of server.rs is answered, and from which state.
use macevery.Prelude.{
  ◌≡◌, refl, ap, ◌∙◌, ◌⊎◌, Bool, true, false, ◌&&◌, some, ==_iff, ◌==◌, Ordering,
}
use macevery.Prelude.Compare.{compare_ℤ, is_eq, eq_of_compare_ℤ}
use macevery.Paths.Ancestors.{bytes_eq_iff}
use macevery.Model.Text.{Text, text_eq}
use macevery.Model.Options.{SearchOptions}
use macevery.Server.Outcome.{ok, err}
use macevery.Server.State.{
  ContentStamp, DatabaseFileIdentity, identity_eq, stamp_eq, PackedIndex, is_ready, ServiceState,
}
use macevery.Server.State.Refresh.{ensure_fresh}
use macevery.Server.Handle.{
  Surroundings, Handled, search_busy, index_unavailable, results_response, search,
}

and_true : (a b : Bool) → (a && b) ≡ true → (a ≡ true) × (b ≡ true)
and_true true b h = (refl, h)
and_true false b h = cc

eq_of_is_eq : (o : Ordering) → is_eq o ≡ true → o ≡ Ordering.eq
eq_of_is_eq Ordering.lt h = cc
eq_of_is_eq Ordering.eq h = refl
eq_of_is_eq Ordering.gt h = cc

identity_of_eq : (a b : DatabaseFileIdentity) → identity_eq a b ≡ true → a ≡ b
unfolding identity_eq
identity_of_eq a b h =
    let (p, q) = and_true (a.device == b.device) (a.inode == b.inode) h in
    ap (λ d. record { device = d; inode = a.inode }) ((==_iff a.device b.device).0 p)
    ∙ ap (λ i. record { device = b.device; inode = i }) ((==_iff a.inode b.inode).0 q)

pub stamp_of_eq : (a b : ContentStamp) → stamp_eq a b ≡ true → a ≡ b
unfolding stamp_eq
stamp_of_eq a b h =
    let (k, r) =
      and_true (text_eq a.database_id b.database_id && is_eq (compare_ℤ a.revision b.revision))
        (identity_eq a.file_identity b.file_identity) h in
    let (p, q) =
      and_true (text_eq a.database_id b.database_id) (is_eq (compare_ℤ a.revision b.revision)) k in
    ap (λ d. record { database_id = d; revision = a.revision; file_identity = a.file_identity })
      ((bytes_eq_iff a.database_id b.database_id).0 p)
    ∙ ap
        (λ z. record { database_id = b.database_id; revision = z; file_identity = a.file_identity })
        (eq_of_compare_ℤ a.revision b.revision (eq_of_is_eq (compare_ℤ a.revision b.revision) q))
    ∙ ap (λ i. record { database_id = b.database_id; revision = b.revision; file_identity = i })
        (identity_of_eq a.file_identity b.file_identity r)

module _ (I : PackedIndex) (w : Surroundings I) (current : ContentStamp) where
  -- A backend can answer, and what it answers from was read at the stamp.
  abbrev pub IsReadyAt : ServiceState I.Index → Type 0
  IsReadyAt t = (is_ready I t.backend ≡ true) × (t.loaded_stamp ≡ some current)

  -- The results of a state that is ready at the stamp; or the refresh gives an error.
  abbrev pub IsServed : SearchOptions → ServiceState I.Index → Handled I → Type 0
  IsServed options s (t, err e) = ⊥
  IsServed options s (t, ok r) =
      ((r ≡ results_response I w (search I w t.backend options)) × IsReadyAt t)
      ⊎ ((r ≡ index_unavailable)
          × ((e : Text) × (ensure_fresh I w.observed w.refresh_answers s ≡ (t, err e))))

  -- By whether there is a slot, and whether the lock is poisoned.
  abbrev pub IsAnswered : Bool → Bool → SearchOptions → ServiceState I.Index → Handled I → Type 0
  IsAnswered false poisoned options s r = r ≡ (s, ok search_busy)
  IsAnswered true true options s r = r ≡ (s, ok index_unavailable)
  IsAnswered true false options s r = IsServed options s r
