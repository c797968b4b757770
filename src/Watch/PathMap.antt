-- ===== src/Watch/PathMap.antt =====
-- `BTreeMap` keyed by paths, as the watcher uses it: entries in no order that is read, each key with
-- the capacity of the string that holds it.
pub mod Laws
use macevery.Prelude.{ℕ, ◌+◌, Bool, not, List, [], ◌∷◌, ◌++◌, if◌then◌else◌, true, false, length}
use macevery.Search.Text.{Bytes, bytes_eq}

pub record Entry (V : Type 0) : Type 0 where
  pub key : Bytes
  pub capacity : ℕ
  pub value : V

-- An entry under a string that is copied from a slice (`into_owned`, `to_owned`), whose capacity is its
-- length.
abbrev pub copied : {V : Type 0} → Bytes → V → Entry V
copied key value = record { key = key; capacity = length key; value = value }

module _ {V : Type 0} where
  unfoldable pub has_key : Bytes → List (Entry V) → Bool
  has_key k [] = false
  has_key k (e ∷ m) = if bytes_eq e.key k then true else has_key k m

  -- `entry(key)`: an occupied entry's value is changed by `combine`, a vacant one is inserted.
  unfoldable pub upsert : (V → V) → Entry V → List (Entry V) → List (Entry V)
  upsert combine new [] = new ∷ []
  upsert combine new (e ∷ m) =
      if bytes_eq e.key new.key
      then record e { value = combine e.value } ∷ m
      else e ∷ upsert combine new m

  -- `insert`: an occupied entry keeps its key and takes the new value.
  unfoldable pub insert : Entry V → List (Entry V) → List (Entry V)
  insert new m = upsert (λ _. new.value) new m

  -- `append`: the entries of the second map go over to the first.
  unfoldable pub append : List (Entry V) → List (Entry V) → List (Entry V)
  append m [] = m
  append m (e ∷ r) = append (insert e m) r

  unfoldable pub retain : (Bytes → Bool) → List (Entry V) → List (Entry V)
  retain keep [] = []
  retain keep (e ∷ m) = let rest = retain keep m in if keep e.key then e ∷ rest else rest

  abbrev pub keys : List (Entry V) → List Bytes
  keys [] = []
  keys (e ∷ m) = e.key ∷ keys m

  abbrev pub values : List (Entry V) → List V
  values [] = []
  values (e ∷ m) = e.value ∷ values m

  -- `keys().map(String::capacity).sum()`.
  abbrev pub total_capacity : List (Entry V) → ℕ
  total_capacity [] = 0
  total_capacity (e ∷ m) = e.capacity + total_capacity m
