-- ===== src/Watch/PathMap/Laws.antt =====
-- What the operations of the map do to its keys and to the space that these take.
use macevery.Prelude.{
  ◌+◌, ◌≡◌, refl, Bool, List, [], ◌∷◌, if◌then◌else◌, true, false, length, arith, Bool-cases, ◌||◌,
  ◌⊎◌, inl, inr,
}
use macevery.Search.Text.{Bytes, bytes_eq}
use macevery.Paths.{any}
use macevery.Paths.Ancestors.{bytes_eq_iff}
use macevery.Watch.PathMap.{Entry, has_key, upsert, insert, append, retain, keys, total_capacity}

module _ {V : Type 0} where
  pub length-upsert :
      (f : V → V) (new : Entry V) (m : List (Entry V))
      → length (upsert f new m) ≡ (if has_key new.key m then length m else length m + 1)
  unfolding upsert has_key
  length-upsert f new [] = refl
  length-upsert f new (e ∷ m) = ground (arith, length-upsert f new m)

  pub capacity-upsert :
      (f : V → V) (new : Entry V) (m : List (Entry V))
      → total_capacity (upsert f new m)
        ≡ (if has_key new.key m then total_capacity m else total_capacity m + new.capacity)
  unfolding upsert has_key
  capacity-upsert f new [] = ground arith
  capacity-upsert f new (e ∷ m) = ground (arith, capacity-upsert f new m)

  -- Keys stay, and the new one is among them.
  pub any-upsert :
      (p : Bytes → Bool) (f : V → V) (new : Entry V) (m : List (Entry V))
      → any p (keys (upsert f new m)) ≡ (any p (keys m) || p new.key)
  unfolding upsert any
  any-upsert p f new [] = ground arith
  any-upsert p f new (e ∷ m) = elim (Bool-cases (bytes_eq e.key new.key)) [
    | inl h ↦ rw h (rw (← (bytes_eq_iff e.key new.key).0 h) (ground arith))
    | inr h ↦ rw h (ground (arith, any-upsert p f new m))
  ]

  pub any-append_map :
      (p : Bytes → Bool) (m r : List (Entry V))
      → any p (keys (append m r)) ≡ (any p (keys m) || any p (keys r))
  unfolding append insert any
  any-append_map p m [] = ground arith
  any-append_map p m (e ∷ r) =
      ground (arith, any-append_map p (insert e m) r, any-upsert p (λ _. e.value) e m)

  -- What a retained map still has a key for.
  pub any-retain :
      (p keep : Bytes → Bool) (m : List (Entry V))
      → any p (keys m) ≡ true
      → (any p (keys (retain keep m)) ≡ true) ⊎ ((k : Bytes) × (p k ≡ true) × (keep k ≡ false))
  unfolding any retain
  any-retain p keep [] h = cc
  any-retain p keep (e ∷ m) h = elim (Bool-cases (keep e.key)) [
    | inl t ↦ elim (Bool-cases (p e.key)) [
      | inl s ↦ inl (rw t (ground (arith, s)))
      | inr s ↦ elim (any-retain p keep m (rw s at h)) [
        | inl a ↦ inl (rw t (ground (arith, a)))
        | inr b ↦ inr b
      ]
    ]
    | inr t ↦ elim (Bool-cases (p e.key)) [
      | inl s ↦ inr (e.key, s, t)
      | inr s ↦ elim (any-retain p keep m (rw s at h)) [ inl a ↦ inl (rw t a) | inr b ↦ inr b ]
    ]
  ]
