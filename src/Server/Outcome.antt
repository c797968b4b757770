-- ===== src/Server/Outcome.antt =====
-- `Result` of error.rs, with an error as its message.
use macevery.Prelude.{Bool, true, false, ◌≡◌, refl}
use macevery.Model.Text.{Text}

pub data Outcome {ℓ} (A : Type ℓ) : Type ℓ where
  ok : A → Outcome A
  err : Text → Outcome A

-- `Result<()>`.
abbrev pub Done : Type 0
Done = Outcome {0} Unit

-- The `?` operator.
abbrev pub and_then {ℓ κ} : {A : Type ℓ} {B : Type κ} → Outcome A → (A → Outcome B) → Outcome B
and_then (ok a) k = k a
and_then (err e) k = err e

abbrev pub is_ok {ℓ} : {A : Type ℓ} → Outcome A → Bool
is_ok (ok a) = true
is_ok (err e) = false

-- A property of what `?` gives, on either way.
pub and_then_cases {ℓ κ ν} :
    {A : Type ℓ} {B : Type κ} (P : Outcome B → Type ν) (o : Outcome A) (k : A → Outcome B)
    → ((e : Text) → P (err e))
    → ((a : A) → o ≡ ok a → P (k a))
    → P (and_then o k)
and_then_cases P (ok a) k bad good = good a refl
and_then_cases P (err e) k bad good = bad e
