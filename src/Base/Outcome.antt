-- ===== src/Base/Outcome.antt =====
-- Rust's `Result`, and panics: `none` of an `Option` stands for a panic where a comment says so.
use mathlib.Core.Path.{◌≡◌, refl}
use mathlib.Core.Logic.{◌⊎◌, inl, inr}
use mathlib.Core.Option.{Option, none, some}

pub data Result {ℓ} (E A : Type ℓ) : Type ℓ where
  ok : A → Result E A
  err : E → Result E A

pub Result-cases {ℓ} :
    {E A : Type ℓ} (r : Result E A) → ((a : A) × (r ≡ ok a)) ⊎ ((e : E) × (r ≡ err e))
Result-cases (ok a) = inl (a, refl)
Result-cases (err e) = inr (e, refl)

-- `match r { Ok(a) => …, Err(e) => … }` where either arm may return.
abbrev pub either {ℓ κ} : {E A : Type ℓ} {B : Type κ} → Result E A → (E → B) → (A → B) → B
either (ok a) fail next = next a
either (err e) fail next = fail e

-- `match o { Some(a) => …, None => … }`.
abbrev pub maybe {ℓ κ} : {A : Type ℓ} {B : Type κ} → Option A → B → (A → B) → B
maybe none absent next = absent
maybe (some a) absent next = next a
