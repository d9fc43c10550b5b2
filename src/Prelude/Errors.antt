-- ===== src/Prelude/Errors.antt =====
-- Go's pairs of a value and an error, and its panics.
use mathlib.Core.Path.{◌≡◌, refl}
use mathlib.Core.Logic.{◌⊎◌, inl, inr}
use native.Mathlib.Omega.{arith}

-- Which error a function returns, as far as a caller can tell them apart. `panicked` is a panic.
pub data Error : Type 0 where
  panicked no_rows invalid_json : Error
  in_transaction lock_acquired lock_released : Error
  unsupported_kind invalid_event_id unexpected_event unknown_exit_code : Error

pub data Result {ℓ} (A : Type ℓ) : Type ℓ where
  ok : A → Result A
  err : Error → Result A

module _ {ℓ κ} {A : Type ℓ} {B : Type κ} where
  infixl 5 ◌>>=◌
  -- the first error ends the chain
  abbrev pub ◌>>=◌ : Result A → (A → Result B) → Result B
  err e >>= next = err e
  ok a >>= next = next a

  -- A chain with a value has a value at each link.
  pub >>=-eq-ok :
      (m : Result A) (next : A → Result B) {b : B}
      → (m >>= next) ≡ ok b
      → (a : A) × (m ≡ ok a) × (next a ≡ ok b)
  >>=-eq-ok (err e) next h = absurd (ground arith)
  >>=-eq-ok (ok a) next h = (a, refl, h)

  -- The same with the parts handed to a continuation, which keeps the types of long chains small.
  pub >>=-elim {ι} :
      {C : Type ι} (m : Result A) (next : A → Result B) {b : B}
      → (m >>= next) ≡ ok b
      → ((a : A) → m ≡ ok a → next a ≡ ok b → C)
      → C
  >>=-elim m next h k = let (a, e, r) = >>=-eq-ok m next h in k a e r

pub Result-cases {ℓ} :
    {A : Type ℓ} (r : Result A) → ((a : A) × (r ≡ ok a)) ⊎ ((e : Error) × (r ≡ err e))
Result-cases (ok a) = inl (a, refl)
Result-cases (err e) = inr (e, refl)
