-- ===== src/Base/Outcome.antt =====
-- A function that returns a value or an error.
use mathlib.Core.Path.{◌≡◌, refl}
use mathlib.Core.Bool.{Bool, true, false}
use mathlib.Core.Logic.{◌⊎◌, inl, inr}

pub data Result {ℓ} (E A : Type ℓ) : Type ℓ where
  err : E → Result E A
  ok : A → Result E A

-- a call behind one that may fail
infixl 5 ◌>>=◌
abbrev pub ◌>>=◌ {ℓ} : {E A B : Type ℓ} (first : Result E A) (next : A → Result E B) → Result E B
err failure >>= next = err failure
ok value >>= next = next value

infixl 5 ◌>>◌
abbrev pub ◌>>◌ {ℓ} : {E B : Type ℓ} (check : Result E (Unit {ℓ})) (next : Result E B) → Result E B
check >> next = check >>= λ _. next

-- `if !test { return failure }`
abbrev pub guard {ℓ} : {E : Type ℓ} (test : Bool) (failure : E) → Result E (Unit {ℓ})
guard false failure = err failure
guard true _ = ok tt

-- `fmt.Errorf("…: %w", err)`: the caller's context around an error
abbrev pub wrap {ℓ} : {E F A : Type ℓ} → (E → F) → Result E A → Result F A
wrap f (ok a) = ok a
wrap f (err e) = err (f e)

pub Result-cases {ℓ} :
    {E A : Type ℓ} (r : Result E A) → ((a : A) × (r ≡ ok a)) ⊎ ((e : E) × (r ≡ err e))
Result-cases (ok a) = inl (a, refl)
Result-cases (err e) = inr (e, refl)
