-- ===== src/Base/Equality.antt =====
-- Types whose values are compared by `==`, and membership by that test.
use mathlib.Core.Path.{◌≡◌, refl, subst}
use mathlib.Core.Bool.{Bool, true, false, ◌&&◌, ◌||◌}
use mathlib.Core.List.{List, [], ◌∷◌, ◌++◌}
use mathlib.Core.Logic.{◌↔◌}
use Prim.Native.Nat.{ℕ}
use native.Mathlib.Omega.{arith}
use airjail.Base.Tests.{nat_beq, nat_beq_iff}

pub record Eq {ℓ} (Key : Type ℓ) : Type ℓ where
  pub same : Key → Key → Bool
  pub same_sound : (x y : Key) → same x y ≡ true → x ≡ y
  pub same_refl : (x : Key) → same x x ≡ true

module _ {ℓ} {A : Type ℓ} ⦃key : Eq A⦄ where
  infix 50 ◌==◌
  abbrev pub ◌==◌ : A → A → Bool
  x == y = key.same x y

  pub ==_refl : (x : A) → (x == x) ≡ true
  ==_refl x = key.same_refl x

  pub ==_iff : (x y : A) → ((x == y) ≡ true) ↔ (x ≡ y)
  ==_iff x y = (key.same_sound x y, λ e. subst (λ z. (x == z) ≡ true) e (key.same_refl x))

  -- slices.Contains
  unfoldable pub contains : (items : List A) (item : A) → Bool
  contains [] item = false
  contains (x ∷ rest) item = x == item || contains rest item

  pub contains-append :
      (xs ys : List A) (a : A) → contains (xs ++ ys) a ≡ (contains xs a || contains ys a)
  unfolding contains
  contains-append [] ys a = refl
  contains-append (x ∷ xs) ys a = ground (arith, contains-append xs ys a)

  -- no two places of the list hold equal values
  abbrev pub Distinct : List A → Type 0
  Distinct [] = Unit
  Distinct (x ∷ xs) = (contains xs x ≡ false) × Distinct xs

  pub Distinct-append :
      (xs : List A) (a : A) → Distinct xs → contains xs a ≡ false → Distinct (xs ++ a ∷ [])
  unfolding contains
  Distinct-append [] a d new = (refl, tt)
  Distinct-append (x ∷ xs) a d new = (
    ground (arith, contains-append xs (a ∷ []) x, ==_iff x a, ==_iff a x),
    Distinct-append xs a d.1 (ground arith),
  )

  unfoldable pub list_beq : List A → List A → Bool
  list_beq [] [] = true
  list_beq (x ∷ xs) (y ∷ ys) = x == y && list_beq xs ys
  list_beq _ _ = false

  pub list_beq_sound : (xs ys : List A) → list_beq xs ys ≡ true → xs ≡ ys
  unfolding list_beq
  list_beq_sound [] [] h = refl
  list_beq_sound [] (y ∷ ys) h = absurd (cc)
  list_beq_sound (x ∷ xs) [] h = absurd (cc)
  list_beq_sound (x ∷ xs) (y ∷ ys) h = ground (arith, ==_iff x y, list_beq_sound xs ys)

  pub list_beq_refl : (xs : List A) → list_beq xs xs ≡ true
  unfolding list_beq
  list_beq_refl [] = refl
  list_beq_refl (x ∷ xs) = ground (arith, ==_refl x, list_beq_refl xs)

  instance abbrev pub list_eq : Eq (List A)
  list_eq = record { same = list_beq; same_sound = list_beq_sound; same_refl = list_beq_refl }

instance abbrev pub nat_eq : Eq ℕ
nat_eq = record {
  same = nat_beq;
  same_sound = λ x y h. (nat_beq_iff x y).0 h;
  same_refl = λ x. (nat_beq_iff x x).1 refl;
}
