-- ===== src/Base/Sets.antt =====
-- A Go map that is used as a set, as the list of its keys, each once.
use mathlib.Core.Path.{◌≡◌, refl, sym, subst, ◌∙◌}
use mathlib.Core.Bool.{true, false}
use mathlib.Core.List.{List, [], ◌∷◌, ◌++◌, append-nil, append_assoc}
use Prim.Native.Nat.{◌+◌}
use mathlib.Core.Logic.{inl, inr}
use native.Mathlib.Omega.{arith}
use airjail.Base.Tests.{if◌then◌else◌, Bool-cases}
use airjail.Base.Lists.{length}
use airjail.Base.Equality.{
  Eq, ◌==◌, ==_iff, ==_refl, contains, contains-append, Distinct, Distinct-append,
}

module _ {ℓ} {A : Type ℓ} ⦃e : Eq A⦄ where
  -- delete(set, key)
  unfoldable pub delete : (items : List A) (key : A) → List A
  delete [] key = []
  delete (x ∷ rest) key = if x == key then rest else x ∷ delete rest key

  -- set[key] = struct{}{}
  unfoldable pub insert : (items : List A) (key : A) → List A
  unfolding contains
  insert items key = if contains items key then items else items ++ key ∷ []

  unfoldable pub delete_all : (items keys : List A) → List A
  unfolding delete
  delete_all items [] = items
  delete_all items (key ∷ keys) = delete_all (delete items key) keys

  unfoldable pub insert_all : (items keys : List A) → List A
  unfolding insert
  insert_all items [] = items
  insert_all items (key ∷ keys) = insert_all (insert items key) keys

  pub length-delete :
      (items : List A) (key : A)
      → contains items key ≡ true
      → length (delete items key) + 1 ≡ length items
  unfolding delete contains
  length-delete [] key h = absurd (cc)
  length-delete (x ∷ rest) key h = ground (arith, length-delete rest key)

  pub contains-delete :
      (items : List A) (key other : A)
      → contains (delete items key) other ≡ true
      → contains items other ≡ true
  unfolding delete contains
  contains-delete [] key other h = h
  contains-delete (x ∷ rest) key other h = ground (arith, contains-delete rest key other)

  pub Distinct-delete : (items : List A) (key : A) → Distinct items → Distinct (delete items key)
  unfolding delete contains
  Distinct-delete [] key d = tt
  Distinct-delete (x ∷ rest) key (new, d) = elim (Bool-cases (x == key)) [
    | inl same ↦ rw (same, delete) d
    | inr differs ↦
        rw (differs, delete)
          (ground (arith, contains-delete rest key x), Distinct-delete rest key d)
  ]

  -- no key of the one list is in the other
  abbrev pub Apart : List A → List A → Type 0
  Apart items [] = Unit
  Apart items (key ∷ keys) = (contains items key ≡ false) × Apart items keys

  pub delete-append :
      (before after : List A) (key : A)
      → contains before key ≡ false
      → delete (before ++ key ∷ after) key ≡ before ++ after
  unfolding delete contains
  delete-append [] after key h = ground (arith, ==_refl key)
  delete-append (x ∷ before) after key h = ground (arith, delete-append before after key)

  pub delete_all-append :
      (before keys after : List A)
      → Apart before keys
      → delete_all (before ++ (keys ++ after)) keys ≡ before ++ after
  unfolding delete_all
  delete_all-append before [] after apart = refl
  delete_all-append before (key ∷ keys) after (new, apart) =
      rw (delete-append before (keys ++ after) key new) (delete_all-append before keys after apart)

  Apart-snoc :
      (items keys : List A) (key : A)
      → Apart items keys
      → contains keys key ≡ false
      → Apart (items ++ key ∷ []) keys
  unfolding contains
  Apart-snoc items [] key apart new = tt
  Apart-snoc items (k ∷ keys) key (here, apart) new = (
    ground (arith, contains-append items (key ∷ []) k, ==_iff key k, ==_iff k key),
    Apart-snoc items keys key apart (ground arith),
  )

  pub insert_all-append :
      (items keys : List A)
      → Apart items keys
      → Distinct keys
      → insert_all items keys ≡ items ++ keys
  unfolding insert_all insert
  insert_all-append items [] apart once = sym (append-nil items)
  insert_all-append items (key ∷ keys) (new, apart) (first, once) =
      rw (new, insert)
        (insert_all-append (items ++ key ∷ []) keys (Apart-snoc items keys key apart first) once
          ∙ append_assoc items (key ∷ []) keys)

  Apart-nil : (keys : List A) → Apart [] keys
  unfolding contains
  Apart-nil [] = tt
  Apart-nil (key ∷ keys) = (refl, Apart-nil keys)

  Apart-cons :
      (x : A) (items keys : List A)
      → contains keys x ≡ false
      → Apart items keys
      → Apart (x ∷ items) keys
  unfolding contains
  Apart-cons x items [] new apart = tt
  Apart-cons x items (key ∷ keys) new (here, apart) =
      (ground (arith, ==_iff x key, ==_iff key x), Apart-cons x items keys (ground arith) apart)

  pub Apart-Distinct : (items keys : List A) → Distinct (items ++ keys) → Apart items keys
  Apart-Distinct [] keys once = Apart-nil keys
  Apart-Distinct (x ∷ items) keys (new, once) =
      Apart-cons x items keys (ground (arith, contains-append items keys x))
        (Apart-Distinct items keys once)

  pub Apart-left : (items keys more : List A) → Apart items (keys ++ more) → Apart items keys
  Apart-left items [] more apart = tt
  Apart-left items (key ∷ keys) more (here, apart) = (here, Apart-left items keys more apart)

  pub Distinct-Apart :
      (items keys : List A)
      → Distinct items
      → Distinct keys
      → Apart items keys
      → Distinct (items ++ keys)
  unfolding contains
  Distinct-Apart items [] once _ apart = rw (append-nil items) once
  Distinct-Apart items (key ∷ keys) once (first, rest) (here, apart) =
      subst Distinct (append_assoc items (key ∷ []) keys) (
        Distinct-Apart (items ++ key ∷ []) keys (Distinct-append items key once here) rest
          (Apart-snoc items keys key apart first))

  pub Distinct-delete_all :
      (items keys : List A) → Distinct items → Distinct (delete_all items keys)
  unfolding delete_all
  Distinct-delete_all items [] once = once
  Distinct-delete_all items (key ∷ keys) once =
      Distinct-delete_all (delete items key) keys (Distinct-delete items key once)

  pub contains-delete_all :
      (items keys : List A) (other : A)
      → contains (delete_all items keys) other ≡ true
      → contains items other ≡ true
  unfolding delete_all
  contains-delete_all items [] other h = h
  contains-delete_all items (key ∷ keys) other h =
      contains-delete items key other (contains-delete_all (delete items key) keys other h)
