-- ===== src/Capabilities/Clearing.antt =====
-- internal/namespace/capabilities_linux.go, dropDangerousCapabilities: the bits that capset clears.
use airjail.Base.{
  ℕ, ◌+◌, ◌*◌, ◌/◌, ◌%◌, ◌^◌, ◌<◌, ◌≤◌, true, false, some, List, [], ◌∷◌, ◌++◌, ◌≡◌, ◌⊎◌, refl,
  arith, inl, inr, ok, ltb, ◌==◌, ==_iff, nat_eq, contains, Bool-cases,
}
use airjail.Base.Bytes.{Bytes}
use airjail.Capabilities.{
  DangerousCapability, Unix, values, dangerous_capabilities, parse_unsafe_capabilities,
}
use airjail.Capabilities.Drop.{
  CapUserData, Words, Kernel, Effect, sets_written, clear_bit, clear_word, clear_capability,
  clear_each, drop_dangerous_capabilities, dropped, unkept, drop_dangerous_capabilities-dropped,
}
use native.Mathlib.Nat.{div-eq_of_lt}

-- The cleared word is the word without the weight of the bit, where that is set.
abbrev pub ClearsBit : (bit : ℕ) → ℕ → ℕ → Type 0
ClearsBit bit word cleared = cleared + (word / 2 ^ bit) % 2 * 2 ^ bit ≡ word

-- The bit is cleared in all three sets of a word.
pub record ClearsWord (bit : ℕ) (word cleared : CapUserData) : Type 0 where
  pub effective : ClearsBit bit word.effective cleared.effective
  pub permitted : ClearsBit bit word.permitted cleared.permitted
  pub inheritable : ClearsBit bit word.inheritable cleared.inheritable

-- A number below 32 is in the first word, and any other in the second; the other word stays.
abbrev pub ClearsCapability : (number : ℕ) → Words → Words → Type 0
ClearsCapability number words cleared =
    ((number < 32) × ClearsWord number words.0 cleared.0 × (cleared.1 ≡ words.1))
    ⊎ ((32 ≤ number) × (cleared.0 ≡ words.0) × ClearsWord (number % 32) words.1 cleared.1)

-- The numbers are cleared one after the other.
abbrev pub ClearsAll : List ℕ → Words → Words → Type 0
ClearsAll [] words cleared = cleared ≡ words
ClearsAll (number ∷ numbers) words cleared =
    (next : Words) × ClearsCapability number words next × ClearsAll numbers next cleared

set-≤ : (word weight : ℕ) → (word / weight) % 2 ≡ 1 → weight ≤ word
set-≤ word weight h = elim (Bool-cases (ltb word weight)) [
  | inr e ↦ ground (arith, e)
  | inl e ↦
      let small : word < weight = ground (arith, e) in
      let zero_ : word / weight ≡ 0 = div-eq_of_lt small in absurd (ground (arith, zero_, h))
]

unit_left : (digit weight : ℕ) → digit ≡ 1 → digit * weight ≡ weight
unit_left digit weight h = rw h (omega arith)

zero_left : (digit weight : ℕ) → digit ≡ 0 → digit * weight ≡ 0
zero_left digit weight h = rw h (omega arith)

clear_bit-ClearsBit : (word bit : ℕ) → ClearsBit bit word (clear_bit word bit)
unfolding clear_bit
clear_bit-ClearsBit word bit =
    let digit = (word / 2 ^ bit) % 2 in
    elim (Bool-cases (digit == 1)) [
      | inl e ↦
          let one : digit ≡ 1 = (==_iff digit 1).0 e in
          let below : 2 ^ bit ≤ word = set-≤ word (2 ^ bit) one in
          let whole : digit * 2 ^ bit ≡ 2 ^ bit = unit_left digit (2 ^ bit) one in
          rw (e, whole) (omega (arith, below))
      | inr e ↦
          let none_set : digit ≡ 0 = ground (arith, e, ==_iff digit 1) in
          let nothing : digit * 2 ^ bit ≡ 0 = zero_left digit (2 ^ bit) none_set in
          rw (e, nothing) (omega arith)
    ]

clear_word-ClearsWord : (word : CapUserData) (bit : ℕ) → ClearsWord bit word (clear_word word bit)
unfolding clear_word
clear_word-ClearsWord word bit = record {
  effective = clear_bit-ClearsBit word.effective bit;
  permitted = clear_bit-ClearsBit word.permitted bit;
  inheritable = clear_bit-ClearsBit word.inheritable bit;
}

clear_capability-ClearsCapability :
    (words : Words) (number : ℕ) → ClearsCapability number words (clear_capability words number)
unfolding clear_capability
clear_capability-ClearsCapability words number = elim (Bool-cases (ltb number 32)) [
  | inl e ↦
      let small : number < 32 = ground (arith, e) in
      let first : ltb (number / 32) 1 ≡ true = ground (arith, small) in
      let low : number % 32 ≡ number = omega (arith, small) in
      rw (first, low) (inl (small, clear_word-ClearsWord words.0 number, refl))
  | inr e ↦
      let large : 32 ≤ number = ground (arith, e) in
      let second : ltb (number / 32) 1 ≡ false = ground (arith, large) in
      rw second (inr (large, refl, clear_word-ClearsWord words.1 (number % 32)))
]

clear_each-ClearsAll :
    (kept : List ℕ) (table : List DangerousCapability) (words : Words)
    → ClearsAll (unkept kept table) words (clear_each kept table words)
unfolding clear_each
clear_each-ClearsAll kept [] words = refl
clear_each-ClearsAll kept (c ∷ table) words = elim (Bool-cases (contains kept c.value)) [
  | inl e ↦ rw e (clear_each-ClearsAll kept table words)
  | inr e ↦ rw e (
    clear_capability words c.value,
    clear_capability-ClearsCapability words c.value,
    clear_each-ClearsAll kept table (clear_capability words c.value),
  )
]

-- If dropDangerousCapabilities returns without an error, the bounding set has lost, in the order of the
-- table, exactly the numbers of the table that are not among the kept; and the last call wrote the sets
-- that were read, in which the bits of these numbers, and no others, were cleared in the effective, the
-- permitted and the inheritable set.
pub drop_dangerous_capabilities-ClearsAll :
    (unix : Unix) (kernel : Kernel) (kept_names : List Bytes) (kept : List DangerousCapability)
    (result : List Effect)
    → parse_unsafe_capabilities unix kept_names ≡ ok kept
    → drop_dangerous_capabilities unix kernel kept_names ≡ ok result
    → (words : Words) × (cleared : Words) × (before : List Effect) × (kernel.capget ≡ some words)
      × (result ≡ before ++ sets_written cleared ∷ [])
      × ClearsAll (unkept (values kept) (dangerous_capabilities unix)) words cleared
      × (dropped before ≡ unkept (values kept) (dangerous_capabilities unix))
drop_dangerous_capabilities-ClearsAll unix kernel kept_names kept result accepted h =
    let (words, before, read, same, lost) =
      drop_dangerous_capabilities-dropped unix kernel kept_names kept result accepted h in
    let table = dangerous_capabilities unix in
    (
      words,
      clear_each (values kept) table words,
      before,
      read,
      same,
      clear_each-ClearsAll (values kept) table words,
      lost,
    )
