-- ===== src/Capabilities/Drop.antt =====
-- internal/namespace/capabilities_linux.go, dropDangerousCapabilities: the system calls are recorded,
-- their outcomes are parameters.
use airjail.Base.{
  ℕ, ◌-◌, ◌/◌, ◌%◌, ◌^◌, Bool, true, false, Option, none, some, List, [], ◌∷◌, ◌++◌, ◌≡◌, refl, sym,
  ◌∙◌, inl, inr, arith, append-nil, append_assoc, if◌then◌else◌, Result, ok, err, ltb, ◌==◌, nat_eq,
  contains, Bool-cases, Result-cases, Option-cases,
}
use airjail.Base.Bytes.{Bytes}
use airjail.Capabilities.{
  DangerousCapability, Unix, values, dangerous_capabilities, parse_unsafe_capabilities,
}

pub data Errno : Type 0 where
  einval : Errno
  other : ℕ → Errno

-- unix.CapUserData: the sets of one word
pub record CapUserData : Type 0 where
  pub effective : ℕ
  pub permitted : ℕ
  pub inheritable : ℕ

abbrev pub Words : Type 0
Words = CapUserData × CapUserData

-- The errors of prctl for the bounding set, for reading an ambient capability (with the value read) and
-- for lowering it, and of capget and capset.
pub record Kernel : Type 0 where
  pub drop_bounding : ℕ → Option Errno
  pub ambient : ℕ → Option Errno × ℕ
  pub lower : ℕ → Option Errno
  pub capget : Option Words
  pub capset : Words → Bool

pub data Effect : Type 0 where
  bounding_dropped ambient_lowered : ℕ → Effect
  sets_written : Words → Effect

pub data DropError : Type 0 where
  unknown_kept : Bytes → DropError
  bounding_failed inspect_failed lower_failed : Bytes → DropError
  read_failed write_failed : DropError

-- `err != nil && !errors.Is(err, unix.EINVAL)`
unfoldable pub is_failure : Option Errno → Bool
is_failure none = false
is_failure (some einval) = false
is_failure (some (other code)) = true

unfoldable pub drop_one : Kernel → DangerousCapability → Result DropError (List Effect)
unfolding is_failure
drop_one kernel c =
    if is_failure (kernel.drop_bounding c.value)
    then err (bounding_failed c.name)
    else if is_failure (kernel.ambient c.value).0
    then err (inspect_failed c.name)
    else if (kernel.ambient c.value).1 == 1
    then elim (kernel.lower c.value) [
      | none ↦ ok (bounding_dropped c.value ∷ ambient_lowered c.value ∷ [])
      | some e ↦ err (lower_failed c.name)
    ]
    else ok (bounding_dropped c.value ∷ [])

-- the loop over the table
unfoldable pub drop_each :
    Kernel → List ℕ → List DangerousCapability → List Effect → Result DropError (List Effect)
unfolding drop_one
drop_each kernel kept [] done = ok done
drop_each kernel kept (c ∷ rest) done =
    let next = drop_each kernel kept rest done in
    if contains kept c.value then next else elim (drop_one kernel c) [
      | err e ↦ err e
      | ok effects ↦ drop_each kernel kept rest (done ++ effects)
    ]

-- `word & ^(1 << bit)`
unfoldable pub clear_bit : ℕ → ℕ → ℕ
clear_bit word bit = if (word / 2 ^ bit) % 2 == 1 then word - 2 ^ bit else word

unfoldable pub clear_word : CapUserData → ℕ → CapUserData
unfolding clear_bit
clear_word word bit = record {
  effective = clear_bit word.effective bit;
  permitted = clear_bit word.permitted bit;
  inheritable = clear_bit word.inheritable bit;
}

-- the second word is the last
unfoldable pub clear_capability : Words → ℕ → Words
unfolding clear_word
clear_capability words capability =
    if ltb (capability / 32) 1
    then (clear_word words.0 (capability % 32), words.1)
    else (words.0, clear_word words.1 (capability % 32))

unfoldable pub clear_each : List ℕ → List DangerousCapability → Words → Words
unfolding clear_capability
clear_each kept [] words = words
clear_each kept (c ∷ rest) words =
    clear_each kept rest (if contains kept c.value then words else clear_capability words c.value)

-- from Capget on
unfoldable pub write_sets :
    Kernel → List ℕ → List DangerousCapability → List Effect → Result DropError (List Effect)
unfolding clear_each
write_sets kernel kept table done = elim kernel.capget [
  | none ↦ err read_failed
  | some words ↦
      let cleared = clear_each kept table words in
      if kernel.capset cleared then ok (done ++ sets_written cleared ∷ []) else err write_failed
]

unfoldable pub drop_dangerous_capabilities :
    Unix → Kernel → List Bytes → Result DropError (List Effect)
unfolding drop_each write_sets
drop_dangerous_capabilities unix kernel kept_names =
    elim (parse_unsafe_capabilities unix kept_names) [
      | err raw ↦ err (unknown_kept raw)
      | ok kept ↦
          let numbers = values kept in
          elim (drop_each kernel numbers (dangerous_capabilities unix) []) [
            | err e ↦ err e
            | ok done ↦ write_sets kernel numbers (dangerous_capabilities unix) done
          ]
    ]

-- the numbers that the bounding set loses
abbrev pub dropped : List Effect → List ℕ
dropped [] = []
dropped (bounding_dropped v ∷ effects) = v ∷ dropped effects
dropped (ambient_lowered v ∷ effects) = dropped effects
dropped (sets_written words ∷ effects) = dropped effects

dropped-append : (xs ys : List Effect) → dropped (xs ++ ys) ≡ dropped xs ++ dropped ys
dropped-append [] ys = refl
dropped-append (bounding_dropped v ∷ xs) ys = rw (dropped-append xs ys)
dropped-append (ambient_lowered v ∷ xs) ys = dropped-append xs ys
dropped-append (sets_written words ∷ xs) ys = dropped-append xs ys

-- the numbers of the table that are not kept
abbrev pub unkept : List ℕ → List DangerousCapability → List ℕ
unkept kept [] = []
unkept kept (c ∷ rest) =
    if contains kept c.value then unkept kept rest else c.value ∷ unkept kept rest

dropped-drop_one :
    (kernel : Kernel) (c : DangerousCapability) (effects : List Effect)
    → drop_one kernel c ≡ ok effects
    → dropped effects ≡ c.value ∷ []
unfolding drop_one
dropped-drop_one kernel c effects h = ground arith

dropped-drop_each :
    (kernel : Kernel) (kept : List ℕ) (table : List DangerousCapability) (done result : List Effect)
    → drop_each kernel kept table done ≡ ok result
    → dropped result ≡ dropped done ++ unkept kept table
unfolding drop_each
dropped-drop_each kernel kept [] done result h =
    let same : done ≡ result = cc in rw⁻¹ same (sym (append-nil (dropped done)))
dropped-drop_each kernel kept (c ∷ rest) done result h = elim (Bool-cases (contains kept c.value)) [
  | inl stays ↦ ground (arith, stays, dropped-drop_each kernel kept rest done result)
  | inr goes ↦ elim (Result-cases (drop_one kernel c)) [
    | inr (e, failed) ↦ absurd (ground (arith, goes, failed))
    | inl (effects, worked) ↦
        let one = dropped-drop_one kernel c effects worked in
        let later : drop_each kernel kept rest (done ++ effects) ≡ ok result =
          ground (arith, goes, worked) in
        rw goes (
          dropped-drop_each kernel kept rest (done ++ effects) result later
          ∙ rw (dropped-append done effects)
              (rw one (append_assoc (dropped done) (c.value ∷ []) (unkept kept rest))))
  ]
]

-- If the call returns without an error, the bounding set has lost, in the order of the table, exactly
-- the numbers of the table that are not among the kept, and the last call wrote the sets that
-- clear_each makes of those that were read.
pub drop_dangerous_capabilities-dropped :
    (unix : Unix) (kernel : Kernel) (kept_names : List Bytes) (kept : List DangerousCapability)
    (result : List Effect)
    → parse_unsafe_capabilities unix kept_names ≡ ok kept
    → drop_dangerous_capabilities unix kernel kept_names ≡ ok result
    → (words : Words) × (before : List Effect) × (kernel.capget ≡ some words)
      × (result
          ≡ before
            ++ sets_written (clear_each (values kept) (dangerous_capabilities unix) words) ∷ [])
      × (dropped before ≡ unkept (values kept) (dangerous_capabilities unix))
unfolding drop_dangerous_capabilities write_sets
drop_dangerous_capabilities-dropped unix kernel kept_names kept result accepted h =
    let table = dangerous_capabilities unix in
    elim (Result-cases (drop_each kernel (values kept) table [])) [
      | inr (e, failed) ↦ absurd (ground (arith, accepted, failed))
      | inl (before, worked) ↦ elim (Option-cases kernel.capget) [
        | inl e ↦ absurd (ground (arith, accepted, worked, e))
        | inr (words, read) ↦
            elim (Bool-cases (kernel.capset (clear_each (values kept) table words))) [
              | inr e ↦ absurd (ground (arith, accepted, worked, read, e))
              | inl written ↦ (
                words,
                before,
                read,
                ground (arith, accepted, worked, read, written),
                dropped-drop_each kernel (values kept) table [] before worked,
              )
            ]
      ]
    ]
