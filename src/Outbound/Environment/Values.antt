-- ===== src/Outbound/Environment/Values.antt =====
-- What environmentMap and firstEnvironment find in an environment.
use airjail.Base.{
  false, ◌⊎◌, sym, subst, some, List, [], ◌∷◌, ◌++◌, ◌≡◌, ◌≢◌, refl, inl, inr, arith, ◌==◌, ==_iff,
  ==_refl, list_eq, nat_eq, Bool-cases, Option-cases, All,
}
use airjail.Base.Bytes.{Bytes, cut}
use airjail.Outbound.Environment.{value_of, fill, environment_map, first_environment}

-- The entry does not set the name.
abbrev pub Unset : Bytes → Bytes → Type 0
Unset name entry = (value : Bytes) → cut entry b'=' ≢ some (name, value)

pub fill-append :
    (xs ys : List Bytes) (values : List (Bytes × Bytes))
    → fill (xs ++ ys) values ≡ fill ys (fill xs values)
unfolding fill
fill-append [] ys values = refl
fill-append (x ∷ xs) ys values = elim (Option-cases (cut x b'=')) [
  | inl e ↦ rw (e, fill) (fill-append xs ys values)
  | inr (setting, e) ↦ rw (e, fill) (fill-append xs ys (setting ∷ values))
]

pub value_of-fill :
    (xs : List Bytes) (values : List (Bytes × Bytes)) (name : Bytes)
    → All (Unset name) xs
    → value_of (fill xs values) name ≡ value_of values name
unfolding fill value_of
value_of-fill [] values name unset = refl
value_of-fill (x ∷ xs) values name unset = elim (Option-cases (cut x b'=')) [
  | inl e ↦ rw (e, fill) (value_of-fill xs values name unset.1)
  | inr (setting, e) ↦
      let other : (setting.0 == name) ≡ false = elim (Bool-cases (setting.0 == name)) [
        | inr differs ↦ differs
        | inl same ↦ absurd (unset.0 setting.1 (ground (arith, e, ==_iff setting.0 name)))
      ] in
      ground (arith, e, other, value_of-fill xs (setting ∷ values) name unset.1)
]

-- A name has the value of the last entry that sets it, whatever stands before that entry.
pub value_of-environment_map :
    (before after : List Bytes) (entry name value : Bytes)
    → cut entry b'=' ≡ some (name, value)
    → All (Unset name) after
    → value_of (environment_map (before ++ entry ∷ after)) name ≡ value
unfolding environment_map fill value_of
value_of-environment_map before after entry name value sets last = ground (
  arith,
  fill-append before (entry ∷ after) [],
  value_of-fill after ((name, value) ∷ fill before []) name last,
  sets,
  ==_refl name,
)

-- The value of a name in an environment: that of the last entry that sets it, and empty without one.
abbrev pub Value : List Bytes → Bytes → Bytes → Type 0
Value environment name value =
    (All (Unset name) environment × (value ≡ []))
    ⊎ ((before : List Bytes) × (entry : Bytes) × (after : List Bytes) × (environment
          ≡ before ++ entry ∷ after)
        × (cut entry b'=' ≡ some (name, value))
        × All (Unset name) after)

-- the last entry that sets a name, if there is one
last_entry :
    (environment : List Bytes) (name : Bytes)
    → All (Unset name) environment
      ⊎ ((before : List Bytes) × (entry : Bytes) × (after : List Bytes) × (value : Bytes)
          × (environment ≡ before ++ entry ∷ after)
          × (cut entry b'=' ≡ some (name, value))
          × All (Unset name) after)
last_entry [] name = inl tt
last_entry (x ∷ xs) name = elim (last_entry xs name) [
  | inr (before, entry, after, value, same, sets, last) ↦
      inr (x ∷ before, entry, after, value, rw same refl, sets, last)
  | inl unset ↦ elim (Option-cases (cut x b'=')) [
    | inl e ↦ inl ((λ value h. absurd (ground (arith, e, h))), unset)
    | inr (setting, e) ↦ elim (Bool-cases (setting.0 == name)) [
      | inl same ↦
          let named : setting.0 ≡ name = (==_iff setting.0 name).0 same in
          inr ([], x, xs, setting.1, refl, ground (arith, e, named), unset)
      | inr differs ↦
          inl ((λ value h. absurd (ground (arith, e, h, differs, ==_iff setting.0 name))), unset)
    ]
  ]
]

pub value_of-Value :
    (environment : List Bytes) (name : Bytes)
    → Value environment name (value_of (environment_map environment) name)
unfolding environment_map value_of
value_of-Value environment name = elim (last_entry environment name) [
  | inl unset ↦ inl (unset, value_of-fill environment [] name unset)
  | inr (before, entry, after, value, same, sets, last) ↦
      let found : value_of (environment_map environment) name ≡ value =
        rw same (value_of-environment_map before after entry name value sets last) in
      inr (
        before,
        entry,
        after,
        same,
        subst (λ v. cut entry b'=' ≡ some (name, v)) (sym found) sets,
        last,
      )
]

-- The value of the first of the names that has one that is not empty.
abbrev pub IsFirst : List Bytes → List Bytes → Bytes → Type 0
IsFirst environment [] value = ⊥
IsFirst environment (name ∷ names) value =
    (Value environment name value × (value ≢ []))
    ⊎ (Value environment name [] × IsFirst environment names value)

pub first_environment-IsFirst :
    (environment names : List Bytes)
    → first_environment (environment_map environment) names ≢ []
    → IsFirst environment names (first_environment (environment_map environment) names)
unfolding first_environment
first_environment-IsFirst environment [] filled = absurd (filled refl)
first_environment-IsFirst environment (name ∷ names) filled =
    let value = value_of (environment_map environment) name in
    let here = value_of-Value environment name in
    elim (Bool-cases (value == [])) [
      | inr e ↦ rw (e, first_environment) (inl (here, λ empty. ground (arith, e, ==_iff value [])))
      | inl e ↦
          let empty : value ≡ [] = (==_iff value []).0 e in
          let later : first_environment (environment_map environment) names ≢ [] =
            λ h. filled (rw (e, first_environment) h) in
          rw (e, first_environment)
            (inr (
              subst (Value environment name) empty here,
              first_environment-IsFirst environment names later,
            ))
    ]

-- The first of the names that has a nonempty value decides, and its value is the answer.
pub first_environment_lem :
    (values : List (Bytes × Bytes)) (before after : List Bytes) (name : Bytes)
    → All (λ n. value_of values n ≡ []) before
    → value_of values name ≢ []
    → first_environment values (before ++ name ∷ after) ≡ value_of values name
unfolding first_environment
first_environment_lem values [] after name unset set =
    ground (arith, ==_iff (value_of values name) [])
first_environment_lem values (n ∷ before) after name unset set = ground (
  arith,
  ==_iff (value_of values n) [],
  first_environment_lem values before after name unset.1 set,
  unset.0,
)

-- No answer, if every name has an empty value.
pub first_environment-unset :
    (values : List (Bytes × Bytes)) (names : List Bytes)
    → All (λ n. value_of values n ≡ []) names
    → first_environment values names ≡ []
unfolding first_environment
first_environment-unset values [] unset = refl
first_environment-unset values (n ∷ names) unset =
    ground
      (arith, ==_iff (value_of values n) [], first_environment-unset values names unset.1, unset.0)
