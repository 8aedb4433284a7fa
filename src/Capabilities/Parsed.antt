-- ===== src/Capabilities/Parsed.antt =====
-- What the accepted names are, and which of them are kept.
use airjail.Base.{
  ℕ, ◌<◌, ◌≤◌, ◌/◌, ◌%◌, ◌^◌, ltb, ◌⊎◌, false, true, some, List, [], ◌∷◌, ◌++◌, ◌≡◌, refl, ◌↔◌,
  subst, sym, ◌∙◌, inl, inr, arith, ok, ==_iff, list_eq, nat_eq, contains, contains-append,
  Distinct, Distinct-append, Bool-cases, Option-cases, All, Some,
}
use airjail.Base.Bytes.{Bytes}
use mathlib.Core.List.{map-append}
use airjail.Capabilities.{
  rootless, permission_preserving, DangerousCapability, Unix, values, dangerous_capabilities,
  by_name, full_name, parse_each, parse_unsafe_capabilities, Permitted, capability_permitted, Mode,
  preserves, select_unsafe_capabilities, resolve_unsafe_capabilities,
}

-- Same members.
abbrev Agree : List ℕ → List ℕ → Type 0
Agree xs ys = (v : ℕ) → contains xs v ≡ contains ys v

module _ (unix : Unix) where
  -- the name is one of the table's, and its number is among the values
  abbrev pub Kept : List ℕ → Bytes → Type 0
  Kept vs raw =
      (c : DangerousCapability) × (by_name (dangerous_capabilities unix) (full_name unix raw)
        ≡ some c)
      × (contains vs c.value ≡ true)

  parse_each-Distinct :
      (requested : List Bytes) (seen : List ℕ) (parsed result : List DangerousCapability)
      → parse_each unix requested seen parsed ≡ ok result
      → Distinct (values parsed)
      → Agree seen (values parsed)
      → Distinct (values result)
        × ((v : ℕ) → contains (values parsed) v ≡ true → contains (values result) v ≡ true)
        × All (Kept (values result)) requested
  unfolding parse_each contains
  parse_each-Distinct [] seen parsed result h once agree =
      let same : parsed ≡ result = cc in
      (
        subst (λ r. Distinct (values r)) same once,
        (λ v.
            subst (λ r. contains (values parsed) v ≡ true → contains (values r) v ≡ true) same
              (λ was. was)),
        tt,
      )
  parse_each-Distinct (raw ∷ requested) seen parsed result h once agree =
      elim (Option-cases (by_name (dangerous_capabilities unix) (full_name unix raw))) [
        | inl e ↦ absurd (ground (arith, e))
        | inr (c, e) ↦ elim (Bool-cases (contains seen c.value)) [
          | inl known ↦
              let (distinct, grows, kept) =
                parse_each-Distinct requested seen parsed result (ground (arith, e, known)) once
                  agree in
              (distinct, grows, ((c, e, grows c.value (sym (agree c.value) ∙ known)), kept))
          | inr new ↦
              let appended : values (parsed ++ c ∷ []) ≡ values parsed ++ c.value ∷ [] =
                map-append (λ (c : DangerousCapability). c.value) parsed (c ∷ []) in
              let more : Agree (c.value ∷ seen) (values (parsed ++ c ∷ [])) = λ v.
                rw appended
                  (ground (arith, agree v, contains-append (values parsed) (c.value ∷ []) v)) in
              let (distinct, grows, kept) =
                parse_each-Distinct requested (c.value ∷ seen) (parsed ++ c ∷ []) result
                  (ground (arith, e, new))
                  (rw appended
                    (Distinct-append (values parsed) c.value once (sym (agree c.value) ∙ new)))
                  more in
              (
                distinct,
                (λ v was. grows v (
                    rw appended
                      (ground (arith, contains-append (values parsed) (c.value ∷ []) v, was)))),
                (
                  (
                    c,
                    e,
                    grows c.value (
                        rw appended (
                          ground (
                            arith,
                            contains-append (values parsed) (c.value ∷ []) c.value,
                            ==_iff c.value c.value,
                          ))),
                  ),
                  kept,
                ),
              )
        ]
      ]

  -- The accepted capabilities have different numbers, and each name that was asked for, in upper case,
  -- without the space around it and with the prefix CAP_, is in the table and has its number there.
  pub parse_unsafe_capabilities-Kept :
      (requested : List Bytes) (result : List DangerousCapability)
      → parse_unsafe_capabilities unix requested ≡ ok result
      → Distinct (values result) × All (Kept (values result)) requested
  unfolding parse_unsafe_capabilities
  parse_unsafe_capabilities-Kept requested result h =
      let (once, _, kept) = parse_each-Distinct requested [] [] result h tt (λ v. refl) in
      (once, kept)

-- The bit of a capability in the two words of 32 bits: the low word has those below 32.
abbrev pub HasBit : Permitted → ℕ → Type 0
HasBit words number =
    ((number < 32) × ((words.low / 2 ^ number) % 2 ≡ 1))
    ⊎ ((32 ≤ number) × ((words.high / 2 ^ (number % 32)) % 2 ≡ 1))

capability_permitted_iff :
    (words : Permitted) (number : ℕ)
    → (capability_permitted words number ≡ true) ↔ HasBit words number
unfolding capability_permitted
capability_permitted_iff words number = elim (Bool-cases (ltb number 32)) [
  | inl e ↦
      let small : number < 32 = ground (arith, e) in
      let first : ltb (number / 32) 1 ≡ true = ground (arith, small) in
      let low : number % 32 ≡ number = omega (arith, small) in
      rw (first, low) (ground (arith, small, ==_iff ((words.low / 2 ^ number) % 2) 1))
  | inr e ↦
      let large : 32 ≤ number = ground (arith, e) in
      let second : ltb (number / 32) 1 ≡ false = ground (arith, large) in
      rw second (ground (arith, large, ==_iff ((words.high / 2 ^ (number % 32)) % 2) 1))
]

-- a capability that may be kept, by its name
abbrev pub Keeps : Mode → Permitted → Bytes → DangerousCapability → Type 0
Keeps mode words name c = (c.name ≡ name) × HasBit words c.value × (mode ≡ permission_preserving)

preserves_iff : (mode : Mode) → (preserves mode ≡ true) ↔ (mode ≡ permission_preserving)
preserves_iff rootless = ((λ h. absurd (cc)), (λ h. absurd (cc)))
preserves_iff permission_preserving = ((λ h. refl), (λ h. refl))

select_sound :
    (parsed : List DangerousCapability) (mode : Mode) (words : Permitted) (name : Bytes)
    → contains (select_unsafe_capabilities parsed mode words) name ≡ true
    → Some (Keeps mode words name) parsed
unfolding select_unsafe_capabilities contains
select_sound [] mode words name h = absurd (cc)
select_sound (c ∷ parsed) mode words name h = ground (
  arith,
  ==_iff c.name name,
  capability_permitted_iff words c.value,
  preserves_iff mode,
  select_sound parsed mode words name,
)

select_complete :
    (parsed : List DangerousCapability) (mode : Mode) (words : Permitted) (name : Bytes)
    → Some (Keeps mode words name) parsed
    → contains (select_unsafe_capabilities parsed mode words) name ≡ true
unfolding select_unsafe_capabilities contains
select_complete [] mode words name none_kept = elim none_kept [ ]
select_complete (c ∷ parsed) mode words name (inl keeps) =
    ground
      (arith, ==_iff c.name name, capability_permitted_iff words c.value, preserves_iff mode, keeps)
select_complete (c ∷ parsed) mode words name (inr later) =
    ground (arith, select_complete parsed mode words name later)

-- A name is kept exactly if it is that of an accepted capability whose bit is set in the caller's
-- permitted words, the low one for a number below 32, and the mode is the permission-preserving one.
pub resolve_unsafe_capabilities_iff :
    (unix : Unix) (requested : List Bytes) (mode : Mode) (words : Permitted)
    (parsed : List DangerousCapability) (kept : List Bytes) (name : Bytes)
    → parse_unsafe_capabilities unix requested ≡ ok parsed
    → resolve_unsafe_capabilities unix requested mode (some words) ≡ ok kept
    → (contains kept name ≡ true) ↔ Some (Keeps mode words name) parsed
unfolding resolve_unsafe_capabilities
resolve_unsafe_capabilities_iff unix requested mode words parsed kept name accepted h =
    let same : select_unsafe_capabilities parsed mode words ≡ kept = ground (arith, accepted) in
    subst (λ k. (contains k name ≡ true) ↔ Some (Keeps mode words name) parsed) same
      (select_sound parsed mode words name, select_complete parsed mode words name)
