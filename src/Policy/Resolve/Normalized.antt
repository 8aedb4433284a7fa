-- ===== src/Policy/Resolve/Normalized.antt =====
-- normalizeAddresses: what a resolver's answer is reduced to.
use airjail.Base.{
  Bool, true, false, ◌||◌, not, List, [], ◌∷◌, ◌++◌, ◌≡◌, ◌⊎◌, inl, inr, ◌↔◌, subst, arith, Some,
  ◌==◌, ==_iff, nat_eq, list_eq, contains, Distinct, Distinct-append, Bool-cases,
}
use airjail.Netip.{Addr, addr_eq, is_valid, zone_of, unmap}
use airjail.Policy.Resolve.{normalize_onto, normalize_addresses}

-- an answer that is not skipped, with the address that it stands for
abbrev pub Denotes : Addr → Addr → Type 0
Denotes a answer = ((is_valid answer ≡ true) × (zone_of answer ≡ [])) × (unmap answer ≡ a)

contains-append_last :
    (xs : List Addr) (u a : Addr)
    → (contains (xs ++ u ∷ []) a ≡ true) ↔ ((contains xs a ≡ true) ⊎ (u ≡ a))
unfolding contains
contains-append_last [] u a = ground (arith, ==_iff u a)
contains-append_last (x ∷ xs) u a = ground (arith, contains-append_last xs u a)

-- the test of the loop
abbrev skips : List Addr → Addr → Bool
skips seen answer =
    not (is_valid answer) || not (zone_of answer == []) || contains seen (unmap answer)

normalize_onto-Distinct :
    (seen answers : List Addr) → Distinct seen → Distinct (normalize_onto seen answers)
unfolding normalize_onto
normalize_onto-Distinct seen [] d = d
normalize_onto-Distinct seen (x ∷ xs) d = elim (Bool-cases (skips seen x)) [
  | inl e ↦ rw e (normalize_onto-Distinct seen xs d)
  | inr e ↦ rw e (
      normalize_onto-Distinct (seen ++ unmap x ∷ []) xs
        (Distinct-append seen (unmap x) d (ground arith)))
]

skips_known :
    (seen : List Addr) (x a : Addr) → skips seen x ≡ true → Denotes a x → contains seen a ≡ true
skips_known seen x a h d =
    let known : contains seen (unmap x) ≡ true = ground (arith, ==_iff (zone_of x) []) in
    subst (λ b. contains seen b ≡ true) d.1 known

skips_usable : (seen : List Addr) (x : Addr) → skips seen x ≡ false → Denotes (unmap x) x
skips_usable seen x h = ground (arith, ==_iff (zone_of x) [])

normalize_onto-contains :
    (seen answers : List Addr) (a : Addr)
    → (contains (normalize_onto seen answers) a ≡ true)
      ↔ ((contains seen a ≡ true) ⊎ Some (Denotes a) answers)
unfolding normalize_onto
normalize_onto-contains seen [] a = ((λ h. inl h), (λ h. elim h [ inl x ↦ x | inr y ↦ absurd y ]))
normalize_onto-contains seen (x ∷ xs) a = elim (Bool-cases (skips seen x)) [
  | inl e ↦
      let rest = normalize_onto-contains seen xs a in
      rw e (
        (λ h. elim (rest.0 h) [ inl s ↦ inl s | inr s ↦ inr (inr s) ]),
        (λ h. rest.1 (elim h [
          | inl s ↦ inl s
          | inr (inl d) ↦ inl (skips_known seen x a e d)
          | inr (inr s) ↦ inr s
        ])),
      )
  | inr e ↦
      let rest = normalize_onto-contains (seen ++ unmap x ∷ []) xs a in
      let (valid, same) = skips_usable seen x e in
      rw e (
        (λ h. elim (rest.0 h) [
          | inl s ↦ elim ((contains-append_last seen (unmap x) a).0 s) [
            | inl old ↦ inl old
            | inr here ↦ inr (inl (valid, here))
          ]
          | inr s ↦ inr (inr s)
        ]),
        (λ h. rest.1 (elim h [
          | inl s ↦ inl ((contains-append_last seen (unmap x) a).1 (inl s))
          | inr (inl d) ↦ inl ((contains-append_last seen (unmap x) a).1 (inr d.1))
          | inr (inr s) ↦ inr s
        ])),
      )
]

-- No address is kept twice.
pub normalize_addresses-Distinct : (answers : List Addr) → Distinct (normalize_addresses answers)
unfolding normalize_addresses
normalize_addresses-Distinct answers = normalize_onto-Distinct [] answers tt

-- An address is kept exactly when it is the unmapped form of a valid answer that has no zone.
pub normalize_addresses-contains :
    (answers : List Addr) (a : Addr)
    → (contains (normalize_addresses answers) a ≡ true) ↔ Some (Denotes a) answers
unfolding normalize_addresses contains
normalize_addresses-contains answers a =
    let whole = normalize_onto-contains [] answers a in
    ((λ h. elim (whole.0 h) [ inl n ↦ absurd (cc) | inr s ↦ s ]), (λ h. whole.1 (inr h)))
