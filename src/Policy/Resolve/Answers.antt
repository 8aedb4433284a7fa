-- ===== src/Policy/Resolve/Answers.antt =====
-- One answer for each hostname, asked for once.
use airjail.Base.{
  Bool, true, false, not, some, List, [], ◌∷◌, ◌≡◌, ◌≢◌, ◌⊎◌, inl, inr, sym, ap, ◌∙◌, subst, Some,
  Distinct, list_eq, nat_eq, ok,
}
use airjail.Base.Bytes.{Bytes}
use airjail.Policy.Library.{Library, Laws}
use airjail.Policy.Rules.{HostRule}
use airjail.Policy.Decision.{Policy}
use airjail.Policy.Resolve.{Resolver, Lookups, cached, new_policy}
use airjail.Policy.Resolve.Cached.{IsResolved, addresses_of, Outcomes}
use airjail.Policy.Resolve.New.{new_policy-Built}

-- the rule stands in the list
abbrev pub Holds : List HostRule → HostRule → Type 0
Holds rules r = Some (λ (x : HostRule). x ≡ r) rules

-- a host rule of the policy, in either set
abbrev pub InPolicy : Policy → HostRule → Type 0
InPolicy policy r = Holds policy.allow.hosts r ⊎ Holds policy.block.hosts r

-- what every rule that came out of expansion has
record Expanded (strict : Bool) (s : Lookups) (r : HostRule) : Type 0 where
  is : IsResolved s r
  found : strict ≡ true → r.wildcard ≡ false → r.resolved ≢ []

Outcomes-Expanded :
    (strict : Bool) (s : Lookups) (rs out : List HostRule) (r : HostRule)
    → Outcomes strict s rs out
    → Holds out r
    → Expanded strict s r
Outcomes-Expanded strict s [] [] r os here = absurd here
Outcomes-Expanded strict s (q ∷ rs) (q' ∷ out) r (o, os) (inl e) =
    subst (Expanded strict s) e (record { is = o.is; found = o.found })
Outcomes-Expanded strict s (q ∷ rs) (q' ∷ out) r (o, os) (inr there) =
    Outcomes-Expanded strict s rs out r os there
Outcomes-Expanded strict s [] (q' ∷ out) r os here = absurd os
Outcomes-Expanded strict s (q ∷ rs) [] r os here = absurd os

same_answer :
    (s : Lookups) (r q : HostRule)
    → IsResolved s r
    → IsResolved s q
    → r.wildcard ≡ false
    → q.wildcard ≡ false
    → r.hostname ≡ q.hostname
    → r.resolved ≡ q.resolved
same_answer s r q ir iq wr wq same =
    let (a, hit, ra) = ir.exact wr in
    let (b, hit', qb) = iq.exact wq in
    let both : some a ≡ some b = sym hit ∙ ap (cached s.cache) same ∙ hit' in
    let one : a ≡ b = cc in ra ∙ ap addresses_of one ∙ sym qb

module _ (lib : Library) (resolver : Resolver) (allow_unresolved : Bool)
    (allow_rules block_rules : List Bytes) (policy : Policy) (s : Lookups) (laws : Laws lib)
    (built : new_policy lib resolver allow_unresolved allow_rules block_rules
      ≡ ok (policy, s)) where
  InPolicy-Expanded : (r : HostRule) → InPolicy policy r → Expanded (not allow_unresolved) s r
  InPolicy-Expanded r within =
      let (allow, block, _, _, b) =
        new_policy-Built lib resolver allow_unresolved allow_rules block_rules policy s laws
          built in
      elim within [
        | inl h ↦
            Outcomes-Expanded (not allow_unresolved) s allow.hosts policy.allow.hosts r b.allowed h
        | inr h ↦
            Outcomes-Expanded (not allow_unresolved) s block.hosts policy.block.hosts r b.blocked h
      ]

  -- Whatever the resolver answers, New asks it for a hostname at most once.
  pub new_policy-asked_once : Distinct s.asked
  new_policy-asked_once =
      let (allow, block, _, _, b) =
        new_policy-Built lib resolver allow_unresolved allow_rules block_rules policy s laws
          built in
      b.coherent.once

  -- Two exact rules with one hostname, in the allow or the block list, have the same addresses, even
  -- if the resolver would answer differently the second time.
  pub new_policy-same_answer :
      (r q : HostRule)
      → InPolicy policy r
      → InPolicy policy q
      → r.wildcard ≡ false
      → q.wildcard ≡ false
      → r.hostname ≡ q.hostname
      → r.resolved ≡ q.resolved
  new_policy-same_answer r q hr hq wr wq same =
      same_answer s r q (InPolicy-Expanded r hr).is (InPolicy-Expanded q hq).is wr wq same

  -- Unless unresolved rules are allowed, every exact rule of an accepted policy has an address. A
  -- wildcard rule has none in any case.
  pub new_policy-resolved :
      (r : HostRule)
      → InPolicy policy r
      → (allow_unresolved ≡ false → r.wildcard ≡ false → r.resolved ≢ [])
        × (r.wildcard ≡ true → r.resolved ≡ [])
  new_policy-resolved r h =
      let e = InPolicy-Expanded r h in ((λ strict w. e.found (rw strict) w), e.is.wild)
