-- ===== src/Policy/Resolve/Shared.antt =====
-- New: both rule lists are expanded over one cache.
use airjail.Base.{
  Bool, not, List, [], ◌∷◌, ◌≡◌, inl, inr, refl, sym, subst, arith, All, list_eq, nat_eq,
  Result-cases, ok,
}
use airjail.Policy.Rules.{HostRule, RuleSet}
use airjail.Policy.Decision.{Policy}
use airjail.Policy.Resolve.{Resolver, Lookups, resolve_rule, resolve_hosts, resolve_host_rules}
use airjail.Policy.Resolve.Cached.{
  IsCoherent, Extends, After, Outcome, IsResolved-Extends, resolve_rule_lem, Outcomes,
}

Outcome-Extends :
    (strict : Bool) (s s' : Lookups) (r r' : HostRule)
    → Extends s s'
    → Outcome strict s r r'
    → Outcome strict s' r r'
Outcome-Extends strict s s' r r' ext o = record {
  kept = o.kept;
  is = IsResolved-Extends s s' r' ext o.is;
  found = o.found;
}

pub Outcomes-Extends :
    (strict : Bool) (s s' : Lookups) (rs out : List HostRule)
    → Extends s s'
    → Outcomes strict s rs out
    → Outcomes strict s' rs out
Outcomes-Extends strict s s' [] [] ext os = tt
Outcomes-Extends strict s s' (r ∷ rs) (r' ∷ rs') ext (o, os) =
    (Outcome-Extends strict s s' r r' ext o, Outcomes-Extends strict s s' rs rs' ext os)
Outcomes-Extends strict s s' [] (r' ∷ rs') ext os = absurd os
Outcomes-Extends strict s s' (r ∷ rs) [] ext os = absurd os

After-refl : (s : Lookups) → IsCoherent s → After s s
After-refl s c = record { coherent = c; extends = λ k q hit. hit }

After-trans : (s t u : Lookups) → After s t → After t u → After s u
After-trans s t u a b = record {
  coherent = b.coherent;
  extends = λ k q hit. b.extends k q (a.extends k q hit);
}

abbrev pub Unresolved : List HostRule → Type 0
Unresolved = All (λ (r : HostRule). r.resolved ≡ [])

module _ (resolver : Resolver) (allow_unresolved : Bool) where
  resolve_hosts_inversion :
      (r : HostRule) (rs out : List HostRule) (s s' : Lookups)
      → resolve_hosts resolver allow_unresolved (r ∷ rs) s ≡ ok (out, s')
      → (r' : HostRule) × (t : Lookups) × (rs' : List HostRule) × (resolve_rule resolver
            allow_unresolved r s
          ≡ ok (r', t))
        × (resolve_hosts resolver allow_unresolved rs t ≡ ok (rs', s'))
        × (out ≡ r' ∷ rs')
  unfolding resolve_hosts
  resolve_hosts_inversion r rs out s s' h =
      elim (Result-cases (resolve_rule resolver allow_unresolved r s)) [
        | inr (fault, e) ↦ absurd (ground (arith, e))
        | inl ((r', t), e) ↦ elim (Result-cases (resolve_hosts resolver allow_unresolved rs t)) [
          | inr (fault, e') ↦ absurd (ground (arith, e, e'))
          | inl ((rs', u), e') ↦
              let same : u ≡ s' = ground (arith, e, e') in
              (
                r',
                t,
                rs',
                e,
                subst (λ v. resolve_hosts resolver allow_unresolved rs t ≡ ok (rs', v)) same e',
                ground (arith, e, e'),
              )
        ]
      ]

  resolve_hosts_nil :
      (out : List HostRule) (s s' : Lookups)
      → resolve_hosts resolver allow_unresolved [] s ≡ ok (out, s')
      → (s ≡ s') × ([] ≡ out)
  unfolding resolve_hosts
  resolve_hosts_nil out s s' h = ground arith

  resolve_hosts_lem :
      (rs out : List HostRule) (s s' : Lookups)
      → Unresolved rs
      → IsCoherent s
      → resolve_hosts resolver allow_unresolved rs s ≡ ok (out, s')
      → After s s' × Outcomes (not allow_unresolved) s' rs out
  resolve_hosts_lem [] out s s' u c h =
      let (same, none_left) = resolve_hosts_nil out s s' h in
      (
        subst (After s) same (After-refl s c),
        subst (Outcomes (not allow_unresolved) s' []) none_left tt,
      )
  resolve_hosts_lem (r ∷ rs) out s s' u c h =
      let (r', t, rs', first, rest, same) = resolve_hosts_inversion r rs out s s' h in
      let (step, is) = resolve_rule_lem resolver allow_unresolved r r' s t u.0 c first in
      let (steps, are) = resolve_hosts_lem rs rs' t s' u.1 step.coherent rest in
      (
        After-trans s t s' step steps,
        subst (Outcomes (not allow_unresolved) s' (r ∷ rs)) (sym same)
            (Outcome-Extends (not allow_unresolved) t s' r r' steps.extends is, are),
      )

  pub resolve_set_lem :
      (rules out : RuleSet) (s s' : Lookups)
      → Unresolved rules.hosts
      → IsCoherent s
      → resolve_host_rules resolver allow_unresolved rules s ≡ ok (out, s')
      → After s s'
        × Outcomes (not allow_unresolved) s' rules.hosts out.hosts
        × (out ≡ record rules { hosts = out.hosts })
  unfolding resolve_host_rules
  resolve_set_lem rules out s s' u c h =
      elim (Result-cases (resolve_hosts resolver allow_unresolved rules.hosts s)) [
        | inr (fault, e) ↦ absurd (ground (arith, e))
        | inl ((hosts, t), e) ↦
            let same : t ≡ s' = ground (arith, e) in
            let built : record rules { hosts = hosts } ≡ out = ground (arith, e) in
            let (after, are) = resolve_hosts_lem rules.hosts hosts s s' u c (
              subst (λ v. resolve_hosts resolver allow_unresolved rules.hosts s ≡ ok (hosts, v))
                same e) in
            (
              after,
              subst (λ (o : RuleSet). Outcomes (not allow_unresolved) s' rules.hosts o.hosts) built
                  are,
              subst (λ (o : RuleSet). o ≡ record rules { hosts = o.hosts }) built refl,
            )
      ]

-- What New makes of its two lists: the parsed rules, each with its outcome over the one cache.
pub record Built (strict : Bool) (allow block : RuleSet) (policy : Policy) (s : Lookups)
    : Type 0 where
  pub coherent : IsCoherent s
  pub allowed : Outcomes strict s allow.hosts policy.allow.hosts
  pub blocked : Outcomes strict s block.hosts policy.block.hosts
  pub allow_kept : policy.allow ≡ record allow { hosts = policy.allow.hosts }
  pub block_kept : policy.block ≡ record block { hosts = policy.block.hosts }
