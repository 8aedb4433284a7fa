-- ===== src/Policy/Resolve/New.antt =====
-- What a policy is after New: one answer for each hostname, asked for once.
use airjail.Base.{
  Bool, not, List, [], ◌∷◌, ◌≡◌, inl, inr, refl, arith, All, list_eq, nat_eq, Result-cases, ok,
  contains,
}
use airjail.Base.Bytes.{Bytes}
use airjail.Policy.Library.{Library, Laws}
use airjail.Policy.Rules.{HostRule, RuleSet, parse_rules}
use airjail.Policy.Rules.Added.{IsHostRule, parse_rules-IsParsed}
use airjail.Policy.Decision.{Policy}
use airjail.Policy.Resolve.{Resolver, Lookups, no_lookups, cached, resolve_host_rules, new_policy}
use airjail.Policy.Resolve.Cached.{IsCoherent}
use airjail.Policy.Resolve.Shared.{Unresolved, resolve_set_lem, Outcomes-Extends, Built}

no_lookups-IsCoherent : IsCoherent no_lookups
unfolding contains cached
no_lookups-IsCoherent = record { once = tt; same = λ h. refl }

IsHostRule-Unresolved : (rs : List HostRule) → All IsHostRule rs → Unresolved rs
IsHostRule-Unresolved [] h = tt
IsHostRule-Unresolved (r ∷ rs) (is, are) = (is.unresolved, IsHostRule-Unresolved rs are)

module _ (lib : Library) (resolver : Resolver) (allow_unresolved : Bool)
    (allow_rules block_rules : List Bytes) where
  new_policy_inversion :
      (policy : Policy) (s : Lookups)
      → new_policy lib resolver allow_unresolved allow_rules block_rules ≡ ok (policy, s)
      → (allow : RuleSet) × (block : RuleSet) × (t : Lookups) × (parse_rules lib allow_rules
          ≡ ok allow)
        × (parse_rules lib block_rules ≡ ok block)
        × (resolve_host_rules resolver allow_unresolved allow no_lookups ≡ ok (policy.allow, t))
        × (resolve_host_rules resolver allow_unresolved block t ≡ ok (policy.block, s))
  unfolding new_policy
  new_policy_inversion policy s h = elim (Result-cases (parse_rules lib allow_rules)) [
    | inr (fault, a) ↦ absurd (ground (arith, a))
    | inl (allow, a) ↦ elim (Result-cases (parse_rules lib block_rules)) [
      | inr (fault, b) ↦ absurd (ground (arith, a, b))
      | inl (block, b) ↦
          elim (Result-cases (resolve_host_rules resolver allow_unresolved allow no_lookups)) [
            | inr (fault, c) ↦ absurd (ground (arith, a, b, c))
            | inl ((allow', t), c) ↦
                elim (Result-cases (resolve_host_rules resolver allow_unresolved block t)) [
                  | inr (fault, d) ↦ absurd (ground (arith, a, b, c, d))
                  | inl ((block', u), d) ↦ (
                    allow,
                    block,
                    t,
                    a,
                    b,
                    ground (arith, a, b, c, d),
                    ground (arith, a, b, c, d),
                  )
                ]
          ]
    ]
  ]

  pub new_policy-Built :
      (policy : Policy) (s : Lookups)
      → Laws lib
      → new_policy lib resolver allow_unresolved allow_rules block_rules ≡ ok (policy, s)
      → (allow : RuleSet) × (block : RuleSet) × (parse_rules lib allow_rules ≡ ok allow)
        × (parse_rules lib block_rules ≡ ok block)
        × Built (not allow_unresolved) allow block policy s
  new_policy-Built policy s laws h =
      let (allow, block, t, a, b, c, d) = new_policy_inversion policy s h in
      let (allow_parsed, _) = parse_rules-IsParsed lib allow_rules allow laws a in
      let (block_parsed, _) = parse_rules-IsParsed lib block_rules block laws b in
      let (first, allowed, allow_kept) =
        resolve_set_lem resolver allow_unresolved allow policy.allow no_lookups t
          (IsHostRule-Unresolved allow.hosts allow_parsed.hosts) no_lookups-IsCoherent c in
      let (second, blocked, block_kept) =
        resolve_set_lem resolver allow_unresolved block policy.block t s
          (IsHostRule-Unresolved block.hosts block_parsed.hosts) first.coherent d in
      (
        allow,
        block,
        a,
        b,
        record {
          coherent = second.coherent;
          allowed = Outcomes-Extends (not allow_unresolved) t s _ _ second.extends allowed;
          blocked = blocked;
          allow_kept = allow_kept;
          block_kept = block_kept;
        },
      )
