-- ===== src/Policy/Rules/Added.antt =====
-- What an accepted rule adds to a rule set, and what parseRules collects.
use airjail.Base.{
  ℕ, ◌+◌, ◌≤◌, ◌<◌, true, false, List, [], ◌∷◌, ◌++◌, ◌≡◌, ◌⊎◌, inl, inr, refl, sym, ap, ◌∙◌, subst,
  arith, All, All-append, length, length-append, ok, err, ◌==◌, ==_iff, nat_eq, list_eq,
  Option-cases, Result-cases, if◌then◌else◌,
}
use airjail.Base.Bytes.{Bytes, codes, has_prefix}
use airjail.Netip.{Addr, is_valid, zone_of, is4in6, unmap, masked}
use airjail.Policy.Errors.{RuleError, parse_rule, address_with_zone}
use airjail.Policy.Library.{Library, Laws}
use airjail.Policy.Hostname.{normalize_hostname}
use airjail.Policy.Hostname.Laws.{IsCanonical, normalize_hostname-IsCanonical}
use airjail.Policy.Rules.{
  PortMatcher, Target, HostRule, AddressRule, PrefixRule, RuleSet, no_rules, any_port,
  normalize_prefix, add_host, add_address, add_prefix, add_hostname, rule_text, add_target, add,
  add_all, parse_rules, split_rule_port,
}
use airjail.Policy.Rules.Ports.{parse_port_sound}
use airjail.Policy.Rules.Targets.{Written, split_rule_port-Written}

-- no port, or a port from 1 to 65535
abbrev pub IsPort : PortMatcher → Type 0
IsPort m = (m ≡ any_port) ⊎ ((m.set ≡ true) × ((0 < m.port) × (m.port ≤ 65535)))

pub record IsHostRule (r : HostRule) : Type 0 where
  pub canonical : IsCanonical r.hostname
  pub unresolved : r.resolved ≡ []
  pub port : IsPort r.port

pub record IsAddressRule (r : AddressRule) : Type 0 where
  pub valid : is_valid r.address ≡ true
  pub zone_free : zone_of r.address ≡ []
  pub unmapped : is4in6 r.address ≡ false
  pub port : IsPort r.port

-- Exactly one rule of one kind is appended.
pub data Adds (rules : RuleSet) (grown : RuleSet) : Type 0 where
  host : (r : HostRule) → grown ≡ add_host rules r → IsHostRule r → Adds rules grown
  address : (r : AddressRule) → grown ≡ add_address rules r → IsAddressRule r → Adds rules grown
  prefix : (r : PrefixRule) → grown ≡ add_prefix rules r → IsPort r.port → Adds rules grown

Written-IsPort : (raw : Bytes) (t : Target) → Written raw t → IsPort t.port
Written-IsPort raw t (Written.bare _ _ e _) = inl e
Written-IsPort raw t (Written.with_port _ port _ _ parsed _) =
    let (set, spells) = parse_port_sound port t.port parsed in
    inr (set, (spells.positive, spells.fits))
Written-IsPort raw t (Written.in_brackets _ port _ _ _ parsed _) =
    let (set, spells) = parse_port_sound port t.port parsed in
    inr (set, (spells.positive, spells.fits))

add_hostname-Adds :
    (lib : Library) (rules grown : RuleSet) (t : Target)
    → IsPort t.port
    → add_hostname lib rules t ≡ ok grown
    → Adds rules grown
unfolding add_hostname
add_hostname-Adds lib rules grown t port h =
    elim (Result-cases (normalize_hostname lib (rule_text t.host))) [
      | inl (name, e) ↦
          let r : HostRule = record {
            hostname = name;
            wildcard = has_prefix t.host (codes "*.");
            port = t.port;
            resolved = [];
          } in
          host r (ground (arith, e)) (record {
            canonical = normalize_hostname-IsCanonical lib (rule_text t.host) name e;
            unresolved = refl;
            port = port;
          })
      | inr (fault, e) ↦ absurd (ground (arith, e))
    ]

pub zone_inversion :
    (a : Addr) (rules grown : RuleSet) (m : PortMatcher)
    → (if zone_of a == []
        then ok (add_address rules (record { address = unmap a; port = m }))
        else err address_with_zone)
      ≡ ok grown
    → (zone_of a ≡ []) × (grown ≡ add_address rules (record { address = unmap a; port = m }))
zone_inversion a rules grown m h = ground (arith, ==_iff (zone_of a) [])

unmap-IsAddressRule :
    (a : Addr) (m : PortMatcher)
    → is_valid a ≡ true
    → zone_of a ≡ []
    → IsPort m
    → IsAddressRule (record { address = unmap a; port = m })
unfolding is_valid zone_of is4in6 unmap
unmap-IsAddressRule a m v z port = record {
  valid = ground arith;
  zone_free = ground arith;
  unmapped = ground arith;
  port = port;
}

add_target-Adds :
    (lib : Library) (rules grown : RuleSet) (t : Target)
    → Laws lib
    → IsPort t.port
    → add_target lib rules t ≡ ok grown
    → Adds rules grown
unfolding add_target
add_target-Adds lib rules grown t laws port h = elim (Option-cases (lib.parse_prefix t.host)) [
  | inr (p, e) ↦
      prefix (record { prefix = normalize_prefix (masked p); port = t.port }) (ground (arith, e))
        port
  | inl no_prefix ↦ elim (Option-cases (lib.parse_addr t.host)) [
    | inr (a, e) ↦
        let (zone_free, same) =
          zone_inversion a rules grown t.port (ground (arith, no_prefix, e)) in
        address (record { address = unmap a; port = t.port }) same
          (unmap-IsAddressRule a t.port (laws.addr_valid t.host a e) zone_free port)
    | inl no_addr ↦ add_hostname-Adds lib rules grown t port (ground (arith, no_prefix, no_addr))
  ]
]

-- An accepted rule appends exactly one rule: a host rule with a canonical name and no addresses yet,
-- an address rule with a valid, unmapped address that has no zone, or a prefix rule. Its port is
-- absent or from 1 to 65535.
pub add-Adds :
    (lib : Library) (rules grown : RuleSet) (raw : Bytes)
    → Laws lib
    → add lib rules raw ≡ ok grown
    → Adds rules grown
unfolding add
add-Adds lib rules grown raw laws h = elim (Result-cases (split_rule_port lib raw)) [
  | inl (t, e) ↦
      add_target-Adds lib rules grown t laws
        (Written-IsPort raw t (split_rule_port-Written lib raw t e)) (ground (arith, e))
  | inr (fault, e) ↦ absurd (ground (arith, e))
]

-- the number of the rules in a set
abbrev pub size : RuleSet → ℕ
size rules = length rules.hosts + length rules.addresses + length rules.prefixes

Adds-size : (rules grown : RuleSet) → Adds rules grown → size grown ≡ size rules + 1
Adds-size rules grown (host r e _) = ap size e ∙ omega (arith, length-append rules.hosts (r ∷ []))
Adds-size rules grown (address r e _) =
    ap size e ∙ omega (arith, length-append rules.addresses (r ∷ []))
Adds-size rules grown (prefix r e _) =
    ap size e ∙ omega (arith, length-append rules.prefixes (r ∷ []))

-- The rules of a set before the host rules are resolved.
pub record IsParsed (rules : RuleSet) : Type 0 where
  pub hosts : All IsHostRule rules.hosts
  pub addresses : All IsAddressRule rules.addresses
  pub prefixes : All (λ (r : PrefixRule). IsPort r.port) rules.prefixes

Adds-IsParsed : (rules grown : RuleSet) → Adds rules grown → IsParsed rules → IsParsed grown
Adds-IsParsed rules grown (host r e is) p = subst IsParsed (sym e) (record {
  hosts = All-append IsHostRule rules.hosts (r ∷ []) p.hosts (is, tt);
  addresses = p.addresses;
  prefixes = p.prefixes;
})
Adds-IsParsed rules grown (address r e is) p = subst IsParsed (sym e) (record {
  hosts = p.hosts;
  addresses = All-append IsAddressRule rules.addresses (r ∷ []) p.addresses (is, tt);
  prefixes = p.prefixes;
})
Adds-IsParsed rules grown (prefix r e is) p = subst IsParsed (sym e) (record {
  hosts = p.hosts;
  addresses = p.addresses;
  prefixes =
      All-append (λ (r : PrefixRule). IsPort r.port) rules.prefixes (r ∷ []) p.prefixes (is, tt);
})

add_all-IsParsed :
    (lib : Library) (rules grown : RuleSet) (raws : List Bytes)
    → Laws lib
    → IsParsed rules
    → add_all lib rules raws ≡ ok grown
    → IsParsed grown × (size grown ≡ size rules + length raws)
unfolding add_all
add_all-IsParsed lib rules grown [] laws p h =
    let same : rules ≡ grown = cc in (subst IsParsed same p, ap size (sym same) ∙ omega arith)
add_all-IsParsed lib rules grown (raw ∷ raws) laws p h = elim (Result-cases (add lib rules raw)) [
  | inr (fault, e) ↦ absurd (ground (arith, e))
  | inl (next, e) ↦
      let adds = add-Adds lib rules next raw laws e in
      let (parsed, count) =
        add_all-IsParsed lib next grown raws laws (Adds-IsParsed rules next adds p)
          (ground (arith, e)) in
      (parsed, omega (arith, count, Adds-size rules next adds))
]

-- Every raw rule becomes one rule of the set, and each is well formed.
pub parse_rules-IsParsed :
    (lib : Library) (raws : List Bytes) (rules : RuleSet)
    → Laws lib
    → parse_rules lib raws ≡ ok rules
    → IsParsed rules × (size rules ≡ length raws)
unfolding parse_rules
parse_rules-IsParsed lib raws rules laws h =
    let (parsed, count) =
      add_all-IsParsed lib no_rules rules raws laws
        (record { hosts = tt; addresses = tt; prefixes = tt }) h in
    (parsed, omega (arith, count))

-- The error of a list of rules is that of its first bad rule: the rules before it are accepted.
pub add_all-first_error :
    (lib : Library) (rules : RuleSet) (raws : List Bytes) (fault : RuleError)
    → add_all lib rules raws ≡ err fault
    → (before : List Bytes) × (raw : Bytes) × (after : List Bytes) × (grown : RuleSet)
      × (inner : RuleError) × (raws ≡ before ++ raw ∷ after)
      × (add_all lib rules before ≡ ok grown)
      × (add lib grown raw ≡ err inner)
      × (fault ≡ parse_rule raw inner)
unfolding add_all
add_all-first_error lib rules [] fault h = cc
add_all-first_error lib rules (raw ∷ raws) fault h = elim (Result-cases (add lib rules raw)) [
  | inr (inner, e) ↦ ([], raw, raws, rules, inner, refl, refl, e, ground (arith, e))
  | inl (next, e) ↦
      let (before, bad, after, grown, inner, split, accepted, refused, same) =
        add_all-first_error lib next raws fault (ground (arith, e)) in
      (
        raw ∷ before,
        bad,
        after,
        grown,
        inner,
        ap (λ l. raw ∷ l) split,
        ground (arith, e, accepted),
        refused,
        same,
      )
]
