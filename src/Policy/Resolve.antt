-- ===== src/Policy/Resolve.antt =====
-- internal/policy/policy.go: exact hostname rules are expanded by the addresses they resolve to.
-- A resolver may answer the same question differently each time: it is asked with the number of
-- the questions before. The state keeps the cache and the questions asked, in order.
pub mod Normalized
pub mod Answers
pub mod New
pub mod Shared
pub mod Cached
use airjail.Base.{
  ℕ, ◌+◌, Bool, true, false, ◌&&◌, ◌||◌, not, Option, none, some, List, [], ◌∷◌, ◌++◌,
  if◌then◌else◌, length, Result, ok, err, ◌>>=◌, wrap, ◌==◌, nat_eq, list_eq, contains,
}
use airjail.Base.Bytes.{Bytes}
use airjail.Netip.{Addr, addr_eq, is_valid, zone_of, unmap}
use airjail.Policy.Errors.{
  ExpandError, unresolved, no_addresses, PolicyError, parse_allow, parse_block, expand_allow,
  expand_block,
}
use airjail.Policy.Library.{Library}
use airjail.Policy.Rules.{RuleSet, HostRule, parse_rules}
use airjail.Policy.Decision.{Policy}

-- `none` stands for an error of the lookup.
abbrev pub Resolver : Type 0
Resolver = ℕ → Bytes → Option (List Addr)

-- the loop of normalizeAddresses; `normalized` holds the keys of `seen` too
unfoldable pub normalize_onto : List Addr → List Addr → List Addr
normalize_onto normalized [] = normalized
normalize_onto normalized (address ∷ rest) =
    normalize_onto
      (if not (is_valid address)
          || not (zone_of address == [])
          || contains normalized (unmap address)
        then normalized
        else normalized ++ unmap address ∷ [])
      rest

unfoldable pub normalize_addresses : List Addr → List Addr
unfolding normalize_onto
normalize_addresses addresses = normalize_onto [] addresses

abbrev pub Cache : Type 0
Cache = List (Bytes × Option (List Addr))

unfoldable pub cached : Cache → Bytes → Option (Option (List Addr))
cached [] host = none
cached ((key, result) ∷ rest) host = if key == host then some result else cached rest host

pub record Lookups : Type 0 where
  pub cache : Cache
  pub asked : List Bytes

abbrev pub no_lookups : Lookups
no_lookups = record { cache = []; asked = [] }

abbrev normalized_answer : Option (List Addr) → Option (List Addr)
normalized_answer none = none
normalized_answer (some addresses) = some (normalize_addresses addresses)

-- the answer for a hostname, from the cache or else from the resolver
lookup_with :
    Resolver → Bytes → Lookups → Option (Option (List Addr)) → Option (List Addr) × Lookups
lookup_with resolver host s (some result) = (result, s)
lookup_with resolver host s none =
    let result = normalized_answer (resolver (length s.asked) host) in
    (result, record { cache = (host, result) ∷ s.cache; asked = s.asked ++ host ∷ [] })

unfoldable pub lookup : Resolver → Bytes → Lookups → Option (List Addr) × Lookups
unfolding lookup_with
lookup resolver host s = lookup_with resolver host s (cached s.cache host)

-- what the answer does to the rule that it is for
unfoldable pub expand : Bool → HostRule → Option (List Addr) → Result ExpandError HostRule
expand allow_unresolved rule none =
    if allow_unresolved then ok rule else err (unresolved rule.hostname)
expand allow_unresolved rule (some []) =
    if allow_unresolved then ok rule else err (no_addresses rule.hostname)
expand allow_unresolved rule (some (a ∷ rest)) = ok (record rule { resolved = a ∷ rest })

-- one round of the loop over the host rules
unfoldable pub resolve_rule :
    Resolver → Bool → HostRule → Lookups → Result ExpandError (HostRule × Lookups)
unfolding expand
resolve_rule resolver allow_unresolved rule s =
    if rule.wildcard
    then ok (rule, s)
    else (let (answer, s') = lookup resolver rule.hostname s in
        expand allow_unresolved rule answer >>= λ expanded. ok (expanded, s'))

unfoldable pub resolve_hosts :
    Resolver → Bool → List HostRule → Lookups → Result ExpandError (List HostRule × Lookups)
unfolding resolve_rule
resolve_hosts resolver allow_unresolved [] s = ok ([], s)
resolve_hosts resolver allow_unresolved (rule ∷ rules) s =
    resolve_rule resolver allow_unresolved rule s >>= λ (expanded, s').
    resolve_hosts resolver allow_unresolved rules s' >>= λ (rest, s''). ok (expanded ∷ rest, s'')

unfoldable pub resolve_host_rules :
    Resolver → Bool → RuleSet → Lookups → Result ExpandError (RuleSet × Lookups)
unfolding resolve_hosts
resolve_host_rules resolver allow_unresolved rules s =
    resolve_hosts resolver allow_unresolved rules.hosts s >>= λ (hosts, s').
    ok (record rules { hosts = hosts }, s')

-- New, with the questions that it asked: both lists share one cache.
unfoldable pub new_policy :
    Library → Resolver → Bool → List Bytes → List Bytes → Result PolicyError (Policy × Lookups)
unfolding resolve_host_rules
new_policy lib resolver allow_unresolved allow_rules block_rules = do
  allow ← wrap parse_allow (parse_rules lib allow_rules)
  block ← wrap parse_block (parse_rules lib block_rules)
  (allow', s) ← wrap expand_allow (resolve_host_rules resolver allow_unresolved allow no_lookups)
  (block', s') ← wrap expand_block (resolve_host_rules resolver allow_unresolved block s)
  ok (record { allow = allow'; block = block' }, s')
