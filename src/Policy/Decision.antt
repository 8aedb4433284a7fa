-- ===== src/Policy/Decision.antt =====
-- internal/policy/policy.go: the decision of a parsed policy about one destination.
pub mod Covers
pub mod Laws
pub mod Requests
use airjail.Base.{
  ℕ, ◌+◌, Bool, true, false, ◌&&◌, ◌||◌, not, List, [], ◌∷◌, ◌++◌, ltb, if◌then◌else◌, length, any,
  Result, ok, err, ◌>>=◌, wrap, ◌==◌, nat_eq, list_eq, contains,
}
use airjail.Base.Bytes.{Bytes, codes, has_suffix}
use airjail.Netip.{Addr, invalid, addr_eq, is_valid, zone_of, unmap, prefix_contains}
use airjail.Policy.Errors.{
  AllowsError, port_zero, no_destination, destination_zone, destination_hostname,
}
use airjail.Policy.Library.{Library}
use airjail.Policy.Hostname.{normalize_hostname}
use airjail.Policy.Rules.{RuleSet, HostRule, AddressRule, PrefixRule, port_matches}

unfoldable pub empty : RuleSet → Bool
empty rules = length rules.hosts == 0 && length rules.addresses == 0 && length rules.prefixes == 0

unfoldable pub matches_hostname : HostRule → Bytes → Bool
matches_hostname rule hostname =
    if not rule.wildcard
    then hostname == rule.hostname
    else ltb (length rule.hostname) (length hostname)
      && has_suffix hostname (codes "." ++ rule.hostname)

-- one round of each loop of `matches`
unfoldable pub host_rule_matches : Bytes → Addr → ℕ → HostRule → Bool
host_rule_matches hostname address port rule =
    port_matches rule.port port
    && (not (hostname == []) && matches_hostname rule hostname
        || is_valid address && contains rule.resolved address)

unfoldable pub address_rule_matches : Addr → ℕ → AddressRule → Bool
address_rule_matches address port rule = port_matches rule.port port && rule.address == address

unfoldable pub prefix_rule_matches : Addr → ℕ → PrefixRule → Bool
prefix_rule_matches address port rule =
    port_matches rule.port port && prefix_contains rule.prefix address

unfoldable pub matches : RuleSet → Bytes → Addr → ℕ → Bool
matches rules hostname address port =
    any (host_rule_matches hostname address port) rules.hosts
    || is_valid address
      && (any (address_rule_matches address port) rules.addresses
          || any (prefix_rule_matches address port) rules.prefixes)

pub record Policy : Type 0 where
  pub allow : RuleSet
  pub block : RuleSet

unfoldable pub is_empty : Policy → Bool
is_empty policy = empty policy.allow && empty policy.block

-- the part of Allows behind the checks: `hostname` and `address` are normalized
unfoldable pub decide : Policy → Bytes → Addr → ℕ → Bool
unfolding is_empty
decide policy hostname address port =
    if is_empty policy
    then false
    else if empty policy.allow || matches policy.allow hostname address port
    then not (matches policy.block hostname address port)
    else false

-- an empty hostname is not normalized
unfoldable pub request_hostname : Library → Bytes → Result AllowsError Bytes
request_hostname lib hostname =
    if hostname == [] then ok [] else wrap destination_hostname (normalize_hostname lib hostname)

unfoldable pub request_address : Addr → Result AllowsError Addr
request_address address =
    if is_valid address
    then (if zone_of address == [] then ok (unmap address) else err destination_zone)
    else ok address

unfoldable pub allows : Library → Policy → Bytes → Addr → ℕ → Result AllowsError Bool
allows lib policy hostname address port =
    if port == 0
    then err port_zero
    else if hostname == [] && not (is_valid address)
    then err no_destination
    else do
      name ← request_hostname lib hostname
      target ← request_address address
      ok (decide policy name target port)
