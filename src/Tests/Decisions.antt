-- ===== src/Tests/Decisions.antt =====
-- Witnesses and tests of the decisions and of the expansion of internal/policy.
use airjail.Base.{
  ◌+◌, true, false, some, List, [], ◌∷◌, ◌≡◌, ◌↔◌, ◌⊎◌, inl, inr, refl, ok, list_beq, contains,
  nat_eq, list_eq,
}
use airjail.Base.Bytes.{
  Bytes, codes, split, trim_suffix, to_lower, has_prefix, index_byte, last_index_byte, count_byte,
  trim_prefix, has_suffix,
}
use airjail.Netip.{v4, zone_of, unmap, is_valid, addr_eq, addr_beq}
use airjail.Policy.Hostname.{normalize_hostname, valid_utf8}
use airjail.Policy.Rules.{
  RuleSet, HostRule, no_rules, any_port, split_rule_port, add, add_all, add_target, add_hostname,
  rule_text, parse_rules, port_matches,
}
use airjail.Policy.Rules.Prefixes.{mapped}
use airjail.Policy.Decision.{
  Policy, decide, allows, matches_hostname, is_empty, empty, matches, host_rule_matches,
}
use airjail.Policy.Decision.Covers.{Covers}
use airjail.Policy.Decision.Laws.{HasNoRules, join, decide_iff}
use airjail.Policy.Decision.Requests.{Answers, allows_iff}
use airjail.Policy.Resolve.{
  Resolver, Lookups, new_policy, normalize_addresses, lookup, resolve_hosts, resolve_host_rules,
  resolve_rule, expand, cached,
}
use airjail.Policy.Resolve.Answers.{new_policy-same_answer}
use airjail.Tests.Policies.{library, library-Laws}

abbrev example_com : Bytes
example_com = codes "example.com"

abbrev bad_name : Bytes
bad_name = codes "bad.example.com"

-- `--allow example.com:443 --allow example.com --block *.example.com`, with a resolver that answers
-- differently each time
abbrev pub moving : Resolver
moving n host = some (v4 (0x0a000001 + n) ∷ v4 (0x0a000001 + n) ∷ [])

abbrev rule_443 : HostRule
rule_443 = record {
  hostname = example_com;
  wildcard = false;
  port = record { port = 443; set = true };
  resolved = v4 0x0a000001 ∷ [];
}

abbrev rule_any : HostRule
rule_any = record rule_443 { port = any_port }

abbrev rule_wild : HostRule
rule_wild = record { hostname = example_com; wildcard = true; port = any_port; resolved = [] }

abbrev pub mixed : Policy
mixed = record {
  allow = record no_rules { hosts = rule_443 ∷ rule_any ∷ [] };
  block = record no_rules { hosts = rule_wild ∷ [] };
}

abbrev allow_texts : List Bytes
allow_texts = codes "example.com:443" ∷ codes "example.com" ∷ []

abbrev block_texts : List Bytes
block_texts = codes "*.example.com" ∷ []

abbrev asked_one : Lookups
asked_one = record {
  cache = (example_com, some (v4 0x0a000001 ∷ [])) ∷ [];
  asked = example_com ∷ [];
}

built : new_policy library moving false allow_texts block_texts ≡ ok (mixed, asked_one)
unfolding new_policy resolve_host_rules resolve_hosts resolve_rule expand lookup cached
    normalize_addresses parse_rules add_all add split_rule_port list_beq has_prefix index_byte
    last_index_byte count_byte trim_prefix contains normalize_hostname valid_utf8 trim_suffix
    to_lower split add_target add_hostname rule_text is_valid zone_of unmap addr_beq
built = refl

new_policy-same_answer_example : rule_443.resolved ≡ rule_any.resolved
new_policy-same_answer_example =
    new_policy-same_answer library moving false allow_texts block_texts mixed asked_one library-Laws
      built rule_443 rule_any (inl (inl refl)) (inl (inr (inl refl))) refl refl refl

decide_iff_example : (decide mixed example_com (v4 0x0a000001) 443 ≡ true) ↔ (
    (¬ (HasNoRules mixed.allow × HasNoRules mixed.block))
    × (HasNoRules mixed.allow ⊎ Covers mixed.allow example_com (v4 0x0a000001) 443)
    × (¬ Covers mixed.block example_com (v4 0x0a000001) 443))
decide_iff_example = decide_iff mixed example_com (v4 0x0a000001) 443

abbrev allow_only : Policy
allow_only = record { allow = mixed.allow; block = no_rules }

some_rule : ¬ (HasNoRules allow_only.allow × HasNoRules allow_only.block)
some_rule h = cc (h.0.0)

abbrev more_block : RuleSet
more_block = mixed.block

abbrev blocked_more : Policy
blocked_more = record allow_only { block = join allow_only.block more_block }

granted_still : decide blocked_more example_com (v4 0x0a000001) 443 ≡ true
unfolding decide is_empty empty matches host_rule_matches matches_hostname port_matches has_suffix
    list_beq contains addr_beq is_valid
granted_still = refl

granted : decide allow_only example_com (v4 0x0a000001) 443 ≡ true
unfolding decide is_empty empty matches host_rule_matches matches_hostname port_matches has_suffix
    list_beq contains addr_beq is_valid
granted = refl

-- the first block rule of an empty policy grants what it does not cover
blocklist_grants :
    decide (record { allow = no_rules; block = more_block }) (codes "other.org") (v4 7) 80 ≡ true
unfolding decide is_empty empty matches host_rule_matches matches_hostname port_matches has_suffix
    list_beq contains addr_beq is_valid
blocklist_grants = refl

-- a wildcard does not cover its own domain
wildcard_not_self : matches_hostname rule_wild example_com ≡ false
unfolding matches_hostname has_suffix list_beq
wildcard_not_self = refl

allows_iff_example : (allows library mixed bad_name (mapped 0x0a000001) 443 ≡ ok false) ↔ (
    (name : Bytes) × Answers library bad_name (mapped 0x0a000001) 443 name
    × (false ≡ decide mixed name (unmap (mapped 0x0a000001)) 443))
allows_iff_example = allows_iff library mixed bad_name (mapped 0x0a000001) 443 false
