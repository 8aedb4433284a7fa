-- ===== src/Policy/Rules.antt =====
-- internal/policy/rules.go: rules as text, and the rule sets they are collected in.
pub mod Added
pub mod Spelled
pub mod Targets
pub mod Ports
pub mod Prefixes
use airjail.Base.{
  ℕ, zero, suc, ◌+◌, ◌-◌, ◌*◌, ◌/◌, ◌^◌, Bool, true, false, ◌&&◌, ◌||◌, not, Option, none, some,
  List, [], ◌∷◌, ◌++◌, ltb, leb, if◌then◌else◌, length, take, drop, Result, ok, err, ◌>>=◌, ◌>>◌,
  wrap, ◌==◌, nat_eq, list_eq, contains,
}
use airjail.Base.Bytes.{
  Bytes, codes, has_prefix, trim_prefix, index_byte, last_index_byte, count_byte,
}
use airjail.Netip.{Addr, Prefix, zone_of, unmap, is4in6, prefix_from, masked, no_prefix}
use airjail.Policy.Errors.{
  RuleError, rule_empty, missing_bracket, bracket_empty, bracket_needs_port, target_empty,
  unbracketed_target, port_empty, port_range, address_with_zone, brackets_need_ip, bad_wildcard,
  rule_hostname, parse_rule,
}
use airjail.Policy.Library.{Library}
use airjail.Policy.Hostname.{normalize_hostname}

pub record PortMatcher : Type 0 where
  pub port : ℕ
  pub set : Bool

abbrev pub any_port : PortMatcher
any_port = record { port = 0; set = false }

unfoldable pub port_matches : PortMatcher → ℕ → Bool
port_matches m port = not m.set || m.port == port

pub record HostRule : Type 0 where
  pub hostname : Bytes
  pub wildcard : Bool
  pub port : PortMatcher
  pub resolved : List Addr

pub record AddressRule : Type 0 where
  pub address : Addr
  pub port : PortMatcher

pub record PrefixRule : Type 0 where
  pub prefix : Prefix
  pub port : PortMatcher

pub record RuleSet : Type 0 where
  pub hosts : List HostRule
  pub addresses : List AddressRule
  pub prefixes : List PrefixRule

abbrev pub no_rules : RuleSet
no_rules = record { hosts = []; addresses = []; prefixes = [] }

-- strconv.ParseUint(s, 10, 16) on a text that is not empty: the digits are read in 64 bits, and
-- a number above 65535 is out of range.
unfoldable pub parse_digits : Bytes → ℕ → Option ℕ
parse_digits [] n = some n
parse_digits (c ∷ s) n =
    if leb b'0' c && leb c b'9'
    then (let grown = n * 10 + (c - b'0') in if ltb 65535 grown then none else parse_digits s grown)
    else none

unfoldable pub parse_port : Bytes → Result RuleError PortMatcher
unfolding parse_digits
parse_port [] = err port_empty
parse_port (c ∷ s) = elim (parse_digits (c ∷ s) 0) [
  | none ↦ err port_range
  | some port ↦ if port == 0 then err port_range else ok (record { port = port; set = true })
]

-- The target, the port and whether the target stood in brackets.
pub record Target : Type 0 where
  pub host : Bytes
  pub port : PortMatcher
  pub bracketed : Bool

unfoldable pub split_bracketed : Bytes → Option ℕ → Result RuleError Target
unfolding parse_port
split_bracketed raw none = err missing_bracket
split_bracketed raw (some closing) =
    if closing == 1
    then err bracket_empty
    else if leb (length raw) (suc closing) || not (take 1 (drop (suc closing) raw) == codes ":")
    then err bracket_needs_port
    else (parse_port (drop (suc (suc closing)) raw) >>= λ port.
        ok (record { host = take (closing - 1) (drop 1 raw); port = port; bracketed = true }))

-- The text up to its only colon and behind it; `separator` is the colon's place.
unfoldable pub split_at_colon : Bytes → Option ℕ → Result RuleError Target
unfolding parse_port
split_at_colon raw none = err unbracketed_target
split_at_colon raw (some separator) =
    if separator == 0
    then err target_empty
    else (parse_port (drop (suc separator) raw) >>= λ port.
        ok (record { host = take separator raw; port = port; bracketed = false }))

abbrev whole : Bytes → Target
whole raw = record { host = raw; port = any_port; bracketed = false }

unfoldable pub split_rule_port : Library → Bytes → Result RuleError Target
unfolding split_bracketed split_at_colon
split_rule_port lib raw =
    if raw == []
    then err rule_empty
    else if has_prefix raw (codes "[")
    then split_bracketed raw (index_byte raw b']')
    else elim (lib.parse_addr raw) [
      | some address ↦ ok (whole raw)
      | none ↦ elim (lib.parse_prefix raw) [
        | some prefix ↦ ok (whole raw)
        | none ↦
            if count_byte raw b':' == 0
            then ok (whole raw)
            else if count_byte raw b':' == 1
            then split_at_colon raw (last_index_byte raw b':')
            else err unbracketed_target
      ]
    ]

-- `prefix.Bits() - 96`, with `none` for a negative number
abbrev minus_96 : Option ℕ → Option ℕ
minus_96 none = none
minus_96 (some b) = if leb 96 b then some (b - 96) else none

unfoldable pub normalize_prefix : Prefix → Prefix
normalize_prefix p = if is4in6 p.addr then prefix_from (unmap p.addr) (minus_96 p.bits) else p

abbrev pub add_host : RuleSet → HostRule → RuleSet
add_host rules rule = record rules { hosts = rules.hosts ++ rule ∷ [] }

abbrev pub add_address : RuleSet → AddressRule → RuleSet
add_address rules rule = record rules { addresses = rules.addresses ++ rule ∷ [] }

abbrev pub add_prefix : RuleSet → PrefixRule → RuleSet
add_prefix rules rule = record rules { prefixes = rules.prefixes ++ rule ∷ [] }

-- the hostname behind a leading `*.`
unfoldable pub rule_text : Bytes → Bytes
rule_text host = if has_prefix host (codes "*.") then trim_prefix host (codes "*.") else host

-- the part of `add` behind the two parsers
unfoldable pub add_hostname : Library → RuleSet → Target → Result RuleError RuleSet
add_hostname lib rules target =
    if target.bracketed
    then err brackets_need_ip
    else (let wildcard = has_prefix target.host (codes "*.") in
        let host = rule_text target.host in
        if contains host b'*'
        then err bad_wildcard
        else (wrap rule_hostname (normalize_hostname lib host) >>= λ hostname. ok (
            add_host rules (record {
              hostname = hostname;
              wildcard = wildcard;
              port = target.port;
              resolved = [];
            }))))

unfoldable pub add_target : Library → RuleSet → Target → Result RuleError RuleSet
add_target lib rules target = elim (lib.parse_prefix target.host) [
  | some prefix ↦
      ok (
        add_prefix rules (record { prefix = normalize_prefix (masked prefix); port = target.port }))
  | none ↦ elim (lib.parse_addr target.host) [
    | some address ↦
        if zone_of address == []
        then ok (add_address rules (record { address = unmap address; port = target.port }))
        else err address_with_zone
    | none ↦ add_hostname lib rules target
  ]
]

unfoldable pub add : Library → RuleSet → Bytes → Result RuleError RuleSet
add lib rules raw = split_rule_port lib raw >>= add_target lib rules

-- the loop of parseRules over the raw rules that are left
unfoldable pub add_all : Library → RuleSet → List Bytes → Result RuleError RuleSet
add_all lib rules [] = ok rules
add_all lib rules (raw ∷ raws) =
    wrap (parse_rule raw) (add lib rules raw) >>= λ grown. add_all lib grown raws

unfoldable pub parse_rules : Library → List Bytes → Result RuleError RuleSet
parse_rules lib raws = add_all lib no_rules raws
