-- ===== src/Tests/Rules.antt =====
-- Witnesses and tests of the parts of internal/policy that read text.
use airjail.Base.{
  ℕ, ◌+◌, ◌*◌, ◌-◌, ◌^◌, ◌≤◌, true, false, some, List, [], ◌∷◌, ◌≡◌, refl, arith, ok, err, list_beq,
  contains, nat_eq,
}
use airjail.Base.Bytes.{
  Bytes, codes, split, trim_suffix, to_lower, has_prefix, index_byte, last_index_byte, count_byte,
  trim_prefix,
}
use airjail.Netip.{
  v4, v6, zone_of, unmap, is4in6, masked, prefix_contains, is_valid, with_zone, prefix_from,
  bit_len,
}
use airjail.Netip.Bits.{clear_low, shr}
use airjail.Policy.Errors.{parse_rule, port_range}
use airjail.Policy.Hostname.{normalize_hostname, valid_utf8}
use airjail.Policy.Hostname.Laws.{IsCanonical, normalize_hostname-IsCanonical}
use airjail.Policy.Destination.{Destination, parse_destination}
use airjail.Policy.Destination.Laws.{Shape, parse_destination-Shape}
use airjail.Policy.Rules.{
  Target, RuleSet, no_rules, parse_port, split_rule_port, normalize_prefix, add, add_all,
  add_target, add_hostname, rule_text, parse_rules,
}
use airjail.Policy.Rules.Prefixes.{mapped, of_length, normalize_prefix-contains}
use airjail.Tests.Policies.{library, library-Laws}

abbrev example_com : Bytes
example_com = codes "example.com"

normalized : normalize_hostname library (codes "Example.COM.") ≡ ok example_com
unfolding normalize_hostname valid_utf8 trim_suffix to_lower split list_beq
normalized = refl

normalize_hostname-IsCanonical_example : IsCanonical example_com
normalize_hostname-IsCanonical_example =
    normalize_hostname-IsCanonical library (codes "Example.COM.") example_com normalized

abbrev scoped : Destination
scoped = record { hostname = []; address = v6 (0xfe80 * 2 ^ 112 + 1) []; zone = codes "eth0" }

scoped_parsed : parse_destination library (codes "fe80::1%eth0") ≡ ok scoped
unfolding parse_destination list_beq zone_of is4in6 with_zone
scoped_parsed = refl

parse_destination-Shape_example : Shape scoped
parse_destination-Shape_example =
    parse_destination-Shape library (codes "fe80::1%eth0") scoped library-Laws scoped_parsed

parsed_address :
    library.parse_addr (codes "fe80::1%eth0") ≡ some (v6 (0xfe80 * 2 ^ 112 + 1) (codes "eth0"))
unfolding list_beq
parsed_address = refl

abbrev with_port_443 : Target
with_port_443 = record {
  host = example_com;
  port = record { port = 443; set = true };
  bracketed = false;
}

split_example : split_rule_port library (codes "example.com:443") ≡ ok with_port_443
unfolding split_rule_port list_beq has_prefix index_byte last_index_byte count_byte
split_example = refl

port_443 : parse_port (codes "443") ≡ ok (record { port = 443; set = true })
unfolding parse_port
port_443 = refl

no_bracket : contains (codes "fe80::1") b']' ≡ false
unfolding contains
no_bracket = refl

-- ::ffff:10.0.0.1/104
abbrev mapped_ten : ℕ
mapped_ten = 0xffff * 2 ^ 32 + 0x0a000001

mapped_masked : is4in6 (masked (of_length (v6 mapped_ten []) 104)).addr ≡ true
unfolding is4in6 masked clear_low prefix_from with_zone
mapped_masked = refl

normalize_prefix-contains_example :
    (prefix_contains (normalize_prefix (masked (of_length (v6 mapped_ten []) 104))) (v4 0x0affffff)
      ≡ prefix_contains (of_length (v6 mapped_ten []) 104) (mapped 0x0affffff))
    × ((normalize_prefix (masked (of_length (v6 mapped_ten []) 104))).bits ≡ some (104 - 96))
    × (104 - 96 ≤ 32)
normalize_prefix-contains_example =
    normalize_prefix-contains mapped_ten 104 0x0affffff (omega arith) (omega arith) (omega arith)
      mapped_masked

ten_contains :
    prefix_contains (normalize_prefix (masked (of_length (v6 mapped_ten []) 104))) (v4 0x0affffff)
    ≡ true
unfolding prefix_contains normalize_prefix masked clear_low prefix_from is4in6 unmap bit_len
    is_valid with_zone shr
ten_contains = refl

abbrev one_rule : RuleSet
one_rule = record no_rules {
  hosts =
      record {
        hostname = example_com;
        wildcard = true;
        port = record { port = 443; set = true };
        resolved = [];
      }
      ∷ [];
}

abbrev wild_rule : List Bytes
wild_rule = codes "*.example.com:443" ∷ []

abbrev bad_rules : List Bytes
bad_rules = codes "*.example.com:443" ∷ codes "example.com:0" ∷ []

bad_port : add_all library no_rules bad_rules ≡ err (parse_rule (codes "example.com:0") port_range)
unfolding parse_rules add_all add split_rule_port list_beq has_prefix index_byte last_index_byte
    count_byte trim_prefix contains normalize_hostname valid_utf8 trim_suffix to_lower split
    add_target add_hostname rule_text
bad_port = refl
