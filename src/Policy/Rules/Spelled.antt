-- ===== src/Policy/Rules/Spelled.antt =====
-- Which rule each text becomes: parseRules, add and addHostname against the texts.
use airjail.Base.{true, false, some, none, List, [], ◌∷◌, ◌++◌, ◌≡◌, ◌⊎◌, ok, nat_eq, list_eq}
use airjail.Base.Bytes.{Bytes, codes, has_prefix}
use airjail.Netip.{Addr, Prefix, zone_of, unmap, masked}
use airjail.Policy.Library.{Library}
use airjail.Policy.Hostname.{normalize_hostname}
use airjail.Policy.Rules.{
  Target, HostRule, RuleSet, normalize_prefix, add_host, add_address, add_prefix,
}
use airjail.Policy.Rules.Targets.{Written}

-- A wildcard stands for the names below the rest of its text.
abbrev pub Wildcard : Bytes → HostRule → Bytes → Type 0
Wildcard text r rest =
    ((r.wildcard ≡ true) × (text ≡ codes "*." ++ rest))
    ⊎ ((r.wildcard ≡ false) × (has_prefix text (codes "*.") ≡ false) × (rest ≡ text))

-- The one rule that a text adds, by the target that it is written for: the masked and normalized prefix,
-- or else the unmapped address, or else the normalized hostname; always with the target's port.
pub data Spells (lib : Library) (rules : RuleSet) (raw : Bytes) (grown : RuleSet) : Type 0 where
  prefix :
      (t : Target) (p : Prefix)
      → Written raw t
      → lib.parse_prefix t.host ≡ some p
      → grown ≡ add_prefix rules (record { prefix = normalize_prefix (masked p); port = t.port })
      → Spells lib rules raw grown
  address :
      (t : Target) (a : Addr)
      → Written raw t
      → lib.parse_prefix t.host ≡ none
      → lib.parse_addr t.host ≡ some a
      → zone_of a ≡ []
      → grown ≡ add_address rules (record { address = unmap a; port = t.port })
      → Spells lib rules raw grown
  host :
      (t : Target) (r : HostRule) (rest : Bytes)
      → Written raw t
      → lib.parse_prefix t.host ≡ none
      → lib.parse_addr t.host ≡ none
      → Wildcard t.host r rest
      → normalize_hostname lib rest ≡ ok r.hostname
      → r.port ≡ t.port
      → r.resolved ≡ []
      → grown ≡ add_host rules r
      → Spells lib rules raw grown

-- Each text in turn adds its rule.
abbrev pub AllSpell : Library → RuleSet → List Bytes → RuleSet → Type 0
AllSpell lib rules [] grown = rules ≡ grown
AllSpell lib rules (raw ∷ raws) grown =
    (next : RuleSet) × Spells lib rules raw next × AllSpell lib next raws grown
