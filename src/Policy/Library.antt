-- ===== src/Policy/Library.antt =====
-- What the package takes from elsewhere: the texts that netip.ParseAddr and netip.ParsePrefix
-- accept, and idna.Lookup.ToASCII. They are parameters; the laws are documented behaviour.
use airjail.Base.{ℕ, ◌<◌, ◌≤◌, ◌≡◌, true, [], Option, some, All}
use airjail.Base.Bytes.{Bytes}
use airjail.Netip.{Addr, Prefix, InWidth, is_valid, bit_len, zone_of}

-- `none` stands for an error.
pub record Library : Type 0 where
  pub parse_addr : Bytes → Option Addr
  pub parse_prefix : Bytes → Option Prefix
  pub to_ascii : Bytes → Option Bytes

-- A prefix as ParsePrefix returns it: a valid address with no zone, and a length that fits it.
pub record IsProper (p : Prefix) : Type 0 where
  pub valid : is_valid p.addr ≡ true
  pub fits : InWidth p.addr
  pub zone_free : zone_of p.addr ≡ []
  pub length : ℕ
  pub bits : p.bits ≡ some length
  pub short : length ≤ bit_len p.addr

pub record Laws (lib : Library) : Type 0 where
  pub addr_valid : (s : Bytes) (a : Addr) → lib.parse_addr s ≡ some a → is_valid a ≡ true
  pub addr_fits : (s : Bytes) (a : Addr) → lib.parse_addr s ≡ some a → InWidth a
  pub prefix_proper : (s : Bytes) (p : Prefix) → lib.parse_prefix s ≡ some p → IsProper p
  pub ascii : (s t : Bytes) → lib.to_ascii s ≡ some t → All (λ c. c < 128) t
