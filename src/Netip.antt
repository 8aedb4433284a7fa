-- ===== src/Netip.antt =====
-- The Go standard library's net/netip as far as the program uses it: addresses and prefixes.
-- A 128-bit address is one number; `v4 n` and `v6 n zone` carry an address of 32 and of 128 bits.
pub mod Bits
use airjail.Base.{
  ℕ, zero, suc, ◌+◌, ◌-◌, ◌/◌, ◌%◌, ◌^◌, ◌<◌, Bool, true, false, not, ◌&&◌, Option, none, some, [],
  ◌≡◌, refl, ◌↔◌, arith, leb, if◌then◌else◌, Eq, ◌==◌, ==_iff, nat_eq, list_eq,
}
use airjail.Base.Bytes.{Bytes}
use airjail.Netip.Bits.{shr, clear_low}

-- `invalid` is the zero Addr.
pub data Addr : Type 0 where
  invalid : Addr
  v4 : ℕ → Addr
  v6 : ℕ → Bytes → Addr

unfoldable pub addr_beq : Addr → Addr → Bool
addr_beq invalid invalid = true
addr_beq (v4 n) (v4 m) = n == m
addr_beq (v6 n z) (v6 m y) = n == m && z == y
addr_beq _ _ = false

pub addr_beq_iff : (a b : Addr) → (addr_beq a b ≡ true) ↔ (a ≡ b)
unfolding addr_beq
addr_beq_iff (v6 n z) (v6 m y) = ground (arith, ==_iff z y)
addr_beq_iff (v4 n) (v4 m) = ground arith
addr_beq_iff invalid invalid = ground arith
addr_beq_iff a b = ground arith

instance abbrev pub addr_eq : Eq Addr
addr_eq = record {
  same = addr_beq;
  same_sound = λ a b h. (addr_beq_iff a b).0 h;
  same_refl = λ a. (addr_beq_iff a a).1 refl;
}

unfoldable pub is_valid : Addr → Bool
is_valid invalid = false
is_valid (v4 n) = true
is_valid (v6 n z) = true

unfoldable pub is6 : Addr → Bool
is6 (v6 n z) = true
is6 _ = false

unfoldable pub zone_of : Addr → Bytes
zone_of (v6 n z) = z
zone_of _ = []

-- The bits above the low 32 are 0xffff.
unfoldable pub is4in6 : Addr → Bool
is4in6 (v6 n z) = n / 2 ^ 32 == 0xffff
is4in6 _ = false

-- An IPv4-mapped address becomes IPv4 and loses its zone.
unfoldable pub unmap : Addr → Addr
unmap (v6 n z) = if n / 2 ^ 32 == 0xffff then v4 (n % 2 ^ 32) else v6 n z
unmap (v4 n) = v4 n
unmap invalid = invalid

unfoldable pub with_zone : Addr → Bytes → Addr
with_zone (v6 n z) zone = v6 n zone
with_zone a zone = a

-- Addresses as the library builds them: the number fits its width.
abbrev pub InWidth : Addr → Type 0
InWidth invalid = Unit
InWidth (v4 n) = n < 2 ^ 32
InWidth (v6 n z) = n < 2 ^ 128

-- `bits` is `none` for the -1 of an invalid prefix.
pub record Prefix : Type 0 where
  pub addr : Addr
  pub bits : Option ℕ

-- Addr.BitLen
unfoldable pub bit_len : Addr → ℕ
bit_len invalid = 0
bit_len (v4 n) = 32
bit_len (v6 n z) = 128

-- PrefixFrom, with `none` for a negative length.
unfoldable pub prefix_from : Addr → Option ℕ → Prefix
unfolding bit_len is_valid with_zone
prefix_from a none = record { addr = with_zone a []; bits = none }
prefix_from a (some b) = record {
  addr = with_zone a [];
  bits = if is_valid a && leb b (bit_len a) then some b else none;
}

abbrev pub no_prefix : Prefix
no_prefix = record { addr = invalid; bits = none }

-- Prefix.Masked: the bits behind the prefix are cleared.
masked_from : Addr → Option ℕ → Prefix
unfolding prefix_from
masked_from a none = no_prefix
masked_from invalid (some b) = no_prefix
masked_from (v4 n) (some b) =
    if leb b 32 then prefix_from (v4 (clear_low n (32 - b))) (some b) else no_prefix
masked_from (v6 n z) (some b) =
    if leb b 128 then prefix_from (v6 (clear_low n (128 - b)) z) (some b) else no_prefix

unfoldable pub masked : Prefix → Prefix
unfolding masked_from
masked p = masked_from p.addr p.bits

-- Prefix.Contains: same family, no zone, and the leading bits agree.
contains_from : Addr → Option ℕ → Addr → Bool
contains_from (v4 m) (some b) (v4 n) = shr n (32 - b) == shr m (32 - b)
contains_from (v6 m y) (some b) (v6 n z) = z == [] && (shr n (128 - b) == shr m (128 - b))
contains_from _ _ _ = false

unfoldable pub prefix_contains : Prefix → Addr → Bool
unfolding contains_from
prefix_contains p a = contains_from p.addr p.bits a
