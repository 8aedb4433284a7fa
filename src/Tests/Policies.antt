-- ===== src/Tests/Policies.antt =====
-- Witnesses and tests of internal/policy.
use airjail.Base.{
  ◌+◌, ◌*◌, ◌^◌, ◌<◌, true, Option, none, some, [], ◌∷◌, ◌≡◌, inl, inr, refl, arith, all, ltb, All,
  ◌==◌, nat_eq, list_eq, if◌then◌else◌, Bool-cases, subst,
}
use airjail.Base.Bytes.{Bytes, codes}
use airjail.Netip.{Addr, Prefix, v4, v6, InWidth, is_valid, zone_of, bit_len, addr_eq}
use airjail.Policy.Library.{Library, Laws, IsProper}

abbrev pub parse_addr : Bytes → Option Addr
parse_addr s =
    if s == codes "10.0.0.1"
    then some (v4 0x0a000001)
    else if s == codes "fe80::1%eth0"
    then some (v6 (0xfe80 * 2 ^ 112 + 1) (codes "eth0"))
    else none

abbrev pub parse_prefix : Bytes → Option Prefix
parse_prefix s =
    if s == codes "10.0.0.0/8" then some (record { addr = v4 0x0a000000; bits = some 8 }) else none

abbrev pub to_ascii : Bytes → Option Bytes
to_ascii s = if all (λ c. ltb c 128) s then some s else none

abbrev pub library : Library
library = record { parse_addr = parse_addr; parse_prefix = parse_prefix; to_ascii = to_ascii }

all_ascii : (s : Bytes) → all (λ c. ltb c 128) s ≡ true → All (λ c. c < 128) s
all_ascii [] h = tt
all_ascii (c ∷ s) h = ground (arith, all_ascii s)

ten : IsProper (record { addr = v4 0x0a000000; bits = some 8 })
unfolding is_valid zone_of bit_len
ten = record {
  valid = refl;
  fits = omega arith;
  zone_free = refl;
  length = 8;
  bits = refl;
  short = omega arith;
}

library_fits : (s : Bytes) (a : Addr) → parse_addr s ≡ some a → InWidth a
library_fits s a h = elim (Bool-cases (s == codes "10.0.0.1")) [
  | inl e ↦ let same : v4 0x0a000001 ≡ a = ground (arith, e) in subst InWidth same (omega arith)
  | inr e ↦ elim (Bool-cases (s == codes "fe80::1%eth0")) [
    | inl e' ↦
        let same : v6 (0xfe80 * 2 ^ 112 + 1) (codes "eth0") ≡ a = ground (arith, e, e') in
        subst InWidth same (omega arith)
    | inr e' ↦ absurd (ground (arith, e, e'))
  ]
]

pub library-Laws : Laws library
unfolding is_valid
library-Laws = record {
  addr_valid = λ s a h. ground arith;
  addr_fits = library_fits;
  prefix_proper = λ s p h. elim (Bool-cases (s == codes "10.0.0.0/8")) [
    | inl e ↦
        let same : record { addr = v4 0x0a000000; bits = some 8 } ≡ p = ground (arith, e) in
        subst IsProper same ten
    | inr e ↦ absurd (ground (arith, e))
  ];
  ascii = λ s t h. elim (Bool-cases (all (λ c. ltb c 128) s)) [
    | inl e ↦
        let same : s ≡ t = ground (arith, e) in subst (All (λ c. c < 128)) same (all_ascii s e)
    | inr e ↦ absurd (ground (arith, e))
  ];
}
