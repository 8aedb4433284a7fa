-- ===== src/Policy/Rules/Prefixes.antt =====
-- Masking and IPv4-mapped prefixes: what a stored CIDR rule contains.
use airjail.Base.{
  ℕ, zero, suc, ◌+◌, ◌-◌, ◌*◌, ◌/◌, ◌%◌, ◌^◌, ◌≤◌, ◌<◌, true, some, [], ◌≡◌, inl, inr, sym, ap, ◌∙◌,
  arith, ◌==◌, nat_eq, list_eq, list_beq, ◌↔◌, Bool-cases,
}
use airjail.Netip.{
  Addr, Prefix, v4, v6, is_valid, is4in6, unmap, bit_len, prefix_from, with_zone, masked,
  prefix_contains, addr_eq,
}
use airjail.Netip.Bits.{shr, shl, clear_low, shr-clear_low, shr-add-shl}
use airjail.Policy.Rules.{normalize_prefix}

-- the address ::ffff:n
abbrev pub mapped : ℕ → Addr
mapped n = v6 (0xffff * 2 ^ 32 + n) []

-- the prefix of length `b` of an address
abbrev pub of_length : Addr → ℕ → Prefix
of_length a b = record { addr = a; bits = some b }

masked_v6 :
    (n b : ℕ)
    → b ≤ 128
    → masked (of_length (v6 n []) b) ≡ of_length (v6 (clear_low n (128 - b)) []) b
unfolding masked prefix_from bit_len is_valid with_zone
masked_v6 n b h = ground arith

masked_v4 :
    (n b : ℕ) → b ≤ 32 → masked (of_length (v4 n) b) ≡ of_length (v4 (clear_low n (32 - b))) b
unfolding masked prefix_from bit_len is_valid with_zone
masked_v4 n b h = ground arith

shl-32 : (c : ℕ) → shl c 32 ≡ c * 2 ^ 32
unfolding shl
shl-32 c = omega arith

shl-33 : (c : ℕ) → shl c 33 ≡ c * 2 ^ 33
unfolding shl
shl-33 c = omega arith

shl-add : (m k j : ℕ) → shl m (k + j) ≡ shl (shl m j) k
unfolding shl
shl-add m zero j = let e : 0 + j ≡ j = omega arith in ap (shl m) e
shl-add m (suc k) j =
    let e : suc k + j ≡ suc (k + j) = omega arith in ap (shl m) e ∙ ap (λ t. t * 2) (shl-add m k j)

-- with at least 33 bits cleared, bit 32 is zero
shl-even : (m k : ℕ) → 33 ≤ k → shl m k / 2 ^ 32 % 2 ≡ 0
shl-even m k h =
    let split : k ≡ 33 + (k - 33) = omega arith in
    let shifted : shl m k ≡ shl (shl m (k - 33)) 33 = ap (shl m) split ∙ shl-add m 33 (k - 33) in
    omega (arith, shifted, shl-33 (shl m (k - 33)))

-- A masked prefix that is IPv4-mapped is at least 96 bits long.
mapped_long : (n b : ℕ) → b ≤ 128 → is4in6 (v6 (clear_low n (128 - b)) []) ≡ true → 96 ≤ b
unfolding clear_low is4in6
mapped_long n b h m = ground (arith, shl-even (shr n (128 - b)) (128 - b))

shr-mapped : (k n : ℕ) → k ≤ 32 → shr (0xffff * 2 ^ 32 + n) k ≡ shl 0xffff (32 - k) + shr n k
shr-mapped k n h =
    let split : k + (32 - k) ≡ 32 = omega arith in
    let shifted : shl 0xffff (k + (32 - k)) ≡ 0xffff * 2 ^ 32 =
      ap (shl 0xffff) split ∙ shl-32 0xffff in
    ap (λ t. shr (t + n) k) (sym shifted) ∙ shr-add-shl k (32 - k) 0xffff n

-- what `normalize_prefix` makes of a masked prefix that is IPv4-mapped
normalized_mapped :
    (n b : ℕ)
    → b ≤ 128
    → is4in6 (v6 (clear_low n (128 - b)) []) ≡ true
    → normalize_prefix (masked (of_length (v6 n []) b))
      ≡ of_length (v4 (clear_low n (128 - b) % 2 ^ 32)) (b - 96)
unfolding normalize_prefix prefix_from bit_len is_valid with_zone is4in6 unmap
normalized_mapped n b h m = rw (masked_v6 n b h) (ground (arith, mapped_long n b h m))

same_test : (a b c d : ℕ) → (a ≡ b) ↔ (c ≡ d) → (a == b) ≡ (c == d)
same_test a b c d iff = elim (Bool-cases (a == b)) [
  | inl e ↦ ground (arith, iff.0 (ground arith))
  | inr e ↦ elim (Bool-cases (c == d)) [
    | inl e' ↦ absurd (ground (arith, iff.1 (ground arith)))
    | inr e' ↦ cc
  ]
]

mapped_parts :
    (n k : ℕ)
    → is4in6 (v6 (clear_low n k) []) ≡ true
    → clear_low n k ≡ 0xffff * 2 ^ 32 + clear_low n k % 2 ^ 32
unfolding is4in6
mapped_parts n k m = ground arith

-- the leading bits of an IPv4-mapped network, seen at 128 and at 32 bits
leading_bits :
    (n k a : ℕ)
    → k ≤ 32
    → is4in6 (v6 (clear_low n k) []) ≡ true
    → (shr a k ≡ shr (clear_low n k % 2 ^ 32) k) ↔ (shr (0xffff * 2 ^ 32 + a) k ≡ shr n k)
leading_bits n k a h m =
    let low = clear_low n k % 2 ^ 32 in
    let network : shr n k ≡ shr (0xffff * 2 ^ 32 + low) k =
      sym (shr-clear_low n k) ∙ ap (λ t. shr t k) (mapped_parts n k m) in
    omega (arith, network, shr-mapped k a h, shr-mapped k low h)

-- A CIDR rule whose masked network is IPv4-mapped contains an IPv4 address exactly when the prefix
-- as it was written contains the IPv4-mapped form of the address. Its length stays a length of an
-- IPv4 prefix: nothing is subtracted below zero.
pub normalize_prefix-contains :
    (n b a : ℕ)
    → n < 2 ^ 128
    → b ≤ 128
    → a < 2 ^ 32
    → is4in6 (masked (of_length (v6 n []) b)).addr ≡ true
    → (prefix_contains (normalize_prefix (masked (of_length (v6 n []) b))) (v4 a)
        ≡ prefix_contains (of_length (v6 n []) b) (mapped a))
      × ((normalize_prefix (masked (of_length (v6 n []) b))).bits ≡ some (b - 96))
      × (b - 96 ≤ 32)
unfolding prefix_contains list_beq
normalize_prefix-contains n b a wide short narrow m =
    let m' : is4in6 (v6 (clear_low n (128 - b)) []) ≡ true = rw (masked_v6 n b short) at m in
    let normal = normalized_mapped n b short m' in
    let long = mapped_long n b short m' in
    let width : 32 - (b - 96) ≡ 128 - b = omega arith in
    (
      rw (normal, width) (same_test _ _ _ _ (leading_bits n (128 - b) a (omega arith) m')),
      ap (λ (p : Prefix). p.bits) normal,
      omega arith,
    )
