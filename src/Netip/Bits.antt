-- ===== src/Netip/Bits.antt =====
-- Shifts of numbers by a variable count.
use airjail.Base.{◌∙◌, ℕ, zero, suc, ◌+◌, ◌*◌, ◌/◌, ◌≡◌, refl, ap, arith}

unfoldable pub shr : ℕ → ℕ → ℕ
shr n zero = n
shr n (suc k) = shr (n / 2) k

unfoldable pub shl : ℕ → ℕ → ℕ
shl n zero = n
shl n (suc k) = shl n k * 2

-- the number with its low `k` bits cleared
unfoldable pub clear_low : ℕ → ℕ → ℕ
unfolding shr shl
clear_low n k = shl (shr n k) k

-- A multiple of 2^(j+k) goes through a shift by `k`.
pub shr-add-shl : (k j c n : ℕ) → shr (shl c (k + j) + n) k ≡ shl c j + shr n k
unfolding shr shl
shr-add-shl zero j c n = rw zero_add refl
  where
    zero_add : zero + j ≡ j
    zero_add = omega arith
shr-add-shl (suc k) j c n = ap (λ m. shr m k) halved ∙ shr-add-shl k j c (n / 2)
  where
    unroll : shl c (suc k + j) ≡ shl c (k + j) * 2
    unroll = let e : suc k + j ≡ suc (k + j) = omega arith in ap (shl c) e

    halved : (shl c (suc k + j) + n) / 2 ≡ shl c (k + j) + n / 2
    halved = omega (arith, unroll)

pub shr-shl : (k n : ℕ) → shr (shl n k) k ≡ n
unfolding shr shl
shr-shl zero n = refl
shr-shl (suc k) n = ap (λ m. shr m k) halved ∙ shr-shl k n
  where
    halved : shl n k * 2 / 2 ≡ shl n k
    halved = omega arith

-- Clearing the low bits does not change the bits above them.
pub shr-clear_low : (n k : ℕ) → shr (clear_low n k) k ≡ shr n k
unfolding clear_low
shr-clear_low n k = shr-shl k (shr n k)
