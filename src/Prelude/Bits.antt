-- ===== src/Prelude/Bits.antt =====
-- `&` and `|` of native numbers as arithmetic: a mask of low bits is a remainder, and fields that
-- do not overlap add up.
use Prim.Native.Nat.{
  ℕ, zero, suc, ◌+◌, ◌-◌, ◌*◌, ◌/◌, ◌%◌, ◌^◌, ◌≤◌, ◌<◌, min, max, digits, bitwise, bit_and, bit_or,
  bit_and-bitwise, bit_or-bitwise,
}
use mathlib.Core.Path.{◌≡◌, refl, ap}
use native.Mathlib.Nat.{le_refl, pow-suc, one-le-pow}
use native.Mathlib.Omega.{arith}

-- Fuel beyond the first operand does not change a digit recursion.
digits_more :
    (z : ℕ → ℕ) (f : ℕ → ℕ → ℕ) (n m a b : ℕ) → a ≤ n → a ≤ m → digits z f n a b ≡ digits z f m a b
digits_more z f (suc n) (suc m) (suc a) b hn hm =
    rw (digits_more z f n m (suc a / 2) (b / 2) (omega arith) (omega arith))
digits_more z f zero zero a b hn hm = refl
digits_more z f (suc n) (suc m) zero b hn hm = refl
digits_more z f (suc n) zero zero b hn hm = refl
digits_more z f zero (suc m) zero b hn hm = refl
digits_more z f zero (suc m) (suc a) b hn hm = absurd (omega arith)
digits_more z f (suc n) zero (suc a) b hn hm = absurd (omega arith)

bitwise_digit :
    (z : ℕ → ℕ) (f : ℕ → ℕ → ℕ) (a b : ℕ)
    → bitwise z f (suc a) b ≡ bitwise z f (suc a / 2) (b / 2) * 2 + f (suc a % 2) (b % 2)
bitwise_digit z f a b =
    omega (arith, digits_more z f a (suc a / 2) (suc a / 2) (b / 2) (omega arith) (le_refl _))

bit_or_digit : (a b : ℕ) → bit_or a b ≡ bit_or (a / 2) (b / 2) * 2 + max (a % 2) (b % 2)
bit_or_digit zero b = simp bit_or-bitwise (omega arith)
bit_or_digit (suc a) b = simp bit_or-bitwise (bitwise_digit (λ y. y) max a b)

bit_and_digit : (a b : ℕ) → bit_and a b ≡ bit_and (a / 2) (b / 2) * 2 + min (a % 2) (b % 2)
bit_and_digit zero b = simp bit_and-bitwise (omega arith)
bit_and_digit (suc a) b = simp bit_and-bitwise (bitwise_digit (λ y. 0) min a b)

pub zero-bit_or : (b : ℕ) → bit_or 0 b ≡ b
zero-bit_or b = simp bit_or-bitwise

bit_and-zero_below : (n a : ℕ) → a ≤ n → bit_and a 0 ≡ 0
bit_and-zero_below zero zero h = refl
bit_and-zero_below zero (suc a) h = absurd (omega arith)
bit_and-zero_below (suc n) a h =
    omega (arith, bit_and_digit a 0, bit_and-zero_below n (a / 2) (omega arith))

bit_or-zero_below : (n a : ℕ) → a ≤ n → bit_or a 0 ≡ a
bit_or-zero_below zero zero h = refl
bit_or-zero_below zero (suc a) h = absurd (omega arith)
bit_or-zero_below (suc n) a h =
    omega (arith, bit_or_digit a 0, bit_or-zero_below n (a / 2) (omega arith))

pub bit_and-zero : (a : ℕ) → bit_and a 0 ≡ 0
bit_and-zero a = bit_and-zero_below a a (le_refl a)

pub bit_or-zero : (a : ℕ) → bit_or a 0 ≡ a
bit_or-zero a = bit_or-zero_below a a (le_refl a)

pub zero-bit_and : (b : ℕ) → bit_and 0 b ≡ 0
zero-bit_and b = simp bit_and-bitwise

two_pow : (q k : ℕ) → q * 2 ^ suc k ≡ 2 * (q * 2 ^ k)
two_pow q k = omega (arith, ap (λ (t : ℕ). q * t) (pow-suc 2 k))

-- `|` and `&` act on the low `k` bits and on the bits above them apart.
pub bit_or_parts :
    (k r q s p : ℕ)
    → r < 2 ^ k
    → s < 2 ^ k
    → bit_or (r + q * 2 ^ k) (s + p * 2 ^ k) ≡ bit_or r s + bit_or q p * 2 ^ k
bit_or_parts zero zero q zero p hr hs = ground (arith, zero-bit_or 0)
bit_or_parts zero (suc r) q s p hr hs = absurd (omega arith)
bit_or_parts zero zero q (suc s) p hr hs = absurd (omega arith)
bit_or_parts (suc k) r q s p hr hs = ground (
  arith,
  bit_or_digit (r + q * 2 ^ suc k) (s + p * 2 ^ suc k),
  bit_or_digit r s,
  two_pow q k,
  two_pow p k,
  two_pow (bit_or q p) k,
  pow-suc 2 k,
  bit_or_parts k (r / 2) q (s / 2) p,
)

pub bit_and_parts :
    (k r q s p : ℕ)
    → r < 2 ^ k
    → s < 2 ^ k
    → bit_and (r + q * 2 ^ k) (s + p * 2 ^ k) ≡ bit_and r s + bit_and q p * 2 ^ k
bit_and_parts zero zero q zero p hr hs = ground (arith, zero-bit_and 0)
bit_and_parts zero (suc r) q s p hr hs = absurd (omega arith)
bit_and_parts zero zero q (suc s) p hr hs = absurd (omega arith)
bit_and_parts (suc k) r q s p hr hs = ground (
  arith,
  bit_and_digit (r + q * 2 ^ suc k) (s + p * 2 ^ suc k),
  bit_and_digit r s,
  two_pow q k,
  two_pow p k,
  two_pow (bit_and q p) k,
  pow-suc 2 k,
  bit_and_parts k (r / 2) q (s / 2) p,
)

-- Fields that do not overlap add up.
pub bit_or_low : (k r q : ℕ) → r < 2 ^ k → bit_or r (q * 2 ^ k) ≡ r + q * 2 ^ k
bit_or_low k r q h = ground (arith, bit_or_parts k r 0 0 q, bit_or-zero r, zero-bit_or q)

bit_and_ones : (k r : ℕ) → r < 2 ^ k → bit_and r (2 ^ k - 1) ≡ r
bit_and_ones zero r h = omega (arith, bit_and-zero r)
bit_and_ones (suc k) r h =
    ground
      (arith, bit_and_digit r (2 ^ suc k - 1), pow-suc 2 k, one-le-pow k 2, bit_and_ones k (r / 2))

-- `a & (2 ^ k - 1)` is a remainder.
pub bit_and_mask : (k a : ℕ) → bit_and a (2 ^ k - 1) ≡ a % 2 ^ k
bit_and_mask k a = ground (
  arith,
  one-le-pow k 2,
  bit_and_parts k (a % 2 ^ k) (a / 2 ^ k) (2 ^ k - 1) 0,
  bit_and_ones k (a % 2 ^ k),
  bit_and-zero (a / 2 ^ k),
)
