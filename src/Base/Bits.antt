-- ===== src/Base/Bits.antt =====
-- The bitwise operations of unsigned words: how they act on two fields at once, the masks of low
-- bits, and the shifts that drop what leaves a 32-bit word.
use Prim.Native.Nat.{
  ℕ, zero, suc, ◌+◌, ◌-◌, ◌*◌, ◌/◌, ◌%◌, ◌^◌, ◌≤◌, ◌<◌, min, max, digits, bitwise, bit_and, bit_or,
  bit_and-bitwise, bit_or-bitwise,
}
use native.Mathlib.Nat.{le_refl, pow-suc, one-le-pow}
use native.Mathlib.Omega.{arith}
use mathlib.Core.Path.{◌≡◌, refl, ap}

-- `x << k` on u32
abbrev pub shl : ℕ → ℕ → ℕ
shl x k = x * 2 ^ k % 2 ^ 32

-- `x >> k`
abbrev pub shr : ℕ → ℕ → ℕ
shr x k = x / 2 ^ k

-- `!x` on u32
abbrev pub complement : ℕ → ℕ
complement x = 2 ^ 32 - 1 - x

module _ (z : ℕ → ℕ) (f : ℕ → ℕ → ℕ) where
  digits-fuel : (k l a b : ℕ) → a ≤ k → a ≤ l → digits z f k a b ≡ digits z f l a b
  digits-fuel zero zero a b ak al = refl
  digits-fuel zero (suc l) zero b ak al = refl
  digits-fuel zero (suc l) (suc a) b ak al = absurd (omega arith)
  digits-fuel (suc k) zero zero b ak al = refl
  digits-fuel (suc k) zero (suc a) b ak al = absurd (omega arith)
  digits-fuel (suc k) (suc l) zero b ak al = refl
  digits-fuel (suc k) (suc l) (suc a) b ak al =
      rw (digits-fuel k l (suc a / 2) (b / 2) (omega arith) (omega arith))

  last_digit :
      (x y : ℕ)
      → bitwise z f (suc x) y ≡ f (suc x % 2) (y % 2) + 2 * bitwise z f (suc x / 2) (y / 2)
  last_digit x y =
      omega (arith, digits-fuel x (suc x / 2) (suc x / 2) (y / 2) (omega arith) (le_refl _))

pub bit_or-last : (x y : ℕ) → bit_or x y ≡ max (x % 2) (y % 2) + 2 * bit_or (x / 2) (y / 2)
bit_or-last zero y = simp bit_or-bitwise (omega arith)
bit_or-last (suc x) y = simp bit_or-bitwise (last_digit (λ y. y) max x y)

pub bit_and-last : (x y : ℕ) → bit_and x y ≡ min (x % 2) (y % 2) + 2 * bit_and (x / 2) (y / 2)
bit_and-last zero y = simp bit_and-bitwise (omega arith)
bit_and-last (suc x) y = simp bit_and-bitwise (last_digit (λ y. 0) min x y)

half-field : (k q r : ℕ) → (q * 2 ^ suc k + r) / 2 ≡ q * 2 ^ k + r / 2
half-field k q r = ground (arith, ap (λ (t : ℕ). q * t) (pow-suc 2 k))

rest-field : (k q r : ℕ) → (q * 2 ^ suc k + r) % 2 ≡ r % 2
rest-field k q r = ground (arith, ap (λ (t : ℕ). q * t) (pow-suc 2 k))

half-lt : (k r : ℕ) → r < 2 ^ suc k → r / 2 < 2 ^ k
half-lt k r h = ground (arith, pow-suc 2 k)

-- Both operations act on a high and a low field separately.
pub bit_or-fields :
    (k q r p s : ℕ)
    → r < 2 ^ k
    → s < 2 ^ k
    → bit_or (q * 2 ^ k + r) (p * 2 ^ k + s) ≡ bit_or q p * 2 ^ k + bit_or r s
bit_or-fields zero q r p s hr hs = grind arith
bit_or-fields (suc k) q r p s hr hs =
    rw
      (
        bit_or-last (q * 2 ^ suc k + r) (p * 2 ^ suc k + s),
        half-field k q r,
        half-field k p s,
        rest-field k q r,
        rest-field k p s,
        bit_or-fields k q (r / 2) p (s / 2) (half-lt k r hr) (half-lt k s hs),
        bit_or-last r s,
      )
      (omega (arith, ap (λ (t : ℕ). bit_or q p * t) (pow-suc 2 k)))

pub bit_and-fields :
    (k q r p s : ℕ)
    → r < 2 ^ k
    → s < 2 ^ k
    → bit_and (q * 2 ^ k + r) (p * 2 ^ k + s) ≡ bit_and q p * 2 ^ k + bit_and r s
bit_and-fields zero q r p s hr hs = grind arith
bit_and-fields (suc k) q r p s hr hs =
    rw
      (
        bit_and-last (q * 2 ^ suc k + r) (p * 2 ^ suc k + s),
        half-field k q r,
        half-field k p s,
        rest-field k q r,
        rest-field k p s,
        bit_and-fields k q (r / 2) p (s / 2) (half-lt k r hr) (half-lt k s hs),
        bit_and-last r s,
      )
      (omega (arith, ap (λ (t : ℕ). bit_and q p * t) (pow-suc 2 k)))

bit_or-zero_below : (n a : ℕ) → a ≤ n → bit_or a 0 ≡ a
bit_or-zero_below n zero h = refl
bit_or-zero_below zero (suc a) h = absurd (omega arith)
bit_or-zero_below (suc n) (suc a) h =
    omega (arith, bit_or-last (suc a) 0, bit_or-zero_below n (suc a / 2) (omega arith))

pub bit_or-zero : (a : ℕ) → bit_or a 0 ≡ a
bit_or-zero a = bit_or-zero_below a a (le_refl a)

pub zero-bit_or : (a : ℕ) → bit_or 0 a ≡ a
zero-bit_or a = simp bit_or-bitwise

bit_and-zero_below : (n a : ℕ) → a ≤ n → bit_and a 0 ≡ 0
bit_and-zero_below n zero h = refl
bit_and-zero_below zero (suc a) h = absurd (omega arith)
bit_and-zero_below (suc n) (suc a) h =
    omega (arith, bit_and-last (suc a) 0, bit_and-zero_below n (suc a / 2) (omega arith))

pub bit_and-zero : (a : ℕ) → bit_and a 0 ≡ 0
bit_and-zero a = bit_and-zero_below a a (le_refl a)

pub bit_and-low : (k a : ℕ) → a < 2 ^ k → bit_and a (2 ^ k - 1) ≡ a
bit_and-low zero a h = ground (arith, bit_and-zero a)
bit_and-low (suc k) a h = ground (
  arith,
  pow-suc 2 k,
  one-le-pow k 2,
  bit_and-last a (2 ^ suc k - 1),
  bit_and-low k (a / 2) (half-lt k a h),
)

-- A mask of low bits is the remainder.
pub bit_and-mask : (k a : ℕ) → bit_and a (2 ^ k - 1) ≡ a % 2 ^ k
bit_and-mask k a = ground (
  arith,
  one-le-pow k 2,
  bit_and-fields k (a / 2 ^ k) (a % 2 ^ k) 0 (2 ^ k - 1) (omega (arith, one-le-pow k 2))
      (omega (arith, one-le-pow k 2)),
  bit_and-zero (a / 2 ^ k),
  bit_and-low k (a % 2 ^ k),
)
