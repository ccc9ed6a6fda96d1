-- ===== src/Base/Bits.antt =====
-- Facts about `bit_and` and `bit_xor` at variables: the lowest digit of each, by which the
-- others go by induction on the width.
use Prim.Native.Nat.{
  ℕ, zero, suc, ◌+◌, ◌*◌, ◌/◌, ◌%◌, ◌^◌, ◌≤◌, ◌<◌, min, bit_and, bit_xor, digits, differ,
  bit_and-bitwise, bit_xor-bitwise,
}
use mathlib.Core.Path.{◌≡◌, refl, ◌∙◌}
use native.Mathlib.Nat.{pow-suc}
use native.Mathlib.Omega.{arith}

-- The fuel of `digits` may be any number that is not below the first operand.
module _ (z : ℕ → ℕ) (f : ℕ → ℕ → ℕ) where
  digits_enough : (n m a b : ℕ) → a ≤ n → a ≤ m → digits z f n a b ≡ digits z f m a b
  digits_enough zero zero a b p q = refl
  digits_enough zero (suc m) zero b p q = refl
  digits_enough zero (suc m) (suc a) b p q = absurd (omega arith)
  digits_enough (suc n) zero zero b p q = refl
  digits_enough (suc n) zero (suc a) b p q = absurd (omega arith)
  digits_enough (suc n) (suc m) zero b p q = refl
  digits_enough (suc n) (suc m) (suc a) b p q =
      rw (digits_enough n m (suc a / 2) (b / 2) (omega arith) (omega arith))

differ_lem : (x y : ℕ) → x < 2 → y < 2 → differ x y ≡ (x + y) % 2
differ_lem zero y p q = omega arith
differ_lem (suc zero) zero p q = refl
differ_lem (suc zero) (suc zero) p q = refl
differ_lem (suc zero) (suc (suc y)) p q = absurd (omega arith)
differ_lem (suc (suc x)) y p q = absurd (omega arith)

bit_xor_step : (a b : ℕ) → bit_xor a b ≡ bit_xor (a / 2) (b / 2) * 2 + (a % 2 + b % 2) % 2
bit_xor_step zero b = omega (arith, bit_xor-bitwise 0 b, bit_xor-bitwise 0 (b / 2))
bit_xor_step (suc a) b = omega (
  arith,
  bit_xor-bitwise (suc a) b,
  bit_xor-bitwise (suc a / 2) (b / 2),
  digits_enough (λ y. y) differ a (suc a / 2) (suc a / 2) (b / 2) (omega arith) (omega arith),
  differ_lem (suc a % 2) (b % 2) (omega arith) (omega arith),
)

pub bit_and_step : (a b : ℕ) → bit_and a b ≡ bit_and (a / 2) (b / 2) * 2 + min (a % 2) (b % 2)
bit_and_step zero b = omega (arith, bit_and-bitwise 0 b, bit_and-bitwise 0 (b / 2))
bit_and_step (suc a) b = omega (
  arith,
  bit_and-bitwise (suc a) b,
  bit_and-bitwise (suc a / 2) (b / 2),
  digits_enough (λ y. 0) min a (suc a / 2) (suc a / 2) (b / 2) (omega arith) (omega arith),
)

-- `^` of two numbers of `k` bits has `k` bits.
pub bit_xor-lt : (k a b : ℕ) → a < 2 ^ k → b < 2 ^ k → bit_xor a b < 2 ^ k
bit_xor-lt zero a b p q = ground (arith, bit_xor_zeros a b)
  where
    bit_xor_zeros : (a b : ℕ) → a < 1 → b < 1 → bit_xor a b < 1
    bit_xor_zeros zero zero p q = omega (arith, bit_xor-bitwise 0 0)
    bit_xor_zeros zero (suc b) p q = absurd (omega arith)
    bit_xor_zeros (suc a) b p q = absurd (omega arith)
bit_xor-lt (suc k) a b p q = omega (
  arith,
  pow-suc 2 k,
  bit_xor_step a b,
  bit_xor-lt k (a / 2) (b / 2) (omega (arith, pow-suc 2 k)) (omega (arith, pow-suc 2 k)),
)

-- `^` by the same number twice gives the number back, at every width.
bit_xor_cancel : (k a b : ℕ) → a < 2 ^ k → b < 2 ^ k → bit_xor (bit_xor a b) b ≡ a
bit_xor_cancel zero a b p q =
    omega (arith, bit_xor-lt 0 a b p q, bit_xor-lt 0 (bit_xor a b) b (bit_xor-lt 0 a b p q) q)
bit_xor_cancel (suc k) a b p q = omega (
  arith,
  pow-suc 2 k,
  bit_xor_step a b,
  bit_xor_step (bit_xor a b) b,
  bit_xor_half,
  bit_xor_cancel k (a / 2) (b / 2) (omega (arith, pow-suc 2 k)) (omega (arith, pow-suc 2 k)),
)
  where
    half : bit_xor a b / 2 ≡ bit_xor (a / 2) (b / 2)
    half = omega (arith, bit_xor_step a b)

    bit_xor_half : bit_xor (bit_xor a b / 2) (b / 2) ≡ bit_xor (bit_xor (a / 2) (b / 2)) (b / 2)
    bit_xor_half = rw half refl

-- `^` with a number whose four low bits are zero keeps the four low bits.
pub bit_xor_low : (a m : ℕ) → m % 16 ≡ 0 → bit_xor a m % 16 ≡ a % 16
bit_xor_low a m h = omega (
  arith,
  bit_xor_step a m,
  bit_xor_step (a / 2) (m / 2),
  bit_xor_step (a / 2 / 2) (m / 2 / 2),
  bit_xor_step (a / 2 / 2 / 2) (m / 2 / 2 / 2),
)

bit_and-zero_below : (n a : ℕ) → a ≤ n → bit_and a 0 ≡ 0
bit_and-zero_below n zero h = refl
bit_and-zero_below zero (suc a) h = absurd (omega arith)
bit_and-zero_below (suc n) (suc a) h =
    omega (arith, bit_and_step (suc a) 0, bit_and-zero_below n (suc a / 2) (omega arith))

-- `& 0x0F` is the remainder by 16.
pub bit_and_low : (a : ℕ) → bit_and a 0x0f ≡ a % 16
bit_and_low a = omega (
  arith,
  bit_and_step a 15,
  bit_and_step (a / 2) 7,
  bit_and_step (a / 2 / 2) 3,
  bit_and_step (a / 2 / 2 / 2) 1,
  bit_and-zero_below (a / 2 / 2 / 2 / 2) (a / 2 / 2 / 2 / 2) (omega arith),
)

-- `& 0xF0` keeps the four bits above those.
pub bit_and_high : (y : ℕ) → bit_and y 0xf0 ≡ y / 16 % 16 * 16
bit_and_high y = omega (
  arith,
  bit_and_step y 0xf0,
  bit_and_step (y / 2) 0x78,
  bit_and_step (y / 2 / 2) 0x3c,
  bit_and_step (y / 2 / 2 / 2) 0x1e,
  bit_and_low (y / 2 / 2 / 2 / 2),
)

-- `& 0xFF` is the remainder by 256.
pub bit_and_byte : (a : ℕ) → bit_and a 0xff ≡ a % 256
bit_and_byte a = omega (
  arith,
  bit_and_step a 0xff,
  bit_and_step (a / 2) 0x7f,
  bit_and_step (a / 2 / 2) 0x3f,
  bit_and_step (a / 2 / 2 / 2) 0x1f,
  bit_and_low (a / 2 / 2 / 2 / 2),
)

-- `^` does not depend on the order, at every width.
bit_xor_comm : (k a b : ℕ) → a < 2 ^ k → b < 2 ^ k → bit_xor a b ≡ bit_xor b a
bit_xor_comm zero a b p q = omega (arith, bit_xor-lt 0 a b p q, bit_xor-lt 0 b a q p)
bit_xor_comm (suc k) a b p q = omega (
  arith,
  pow-suc 2 k,
  bit_xor_step a b,
  bit_xor_step b a,
  bit_xor_comm k (a / 2) (b / 2) (omega (arith, pow-suc 2 k)) (omega (arith, pow-suc 2 k)),
)

-- Two numbers that agree in the four low bits differ above them only.
bit_xor_same_low : (a b : ℕ) → a % 16 ≡ b % 16 → bit_xor a b % 16 ≡ 0
bit_xor_same_low a b h = omega (
  arith,
  bit_xor_step a b,
  bit_xor_step (a / 2) (b / 2),
  bit_xor_step (a / 2 / 2) (b / 2 / 2),
  bit_xor_step (a / 2 / 2 / 2) (b / 2 / 2 / 2),
)

-- The mask that turns one byte into another.
pub bit_xor-mask : (a b : ℕ) → a < 256 → b < 256 → bit_xor b (bit_xor a b % 256) ≡ a
bit_xor-mask a b p q =
    let small : bit_xor a b < 2 ^ 8 = bit_xor-lt 8 a b p q in
    let whole : bit_xor a b % 256 ≡ bit_xor a b = omega (arith, small) in
    rw whole (bit_xor_comm 8 b (bit_xor a b) q small ∙ bit_xor_cancel 8 a b p q)

-- A mask with four low bits of zero passes `& 0xF0`.
pub bit_and-mask :
    (a b : ℕ)
    → a < 256
    → b < 256
    → a % 16 ≡ b % 16
    → bit_xor b (bit_and (bit_xor a b % 256) 0xf0) ≡ a
bit_and-mask a b p q h =
    let kept : bit_and (bit_xor a b % 256) 0xf0 ≡ bit_xor a b % 256 =
      omega (arith, bit_and_high (bit_xor a b % 256), bit_xor_same_low a b h) in
    rw kept (bit_xor-mask a b p q)
