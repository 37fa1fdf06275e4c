-- ===== src/Prelude/Bits.antt =====
-- `|` of a shifted number with one below it, and `&` with a mask of low bits, as arithmetic.
use Prim.Native.Nat.{
  ℕ, zero, suc, ◌+◌, ◌-◌, ◌*◌, ◌/◌, ◌%◌, ◌^◌, ◌≤◌, ◌<◌, min, max, bit_and, bit_or, digits,
  bit_and-bitwise, bit_or-bitwise,
}
use mathlib.Core.Path.{◌≡◌, refl, ap}
use native.Mathlib.Nat.{pow-suc, one-le-pow}
use native.Mathlib.Omega.{arith}

-- The digit recursion behind both operations, where the fuel covers the first number.
module _ (end : ℕ → ℕ) (op : ℕ → ℕ → ℕ) where
  digits_stable : (n m a b : ℕ) → a ≤ n → a ≤ m → digits end op n a b ≡ digits end op m a b
  digits_stable zero zero a b p q = refl
  digits_stable n m zero b p q = at_zero n m
    where
      at_zero : (i j : ℕ) → digits end op i 0 b ≡ digits end op j 0 b
      at_zero zero zero = refl
      at_zero zero (suc j) = refl
      at_zero (suc i) zero = refl
      at_zero (suc i) (suc j) = refl
  digits_stable zero (suc m) (suc a) b p q = absurd (omega arith)
  digits_stable (suc n) zero (suc a) b p q = absurd (omega arith)
  digits_stable (suc n) (suc m) (suc a) b p q =
      ap (λ t. t * 2 + op (suc a % 2) (b % 2))
        (digits_stable n m (suc a / 2) (b / 2) (omega arith) (omega arith))

or_step : (a b : ℕ) → bit_or a b ≡ bit_or (a / 2) (b / 2) * 2 + max (a % 2) (b % 2)
or_step zero b = omega (arith, bit_or-bitwise 0 b, bit_or-bitwise 0 (b / 2))
or_step (suc a) b = omega (
  arith,
  bit_or-bitwise (suc a) b,
  bit_or-bitwise (suc a / 2) (b / 2),
  digits_stable (λ y. y) max a (suc a / 2) (suc a / 2) (b / 2) (omega arith) (omega arith),
)

and_step : (a b : ℕ) → bit_and a b ≡ bit_and (a / 2) (b / 2) * 2 + min (a % 2) (b % 2)
and_step zero b = omega (arith, bit_and-bitwise 0 b, bit_and-bitwise 0 (b / 2))
and_step (suc a) b = omega (
  arith,
  bit_and-bitwise (suc a) b,
  bit_and-bitwise (suc a / 2) (b / 2),
  digits_stable (λ y. 0) min a (suc a / 2) (suc a / 2) (b / 2) (omega arith) (omega arith),
)

or-zero_below : (n a : ℕ) → a ≤ n → bit_or a 0 ≡ a
or-zero_below n zero h = refl
or-zero_below zero (suc a) h = absurd (omega arith)
or-zero_below (suc n) (suc a) h =
    omega (arith, or_step (suc a) 0, or-zero_below n (suc a / 2) (omega arith))

and-zero_below : (n a : ℕ) → a ≤ n → bit_and a 0 ≡ 0
and-zero_below n zero h = refl
and-zero_below zero (suc a) h = absurd (omega arith)
and-zero_below (suc n) (suc a) h =
    omega (arith, and_step (suc a) 0, and-zero_below n (suc a / 2) (omega arith))

double : (q k : ℕ) → q * 2 ^ suc k ≡ 2 * (q * 2 ^ k)
double q k = omega (arith, ap (λ (t : ℕ). q * t) (pow-suc 2 k))

pub bit_or_high : (k q r : ℕ) → r < 2 ^ k → bit_or (q * 2 ^ k) r ≡ q * 2 ^ k + r
bit_or_high zero q r h = ground (arith, or-zero_below q q)
bit_or_high (suc k) q r h =
    ground (arith, or_step (q * 2 ^ suc k) r, double q k, pow-suc 2 k, bit_or_high k q (r / 2))

-- The same with the operands the other way round.
pub bit_or_low : (k q r : ℕ) → r < 2 ^ k → bit_or r (q * 2 ^ k) ≡ q * 2 ^ k + r
bit_or_low zero q zero h = omega (arith, bit_or-bitwise 0 (q * 1))
bit_or_low zero q (suc r) h = absurd (omega arith)
bit_or_low (suc k) q r h =
    ground (arith, or_step r (q * 2 ^ suc k), double q k, pow-suc 2 k, bit_or_low k q (r / 2))

and_low : (k q r : ℕ) → r < 2 ^ k → bit_and (q * 2 ^ k + r) (2 ^ k - 1) ≡ r
and_low zero q r h = ground (arith, and-zero_below (q + r) (q + r))
and_low (suc k) q r h = ground (
  arith,
  and_step (q * 2 ^ suc k + r) (2 ^ suc k - 1),
  double q k,
  pow-suc 2 k,
  one-le-pow k 2,
  and_low k q (r / 2),
)

pub bit_and_mask : (k a : ℕ) → bit_and a (2 ^ k - 1) ≡ a % 2 ^ k
bit_and_mask k a = ground (arith, one-le-pow k 2, and_low k (a / 2 ^ k) (a % 2 ^ k))

pub bit_and_15 : (a : ℕ) → bit_and a 0xF ≡ a % 16
bit_and_15 a = bit_and_mask 4 a

pub bit_and_255 : (a : ℕ) → bit_and a 0xFF ≡ a % 256
bit_and_255 a = bit_and_mask 8 a

pub bit_and_u16 : (a : ℕ) → bit_and a 0xFFFF ≡ a % 2 ^ 16
bit_and_u16 a = bit_and_mask 16 a

pub bit_and_u32 : (a : ℕ) → bit_and a 0xFFFFFFFF ≡ a % 2 ^ 32
bit_and_u32 a = bit_and_mask 32 a
