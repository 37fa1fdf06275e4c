-- ===== src/Prelude/Ints.antt =====
-- Signed numbers, and their two's complement in n bytes.
use Prim.Native.Nat.{ℕ, ◌+◌, ◌-◌, ◌/◌, ◌^◌, ◌<◌}
use mathlib.Core.Path.{◌≡◌}
use mathlib.Core.Bool.{◌&&◌}
use mathlib.Core.Option.{Option, none, some}
use native.Mathlib.Omega.{arith}
use apple_protocols.Prelude.Tests.{leb, ltb, if◌then◌else◌}
use apple_protocols.Prelude.Lists.{length}
use apple_protocols.Prelude.Buffers.{Bytes, ◌>>=◌, put_at, be_bytes, read_uint_be}

-- `negsuc n` is -(n + 1).
pub data ℤ : Type 0 where
  pos : ℕ → ℤ
  negsuc : ℕ → ℤ

-- Below half of the 256 ^ n patterns of n bytes.
abbrev pub half_of : ℕ → ℕ
half_of n = 256 ^ n / 2

-- The number's magnitude, which for both signs is below half of the patterns if it fits.
abbrev pub magnitude : ℤ → ℕ
magnitude (pos v) = v
magnitude (negsuc v) = v

abbrev pub FitsInt : ℕ → ℤ → Type 0
FitsInt n z = magnitude z < half_of n

abbrev pub pattern_of : ℕ → ℤ → ℕ
pattern_of n (pos v) = v
pattern_of n (negsuc v) = 256 ^ n - 1 - v

abbrev pub int_of : ℕ → ℕ → ℤ
int_of n w = if ltb w (half_of n) then pos w else negsuc (256 ^ n - 1 - w)

-- `writeInt8`, `writeInt16BE` and `writeBigInt64BE`: the value must fit, and the bytes the buffer.
abbrev pub write_int_be : ℕ → ℤ → ℕ → Bytes → Option Bytes
write_int_be n z offset buffer =
    if ltb (magnitude z) (half_of n) && leb (offset + n) (length buffer)
    then some (put_at buffer offset (be_bytes n (pattern_of n z)))
    else none

-- `readInt8`, `readInt16BE` and `readBigInt64BE`.
abbrev pub read_int_be : ℕ → ℕ → Bytes → Option ℤ
read_int_be n offset buffer = read_uint_be n offset buffer >>= λ w. some (int_of n w)

pub int_of-pattern_1 : (z : ℤ) → FitsInt 1 z → int_of 1 (pattern_of 1 z) ≡ z
int_of-pattern_1 (pos v) h = ground arith
int_of-pattern_1 (negsuc v) h = ground arith

pub int_of-pattern_2 : (z : ℤ) → FitsInt 2 z → int_of 2 (pattern_of 2 z) ≡ z
int_of-pattern_2 (pos v) h = ground arith
int_of-pattern_2 (negsuc v) h = ground arith

pub int_of-pattern_8 : (z : ℤ) → FitsInt 8 z → int_of 8 (pattern_of 8 z) ≡ z
int_of-pattern_8 (pos v) h = ground arith
int_of-pattern_8 (negsuc v) h = ground arith

pub pattern_of-lt_1 : (z : ℤ) → FitsInt 1 z → pattern_of 1 z < 2 ^ 8
pattern_of-lt_1 (pos v) h = omega arith
pattern_of-lt_1 (negsuc v) h = omega arith

pub pattern_of-lt_8 : (z : ℤ) → FitsInt 8 z → pattern_of 8 z < 2 ^ 64
pattern_of-lt_8 (pos v) h = omega arith
pattern_of-lt_8 (negsuc v) h = omega arith
