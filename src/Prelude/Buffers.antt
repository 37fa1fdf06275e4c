-- ===== src/Prelude/Buffers.antt =====
-- Byte buffers: the language's Buffer and Uint8Array as lists of numbers below 256, with the
-- fixed-width reads and writes. `none` is the RangeError that a read or write out of range throws.
use Prim.Native.Nat.{ℕ, zero, suc, ◌+◌, ◌*◌, ◌/◌, ◌%◌, ◌^◌, ◌<◌, ◌≤◌}
use mathlib.Core.Path.{◌≡◌, refl, ap}
use mathlib.Core.Logic.{◌≢◌}
use mathlib.Core.Bool.{◌&&◌}
use mathlib.Core.List.{List, [], ◌∷◌, ◌++◌, append_assoc}
use mathlib.Core.Option.{Option, none, some}
use native.Mathlib.Omega.{arith}
use apple_protocols.Prelude.Tests.{leb, ltb, if◌then◌else◌, le→leb}
use apple_protocols.Prelude.Lists.{
  length, set, take, drop, All, length-append, length-drop, drop-append_le, take-append_le,
  drop-drop, drop-length_append,
}

abbrev pub Bytes : Type 0
Bytes = List ℕ

abbrev pub IsByte : ℕ → Type 0
IsByte b = b < 256

infixl 5 ◌>>=◌
abbrev pub ◌>>=◌ {ℓ κ} : {A : Type ℓ} {B : Type κ} → Option A → (A → Option B) → Option B
none >>= f = none
some a >>= f = f a

-- The n bytes of a number, most significant first, and the number that bytes stand for.
abbrev pub be_bytes : ℕ → ℕ → Bytes
be_bytes zero v = []
be_bytes (suc n) v = v / 256 ^ n % 256 ∷ be_bytes n v

abbrev pub be_value_from : ℕ → Bytes → ℕ
be_value_from acc [] = acc
be_value_from acc (b ∷ bs) = be_value_from (acc * 256 + b) bs

abbrev pub be_value : Bytes → ℕ
be_value bs = be_value_from 0 bs

-- The n bytes of a number, least significant first, and the number that they stand for.
abbrev pub le_bytes : ℕ → ℕ → Bytes
le_bytes zero v = []
le_bytes (suc n) v = v % 256 ∷ le_bytes n (v / 256)

abbrev pub le_value : Bytes → ℕ
le_value [] = 0
le_value (b ∷ bs) = b + 256 * le_value bs

-- The contents of `Buffer.allocUnsafe(n)` are not specified: they are given by `junk`.
abbrev pub alloc_from : (ℕ → ℕ) → ℕ → ℕ → Bytes
alloc_from junk i zero = []
alloc_from junk i (suc n) = junk i ∷ alloc_from junk (suc i) n

abbrev pub alloc_unsafe : (ℕ → ℕ) → ℕ → Bytes
alloc_unsafe junk n = alloc_from junk 0 n

-- `source.copy(buffer, offset)`: what does not fit is not written.
abbrev pub put_at : Bytes → ℕ → Bytes → Bytes
put_at buffer offset [] = buffer
put_at buffer offset (b ∷ bs) = put_at (set buffer offset b) (suc offset) bs

-- `writeUInt8`, `writeUInt16BE` and `writeUInt32BE`: the value must fit n bytes, and the bytes the
-- buffer.
abbrev pub write_uint_be : ℕ → ℕ → ℕ → Bytes → Option Bytes
write_uint_be n v offset buffer =
    if ltb v (256 ^ n) && leb (offset + n) (length buffer)
    then some (put_at buffer offset (be_bytes n v))
    else none

-- `readUInt8`, `readUInt16BE` and `readUInt32BE`.
abbrev pub read_uint_be : ℕ → ℕ → Bytes → Option ℕ
read_uint_be n offset buffer =
    if leb (offset + n) (length buffer) then some (be_value (take n (drop offset buffer))) else none

pub le_value-le_bytes : (n v : ℕ) → v < 256 ^ n → le_value (le_bytes n v) ≡ v
le_value-le_bytes zero v h = omega arith
le_value-le_bytes (suc n) v h =
    omega (arith, le_value-le_bytes n (v / 256) (omega (arith, pow_step n)))
  where
    pow_step : (k : ℕ) → 256 ^ suc k ≡ 256 * 256 ^ k
    pow_step k = omega arith

pub length-le_bytes : (n v : ℕ) → length (le_bytes n v) ≡ n
length-le_bytes zero v = refl
length-le_bytes (suc n) v = ap suc (length-le_bytes n (v / 256))

pub le_bytes-IsByte : (n v : ℕ) → All IsByte (le_bytes n v)
le_bytes-IsByte zero v = tt
le_bytes-IsByte (suc n) v = (omega arith, le_bytes-IsByte n (v / 256))

pub length-set_lem {ℓ} :
    {A : Type ℓ} (xs : List A) (i : ℕ) (v : A) → length (set xs i v) ≡ length xs
length-set_lem [] i v = refl
length-set_lem (x ∷ xs) zero v = refl
length-set_lem (x ∷ xs) (suc i) v = ap suc (length-set_lem xs i v)

pub length-alloc_from : (junk : ℕ → ℕ) (i n : ℕ) → length (alloc_from junk i n) ≡ n
length-alloc_from junk i zero = refl
length-alloc_from junk i (suc n) = ap suc (length-alloc_from junk (suc i) n)

set-append {ℓ} :
    {A : Type ℓ} (xs ys : List A) (y v : A)
    → set (xs ++ (y ∷ ys)) (length xs) v ≡ (xs ++ (v ∷ [])) ++ ys
set-append [] ys y v = refl
set-append (x ∷ xs) ys y v = ap (◌∷◌ x) (set-append xs ys y v)

put_at-append :
    (xs ys bs : Bytes) → length ys ≡ length bs → put_at (xs ++ ys) (length xs) bs ≡ xs ++ bs
put_at-append xs [] [] h = refl
put_at-append xs [] (b ∷ bs) h = absurd (omega arith)
put_at-append xs (y ∷ ys) [] h = absurd (omega arith)
put_at-append xs (y ∷ ys) (b ∷ bs) h =
    rw
      (set-append xs ys y b, ← length-snoc xs b, put_at-append (xs ++ (b ∷ [])) ys bs (omega arith))
      (append_assoc xs (b ∷ []) bs)
  where
    length-snoc : (l : Bytes) (c : ℕ) → length (l ++ (c ∷ [])) ≡ suc (length l)
    length-snoc l c = omega (arith, length-append l (c ∷ []))

-- Writing as many bytes as the buffer has replaces its contents.
pub put_at-all : (ys bs : Bytes) → length ys ≡ length bs → put_at ys 0 bs ≡ bs
put_at-all ys bs h = put_at-append [] ys bs h

-- What a number's bytes read back as, in the form that `be_value (be_bytes n v)` computes to.
pub be_1 : (v : ℕ) → v < 2 ^ 8 → 0 + v / 1 % 256 ≡ v
be_1 v h = omega arith

pub be_2 : (v : ℕ) → v < 2 ^ 16 → (0 + v / 256 % 256) * 256 + v / 1 % 256 ≡ v
be_2 v h = omega arith

pub be_4 :
    (v : ℕ)
    → v < 2 ^ 32
    → (((0 + v / 16777216 % 256) * 256 + v / 65536 % 256) * 256 + v / 256 % 256) * 256 + v / 1 % 256
      ≡ v
be_4 v h = omega arith

pub read_uint_be-total :
    (n offset : ℕ) (buffer : Bytes)
    → offset + n ≤ length buffer
    → read_uint_be n offset buffer ≡ some (be_value (take n (drop offset buffer)))
read_uint_be-total n offset buffer h = rw (le→leb (offset + n) (length buffer) h)

pub be_8 :
    (v : ℕ)
    → v < 2 ^ 64
    → (((((((0 + v / 72057594037927936 % 256) * 256 + v / 281474976710656 % 256) * 256
                            + v / 1099511627776 % 256)
                          * 256
                        + v / 4294967296 % 256)
                      * 256
                    + v / 16777216 % 256)
                  * 256
                + v / 65536 % 256)
              * 256
            + v / 256 % 256)
          * 256
        + v / 1 % 256
      ≡ v
be_8 v h = omega arith

-- The byte at an index; `none` stands for `undefined`, past the end.
abbrev pub byte_at : Bytes → ℕ → Option ℕ
byte_at [] i = none
byte_at (b ∷ bs) zero = some b
byte_at (b ∷ bs) (suc i) = byte_at bs i

-- `buffer[i] = v` stores the low byte, and nothing past the end.
abbrev pub store_byte : ℕ → ℕ → Bytes → Bytes
store_byte i v buffer = set buffer i (v % 256)

-- A read within the first part of a buffer does not depend on what follows.
pub slice-front :
    (n offset : ℕ) (front rest : Bytes)
    → offset + n ≤ length front
    → take n (drop offset (front ++ rest)) ≡ take n (drop offset front)
slice-front n offset front rest h =
    rw (drop-append_le offset front rest (omega arith))
      (take-append_le n (drop offset front) rest (omega (arith, length-drop offset front)))

pub read_uint_be-front :
    (n offset : ℕ) (front rest : Bytes)
    → offset + n ≤ length front
    → read_uint_be n offset (front ++ rest) ≡ read_uint_be n offset front
read_uint_be-front n offset front rest h = rw (
  le→leb (offset + n) (length (front ++ rest)) (omega (arith, length-append front rest)),
  le→leb (offset + n) (length front) h,
  slice-front n offset front rest h,
)

pub byte_at-front :
    (i : ℕ) (front rest : Bytes) → i < length front → byte_at (front ++ rest) i ≡ byte_at front i
byte_at-front i [] rest h = absurd (omega arith)
byte_at-front zero (b ∷ front) rest h = refl
byte_at-front (suc i) (b ∷ front) rest h = byte_at-front i front rest (omega arith)

-- A read behind the first part of a buffer is a read of the second.
pub slice-behind :
    (n offset k : ℕ) (front rest : Bytes)
    → offset ≡ length front + k
    → take n (drop offset (front ++ rest)) ≡ take n (drop k rest)
slice-behind n offset k front rest e =
    rw (e, ← drop-drop (length front) k (front ++ rest), drop-length_append front rest)

pub read_uint_be-behind :
    (n offset k : ℕ) (front rest : Bytes)
    → offset ≡ length front + k
    → read_uint_be n offset (front ++ rest) ≡ read_uint_be n k rest
read_uint_be-behind n offset k front rest e = rw (slice-behind n offset k front rest e, shorter)
  where
    shorter : leb (offset + n) (length (front ++ rest)) ≡ leb (k + n) (length rest)
    shorter = ground (arith, length-append front rest)

pub byte_at-behind :
    (i k : ℕ) (front rest : Bytes)
    → i ≡ length front + k
    → byte_at (front ++ rest) i ≡ byte_at rest k
byte_at-behind i k [] rest e = let s : i ≡ k = omega arith in rw s
byte_at-behind zero k (b ∷ front) rest e = absurd (omega arith)
byte_at-behind (suc i) k (b ∷ front) rest e = byte_at-behind i k front rest (omega arith)

-- What a successful chain ends with, its first step produced.
pub >>=-eq_some {ℓ κ} :
    {A : Type ℓ} {B : Type κ} (m : Option A) (f : A → Option B) {b : B}
    → (m >>= f) ≡ some b
    → (a : A) × (m ≡ some a) × (f a ≡ some b)
>>=-eq_some none f h = cc
>>=-eq_some (some a) f h = (a, refl, h)

pub byte_at-ne-none : (buf : Bytes) (i : ℕ) → i < length buf → byte_at buf i ≢ none
byte_at-ne-none [] i h = absurd (omega arith)
byte_at-ne-none (b ∷ buf) zero h = λ e. cc
byte_at-ne-none (b ∷ buf) (suc i) h = byte_at-ne-none buf i (omega arith)

pub drop-behind :
    (offset k : ℕ) (front rest : Bytes)
    → offset ≡ length front + k
    → drop offset (front ++ rest) ≡ drop k rest
drop-behind offset k front rest e =
    rw (e, ← drop-drop (length front) k (front ++ rest), drop-length_append front rest)

-- A chain throws nothing if none of its steps does.
pub >>=-ne-none {ℓ κ} :
    {A : Type ℓ} {B : Type κ} (m : Option A) (f : A → Option B)
    → m ≢ none
    → ((a : A) → f a ≢ none)
    → (m >>= f) ≢ none
>>=-ne-none none f h k = λ e. h refl
>>=-ne-none (some a) f h k = k a

pub some-ne-none {ℓ} : {A : Type ℓ} (a : A) → some a ≢ none
some-ne-none a e = cc

pub read_uint_be-ne-none :
    (n offset : ℕ) (buf : Bytes) → offset + n ≤ length buf → read_uint_be n offset buf ≢ none
read_uint_be-ne-none n offset buf h e = ground arith
