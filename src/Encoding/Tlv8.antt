-- ===== src/Encoding/Tlv8.antt =====
-- packages/encoding/src/tlv8.ts: type-length-value records with fragmentation, and the error report
-- of a pairing response.
pub mod Encode
pub mod Decode
pub mod Records
pub mod RoundTrip
pub mod Bail
use apple_protocols.Prelude.{
  ℕ, zero, suc, ◌+◌, ◌-◌, ◌*◌, ◌/◌, ◌%◌, min, max, List, [], ◌∷◌, ◌++◌, Option, none, some, Bytes,
  ◌>>=◌, Outcome, ok, thrown, out_of_fuel, length, take, drop, ltb, ◌==◌, if◌then◌else◌,
  alloc_unsafe, put_at,
}
use apple_protocols.Prelude.JsMap
use apple_protocols.Prelude.JsMap.{JsMap}

-- A value is a single byte or a buffer.
pub data RawValue : Type 0 where
  byte : ℕ → RawValue
  buffer : Bytes → RawValue

abbrev pub Entry : Type 0
Entry = ℕ × RawValue

-- `value[0] = valueRaw` stores the low byte.
abbrev pub value_bytes : RawValue → Bytes
value_bytes (byte n) = n % 256 ∷ []
value_bytes (buffer b) = b

abbrev pub value_length : RawValue → ℕ
value_length (byte n) = 1
value_length (buffer b) = length b

-- The first loop of `encode`, which sizes the result.
unfoldable pub total_size : List Entry → ℕ
total_size [] = 0
total_size ((type, raw) ∷ entries) =
    let len = value_length raw in max 1 ((len + 254) / 255) * 2 + len + total_size entries

-- The `do … while (offset < valueLen)` loop: a fragment's type, length and bytes in each round.
unfoldable pub fragment_loop : ℕ → ℕ → Bytes → ℕ → Option Bytes
fragment_loop zero type value offset = none
fragment_loop (suc fuel) type value offset =
    let len = min (length value - offset) 255 in
    let fragment = type % 256 ∷ len ∷ take len (drop offset value) in
    let rest = fragment_loop fuel type value (offset + len) in
    if ltb (offset + len) (length value)
    then (rest >>= λ more. some (fragment ++ more))
    else some fragment

-- Each round but the last takes 255 bytes, so `length value + 1` rounds are enough.
unfoldable pub write_entries : List Entry → Option Bytes
unfolding fragment_loop
write_entries [] = some []
write_entries ((type, raw) ∷ entries) =
    let value = value_bytes raw in
    fragment_loop (length value + 1) type value 0 >>= λ written.
    write_entries entries >>= λ more. some (written ++ more)

-- The fragments are written one after the other into a buffer of `total_size` bytes.
unfoldable pub encode : (ℕ → ℕ) → List Entry → Option Bytes
unfolding write_entries total_size
encode junk entries = write_entries entries >>= λ written.
    some (put_at (alloc_unsafe junk (total_size entries)) 0 written)

pub data DecodeError : Type 0 where
  truncated_header truncated_value : DecodeError

-- The value is concatenated to what the map holds for the type, if it holds anything.
abbrev pub joined : Option Bytes → Bytes → Bytes
joined none value = value
joined (some existing) value = existing ++ value

abbrev pub append_value : ℕ → Bytes → JsMap Bytes → JsMap Bytes
append_value type value m = JsMap.set m type (joined (JsMap.get m type) value)

-- The list is what the loop has not read of the buffer.
unfoldable pub decode_loop : ℕ → Bytes → JsMap Bytes → Outcome DecodeError (JsMap Bytes)
decode_loop fuel [] m = ok m
decode_loop fuel (type ∷ []) m = thrown truncated_header
decode_loop zero (type ∷ len ∷ rest) m = out_of_fuel
decode_loop (suc fuel) (type ∷ len ∷ rest) m =
    let more = decode_loop fuel (drop len rest) (append_value type (take len rest) m) in
    if ltb (length rest) len then thrown truncated_value else more

-- A round takes two bytes at least.
unfoldable pub decode : Bytes → Outcome DecodeError (JsMap Bytes)
unfolding decode_loop
decode buf = decode_loop (length buf) buf []
