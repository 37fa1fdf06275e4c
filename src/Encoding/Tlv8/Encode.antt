-- ===== src/Encoding/Tlv8/Encode.antt =====
-- The encoder: its loop ends, and what it writes fills the buffer that it sized.
use apple_protocols.Prelude.{
  ℕ, zero, suc, ◌+◌, ◌-◌, ◌*◌, ◌/◌, ◌%◌, ◌≤◌, ◌<◌, min, max, List, [], ◌∷◌, ◌++◌, some, Bytes,
  length, take, drop, ltb, ◌≡◌, refl, ap, arith, length-append, length-take, length-drop, take-all,
  drop-drop, alloc_unsafe, lt→ltb, le→ltb_false, lt_or_le, put_at-all, length-alloc_from, inl, inr,
  if◌then◌else◌,
}
use apple_protocols.Encoding.Tlv8.{
  RawValue, byte, buffer, Entry, value_bytes, value_length, total_size, fragment_loop,
  write_entries, encode,
}

-- What the fragments of a value are: 255 bytes each, and the rest in the last one.
unfoldable pub fragments : ℕ → ℕ → Bytes → Bytes
fragments zero type value = []
fragments (suc fuel) type value =
    let more = fragments fuel type (drop 255 value) in
    if ltb 255 (length value)
    then type % 256 ∷ 255 ∷ take 255 value ++ more
    else type % 256 ∷ length value ∷ value

pub fragments_more :
    (fuel type : ℕ) (value : Bytes)
    → 255 < length value
    → fragments (suc fuel) type value
      ≡ type % 256 ∷ 255 ∷ take 255 value ++ fragments fuel type (drop 255 value)
unfolding fragments
fragments_more fuel type value h = rw (lt→ltb 255 (length value) h)

pub fragments_last :
    (fuel type : ℕ) (value : Bytes)
    → length value ≤ 255
    → fragments (suc fuel) type value ≡ type % 256 ∷ length value ∷ value
unfolding fragments
fragments_last fuel type value h = rw (le→ltb_false 255 (length value) h)

fragment_loop_more :
    (fuel type : ℕ) (value : Bytes) (offset : ℕ) {more : Bytes}
    → offset + 255 < length value
    → fragment_loop fuel type value (offset + 255) ≡ some more
    → fragment_loop (suc fuel) type value offset
      ≡ some (type % 256 ∷ 255 ∷ take 255 (drop offset value) ++ more)
unfolding fragment_loop
fragment_loop_more fuel type value offset h e =
    let full : min (length value - offset) 255 ≡ 255 = omega arith in
    rw (full, lt→ltb (offset + 255) (length value) h, e)

fragment_loop_last :
    (fuel type : ℕ) (value : Bytes) (offset : ℕ)
    → offset ≤ length value
    → length value ≤ offset + 255
    → fragment_loop (suc fuel) type value offset
      ≡ some (type % 256 ∷ length (drop offset value) ∷ drop offset value)
unfolding fragment_loop
fragment_loop_last fuel type value offset h k =
    let rest = length value - offset in
    let short : min rest 255 ≡ rest = omega arith in
    let whole : take rest (drop offset value) ≡ drop offset value =
      take-all rest (drop offset value) (omega (arith, length-drop offset value)) in
    rw (
      short,
      le→ltb_false (offset + rest) (length value) (omega arith),
      whole,
      length-drop offset value,
    )

pub fragment_loop-fragments :
    (fuel type : ℕ) (value : Bytes) (offset : ℕ)
    → offset ≤ length value
    → length value - offset < fuel
    → fragment_loop fuel type value offset ≡ some (fragments fuel type (drop offset value))
fragment_loop-fragments zero type value offset h hf = absurd (omega arith)
fragment_loop-fragments (suc fuel) type value offset h hf =
    let left = length-drop offset value in
    elim (lt_or_le (offset + 255) (length value)) [
      | inl more ↦
          rw
            (fragment_loop_more fuel type value offset more
              (fragment_loop-fragments fuel type value (offset + 255) (omega arith) (omega arith)))
            (rw (fragments_more fuel type (drop offset value) (omega (arith, left)), drop-drop))
      | inr last ↦
          rw (fragment_loop_last fuel type value offset h last)
            (rw (fragments_last fuel type (drop offset value) (omega (arith, left))))
    ]

pub length-fragments :
    (fuel type : ℕ) (value : Bytes)
    → length value < fuel
    → length (fragments fuel type value) ≡ max 1 ((length value + 254) / 255) * 2 + length value
length-fragments zero type value h = absurd (omega arith)
length-fragments (suc fuel) type value h = elim (lt_or_le 255 (length value)) [
  | inl more ↦
      let rest = drop 255 value in
      let left = length-drop 255 value in
      rw (fragments_more fuel type value more, length-append, length-take)
        (omega (arith, left, length-fragments fuel type rest (omega (arith, left))))
  | inr last ↦ rw (fragments_last fuel type value last) (omega arith)
]

-- What `write_entries` writes.
unfoldable pub print_entries : List Entry → Bytes
unfolding fragments
print_entries [] = []
print_entries ((type, raw) ∷ entries) =
    let value = value_bytes raw in fragments (length value + 1) type value ++ print_entries entries

pub write_entries-print :
    (entries : List Entry) → write_entries entries ≡ some (print_entries entries)
unfolding write_entries print_entries
write_entries-print [] = refl
write_entries-print ((type, raw) ∷ entries) = ground (
  arith,
  fragment_loop-fragments (length (value_bytes raw) + 1) type (value_bytes raw) 0,
  write_entries-print entries,
)

length-value_bytes : (raw : RawValue) → length (value_bytes raw) ≡ value_length raw
length-value_bytes (byte n) = refl
length-value_bytes (buffer b) = refl

pub length-print_entries :
    (entries : List Entry) → length (print_entries entries) ≡ total_size entries
unfolding print_entries total_size
length-print_entries [] = refl
length-print_entries ((type, raw) ∷ entries) =
    let value = value_bytes raw in
    omega (
      arith,
      length-append (fragments (length value + 1) type value) (print_entries entries),
      length-fragments (length value + 1) type value (omega arith),
      length-value_bytes raw,
      length-print_entries entries,
    )

-- The encoder returns on every input, and its result is what it wrote: the size that it computed
-- first is exactly what the fragments take, so no byte is left as it was allocated.
pub encode-print :
    (junk : ℕ → ℕ) (entries : List Entry) → encode junk entries ≡ some (print_entries entries)
unfolding encode
encode-print junk entries = rw (write_entries-print entries) (
    ap some (
      put_at-all (alloc_unsafe junk (total_size entries)) (print_entries entries) (
        omega
          (arith, length-alloc_from junk 0 (total_size entries), length-print_entries entries))))
