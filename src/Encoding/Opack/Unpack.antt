-- ===== src/Encoding/Opack/Unpack.antt =====
-- packages/encoding/src/opack.ts: the decoder.
use apple_protocols.Prelude.{
  ℕ, zero, suc, ◌+◌, ◌-◌, ◌*◌, ◌/◌, ◌%◌, ◌^◌, List, [], ◌∷◌, ◌++◌, Option, none, some, Bytes,
  le_value, byte_at, ◌>>=◌, not, Bool, true, false, ◌&&◌, ltb, ◌==◌, if◌then◌else◌, take, drop,
  length, ℤ, pos, negsuc, int_of, Outcome, ok, thrown, out_of_fuel, bind,
}
use apple_protocols.Encoding.Opack.{
  Value, null_value, undefined_value, boolean, float, number, sized_integer, text, byte_array,
  array, object, Values, no_values, value_then, Entries, no_entries, entry_then, equal_bytes,
}
use apple_protocols.Encoding.Opack.Utf8.{decode_text}
use apple_protocols.Encoding.Opack.Tag.{
  Tag, true_tag, false_tag, null_tag, uuid_tag, timestamp_tag, float_32_tag, float_64_tag,
  inline_int, sized_int, inline_text, long_text, inline_bytes, long_bytes, array_of, array_to_end,
  dict_of, dict_to_end, inline_reference, long_reference, tag_of,
}

pub data Failure : Type 0 where
  no_data buffer_overflow out_of_range_index unknown_tag_error out_of_bounds_view : Failure

-- Integers, of which an offset may be negative behind a length that is.
abbrev pub plus : ℕ → ℤ → ℤ
plus n (pos v) = pos (n + v)
plus n (negsuc v) = if ltb v n then pos (n - suc v) else negsuc (v - n)

-- `Number` of a BigInt: the nearest double, and of two the one whose last bit is 0. Integers above the
-- largest double are rounded in the same way, where the program has Infinity.
abbrev pub excess_bits : ℕ → ℕ → ℕ
excess_bits zero v = 0
excess_bits (suc fuel) v =
    let rest = excess_bits fuel (v / 2) in if ltb v (2 ^ 53) then 0 else suc rest

abbrev pub round_at : ℕ → ℕ → ℕ
round_at zero v = v
round_at (suc k) v =
    let unit = 2 ^ suc k in
    let half = 2 ^ k in
    let q = v / unit in
    let r = v % unit in
    if ltb half r
    then suc q * unit
    else if (r == half) && (q % 2 == 1)
    then suc q * unit
    else q * unit

abbrev pub number_of : ℕ → ℕ → ℕ
number_of bits v = round_at (excess_bits bits v) v

-- `data.subarray(start, end)`: an end below 0 counts from the end of the buffer.
abbrev pub subarray : Bytes → ℕ → ℤ → Bytes
subarray data_ start (pos end_) = take (end_ - start) (drop start data_)
subarray data_ start (negsuc n) = take (length data_ - suc n - start) (drop start data_)

-- Four bytes are joined by operators on 32-bit signed integers.
unfoldable pub read_little_endian : Bytes → ℕ → ℕ → Outcome Failure ℤ
read_little_endian buf offset len =
    let w = le_value (take len (drop offset buf)) in
    if ltb (length buf) (offset + len)
    then thrown buffer_overflow
    else if (len == 1)
    then ok (pos w)
    else if (len == 2)
    then ok (pos w)
    else if len == 4
    then ok (int_of 4 w)
    else ok (pos (number_of (8 * len) w))

-- `objectList[i]`, with `none` for an index past the end, which is refused before; an index below 0
-- is not refused, and has no value.
abbrev pub value_at : List Value → ℤ → Option Value
value_at objects (negsuc n) = some undefined_value
value_at [] (pos i) = none
value_at (v ∷ objects) (pos zero) = some v
value_at (v ∷ objects) (pos (suc i)) = value_at objects (pos i)

-- `obj[key] = value`, for a key that is neither an array index nor `__proto__`.
abbrev pub set_entry : Bytes → Value → Entries → Entries
set_entry k v no_entries = entry_then k v no_entries
set_entry k v (entry_then l w es) =
    let rest = set_entry k v es in
    if equal_bytes l k then entry_then k v es else entry_then l w rest

-- A value, the offset behind it, and whether it is one that a reference may name.
pub record Unpacked : Type 0 where
  pub value : Value
  pub offset : ℤ
  pub add_to_object_list : Bool

abbrev pub leaf : Value → ℤ → Outcome Failure Unpacked
leaf v offset = ok (record { value = v; offset = offset; add_to_object_list = true })

abbrev pub value_of_index : Option Value → ℤ → Outcome Failure Unpacked
value_of_index none offset = thrown out_of_range_index
value_of_index (some v) offset =
    ok (record { value = v; offset = offset; add_to_object_list = false })

-- `single_to_double` widens the four bytes of a float, and `behind` is what the memory that the data
-- is part of holds behind it: a `DataView` is bounded by that memory, and not by the data.
pub record View : Type 0 where
  pub single_to_double : Bytes → Bytes
  pub behind : Bytes

-- The kinds of values that hold no other values. A double is read from a view of four or eight bytes,
-- which must exist; strings and byte arrays are cut off where the data ends.
unfoldable pub unpack_leaf : View → Tag → Bytes → ℕ → List Value → Outcome Failure Unpacked
unfolding read_little_endian
unpack_leaf view true_tag buf offset objects = leaf (boolean true) (pos (offset + 1))
unpack_leaf view false_tag buf offset objects = leaf (boolean false) (pos (offset + 1))
unpack_leaf view null_tag buf offset objects = leaf null_value (pos (offset + 1))
unpack_leaf view uuid_tag buf offset objects =
    leaf (byte_array (subarray buf (offset + 1) (pos (offset + 17)))) (pos (offset + 17))
unpack_leaf view timestamp_tag buf offset objects =
    bind (read_little_endian buf (offset + 1) 8) (λ v. leaf (number v) (pos (offset + 9)))
unpack_leaf view (inline_int v) buf offset objects = leaf (number (pos v)) (pos (offset + 1))
unpack_leaf view float_32_tag buf offset objects =
    let memory = buf ++ view.behind in
    if ltb (length memory) (offset + 5)
    then thrown out_of_bounds_view
    else leaf (float (view.single_to_double (take 4 (drop (offset + 1) memory)))) (pos (offset + 5))
unpack_leaf view float_64_tag buf offset objects =
    let memory = buf ++ view.behind in
    if ltb (length memory) (offset + 9)
    then thrown out_of_bounds_view
    else leaf (float (take 8 (drop (offset + 1) memory))) (pos (offset + 9))
unpack_leaf view (sized_int n) buf offset objects =
    bind (read_little_endian buf (offset + 1) n)
      (λ v. leaf (sized_integer v n) (pos (offset + 1 + n)))
unpack_leaf view (inline_text n) buf offset objects =
    leaf (text (decode_text (subarray buf (offset + 1) (pos (offset + 1 + n)))))
      (pos (offset + 1 + n))
unpack_leaf view (long_text n) buf offset objects =
    bind (read_little_endian buf (offset + 1) n) (λ size.
      leaf (text (decode_text (subarray buf (offset + 1 + n) (plus (offset + 1 + n) size))))
        (plus (offset + 1 + n) size))
unpack_leaf view (inline_bytes n) buf offset objects =
    leaf (byte_array (subarray buf (offset + 1) (pos (offset + 1 + n)))) (pos (offset + 1 + n))
unpack_leaf view (long_bytes n) buf offset objects =
    bind (read_little_endian buf (offset + 1) n) (λ size.
      leaf (byte_array (subarray buf (offset + 1 + n) (plus (offset + 1 + n) size)))
        (plus (offset + 1 + n) size))
unpack_leaf view (inline_reference i) buf offset objects =
    value_of_index (value_at objects (pos i)) (pos (offset + 1))
unpack_leaf view (long_reference n) buf offset objects =
    bind (read_little_endian buf (offset + 1) n)
      (λ i. value_of_index (value_at objects i) (pos (offset + 1 + n)))
unpack_leaf view _ buf offset objects = thrown unknown_tag_error

-- Whether the value takes more than one byte.
abbrev pub is_long : ℕ → ℤ → Bool
is_long start (negsuc n) = false
is_long start (pos end_) = ltb (start + 1) end_

unfoldable pub remember : ℕ → List Value → Unpacked → Value × (ℤ × List Value)
remember start objects u = (
  u.value,
  (
    u.offset,
    if u.add_to_object_list && is_long start u.offset then objects ++ (u.value ∷ []) else objects,
  ),
)

-- What the decoder returns, with the list of the objects decoded so far.
abbrev pub Result {ℓ} : Type ℓ → Type ℓ
Result A = Outcome Failure (A × (ℤ × List Value))

abbrev pub tag_at : Bytes → ℕ → Option Tag
tag_at buf i = byte_at buf i >>= λ b. some (tag_of b)

-- Each call of `_unpackAt` and each round of its loops takes a unit of fuel; `property_key` is the string that a value other than a
-- string is turned into as a key. Behind a negative offset `data[offset]` is undefined, of no kind.
module _ (view : View) (property_key : Value → Bytes) where
  abbrev pub key_of : Value → Bytes
  key_of (text b) = b
  key_of v = property_key v

  -- `pos < data.length && data[pos] !== TAG.TERMINATOR`
  abbrev pub goes_on : Bytes → ℤ → Bool
  goes_on buf (negsuc n) = true
  goes_on buf (pos i) = goes_on_at (byte_at buf i)
    where
      goes_on_at : Option ℕ → Bool
      goes_on_at none = false
      goes_on_at (some b) = not (b == 0x03)

  -- `if (pos < data.length) pos++`
  abbrev pub past_terminator : Bytes → ℤ → ℤ
  past_terminator buf (negsuc n) = plus 1 (negsuc n)
  past_terminator buf (pos i) = if ltb i (length buf) then pos (i + 1) else pos i

  abbrev pub container : ℕ → (Value × (ℤ × List Value)) → Value × (ℤ × List Value)
  container start (v, (offset, objects)) =
      remember start objects (record { value = v; offset = offset; add_to_object_list = true })

  unfoldable mutual
    unfolding unpack_leaf remember tag_of

    pub unpack_at : ℕ → Bytes → ℤ → List Value → Result Value
    unpack_at zero buf offset objects = out_of_fuel
    unpack_at (suc fuel) buf (negsuc n) objects = thrown unknown_tag_error
    unpack_at (suc fuel) buf (pos i) objects = unpack_tag fuel buf i objects (tag_at buf i)

    pub unpack_tag : ℕ → Bytes → ℕ → List Value → Option Tag → Result Value
    unpack_tag zero buf i objects tag = out_of_fuel
    unpack_tag (suc fuel) buf i objects none = thrown no_data
    unpack_tag (suc fuel) buf i objects (some (array_of n)) =
        bind (unpack_count fuel n buf (pos (i + 1)) objects)
          (λ (vs, rest). ok (container i (array vs, rest)))
    unpack_tag (suc fuel) buf i objects (some array_to_end) =
        bind (unpack_to_end fuel buf (pos (i + 1)) objects)
          (λ (vs, rest). ok (container i (array vs, rest)))
    unpack_tag (suc fuel) buf i objects (some (dict_of n)) =
        bind (unpack_entries fuel n buf (pos (i + 1)) objects no_entries)
          (λ (es, rest). ok (container i (object es, rest)))
    unpack_tag (suc fuel) buf i objects (some dict_to_end) =
        bind (unpack_entries_to_end fuel buf (pos (i + 1)) objects no_entries)
          (λ (es, rest). ok (container i (object es, rest)))
    unpack_tag (suc fuel) buf i objects (some tag) =
        bind (unpack_leaf view tag buf i objects) (λ u. ok (remember i objects u))

    pub unpack_count : ℕ → ℕ → Bytes → ℤ → List Value → Result Values
    unpack_count zero n buf offset objects = out_of_fuel
    unpack_count (suc fuel) zero buf offset objects = ok (no_values, (offset, objects))
    unpack_count (suc fuel) (suc n) buf offset objects =
        bind (unpack_at fuel buf offset objects) (λ (v, (offset', objects')).
          bind (unpack_count fuel n buf offset' objects')
            (λ (vs, rest). ok (value_then v vs, rest)))

    pub unpack_to_end : ℕ → Bytes → ℤ → List Value → Result Values
    unpack_to_end zero buf offset objects = out_of_fuel
    unpack_to_end (suc fuel) buf offset objects = elim (goes_on buf offset) [
      | false ↦ ok (no_values, (past_terminator buf offset, objects))
      | true ↦ bind (unpack_at fuel buf offset objects) (λ (v, (offset', objects')).
          bind (unpack_to_end fuel buf offset' objects') (λ (vs, rest). ok (value_then v vs, rest)))
    ]

    pub unpack_entry : ℕ → Bytes → ℤ → List Value → Entries → Result Entries
    unpack_entry zero buf offset objects es = out_of_fuel
    unpack_entry (suc fuel) buf offset objects es =
        bind (unpack_at fuel buf offset objects) (λ (k, (offset', objects')).
          bind (unpack_at fuel buf offset' objects')
            (λ (v, rest). ok (set_entry (key_of k) v es, rest)))

    pub unpack_entries : ℕ → ℕ → Bytes → ℤ → List Value → Entries → Result Entries
    unpack_entries zero n buf offset objects es = out_of_fuel
    unpack_entries (suc fuel) zero buf offset objects es = ok (es, (offset, objects))
    unpack_entries (suc fuel) (suc n) buf offset objects es =
        bind (unpack_entry fuel buf offset objects es)
          (λ (es', (offset', objects')). unpack_entries fuel n buf offset' objects' es')

    pub unpack_entries_to_end : ℕ → Bytes → ℤ → List Value → Entries → Result Entries
    unpack_entries_to_end zero buf offset objects es = out_of_fuel
    unpack_entries_to_end (suc fuel) buf offset objects es = elim (goes_on buf offset) [
      | false ↦ ok (es, (past_terminator buf offset, objects))
      | true ↦
          bind (unpack_entry fuel buf offset objects es)
            (λ (es', (offset', objects')). unpack_entries_to_end fuel buf offset' objects' es')
    ]

  unfoldable pub decode : ℕ → Bytes → Outcome Failure Value
  unfolding unpack_at
  decode fuel data_ = bind (unpack_at fuel data_ (pos 0) []) (λ (v, rest). ok v)
