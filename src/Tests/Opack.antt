-- ===== src/Tests/Opack.antt =====
-- Runs and instances for packages/encoding/src/opack.ts.
use apple_protocols.Prelude.{
  ℕ, zero, suc, ◌+◌, ◌-◌, ◌^◌, [], ◌∷◌, none, some, Bytes, Outcome, ok, thrown, out_of_fuel, pos,
  negsuc, ◌≡◌, refl, arith,
}
use apple_protocols.Encoding.Opack.{
  Value, null_value, number, sized_integer, text, array, object, Values, no_values, value_then,
  Entries, no_entries, entry_then, encode, pack, pack_unsigned, pack_text, pack_number,
  frame_object, share, find_index,
}
use apple_protocols.Encoding.Opack.Tag.{tag_of}
use apple_protocols.Encoding.Opack.Unpack.{
  View, decode, Failure, no_data, unpack_at, unpack_leaf, read_little_endian, remember,
}
use apple_protocols.Encoding.Opack.Utf8.{decode_text}
use apple_protocols.Encoding.Opack.Assigned.{form_entries}
use apple_protocols.Encoding.Opack.Objects.{decode-encode_object}
use apple_protocols.Encoding.Opack.Negative.{decode-encode_high}
use apple_protocols.Encoding.Opack.Endless.{endless, decode-endless}

-- Only strings are keys here, and no singles occur.
abbrev no_single : View
no_single = record { single_to_double = λ b. b; behind = [] }

abbrev no_key : Value → Bytes
no_key v = []

-- The same string twice.
abbrev words : Values
words =
    value_then (text (104 ∷ 105 ∷ []))
      (value_then (text (104 ∷ 105 ∷ [])) (value_then (number (pos 300)) no_values))

words_packed : encode (array words) ≡ some (0xD3 ∷ 0x42 ∷ 104 ∷ 105 ∷ 0xA0 ∷ 0x31 ∷ 44 ∷ 1 ∷ [])
unfolding encode pack pack_text pack_number pack_unsigned share find_index
words_packed = refl

-- `{a: null, b: "a"}`
abbrev entries : Entries
entries = entry_then (97 ∷ []) null_value (entry_then (98 ∷ []) (text (97 ∷ [])) no_entries)

decode-encode_object_example :
    (buf : Bytes) × (encode (object entries) ≡ some buf)
    × (decode no_single no_key 7 buf ≡ ok (object (form_entries entries)))
unfolding decode_text
decode-encode_object_example =
    decode-encode_object no_single no_key entries 0
      (
        (omega arith, refl, (refl, refl)),
        (tt, ((omega arith, refl, (refl, refl)), ((omega arith, refl), tt))),
      )
      ((refl, tt), (tt, tt)) (omega arith)

decode-endless_example : decode no_single no_key 1000 endless ≡ out_of_fuel
decode-endless_example = decode-endless no_single no_key 1000

-- A number of four bytes whose highest bit is set comes back negative.
abbrev through : Value → Outcome Failure Value
through v = elim (encode v) [ none ↦ out_of_fuel | some buf ↦ decode no_single no_key 40 buf ]

-- A byte order mark in front of a string is lost, and bytes that are no character are replaced.
marked : through (text (0xEF ∷ 0xBB ∷ 0xBF ∷ 97 ∷ [])) ≡ ok (text (97 ∷ []))
unfolding encode pack pack_text share find_index decode unpack_at unpack_leaf remember tag_of
    decode_text
marked = refl

mended :
    decode_text (97 ∷ 0xE2 ∷ 0x82 ∷ 98 ∷ 0xC3 ∷ 0xA9 ∷ [])
    ≡ 97 ∷ 0xEF ∷ 0xBF ∷ 0xBD ∷ 98 ∷ 0xC3 ∷ 0xA9 ∷ []
unfolding decode_text
mended = refl

negative : through (number (pos (2 ^ 31))) ≡ ok (sized_integer (negsuc (2 ^ 31 - 1)) 4)
unfolding encode pack pack_number pack_unsigned share find_index decode unpack_at unpack_leaf
    read_little_endian remember tag_of
negative = refl

decode-encode_high_example :
    (buf : Bytes) × (encode (number (pos (2 ^ 31))) ≡ some buf)
    × (decode no_single no_key 2 buf ≡ ok (sized_integer (negsuc (2 ^ 31 - 1)) 4))
decode-encode_high_example =
    decode-encode_high no_single no_key (2 ^ 31) 0 (omega arith) (omega arith)

-- An object of 15 entries is closed with a byte that the decoder takes for a key.
abbrev numbered : ℕ → Entries → Entries
numbered zero es = es
numbered (suc n) es = numbered n (entry_then ((65 + n) ∷ []) null_value es)

fifteen : through (object (numbered 15 no_entries)) ≡ thrown no_data
unfolding encode pack pack_text frame_object share find_index decode unpack_at unpack_leaf
    read_little_endian remember tag_of
fifteen = refl
