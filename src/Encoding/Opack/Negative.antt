-- ===== src/Encoding/Opack/Negative.antt =====
-- Integers of four bytes whose highest bit is set.
use apple_protocols.Prelude.{
  ℕ, suc, ◌+◌, ◌-◌, ◌^◌, ◌<◌, ◌≤◌, [], ◌∷◌, ◌++◌, some, Bytes, le_bytes, length-le_bytes, length,
  pos, negsuc, ok, bind, le→ltb_false, le→leb, gt→leb_false, ◌≡◌, refl, ap, arith,
}
use apple_protocols.Encoding.Opack.{
  Value, number, sized_integer, encode, pack, pack_number, pack_unsigned, share, find_index,
}
use apple_protocols.Encoding.Opack.Tag.{sized_int, tag_of}
use apple_protocols.Encoding.Opack.Unpack.{View, decode, unpack_at, unpack_leaf, read_little_endian}
use apple_protocols.Encoding.Opack.Leaves.{Reads, leaf-Reads, read_le, enough}

read_little_endian-high :
    (v : ℕ) (pre : Bytes) (t : ℕ) (rest : Bytes)
    → 2 ^ 31 ≤ v
    → v < 2 ^ 32
    → read_little_endian (pre ++ (t ∷ (le_bytes 4 v ++ rest))) (length pre + 1) 4
      ≡ ok (negsuc (2 ^ 32 - 1 - v))
unfolding read_little_endian
read_little_endian-high v pre t rest high h = simp (
  le→ltb_false _ _ (enough 4 v pre t rest),
  read_le 4 v pre t rest h,
  le→ltb_false v (2 ^ 31) high,
)

module _ (view : View) (property_key : Value → Bytes) where
  high-Reads :
      (v : ℕ)
      → 2 ^ 31 ≤ v
      → v < 2 ^ 32
      → Reads view property_key (0x32 ∷ le_bytes 4 v) (sized_integer (negsuc (2 ^ 32 - 1 - v)) 4)
  unfolding unpack_at unpack_leaf tag_of
  high-Reads v high h =
      leaf-Reads view property_key 0x32 (sized_int 4) (le_bytes 4 v)
        (sized_integer (negsuc (2 ^ 32 - 1 - v)) 4) refl (λ f b i o. refl)
        (λ pre post o. rw (read_little_endian-high v pre 0x32 post high h, length-le_bytes 4 v))

  -- Every integer from 2³¹ below 2³² is encoded, and decodes to a negative one: to itself less 2³².
  pub decode-encode_high :
      (v extra : ℕ)
      → 2 ^ 31 ≤ v
      → v < 2 ^ 32
      → (buf : Bytes) × (encode (number (pos v)) ≡ some buf)
        × (decode view property_key (suc (suc extra)) buf
            ≡ ok (sized_integer (negsuc (2 ^ 32 - 1 - v)) 4))
  unfolding encode pack pack_number pack_unsigned share find_index decode
  decode-encode_high v extra high h =
      let packed = 0x32 ∷ le_bytes 4 v in
      (
        packed,
        rw (
          gt→leb_false v 0x27 (omega arith),
          gt→leb_false v 0xFF (omega arith),
          gt→leb_false v 0xFFFF (omega arith),
          le→leb v 0xFFFFFFFF (omega arith),
        ),
        ap (λ r. bind r (λ x. ok x.0)) (high-Reads v high h extra [] [] []),
      )
