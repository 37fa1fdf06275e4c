-- ===== src/Encoding/Opack/Endless.antt =====
-- An array on which the decoder's loop does not end.
use apple_protocols.Prelude.{
  ℕ, zero, suc, List, [], ◌∷◌, Bytes, pos, ok, out_of_fuel, bind, ◌≡◌, refl, ap,
}
use apple_protocols.Encoding.Opack.{Value, byte_array, array, value_then}
use apple_protocols.Encoding.Opack.Unpack.{
  View, unpack_at, unpack_to_end, unpack_leaf, read_little_endian, remember, decode, subarray,
  container,
}
use apple_protocols.Encoding.Opack.Tag.{tag_of}

-- An array up to its terminator, whose first element is a byte array with a length of -5 in four
-- bytes.
abbrev pub endless : Bytes
endless = 0xDF ∷ 0x93 ∷ 0xFB ∷ 0xFF ∷ 0xFF ∷ 0xFF ∷ []

module _ (view : View) (property_key : Value → Bytes) where
  loop :
      (fuel : ℕ) (objects : List Value)
      → unpack_to_end view property_key fuel endless (pos 1) objects ≡ out_of_fuel
  unfolding unpack_at unpack_leaf read_little_endian remember tag_of
  loop zero objects = refl
  loop (suc zero) objects = refl
  loop (suc (suc zero)) objects = refl
  loop (suc (suc (suc fuel))) objects =
      ap (λ r. bind r (λ x. ok (value_then (byte_array (subarray endless 6 (pos 1))) x.0, x.1)))
        (loop (suc (suc fuel)) objects)

  -- However much fuel there is, the decoder does not end on these six bytes: the negative length
  -- takes the loop over the array's elements back to the element that it has just read.
  pub decode-endless : (fuel : ℕ) → decode view property_key fuel endless ≡ out_of_fuel
  unfolding decode unpack_at tag_of
  decode-endless zero = refl
  decode-endless (suc zero) = refl
  decode-endless (suc (suc fuel)) =
      ap
        (λ r.
          bind (bind r (λ x. ok (container view property_key 0 (array x.0, x.1)))) (λ y. ok y.0))
        (loop fuel [])
