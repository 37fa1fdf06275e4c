-- ===== src/Encoding/Opack/Flat.antt =====
-- Values that hold no other values: what they are packed to, and read back as.
use apple_protocols.Prelude.{
  ℕ, ◌^◌, ◌<◌, ◌≤◌, List, [], ◌∷◌, some, Bytes, le_bytes, true, false, leb, if◌then◌else◌, length,
  pos, negsuc, lt_or_le, le→leb, gt→leb_false, inl, inr, ◌⊎◌, ◌≡◌, refl, arith,
}
use apple_protocols.Encoding.Opack.{
  Value, null_value, undefined_value, boolean, float, number, integer, sized_integer, text,
  byte_array, array, object, pack, pack_unsigned, pack_number, pack_integer, pack_sized, pack_text,
  pack_bytes, share,
}
use apple_protocols.Encoding.Opack.Utf8.{IsText}
use apple_protocols.Encoding.Opack.Unpack.{View}
use apple_protocols.Encoding.Opack.Tag.{tag_of}
use apple_protocols.Encoding.Opack.Leaves.{
  Reads, true-Reads, false-Reads, null-Reads, inline_int-Reads, float-Reads, sized_int-Reads,
  inline_text-Reads, inline_bytes-Reads, long_text-Reads, long_bytes-Reads,
}

-- A number comes back as a plain number where it stands inline, and else with its width.
unfoldable pub form_unsigned : ℕ → Value
form_unsigned v =
    if leb v 0x27
    then number (pos v)
    else if leb v 0xFF
    then sized_integer (pos v) 1
    else if leb v 0xFFFF
    then sized_integer (pos v) 2
    else if leb v 0xFFFFFFFF
    then sized_integer (pos v) 4
    else sized_integer (pos v) 8

-- The decoder's signed reading of four bytes is right below half of their range, and a double holds
-- the integers below 2⁵³.
abbrev pub FitsNumber : ℕ → Type 0
FitsNumber v = (v < 2 ^ 31) ⊎ ((2 ^ 32 ≤ v) × (v < 2 ^ 53))

-- The values that hold no others and come back: integers are not negative, strings and byte arrays
-- shorter than 2³¹, strings well-formed with no byte order mark in front, doubles of eight bytes.
abbrev pub FitsLeaf : Value → Type 0
FitsLeaf null_value = Unit {0}
FitsLeaf undefined_value = Unit {0}
FitsLeaf (boolean b) = Unit {0}
FitsLeaf (float bits) = length bits ≡ 8
FitsLeaf (number (pos v)) = FitsNumber v
FitsLeaf (number (negsuc v)) = ⊥
FitsLeaf (integer (pos v)) = FitsNumber v
FitsLeaf (integer (negsuc v)) = ⊥
FitsLeaf (sized_integer (pos v) n) =
    ((n ≡ 1) × (v < 2 ^ 8))
    ⊎ (((n ≡ 2) × (v < 2 ^ 16)) ⊎ (((n ≡ 4) × (v < 2 ^ 31)) ⊎ ((n ≡ 8) × (v < 2 ^ 53))))
FitsLeaf (sized_integer (negsuc v) n) = ⊥
FitsLeaf (text b) = (length b < 2 ^ 31) × IsText b
FitsLeaf (byte_array b) = length b < 2 ^ 31
FitsLeaf (array vs) = ⊥
FitsLeaf (object es) = ⊥

abbrev pub form : Value → Value
form undefined_value = null_value
form (number (pos v)) = form_unsigned v
form (integer (pos v)) = form_unsigned v
form v = v

-- A value that holds no other values.
abbrev pub IsFlat : Value → Type 0
IsFlat (array vs) = ⊥
IsFlat (object es) = ⊥
IsFlat _ = Unit {0}

module _ (view : View) (property_key : Value → Bytes) where
  unsigned-Reads :
      (v : ℕ) → FitsNumber v → Reads view property_key (pack_unsigned v) (form_unsigned v)
  unfolding pack_unsigned form_unsigned tag_of
  unsigned-Reads v f = elim (lt_or_le 0x27 v) [
    | inr a ↦ simp (le→leb v 0x27 a) (inline_int-Reads view property_key v a)
    | inl a ↦ simp (gt→leb_false v 0x27 a) (elim (lt_or_le 0xFF v) [
      | inr b ↦
          simp (le→leb v 0xFF b)
            (sized_int-Reads view property_key 0x30 1 v refl (inl (refl, omega arith)))
      | inl b ↦ simp (gt→leb_false v 0xFF b) (elim (lt_or_le 0xFFFF v) [
        | inr c ↦
            simp (le→leb v 0xFFFF c)
              (sized_int-Reads view property_key 0x31 2 v refl (inr (inl (refl, omega arith))))
        | inl c ↦ simp (gt→leb_false v 0xFFFF c) (elim f [
          | inl d ↦
              simp (le→leb v 0xFFFFFFFF (omega arith))
                (sized_int-Reads view property_key 0x32 4 v refl (inr (inr (inr (inl (refl, d))))))
          | inr (d, e) ↦
              simp (gt→leb_false v 0xFFFFFFFF (omega arith))
                (sized_int-Reads view property_key 0x33 8 v refl (inr (inr (inr (inr (refl, e))))))
        ])
      ])
    ])
  ]

  pub text-Reads :
      (b : Bytes) → length b < 2 ^ 31 → IsText b → Reads view property_key (pack_text b) (text b)
  unfolding pack_text tag_of
  text-Reads b f t = elim (lt_or_le 0x20 (length b)) [
    | inr a ↦ simp (le→leb (length b) 0x20 a) (inline_text-Reads view property_key b a t)
    | inl a ↦ simp (gt→leb_false (length b) 0x20 a) (elim (lt_or_le 0xFF (length b)) [
      | inr c ↦
          simp (le→leb (length b) 0xFF c)
            (long_text-Reads view property_key 0x61 1 b refl (inl (refl, omega arith)) t)
      | inl c ↦ simp (gt→leb_false (length b) 0xFF c) (elim (lt_or_le 0xFFFF (length b)) [
        | inr d ↦
            simp (le→leb (length b) 0xFFFF d)
              (long_text-Reads view property_key 0x62 2 b refl (inr (inl (refl, omega arith))) t)
        | inl d ↦ simp (gt→leb_false (length b) 0xFFFF d) (elim (lt_or_le 0xFFFFFF (length b)) [
          | inr e ↦ simp (le→leb (length b) 0xFFFFFF e) (
              long_text-Reads view property_key 0x63 3 b refl (inr (inr (inl (refl, omega arith))))
                t)
          | inl e ↦
              simp (gt→leb_false (length b) 0xFFFFFF e) (
                long_text-Reads view property_key 0x64 4 b refl (inr (inr (inr (inl (refl, f))))) t)
        ])
      ])
    ])
  ]

  bytes-Reads :
      (b : Bytes) → length b < 2 ^ 31 → Reads view property_key (pack_bytes b) (byte_array b)
  unfolding pack_bytes tag_of
  bytes-Reads b f = elim (lt_or_le 0x20 (length b)) [
    | inr a ↦ simp (le→leb (length b) 0x20 a) (inline_bytes-Reads view property_key b a)
    | inl a ↦ simp (gt→leb_false (length b) 0x20 a) (elim (lt_or_le 0xFF (length b)) [
      | inr c ↦
          simp (le→leb (length b) 0xFF c)
            (long_bytes-Reads view property_key 0x91 1 b refl (inl (refl, omega arith)))
      | inl c ↦ simp (gt→leb_false (length b) 0xFF c) (elim (lt_or_le 0xFFFF (length b)) [
        | inr d ↦
            simp (le→leb (length b) 0xFFFF d)
              (long_bytes-Reads view property_key 0x92 2 b refl (inr (inl (refl, omega arith))))
        | inl d ↦
            simp (gt→leb_false (length b) 0xFFFF d)
              (long_bytes-Reads view property_key 0x93 4 b refl (inr (inr (inr (inl (refl, f))))))
      ])
    ])
  ]

  -- What such a value is packed to before it is shared, and how that reads back.
  abbrev pub Packs : Value → Type 0
  Packs v =
      (packed : Bytes) × ((objects : List Bytes) → pack v objects ≡ some (share packed objects))
      × Reads view property_key packed (form v)

  sized-Packs : (v n : ℕ) → FitsLeaf (sized_integer (pos v) n) → Packs (sized_integer (pos v) n)
  unfolding pack pack_sized tag_of
  sized-Packs v n (inl (e, h)) = rw e (
    0x30 ∷ le_bytes 1 v,
    λ o. refl,
    sized_int-Reads view property_key 0x30 1 v refl (inl (refl, h)),
  )
  sized-Packs v n (inr (inl (e, h))) = rw e (
    0x31 ∷ le_bytes 2 v,
    λ o. refl,
    sized_int-Reads view property_key 0x31 2 v refl (inr (inl (refl, h))),
  )
  sized-Packs v n (inr (inr (inl (e, h)))) = rw e (
    0x32 ∷ le_bytes 4 v,
    λ o. refl,
    sized_int-Reads view property_key 0x32 4 v refl (inr (inr (inr (inl (refl, h))))),
  )
  sized-Packs v n (inr (inr (inr (e, h)))) = rw e (
    0x33 ∷ le_bytes 8 v,
    λ o. refl,
    sized_int-Reads view property_key 0x33 8 v refl (inr (inr (inr (inr (refl, h))))),
  )

  pub leaf-Packs : (v : Value) → FitsLeaf v → Packs v
  unfolding pack pack_number pack_integer
  leaf-Packs null_value f = (0x04 ∷ [], λ o. refl, null-Reads view property_key)
  leaf-Packs undefined_value f = (0x04 ∷ [], λ o. refl, null-Reads view property_key)
  leaf-Packs (boolean true) f = (0x01 ∷ [], λ o. refl, true-Reads view property_key)
  leaf-Packs (boolean false) f = (0x02 ∷ [], λ o. refl, false-Reads view property_key)
  leaf-Packs (float bits) f = (0x36 ∷ bits, λ o. refl, float-Reads view property_key bits f)
  leaf-Packs (number (pos v)) f = (pack_unsigned v, λ o. refl, unsigned-Reads v f)
  leaf-Packs (integer (pos v)) f = (pack_unsigned v, λ o. refl, unsigned-Reads v f)
  leaf-Packs (sized_integer (pos v) n) f = sized-Packs v n f
  leaf-Packs (text b) (f, t) = (pack_text b, λ o. refl, text-Reads b f t)
  leaf-Packs (byte_array b) f = (pack_bytes b, λ o. refl, bytes-Reads b f)
  leaf-Packs (number (negsuc v)) f = absurd f
  leaf-Packs (integer (negsuc v)) f = absurd f
  leaf-Packs (sized_integer (negsuc v) n) f = absurd f
  leaf-Packs (array vs) f = absurd f
  leaf-Packs (object es) f = absurd f

form_unsigned-IsFlat : (v : ℕ) → IsFlat (form_unsigned v)
unfolding form_unsigned
form_unsigned-IsFlat v = elim (lt_or_le 0x27 v) [
  | inr a ↦ simp (le→leb v 0x27 a) tt
  | inl a ↦ simp (gt→leb_false v 0x27 a) (elim (lt_or_le 0xFF v) [
    | inr b ↦ simp (le→leb v 0xFF b) tt
    | inl b ↦ simp (gt→leb_false v 0xFF b) (elim (lt_or_le 0xFFFF v) [
      | inr c ↦ simp (le→leb v 0xFFFF c) tt
      | inl c ↦ simp (gt→leb_false v 0xFFFF c) (elim (lt_or_le 0xFFFFFFFF v) [
        | inr d ↦ simp (le→leb v 0xFFFFFFFF d) tt
        | inl d ↦ simp (gt→leb_false v 0xFFFFFFFF d) tt
      ])
    ])
  ])
]

-- Such a value comes back as one that holds no others.
pub form-IsFlat : (v : Value) → FitsLeaf v → IsFlat (form v)
form-IsFlat null_value f = tt
form-IsFlat undefined_value f = tt
form-IsFlat (boolean b) f = tt
form-IsFlat (float bits) f = tt
form-IsFlat (number (pos v)) f = form_unsigned-IsFlat v
form-IsFlat (integer (pos v)) f = form_unsigned-IsFlat v
form-IsFlat (sized_integer (pos v) n) f = tt
form-IsFlat (text b) f = tt
form-IsFlat (byte_array b) f = tt
form-IsFlat (number (negsuc v)) f = absurd f
form-IsFlat (integer (negsuc v)) f = absurd f
form-IsFlat (sized_integer (negsuc v) n) f = absurd f
form-IsFlat (array vs) f = absurd f
form-IsFlat (object es) f = absurd f
