-- ===== src/Encoding/Opack/Leaves.antt =====
-- What the decoder makes of a packed value that holds no other values.
use apple_protocols.Prelude.{
  ℕ, suc, ◌+◌, ◌-◌, ◌^◌, ◌<◌, ◌≤◌, List, [], ◌∷◌, ◌++◌, some, Bytes, le_bytes, le_value,
  le_value-le_bytes, length-le_bytes, byte_at-behind, slice-behind, length-append, take-append_eq,
  drop-append_eq, take, drop, append_assoc, true, false, ltb, if◌then◌else◌, length, pos, ok, bind,
  lt→ltb, le→ltb_false, inl, inr, ◌⊎◌, ◌≡◌, refl, ap, ◌∙◌, arith,
}
use native.Mathlib.Nat.{add-zero}
use apple_protocols.Encoding.Opack.{
  Value, null_value, boolean, float, number, sized_integer, text, byte_array,
}
use apple_protocols.Encoding.Opack.Tag.{
  Tag, true_tag, false_tag, null_tag, float_64_tag, inline_int, sized_int, inline_text, long_text,
  inline_bytes, long_bytes, tag_of, tag_of-inline_int, tag_of-inline_text, tag_of-inline_bytes,
}
use apple_protocols.Encoding.Opack.Utf8.{IsText}
use apple_protocols.Encoding.Opack.Unpack.{
  View, read_little_endian, unpack_leaf, unpack_at, unpack_tag, remember, tag_at, subarray, leaf,
}

-- The bytes behind the tag.
slice_after_tag :
    (n k : ℕ) (pre : Bytes) (t : ℕ) (rest : Bytes)
    → take n (drop (length pre + 1 + k) (pre ++ (t ∷ rest))) ≡ take n (drop k rest)
slice_after_tag n k pre t rest =
    slice-behind n (length pre + 1 + k) (suc k) pre (t ∷ rest) (omega arith)

pub tag_at-behind :
    (pre : Bytes) (t : ℕ) (rest : Bytes) → tag_at (pre ++ (t ∷ rest)) (length pre) ≡ some (tag_of t)
tag_at-behind pre t rest = rw (byte_at-behind (length pre) 0 pre (t ∷ rest) (omega arith))

-- A length or an integer of 1, 2, 3 or 8 bytes that a double holds, or one of four below half.
abbrev pub Readable : ℕ → ℕ → Type 0
Readable n v =
    ((n ≡ 1) × (v < 2 ^ 8))
    ⊎ (((n ≡ 2) × (v < 2 ^ 16))
        ⊎ (((n ≡ 3) × (v < 2 ^ 24)) ⊎ (((n ≡ 4) × (v < 2 ^ 31)) ⊎ ((n ≡ 8) × (v < 2 ^ 53)))))

pub read_le :
    (n v : ℕ) (pre : Bytes) (t : ℕ) (rest : Bytes)
    → v < 256 ^ n
    → le_value (take n (drop (length pre + 1) (pre ++ (t ∷ (le_bytes n v ++ rest))))) ≡ v
read_le n v pre t rest h =
    rw
      (
        slice-behind n (length pre + 1) 1 pre (t ∷ (le_bytes n v ++ rest)) (omega arith),
        take-append_eq n (le_bytes n v) rest (length-le_bytes n v),
      )
      (le_value-le_bytes n v h)

pub enough :
    (n v : ℕ) (pre : Bytes) (t : ℕ) (rest : Bytes)
    → length pre + 1 + n ≤ length (pre ++ (t ∷ (le_bytes n v ++ rest)))
enough n v pre t rest = omega (
  arith,
  length-append pre (t ∷ (le_bytes n v ++ rest)),
  length-append (le_bytes n v) rest,
  length-le_bytes n v,
)

-- An integer that was written is read back.
pub read_little_endian-le_bytes :
    (n v : ℕ) (pre : Bytes) (t : ℕ) (rest : Bytes)
    → Readable n v
    → read_little_endian (pre ++ (t ∷ (le_bytes n v ++ rest))) (length pre + 1) n ≡ ok (pos v)
unfolding read_little_endian
read_little_endian-le_bytes n v pre t rest (inl (e, h)) =
    simp (e, le→ltb_false _ _ (enough 1 v pre t rest), read_le 1 v pre t rest h)
read_little_endian-le_bytes n v pre t rest (inr (inl (e, h))) =
    simp (e, le→ltb_false _ _ (enough 2 v pre t rest), read_le 2 v pre t rest h)
read_little_endian-le_bytes n v pre t rest (inr (inr (inl (e, h)))) = simp (
  e,
  le→ltb_false _ _ (enough 3 v pre t rest),
  read_le 3 v pre t rest h,
  lt→ltb v (2 ^ 53) (omega arith),
)
read_little_endian-le_bytes n v pre t rest (inr (inr (inr (inl (e, h))))) = simp (
  e,
  le→ltb_false _ _ (enough 4 v pre t rest),
  read_le 4 v pre t rest (omega arith),
  lt→ltb v (2 ^ 31) h,
)
read_little_endian-le_bytes n v pre t rest (inr (inr (inr (inr (e, h))))) = simp (
  e,
  le→ltb_false _ _ (enough 8 v pre t rest),
  read_le 8 v pre t rest (omega arith),
  lt→ltb v (2 ^ 53) h,
)

-- `P` is read as `v`, and kept for references if it is longer than a byte.
abbrev pub remembered : Bytes → Value → List Value → List Value
remembered packed v objects = if ltb 1 (length packed) then objects ++ (v ∷ []) else objects

module _ (view : View) (property_key : Value → Bytes) where
  abbrev pub Reads : Bytes → Value → Type 0
  Reads packed v =
      (fuel : ℕ) (pre post : Bytes) (objects : List Value)
      → unpack_at view property_key (suc (suc fuel)) (pre ++ (packed ++ post)) (pos (length pre))
          objects
        ≡ ok (v, (pos (length pre + length packed), remembered packed v objects))

  -- The decoder goes on with the kinds that hold no other values.
  abbrev IsLeaf : Tag → Type 0
  IsLeaf tag =
      (fuel : ℕ) (buf : Bytes) (i : ℕ) (objects : List Value)
      → unpack_tag view property_key (suc fuel) buf i objects (some tag)
        ≡ bind (unpack_leaf view tag buf i objects) (λ u. ok (remember i objects u))

  pub leaf-Reads :
      (t : ℕ) (tag : Tag) (body : Bytes) (v : Value)
      → tag_of t ≡ tag
      → IsLeaf tag
      → ((pre post : Bytes) (objects : List Value)
          → unpack_leaf view tag (pre ++ (t ∷ (body ++ post))) (length pre) objects
            ≡ leaf v (pos (length pre + 1 + length body)))
      → Reads (t ∷ body) v
  unfolding unpack_at remember
  leaf-Reads t tag body v e is_leaf reads fuel pre post objects =
      let buf = pre ++ (t ∷ (body ++ post)) in
      let i = length pre in
      ap (unpack_tag view property_key (suc fuel) buf i objects)
        (tag_at-behind pre t (body ++ post) ∙ ap some e)
      ∙ is_leaf fuel buf i objects
      ∙ ap (λ r. bind r (λ u. ok (remember i objects u))) (reads pre post objects)
      ∙ rw (same_test, same_offset)
    where
      same_test : ltb (length pre + 1) (length pre + 1 + length body) ≡ ltb 1 (suc (length body))
      same_test = ground arith

      same_offset : length pre + 1 + length body ≡ length pre + suc (length body)
      same_offset = omega arith

  pub null-Reads : Reads (0x04 ∷ []) null_value
  unfolding unpack_at unpack_leaf tag_of
  null-Reads =
      leaf-Reads 0x04 null_tag [] null_value refl (λ f b i o. refl) (λ pre post o. rw add-zero)

  pub true-Reads : Reads (0x01 ∷ []) (boolean true)
  unfolding unpack_at unpack_leaf tag_of
  true-Reads =
      leaf-Reads 0x01 true_tag [] (boolean true) refl (λ f b i o. refl) (λ pre post o. rw add-zero)

  pub false-Reads : Reads (0x02 ∷ []) (boolean false)
  unfolding unpack_at unpack_leaf tag_of
  false-Reads =
      leaf-Reads 0x02 false_tag [] (boolean false) refl (λ f b i o. refl)
        (λ pre post o. rw add-zero)

  pub inline_int-Reads : (v : ℕ) → v ≤ 0x27 → Reads ((0x08 + v) ∷ []) (number (pos v))
  unfolding unpack_at unpack_leaf
  inline_int-Reads v h =
      leaf-Reads (0x08 + v) (inline_int v) [] (number (pos v)) (tag_of-inline_int v h)
        (λ f b i o. refl) (λ pre post o. rw add-zero)

  pub float-Reads : (bits : Bytes) → length bits ≡ 8 → Reads (0x36 ∷ bits) (float bits)
  unfolding unpack_at unpack_leaf tag_of
  float-Reads bits h =
      leaf-Reads 0x36 float_64_tag bits (float bits) refl (λ f b i o. refl)
        (λ pre post o.
          let rest = 0x36 ∷ (bits ++ (post ++ view.behind)) in
          let memory : (pre ++ (0x36 ∷ (bits ++ post))) ++ view.behind ≡ pre ++ rest =
            append_assoc pre (0x36 ∷ (bits ++ post)) view.behind
            ∙ ap (λ z. pre ++ (0x36 ∷ z)) (append_assoc bits post view.behind) in
          rw memory (
            rw
              (
                le→ltb_false (length (pre ++ rest)) (length pre + 9) (
                    omega
                      (arith, length-append pre rest, length-append bits (post ++ view.behind))),
                slice-behind 8 (length pre + 1) 1 pre rest (omega arith),
                take-append_eq 8 bits (post ++ view.behind) h,
                h,
              )
              (ap (λ n. leaf (float bits) (pos n)) (omega arith))))

  pub sized_int-Reads :
      (t n v : ℕ)
      → tag_of t ≡ sized_int n
      → Readable n v
      → Reads (t ∷ le_bytes n v) (sized_integer (pos v) n)
  unfolding unpack_at unpack_leaf
  sized_int-Reads t n v e r =
      leaf-Reads t (sized_int n) (le_bytes n v) (sized_integer (pos v) n) e (λ f b i o. refl)
        (λ pre post o. rw (read_little_endian-le_bytes n v pre t post r, length-le_bytes n v))

  cut_inline :
      (t : ℕ) (pre b post : Bytes)
      → subarray (pre ++ (t ∷ (b ++ post))) (length pre + 1) (pos (length pre + 1 + length b)) ≡ b
  cut_inline t pre b post =
      let n : length pre + 1 + length b - (length pre + 1) ≡ length b = omega arith in
      rw (
        n,
        slice-behind (length b) (length pre + 1) 1 pre (t ∷ (b ++ post)) (omega arith),
        take-append_eq (length b) b post refl,
      )

  cut_long :
      (t n size : ℕ) (pre b post : Bytes)
      → length b ≡ size
      → subarray
          (pre ++ (t ∷ (le_bytes n size ++ (b ++ post))))
          (length pre + 1 + n)
          (pos (length pre + 1 + n + size))
        ≡ b
  cut_long t n size pre b post h =
      let s : length pre + 1 + n + size - (length pre + 1 + n) ≡ size = omega arith in
      rw (
        s,
        slice-behind size (length pre + 1 + n) (suc n) pre (t ∷ (le_bytes n size ++ (b ++ post)))
            (omega arith),
        drop-append_eq n (le_bytes n size) (b ++ post) (length-le_bytes n size),
        take-append_eq size b post h,
      )

  pub inline_text-Reads :
      (b : Bytes) → length b ≤ 0x20 → IsText b → Reads ((0x40 + length b) ∷ b) (text b)
  unfolding unpack_at unpack_leaf
  inline_text-Reads b h t =
      leaf-Reads (0x40 + length b) (inline_text (length b)) b (text b)
        (tag_of-inline_text (length b) h) (λ f c i o. refl)
        (λ pre post o. rw (cut_inline (0x40 + length b) pre b post, t))

  pub inline_bytes-Reads :
      (b : Bytes) → length b ≤ 0x20 → Reads ((0x70 + length b) ∷ b) (byte_array b)
  unfolding unpack_at unpack_leaf
  inline_bytes-Reads b h =
      leaf-Reads (0x70 + length b) (inline_bytes (length b)) b (byte_array b)
        (tag_of-inline_bytes (length b) h) (λ f c i o. refl)
        (λ pre post o. rw (cut_inline (0x70 + length b) pre b post))

  pub long_text-Reads :
      (t n : ℕ) (b : Bytes)
      → tag_of t ≡ long_text n
      → Readable n (length b)
      → IsText b
      → Reads (t ∷ (le_bytes n (length b) ++ b)) (text b)
  unfolding unpack_at unpack_leaf
  long_text-Reads t n b e r unchanged =
      leaf-Reads t (long_text n) (le_bytes n (length b) ++ b) (text b) e (λ f c i o. refl)
        (λ pre post o.
          rw
            (
              append_assoc (le_bytes n (length b)) b post,
              read_little_endian-le_bytes n (length b) pre t (b ++ post) r,
              cut_long t n (length b) pre b post refl,
              unchanged,
              length-append (le_bytes n (length b)) b,
              length-le_bytes n (length b),
            )
            (ap (λ j. leaf (text b) (pos j)) (omega arith)))

  pub long_bytes-Reads :
      (t n : ℕ) (b : Bytes)
      → tag_of t ≡ long_bytes n
      → Readable n (length b)
      → Reads (t ∷ (le_bytes n (length b) ++ b)) (byte_array b)
  unfolding unpack_at unpack_leaf
  long_bytes-Reads t n b e r =
      leaf-Reads t (long_bytes n) (le_bytes n (length b) ++ b) (byte_array b) e (λ f c i o. refl)
        (λ pre post o.
          rw
            (
              append_assoc (le_bytes n (length b)) b post,
              read_little_endian-le_bytes n (length b) pre t (b ++ post) r,
              cut_long t n (length b) pre b post refl,
              length-append (le_bytes n (length b)) b,
              length-le_bytes n (length b),
            )
            (ap (λ j. leaf (byte_array b) (pos j)) (omega arith)))
