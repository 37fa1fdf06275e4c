-- ===== src/Encoding/Opack/RoundTrip.antt =====
-- Arrays and objects of values that hold no others come back.
use apple_protocols.Prelude.{
  ℕ, zero, suc, ◌+◌, ◌^◌, ◌<◌, ◌≤◌, List, [], ◌∷◌, ◌++◌, none, some, Bytes, length-append,
  append_assoc, append-nil, ltb, length, ℤ, pos, Outcome, ok, bind, Bool-cases, Option-cases,
  lt→ltb, inl, inr, ◌≡◌, refl, sym, ap, ◌∙◌, arith,
}
use mathlib.Core.Path.{subst}
use apple_protocols.Encoding.Opack.{
  Value, array, Values, no_values, value_then, count_values, find_index, share, share_at, pack,
  pack_values, frame_array, encode,
}
use apple_protocols.Encoding.Opack.Tag.{tag_of-array_of}
use apple_protocols.Encoding.Opack.Unpack.{
  View, Failure, unpack_at, unpack_tag, unpack_count, remember, container, decode,
}
use apple_protocols.Encoding.Opack.Flat.{FitsLeaf, form, IsFlat, form-IsFlat, leaf-Packs}
use apple_protocols.Encoding.Opack.Sharing.{Linked, Decodes, share-Shares, find_index-IsFlat}

abbrev pub FitsValues : Values → Type 0
FitsValues no_values = Unit {0}
FitsValues (value_then v vs) = FitsLeaf v × FitsValues vs

abbrev pub form_values : Values → Values
form_values no_values = no_values
form_values (value_then v vs) = value_then (form v) (form_values vs)

-- Fuel for n values of an array: one unit for each, and two to decode the last.
abbrev pub fuel_for : ℕ → ℕ → ℕ
fuel_for zero extra = suc (suc extra)
fuel_for (suc n) extra = suc (fuel_for n extra)

fuel_for-two : (n extra : ℕ) → fuel_for n extra ≡ suc (suc (n + extra))
fuel_for-two zero extra = omega arith
fuel_for-two (suc n) extra = omega (arith, fuel_for-two n extra)

module _ (view : View) (property_key : Value → Bytes) where
  -- The values of an array are packed, and unpacked from what they are packed to.
  abbrev ValuesPass : Values → List Bytes → List Value → Type 0
  ValuesPass ws ps vs =
      (body : Bytes) × (ps' : List Bytes) × (vs' : List Value) × (pack_values ws ps
        ≡ some (body, ps'))
      × Linked view property_key ps' vs'
      × ((fuel : ℕ) (pre post : Bytes)
          → unpack_count view property_key (fuel_for (count_values ws) fuel) (count_values ws)
              (pre ++ (body ++ post)) (pos (length pre)) vs
            ≡ ok (form_values ws, (pos (length pre + length body), vs')))

  abbrev at_end : List Value → ℕ → Outcome Failure (Values × (ℤ × List Value))
  at_end vs n = ok (no_values, (pos n, vs))

  -- The first value, and then the others.
  rest :
      (w : Value) (ws : Values) (vs vs₁ vs' : List Value) (out body : Bytes) (fuel : ℕ)
      (pre post : Bytes)
      → Decodes view property_key out (form w) vs vs₁
      → ((fuel : ℕ) (pre post : Bytes)
          → unpack_count view property_key
              (fuel_for (count_values ws) fuel)
              (count_values ws)
              (pre ++ (body ++ post))
              (pos (length pre))
              vs₁
            ≡ ok (form_values ws, (pos (length pre + length body), vs')))
      → unpack_count view property_key
          (fuel_for (suc (count_values ws)) fuel)
          (suc (count_values ws))
          (pre ++ ((out ++ body) ++ post))
          (pos (length pre))
          vs
        ≡ ok (value_then (form w) (form_values ws), (pos (length pre + length (out ++ body)), vs'))
  unfolding unpack_at
  rest w ws vs vs₁ vs' out body fuel pre post decodes counts =
      let n = count_values ws in
      let buf = pre ++ ((out ++ body) ++ post) in
      let here : buf ≡ pre ++ (out ++ (body ++ post)) =
        ap (λ x. pre ++ x) (append_assoc out body post) in
      let there : buf ≡ (pre ++ out) ++ (body ++ post) =
        here ∙ sym (append_assoc pre out (body ++ post)) in
      let total : length (pre ++ out) + length body ≡ length pre + length (out ++ body) =
        omega (arith, length-append pre out, length-append out body) in
      let first : unpack_at view property_key (fuel_for n fuel) buf (pos (length pre)) vs
          ≡ ok (form w, (pos (length pre + length out), vs₁)) =
        rw (fuel_for-two n fuel, here) (decodes (n + fuel) pre (body ++ post)) in
      let others : unpack_count view property_key (fuel_for n fuel) n buf
            (pos (length pre + length out)) vs₁
          ≡ ok (form_values ws, (pos (length pre + length (out ++ body)), vs')) =
        rw (there, ← length-append pre out, ← total) (counts fuel (pre ++ out) post) in
      rw (first, others)

  values-Pass :
      (ws : Values) (ps : List Bytes) (vs : List Value)
      → FitsValues ws
      → length ps + count_values ws ≤ 2 ^ 16
      → Linked view property_key ps vs
      → ValuesPass ws ps vs
  unfolding pack unpack_at
  values-Pass no_values ps vs fits few l =
      ([], ps, vs, refl, l, λ fuel pre post. ap (at_end vs) (omega arith))
  values-Pass (value_then w ws) ps vs (f, fits) few l =
      let (p, packs, reads) = leaf-Packs view property_key w f in
      let (vs₁, decodes, l₁, more) =
        share-Shares view property_key p (form w) ps vs (omega arith) l reads (form-IsFlat w f) in
      let out = (share p ps).0 in
      let (body, ps', vs', e, l', counts) =
        values-Pass ws (share p ps).1 vs₁ fits (omega (arith, more)) l₁ in
      (
        out ++ body,
        ps',
        vs',
        rw (packs ps, e),
        l',
        λ fuel pre post. rest w ws vs vs₁ vs' out body fuel pre post decodes counts,
      )

  pub share-none : (p : Bytes) (ps : List Bytes) → find_index p ps ≡ none → (share p ps).0 ≡ p
  unfolding share share_at
  share-none p ps h = elim (Bool-cases (ltb 1 (length p))) [
    | inl long ↦ simp (h, long)
    | inr short ↦ simp (h, short)
  ]

  frame_array-few : (n : ℕ) (body : Bytes) → n < 0x0F → frame_array n body ≡ (0xD0 + n) ∷ body
  unfolding frame_array
  frame_array-few n body h = rw (lt→ltb n 0x0F h)

  -- What is read as a value that holds others is not in a list of values that hold none.
  pub not_found :
      (P : Bytes) (ps : List Bytes) (vs : List Value) (fuel : ℕ) (v : Value) (z : ℤ × List Value)
      → Linked view property_key ps vs
      → (IsFlat v → ⊥)
      → unpack_at view property_key (suc (suc fuel)) (P ++ []) (pos 0) [] ≡ ok (v, z)
      → find_index P ps ≡ none
  not_found P ps vs fuel v z l deep reads = elim (Option-cases (find_index P ps)) [
    | inl none_found ↦ none_found
    | inr (i, found) ↦
        let (w, r, flat) = find_index-IsFlat view property_key ps vs P i l found in
        let same = sym (r fuel [] [] []) ∙ reads in
        let w_is_v : w ≡ v = ground arith in absurd (deep (subst IsFlat w_is_v flat))
  ]

  array_read :
      (ws : Values) (body : Bytes) (vs : List Value) (extra : ℕ)
      → count_values ws < 0x0F
      → unpack_count view property_key
          (fuel_for (count_values ws) extra)
          (count_values ws)
          ((0xD0 + count_values ws) ∷ (body ++ []))
          (pos 1)
          []
        ≡ ok (form_values ws, (pos (1 + length body), vs))
      → (z : ℤ × List Value) × (unpack_at view property_key
            (suc (suc (fuel_for (count_values ws) extra)))
            ((0xD0 + count_values ws) ∷ (body ++ []))
            (pos 0)
            []
          ≡ ok (array (form_values ws), z))
  unfolding unpack_at remember
  array_read ws body vs extra few counts =
      let n = count_values ws in
      let buf = (0xD0 + n) ∷ (body ++ []) in
      (
        _,
        ap (unpack_tag view property_key (suc (fuel_for n extra)) buf 0 [])
              (ap some (tag_of-array_of n few))
            ∙ ap (λ r. bind r (λ x. ok (container view property_key 0 (array x.0, x.1)))) counts,
      )

  -- An array of fewer than 15 values that hold no others and fit is encoded, and decodes, with fuel
  -- for its length, to the array of these values, repeated ones included, which are sent as
  -- references; a number above 39 comes back with the width that it was sent in.
  pub decode-encode_array :
      (ws : Values) (extra : ℕ)
      → FitsValues ws
      → count_values ws < 0x0F
      → (buf : Bytes) × (encode (array ws) ≡ some buf)
        × (decode view property_key (suc (suc (fuel_for (count_values ws) extra))) buf
            ≡ ok (array (form_values ws)))
  unfolding encode pack decode
  decode-encode_array ws extra fits few =
      let n = count_values ws in
      let (body, ps, vs, e, l, counts) = values-Pass ws [] [] fits (omega arith) tt in
      let packed = (0xD0 + n) ∷ body in
      let (z, reads) = array_read ws body vs extra few (counts extra ((0xD0 + n) ∷ []) []) in
      let none_found =
        not_found packed ps vs (fuel_for n extra) (array (form_values ws)) z l (λ f. f) reads in
      let framed : frame_array n body ≡ packed = frame_array-few n body few in
      (
        packed,
        rw (e, framed) (ap some (share-none packed ps none_found)),
        ap (λ r. bind r (λ x. ok x.0))
            (subst
              (λ b.
                unpack_at view property_key (suc (suc (fuel_for n extra))) b (pos 0) []
                ≡ ok (array (form_values ws), z))
              (append-nil packed) reads),
      )
