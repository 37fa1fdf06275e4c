-- ===== src/Encoding/Opack/Objects.antt =====
-- Objects whose values hold no others come back.
use apple_protocols.Prelude.{
  ℕ, zero, suc, ◌+◌, ◌*◌, ◌^◌, ◌<◌, ◌≤◌, List, [], ◌∷◌, ◌++◌, some, Bytes, length-append,
  append_assoc, append-nil, length, ℤ, pos, ok, bind, le→leb, gt→leb_false, ◌≡◌, refl, sym, ap, ◌∙◌,
  arith,
}
use mathlib.Core.Path.{subst}
use apple_protocols.Encoding.Opack.{
  Value, object, text, Entries, no_entries, entry_then, count_entries, share, pack, pack_entries,
  pack_text, frame_object, encode,
}
use apple_protocols.Encoding.Opack.Tag.{tag_of-dict_of}
use apple_protocols.Encoding.Opack.Unpack.{
  View, unpack_at, unpack_tag, unpack_entries, unpack_entry, remember, container, set_entry, decode,
}
use apple_protocols.Encoding.Opack.Flat.{form, form-IsFlat, leaf-Packs, text-Reads}
use apple_protocols.Encoding.Opack.Sharing.{Linked, Decodes, share-Shares}
use apple_protocols.Encoding.Opack.RoundTrip.{not_found, share-none}
use apple_protocols.Encoding.Opack.Assigned.{
  FitsEntries, form_entries, set_all, HasDistinctKeys, set_all-distinct,
}

-- Fuel for n entries: one unit for each, and three to decode the last.
abbrev pub fuel_for_entries : ℕ → ℕ → ℕ
fuel_for_entries zero extra = suc (suc (suc extra))
fuel_for_entries (suc n) extra = suc (fuel_for_entries n extra)

fuel_for_entries-three : (n extra : ℕ) → fuel_for_entries n extra ≡ suc (suc (suc (n + extra)))
fuel_for_entries-three zero extra = omega arith
fuel_for_entries-three (suc n) extra = omega (arith, fuel_for_entries-three n extra)

module _ (view : View) (property_key : Value → Bytes) where
  -- How the entries are read, after `so_far`.
  abbrev EntriesRead : Entries → Bytes → List Value → List Value → Type 0
  EntriesRead es body vs vs' =
      (fuel : ℕ) (pre post : Bytes) (so_far : Entries)
      → unpack_entries view property_key (fuel_for_entries (count_entries es) fuel)
          (count_entries es) (pre ++ (body ++ post)) (pos (length pre)) vs so_far
        ≡ ok (set_all (form_entries es) so_far, (pos (length pre + length body), vs'))

  abbrev EntriesPass : Entries → List Bytes → List Value → Type 0
  EntriesPass es ps vs =
      (body : Bytes) × (ps' : List Bytes) × (vs' : List Value) × (pack_entries es ps
        ≡ some (body, ps'))
      × Linked view property_key ps' vs'
      × EntriesRead es body vs vs'

  entry_read :
      (k : Bytes) (w : Value) (vs vs₁ vs₂ : List Value) (key out : Bytes) (fuel : ℕ)
      (pre post : Bytes) (so_far : Entries)
      → Decodes view property_key key (text k) vs vs₁
      → Decodes view property_key out (form w) vs₁ vs₂
      → unpack_entry view property_key
          (suc (suc (suc fuel)))
          (pre ++ (key ++ (out ++ post)))
          (pos (length pre))
          vs
          so_far
        ≡ ok (set_entry k (form w) so_far, (pos (length pre + length key + length out), vs₂))
  unfolding unpack_at
  entry_read k w vs vs₁ vs₂ key out fuel pre post so_far dk dv =
      let buf = pre ++ (key ++ (out ++ post)) in
      let second : unpack_at view property_key (suc (suc fuel)) buf (pos (length pre + length key))
            vs₁
          ≡ ok (form w, (pos (length pre + length key + length out), vs₂)) =
        rw (← append_assoc pre key (out ++ post), ← length-append pre key)
          (dv fuel (pre ++ key) post) in
      rw (dk fuel pre (out ++ post), second)

  rest :
      (k : Bytes) (w : Value) (es : Entries) (vs vs₁ vs₂ vs' : List Value) (key out body : Bytes)
      → Decodes view property_key key (text k) vs vs₁
      → Decodes view property_key out (form w) vs₁ vs₂
      → EntriesRead es body vs₂ vs'
      → EntriesRead (entry_then k w es) (key ++ (out ++ body)) vs vs'
  unfolding unpack_at
  rest k w es vs vs₁ vs₂ vs' key out body dk dv reads fuel pre post so_far =
      let n = count_entries es in
      let buf = pre ++ ((key ++ (out ++ body)) ++ post) in
      let here : buf ≡ pre ++ (key ++ (out ++ (body ++ post))) =
        rw (append_assoc key (out ++ body) post, append_assoc out body post) in
      let front = (pre ++ key) ++ out in
      let there : buf ≡ front ++ (body ++ post) =
        rw
          (
            append_assoc (pre ++ key) out (body ++ post),
            append_assoc pre key (out ++ (body ++ post)),
          )
          here in
      let size : length front ≡ length pre + length key + length out =
        omega (arith, length-append (pre ++ key) out, length-append pre key) in
      let total : length front + length body ≡ length pre + length (key ++ (out ++ body)) =
        omega (arith, size, length-append key (out ++ body), length-append out body) in
      let first : unpack_entry view property_key (fuel_for_entries n fuel) buf (pos (length pre)) vs
            so_far
          ≡ ok (set_entry k (form w) so_far, (pos (length pre + length key + length out), vs₂)) =
        subst
          (λ b.
            unpack_entry view property_key (fuel_for_entries n fuel) b (pos (length pre)) vs so_far
            ≡ ok (set_entry k (form w) so_far, (pos (length pre + length key + length out), vs₂)))
          (sym here)
          (rw (fuel_for_entries-three n fuel)
            (entry_read k w vs vs₁ vs₂ key out (n + fuel) pre (body ++ post) so_far dk dv)) in
      let others : unpack_entries view property_key (fuel_for_entries n fuel) n buf
            (pos (length pre + length key + length out)) vs₂ (set_entry k (form w) so_far)
          ≡ ok (
            set_all (form_entries es) (set_entry k (form w) so_far),
            (pos (length pre + length (key ++ (out ++ body))), vs'),
          ) =
        subst
          (λ b.
            unpack_entries view property_key (fuel_for_entries n fuel) n b
              (pos (length pre + length key + length out)) vs₂ (set_entry k (form w) so_far)
            ≡ ok (
              set_all (form_entries es) (set_entry k (form w) so_far),
              (pos (length pre + length (key ++ (out ++ body))), vs'),
            ))
          (sym there)
          (rw (← size, ← total) (reads fuel front post (set_entry k (form w) so_far))) in
      rw (first, others)

  entries-Pass :
      (es : Entries) (ps : List Bytes) (vs : List Value)
      → FitsEntries es
      → length ps + 2 * count_entries es ≤ 2 ^ 16
      → Linked view property_key ps vs
      → EntriesPass es ps vs
  unfolding pack unpack_at
  entries-Pass no_entries ps vs fits few l = (
    [],
    ps,
    vs,
    refl,
    l,
    λ fuel pre post so_far. ap (λ n. ok (so_far, (pos n, vs))) (omega arith),
  )
  entries-Pass (entry_then k w es) ps vs ((short, unchanged, plain), (f, fits)) few l =
      let (p, packs, reads) = leaf-Packs view property_key w f in
      let (vs₁, dk, l₁, more₁) =
        share-Shares view property_key (pack_text k) (text k) ps vs (omega arith) l
          (text-Reads view property_key k short unchanged) tt in
      let ps₁ = (share (pack_text k) ps).1 in
      let (vs₂, dv, l₂, more₂) =
        share-Shares view property_key p (form w) ps₁ vs₁ (omega (arith, more₁)) l₁ reads
          (form-IsFlat w f) in
      let (body, ps', vs', e, l', entries_read) =
        entries-Pass es (share p ps₁).1 vs₂ fits (omega (arith, more₁, more₂)) l₂ in
      (
        (share (pack_text k) ps).0 ++ ((share p ps₁).0 ++ body),
        ps',
        vs',
        rw (packs ps₁, e),
        l',
        rest k w es vs vs₁ vs₂ vs' (share (pack_text k) ps).0 (share p ps₁).0 body dk dv
            entries_read,
      )

  object_read :
      (es : Entries) (body : Bytes) (vs : List Value) (extra : ℕ)
      → HasDistinctKeys es
      → count_entries es < 0x0F
      → EntriesRead es body [] vs
      → (z : ℤ × List Value) × (unpack_at view property_key
            (suc (suc (fuel_for_entries (count_entries es) extra)))
            ((0xE0 + count_entries es) ∷ (body ++ []))
            (pos 0)
            []
          ≡ ok (object (form_entries es), z))
  unfolding unpack_at remember
  object_read es body vs extra d few reads =
      let n = count_entries es in
      let buf = (0xE0 + n) ∷ (body ++ []) in
      let counts : unpack_entries view property_key (fuel_for_entries n extra) n buf (pos 1) []
            no_entries
          ≡ ok (form_entries es, (pos (1 + length body), vs)) =
        reads extra ((0xE0 + n) ∷ []) [] no_entries
        ∙ ap (λ x. ok (x, (pos (1 + length body), vs))) (set_all-distinct es d) in
      (
        _,
        ap (unpack_tag view property_key (suc (fuel_for_entries n extra)) buf 0 [])
              (ap some (tag_of-dict_of n few))
            ∙ ap (λ r. bind r (λ x. ok (container view property_key 0 (object x.0, x.1)))) counts,
      )

  frame_object-few : (n : ℕ) (body : Bytes) → n < 0x0F → frame_object n body ≡ (0xE0 + n) ∷ body
  unfolding frame_object
  frame_object-few n body h = rw (le→leb n 0x0F (omega arith), gt→leb_false 0x0F n h)

  -- An object of fewer than 15 entries, with distinct keys, and values that hold no others and fit,
  -- is encoded, and decodes, with fuel for its size, to the object of the same keys and values in
  -- their order, repeated keys and values included, which are sent as references; a number above 39
  -- comes back with the width that it was sent in. Keys and strings are well-formed and have no byte
  -- order mark in front, which the decoder would take away, and no key is an array index or
  -- `__proto__`.
  pub decode-encode_object :
      (es : Entries) (extra : ℕ)
      → FitsEntries es
      → HasDistinctKeys es
      → count_entries es < 0x0F
      → (buf : Bytes) × (encode (object es) ≡ some buf)
        × (decode view property_key (suc (suc (fuel_for_entries (count_entries es) extra))) buf
            ≡ ok (object (form_entries es)))
  unfolding encode pack decode
  decode-encode_object es extra fits d few =
      let n = count_entries es in
      let (body, ps, vs, e, l, reads) = entries-Pass es [] [] fits (omega arith) tt in
      let packed = (0xE0 + n) ∷ body in
      let (z, read) = object_read es body vs extra d few reads in
      let none_found =
        not_found view property_key packed ps vs (fuel_for_entries n extra)
          (object (form_entries es)) z l (λ f. f) read in
      let framed : frame_object n body ≡ packed = frame_object-few n body few in
      (
        packed,
        rw (e, framed) (ap some (share-none view property_key packed ps none_found)),
        ap (λ r. bind r (λ x. ok x.0))
            (subst
              (λ b.
                unpack_at view property_key (suc (suc (fuel_for_entries n extra))) b (pos 0) []
                ≡ ok (object (form_entries es), z))
              (append-nil packed) read),
      )
