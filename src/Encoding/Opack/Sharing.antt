-- ===== src/Encoding/Opack/Sharing.antt =====
-- The lists of objects that the encoder and the decoder keep for references stay in step.
use apple_protocols.Prelude.{
  ℕ, suc, ◌+◌, ◌^◌, ◌<◌, ◌≤◌, List, [], ◌∷◌, ◌++◌, Option, none, some, Bytes, >>=-eq_some, le_bytes,
  length-le_bytes, length-append, true, ltb, ◌==◌, ==_iff, length, pos, ok, bind, Bool-cases,
  lt_or_le, lt→ltb, le→ltb_false, le→leb, gt→leb_false, inl, inr, ◌≡◌, refl, sym, ap, ◌∙◌, arith,
}
use native.Mathlib.Nat.{add-zero}
use mathlib.Core.Path.{subst}
use apple_protocols.Encoding.Opack.{Value, equal_bytes, find_index, pack_reference, share, share_at}
use apple_protocols.Encoding.Opack.Flat.{IsFlat}
use apple_protocols.Encoding.Opack.Tag.{
  Tag, inline_reference, long_reference, tag_of, tag_of-inline_reference,
}
use apple_protocols.Encoding.Opack.Unpack.{
  View, unpack_at, unpack_tag, unpack_leaf, remember, value_at, value_of_index,
}
use apple_protocols.Encoding.Opack.Leaves.{
  Reads, Readable, tag_at-behind, read_little_endian-le_bytes,
}

equal_bytes-true : (a b : Bytes) → equal_bytes a b ≡ true → a ≡ b
equal_bytes-true [] [] h = refl
equal_bytes-true [] (y ∷ b) h = cc
equal_bytes-true (x ∷ a) [] h = cc
equal_bytes-true (x ∷ a) (y ∷ b) h = elim (Bool-cases (x == y)) [
  | inl same ↦
      let head : x ≡ y = (==_iff x y).0 same in
      let tail : a ≡ b = equal_bytes-true a b (rw same at h) in rw (head, tail)
  | inr other ↦ cc (rw other at h)
]

module _ (view : View) (property_key : Value → Bytes) where
  -- What was packed, and what it was read as.
  abbrev pub Linked : List Bytes → List Value → Type 0
  Linked [] [] = Unit {0}
  Linked (p ∷ ps) (v ∷ vs) = (Reads view property_key p v × IsFlat v) × Linked ps vs
  Linked [] (v ∷ vs) = ⊥
  Linked (p ∷ ps) [] = ⊥

  pub Linked-append :
      (ps : List Bytes) (vs : List Value) (p : Bytes) (v : Value)
      → Linked ps vs
      → Reads view property_key p v × IsFlat v
      → Linked (ps ++ (p ∷ [])) (vs ++ (v ∷ []))
  Linked-append [] [] p v l r = (r, tt)
  Linked-append (q ∷ ps) (w ∷ vs) p v (r', l) r = (r', Linked-append ps vs p v l r)
  Linked-append [] (w ∷ vs) p v l r = absurd l
  Linked-append (q ∷ ps) [] p v l r = absurd l

  -- The same bytes are not read as two values.
  Reads-unique :
      (p : Bytes) (v w : Value) → Reads view property_key p v → Reads view property_key p w → v ≡ w
  Reads-unique p v w r r' = let same = sym (r 0 [] [] []) ∙ r' 0 [] [] [] in ground arith

  find_index-value :
      (ps : List Bytes) (vs : List Value) (p : Bytes) (v : Value) (i : ℕ)
      → Linked ps vs
      → Reads view property_key p v
      → find_index p ps ≡ some i
      → (value_at vs (pos i) ≡ some v) × (i < length ps)
  unfolding find_index
  find_index-value [] vs p v i l r e = cc
  find_index-value (q ∷ ps) [] p v i l r e = absurd l
  find_index-value (q ∷ ps) (w ∷ vs) p v i ((r', _), l) r e = elim (Bool-cases (equal_bytes q p)) [
    | inl same ↦
        let first : some 0 ≡ some i = rw same at e in
        let here : 0 ≡ i = ground arith in
        let q_is_p : q ≡ p = equal_bytes-true q p same in
        let w_is_v : w ≡ v =
          Reads-unique p w v (subst (λ x. Reads view property_key x w) q_is_p r') r in
        (rw (← here) (ap some w_is_v), omega arith)
    | inr other ↦
        let (j, found, last) = >>=-eq_some (find_index p ps) _ (rw other at e) in
        let next : suc j ≡ i = ground arith in
        let (at, below) = find_index-value ps vs p v j l r found in (rw (← next) at, omega arith)
  ]

  -- `out` is decoded to `v`, and takes the list of objects from `vs` to `vs'`.
  abbrev pub Decodes : Bytes → Value → List Value → List Value → Type 0
  Decodes out v vs vs' =
      (fuel : ℕ) (pre post : Bytes)
      → unpack_at view property_key (suc (suc fuel)) (pre ++ (out ++ post)) (pos (length pre)) vs
        ≡ ok (v, (pos (length pre + length out), vs'))

  -- A reference to a value of the list.
  reference-Decodes_by :
      (t : ℕ) (tag : Tag) (body : Bytes) (v : Value) (vs : List Value)
      → tag_of t ≡ tag
      → ((fuel : ℕ) (buf : Bytes) (i : ℕ)
          → unpack_tag view property_key (suc fuel) buf i vs (some tag)
            ≡ bind (unpack_leaf view tag buf i vs) (λ u. ok (remember i vs u)))
      → ((pre post : Bytes)
          → unpack_leaf view tag (pre ++ (t ∷ (body ++ post))) (length pre) vs
            ≡ value_of_index (some v) (pos (length pre + 1 + length body)))
      → Decodes (t ∷ body) v vs vs
  unfolding unpack_at remember
  reference-Decodes_by t tag body v vs e is_leaf reads fuel pre post =
      let i = length pre in
      ap (unpack_tag view property_key (suc fuel) (pre ++ (t ∷ (body ++ post))) i vs)
        (tag_at-behind pre t (body ++ post) ∙ ap some e)
      ∙ is_leaf fuel (pre ++ (t ∷ (body ++ post))) i
      ∙ ap (λ r. bind r (λ u. ok (remember i vs u))) (reads pre post)
      ∙ ap (λ n. ok (v, (pos n, vs))) (omega arith)

  long_reference-Decodes :
      (t n i : ℕ) (v : Value) (vs : List Value)
      → tag_of t ≡ long_reference n
      → Readable n i
      → value_at vs (pos i) ≡ some v
      → Decodes (t ∷ le_bytes n i) v vs vs
  unfolding unpack_at unpack_leaf
  long_reference-Decodes t n i v vs e r at =
      reference-Decodes_by t (long_reference n) (le_bytes n i) v vs e (λ f b j. refl)
        (λ pre post. rw (read_little_endian-le_bytes n i pre t post r, length-le_bytes n i, at))

  reference-Decodes :
      (i : ℕ) (v : Value) (vs : List Value)
      → i < 2 ^ 16
      → value_at vs (pos i) ≡ some v
      → Decodes (pack_reference i) v vs vs
  unfolding pack_reference unpack_at unpack_leaf tag_of
  reference-Decodes i v vs h at = elim (lt_or_le i 0x21) [
    | inl a ↦ simp (lt→ltb i 0x21 a) (
        reference-Decodes_by (0xA0 + i) (inline_reference i) [] v vs
          (tag_of-inline_reference i (omega arith)) (λ f b j. refl) (λ pre post. rw (at, add-zero)))
    | inr a ↦ simp (le→ltb_false i 0x21 a) (elim (lt_or_le 0xFF i) [
      | inr b ↦
          simp (le→leb i 0xFF b)
            (long_reference-Decodes 0xC1 1 i v vs refl (inl (refl, omega arith)) at)
      | inl b ↦
          simp (gt→leb_false i 0xFF b, le→leb i 0xFFFF (omega arith))
            (long_reference-Decodes 0xC2 2 i v vs refl (inr (inl (refl, omega arith))) at)
    ])
  ]

  -- What `share` emits is decoded to the value, and the two lists stay linked.
  abbrev pub Shares : Bytes → Value → List Bytes → List Value → Type 0
  Shares p v ps vs =
      (vs' : List Value) × Decodes (share p ps).0 v vs vs'
      × Linked (share p ps).1 vs'
      × (length (share p ps).1 ≤ suc (length ps))

  share_at-Shares :
      (p : Bytes) (v : Value) (ps : List Bytes) (vs : List Value) (o : Option ℕ)
      → find_index p ps ≡ o
      → length ps ≤ 2 ^ 16
      → Linked ps vs
      → Reads view property_key p v
      → IsFlat v
      → (vs' : List Value) × Decodes (share_at o p ps).0 v vs vs'
        × Linked (share_at o p ps).1 vs'
        × (length (share_at o p ps).1 ≤ suc (length ps))
  unfolding share_at
  share_at-Shares p v ps vs (some i) e few l r flat =
      let (at, below) = find_index-value ps vs p v i l r e in
      (vs, reference-Decodes i v vs (omega arith) at, l, omega arith)
  share_at-Shares p v ps vs none e few l r flat = elim (Bool-cases (ltb 1 (length p))) [
    | inl long ↦ simp long (
      vs ++ (v ∷ []),
      (λ fuel pre post. rw long at (r fuel pre post vs)),
      Linked-append ps vs p v l (r, flat),
      omega (arith, length-append ps (p ∷ [])),
    )
    | inr short ↦
        simp short (vs, (λ fuel pre post. rw short at (r fuel pre post vs)), l, omega arith)
  ]

  pub share-Shares :
      (p : Bytes) (v : Value) (ps : List Bytes) (vs : List Value)
      → length ps ≤ 2 ^ 16
      → Linked ps vs
      → Reads view property_key p v
      → IsFlat v
      → Shares p v ps vs
  unfolding share
  share-Shares p v ps vs few l r flat =
      share_at-Shares p v ps vs (find_index p ps) refl few l r flat

  -- What is found in the list is read as a value that holds no others.
  pub find_index-IsFlat :
      (ps : List Bytes) (vs : List Value) (p : Bytes) (i : ℕ)
      → Linked ps vs
      → find_index p ps ≡ some i
      → (w : Value) × Reads view property_key p w × IsFlat w
  unfolding find_index
  find_index-IsFlat [] vs p i l e = cc
  find_index-IsFlat (q ∷ ps) [] p i l e = absurd l
  find_index-IsFlat (q ∷ ps) (w ∷ vs) p i ((r, flat), l) e = elim (Bool-cases (equal_bytes q p)) [
    | inl same ↦ (w, subst (λ x. Reads view property_key x w) (equal_bytes-true q p same) r, flat)
    | inr other ↦
        let (j, found, last) = >>=-eq_some (find_index p ps) _ (rw other at e) in
        find_index-IsFlat ps vs p j l found
  ]
