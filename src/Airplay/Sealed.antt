-- ===== src/Airplay/Sealed.antt =====
-- packages/airplay/src/encryption.ts: what is encrypted is decrypted again.
use apple_protocols.Prelude.{
  ℕ, zero, suc, ◌+◌, ◌≤◌, ◌<◌, ◌^◌, [], ◌∷◌, ◌++◌, false, ◌==◌, ◌≡◌, refl, ap, ◌∙◌, arith, take,
  drop, length, length-append, length-take, length-drop, take-append-drop, take-append_eq,
  drop-append_eq, append_assoc, le→ltb_false, Bytes, le_bytes, le_value-le_bytes,
}
use apple_protocols.CompanionLink.Stream.{Cipher}
use apple_protocols.CompanionLink.Stream.Sealed.{IsCipher}
use apple_protocols.Airplay.Encryption.{
  nonce, frame_length, frame, front, Opened, opened, before, open_front, open_frames,
  chacha20_decrypt, seal, seal_frames, chacha20_encrypt,
}

ne→==_false : (a : ℕ) → 0 < a → (a == 0) ≡ false
ne→==_false a h = ground arith

front-parts :
    (n : ℕ) (ciphertext tag behind : Bytes)
    → 0 < n
    → n < 256 ^ 2
    → length ciphertext ≡ n
    → length tag ≡ 16
    → front ((le_bytes 2 n ++ (ciphertext ++ tag)) ++ behind) ≡ frame n ciphertext tag behind
unfolding front
front-parts n ciphertext tag behind low high c t =
    let size = suc (suc (length (ciphertext ++ (tag ++ behind)))) in
    let sizes = length-append ciphertext (tag ++ behind) in
    let tail = length-append tag behind in
    rw
      (
        le_value-le_bytes 2 n high,
        append_assoc ciphertext tag behind,
        ne→==_false n low,
        ne→==_false size (omega arith),
        le→ltb_false size 2 (omega arith),
        le→ltb_false size (2 + n + 16) (omega (arith, sizes, tail)),
        take-append_eq n ciphertext (tag ++ behind) c,
        drop-append_eq n ciphertext (tag ++ behind) c,
        take-append_eq 16 tag behind t,
        drop-append_eq 16 tag behind t,
      )
      refl

module _ (cipher : Cipher) (is_cipher : IsCipher cipher) where
  -- The frame of a text is the front of what it begins.
  front-seal :
      (count : ℕ) (text behind : Bytes)
      → 0 < length text
      → length text ≤ frame_length
      → let sealed = cipher.encrypt (nonce count) (le_bytes 2 (length text)) text in
        front (seal cipher count text ++ behind) ≡ frame (length text) sealed.0 sealed.1 behind
  unfolding seal
  front-seal count text behind low high =
      let header = le_bytes 2 (length text) in
      let sealed = cipher.encrypt (nonce count) header text in
      front-parts (length text) sealed.0 sealed.1 behind low (omega (arith, high))
        (is_cipher.same_length (nonce count) header text)
        (is_cipher.tag_length (nonce count) header text)

  open_front-seal :
      (count : ℕ) (text behind : Bytes) (again : ℕ → Bytes → Opened)
      → 0 < length text
      → length text ≤ frame_length
      → open_front cipher count again (front (seal cipher count text ++ behind))
        ≡ before text (again (count + 1) behind)
  open_front-seal count text behind again low high =
      rw
        (
          front-seal count text behind low high,
          is_cipher.opens (nonce count) (le_bytes 2 (length text)) text,
        )
        refl

  open_frames-nil : (fuel count : ℕ) → open_frames cipher fuel count [] ≡ opened [] count
  unfolding open_frames
  open_frames-nil zero count = refl
  open_frames-nil (suc fuel) count = refl

  open_frames-suc :
      (fuel count : ℕ) (data_ : Bytes)
      → open_frames cipher (suc fuel) count data_
        ≡ open_front cipher count (open_frames cipher fuel) (front data_)
  unfolding open_frames
  open_frames-suc fuel count data_ = refl

  seal_frames-nil : (fuel count : ℕ) → seal_frames cipher fuel count [] ≡ ([], count)
  unfolding seal_frames
  seal_frames-nil zero count = refl
  seal_frames-nil (suc fuel) count = refl

  seal_frames-cons :
      (fuel count b : ℕ) (bs : Bytes)
      → let rest = seal_frames cipher fuel (count + 1) (drop frame_length (b ∷ bs)) in
        seal_frames cipher (suc fuel) count (b ∷ bs)
        ≡ (seal cipher count (take frame_length (b ∷ bs)) ++ rest.0, rest.1)
  unfolding seal_frames
  seal_frames-cons fuel count b bs = refl

  length-seal : (count : ℕ) (text : Bytes) → 18 + length text ≤ length (seal cipher count text)
  unfolding seal
  length-seal count text =
      let header = le_bytes 2 (length text) in
      let sealed = cipher.encrypt (nonce count) header text in
      omega (
        arith,
        length-append sealed.0 sealed.1,
        is_cipher.same_length (nonce count) header text,
        is_cipher.tag_length (nonce count) header text,
      )

  -- One more frame in front of frames that open.
  open_frames-step :
      (g count next : ℕ) (text more sealed : Bytes)
      → 0 < length text
      → length text ≤ frame_length
      → length (seal cipher count text ++ sealed) ≤ g
      → ((f : ℕ) → length sealed ≤ f → open_frames cipher f (count + 1) sealed ≡ opened more next)
      → open_frames cipher g count (seal cipher count text ++ sealed) ≡ opened (text ++ more) next
  open_frames-step zero count next text more sealed low high k ih =
      absurd
        (omega (arith, k, length-append (seal cipher count text) sealed, length-seal count text))
  open_frames-step (suc g) count next text more sealed low high k ih =
      rw
        (
          open_frames-suc g count (seal cipher count text ++ sealed),
          open_front-seal count text sealed (open_frames cipher g) low high,
          ih g (
              omega
                (arith, k, length-append (seal cipher count text) sealed, length-seal count text)),
        )
        refl

  open_frames-seal_frames :
      (f g count : ℕ) (data_ : Bytes)
      → length data_ ≤ f
      → length (seal_frames cipher f count data_).0 ≤ g
      → open_frames cipher g count (seal_frames cipher f count data_).0
        ≡ opened data_ (seal_frames cipher f count data_).1
  open_frames-seal_frames f g count [] h k = rw (seal_frames-nil f count) (open_frames-nil g count)
  open_frames-seal_frames zero g count (b ∷ bs) h k = absurd (omega arith)
  open_frames-seal_frames (suc f) g count (b ∷ bs) h k =
      let text = take frame_length (b ∷ bs) in
      let more = drop frame_length (b ∷ bs) in
      let rest = seal_frames cipher f (count + 1) more in
      let e = seal_frames-cons f count b bs in
      rw e (
        open_frames-step g count rest.1 text more rest.0
          (omega (arith, length-take frame_length (b ∷ bs)))
          (omega (arith, length-take frame_length (b ∷ bs)))
          (omega (arith, k, ap (λ x. length x.0) e))
          (λ i j.
            open_frames-seal_frames f i (count + 1) more
              (omega (arith, h, length-drop frame_length (b ∷ bs))) j)
        ∙ ap (λ x. opened x rest.1) (take-append-drop frame_length (b ∷ bs)))

  -- What is encrypted from a write counter on is decrypted, from a read counter of the same value on, to
  -- the same bytes, for any number of frames; the two counters stay the same. The cipher is one that opens
  -- what it seals.
  pub chacha20_decrypt-encrypt :
      (count : ℕ) (data_ : Bytes)
      → chacha20_decrypt cipher count (chacha20_encrypt cipher count data_).0
        ≡ opened data_ (chacha20_encrypt cipher count data_).1
  unfolding chacha20_decrypt chacha20_encrypt
  chacha20_decrypt-encrypt count data_ =
      open_frames-seal_frames (length data_)
        (length (seal_frames cipher (length data_) count data_).0) count data_ (omega arith)
        (omega arith)
