-- ===== src/CompanionLink/Stream/Sealed.antt =====
-- Whole frames, and encrypted ones opened again.
use apple_protocols.Prelude.{
  ℕ, ◌+◌, ◌-◌, ◌^◌, ◌<◌, [], ◌++◌, none, some, Bytes, be_bytes, be_value, take, length,
  length-append, take-all, drop-all, take-append_eq, drop-append_eq, le→ltb_false, ◌≡◌, refl, arith,
}
use apple_protocols.CompanionLink.Stream.{Cipher, nonce, frame_header, next_frame, decrypt}

-- ChaCha20-Poly1305: the ciphertext is as long as the text, the tag has 16 bytes, and with the same
-- nonce and header they give the text back.
pub record IsCipher (cipher : Cipher) : Type 0 where
  pub opens :
      (n header text : Bytes)
      → cipher.decrypt n header (cipher.encrypt n header text).0 (cipher.encrypt n header text).1
        ≡ some text
  pub same_length : (n header text : Bytes) → length (cipher.encrypt n header text).0 ≡ length text
  pub tag_length : (n header text : Bytes) → length (cipher.encrypt n header text).1 ≡ 16

pub be_3 : (v : ℕ) → v < 2 ^ 24 → be_value (be_bytes 3 v) ≡ v
be_3 v h = omega arith

pub next_frame-nil : next_frame [] ≡ none
unfolding next_frame
next_frame-nil = refl

-- A header and as many bytes as it says are a frame.
pub next_frame-whole :
    (type n : ℕ) (body : Bytes)
    → n < 2 ^ 24
    → length body ≡ n
    → next_frame (frame_header type n ++ body) ≡ some (frame_header type n ++ body, [])
unfolding next_frame
next_frame-whole type n body h e =
    let value : be_value (be_bytes 3 n) ≡ n = be_3 n h in
    let wire = frame_header type n ++ body in
    rw (
      value,
      le→ltb_false (length wire) 4 (omega arith),
      le→ltb_false (length wire) (4 + n) (omega arith),
      take-all (4 + n) wire (omega arith),
      drop-all (4 + n) wire (omega arith),
    )

-- An encrypted frame is opened with the nonce that it was sealed with.
pub decrypt-sealed :
    (cipher : Cipher) (count type : ℕ) (payload : Bytes)
    → IsCipher cipher
    → length payload + 16 < 2 ^ 24
    → let header = frame_header type (length payload + 16) in
      let sealed = cipher.encrypt (nonce count) header payload in
      decrypt cipher count (header ++ (sealed.0 ++ sealed.1))
      ≡ (some (header ++ payload), count + 1)
unfolding decrypt
decrypt-sealed cipher count type payload c h =
    let n = length payload + 16 in
    let header = frame_header type n in
    let sealed = cipher.encrypt (nonce count) header payload in
    let text_size = c.same_length (nonce count) header payload in
    let tag_size = c.tag_length (nonce count) header payload in
    let size : length (sealed.0 ++ sealed.1) ≡ n =
      omega (arith, length-append sealed.0 sealed.1, text_size, tag_size) in
    let value : be_value (be_bytes 3 n) ≡ n = be_3 n h in
    let whole : take n (sealed.0 ++ sealed.1) ≡ sealed.0 ++ sealed.1 =
      take-all n (sealed.0 ++ sealed.1) (omega (arith, size)) in
    let split : length (sealed.0 ++ sealed.1) - 16 ≡ length payload = omega (arith, size) in
    rw (
      value,
      whole,
      split,
      take-append_eq (length payload) sealed.0 sealed.1 text_size,
      drop-append_eq (length payload) sealed.0 sealed.1 text_size,
      c.opens (nonce count) header payload,
      le→ltb_false n 16 (omega arith),
    )
