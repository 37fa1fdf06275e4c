-- ===== src/Airplay/Control.antt =====
-- packages/airplay/src/controlStream.ts: the control stream is an RTSP client whose bytes are encrypted,
-- once it has the keys.
use apple_protocols.Prelude.{
  ℕ, ◌≤◌, [], Option, some, Bool, true, if◌then◌else◌, ◌≡◌, length, le→ltb_false, Bytes,
}
use apple_protocols.CompanionLink.Stream.{Cipher}
use apple_protocols.CompanionLink.Stream.Sealed.{IsCipher}
use apple_protocols.Rtsp.Client.{max_buffer_size, Incoming, more_needed, failed, plaintext, Client}
use apple_protocols.Rtsp.Client.Receive.{on_rtsp_data}
use apple_protocols.Rtsp.Client.Chunks.{unchanged}
use apple_protocols.Rtsp.Client.Keys.{on_incoming-with_keys}
use apple_protocols.Airplay.Encryption.{
  Opened, waits, cut_off, fails, opened, chacha20_decrypt, chacha20_encrypt,
}
use apple_protocols.Airplay.Sealed.{chacha20_decrypt-encrypt}

-- `#encryptionState`: whether there is one, and its counters.
pub record Counters : Type 0 where
  pub is_encrypted : Bool
  pub read_count : ℕ
  pub write_count : ℕ

module _ (cipher : Cipher) where
  abbrev incoming_of : Counters → Opened → Counters × Incoming
  incoming_of s waits = (s, more_needed)
  incoming_of s cut_off = (s, more_needed)
  incoming_of s (fails count) = (record s { read_count = count }, failed)
  incoming_of s (opened text count) = (record s { read_count = count }, plaintext text)

  -- `transformIncoming`
  unfoldable pub transform_incoming : Counters → Bytes → Counters × Incoming
  unfolding chacha20_decrypt
  transform_incoming s data_ =
      if s.is_encrypted
      then incoming_of s (chacha20_decrypt cipher s.read_count data_)
      else (s, plaintext data_)

  -- `transformOutgoing`
  unfoldable pub transform_outgoing : Counters → Bytes → Counters × Option Bytes
  unfolding chacha20_encrypt
  transform_outgoing s data_ =
      let (sealed, count) = chacha20_encrypt cipher s.write_count data_ in
      if s.is_encrypted then (record s { write_count = count }, some sealed) else (s, some data_)

-- A chunk that the peer encrypted with the counter that the client reads next does to the control stream
-- what its plaintext does to one without a cipher, the read counter aside: the same requests are answered
-- and the same bytes are left. No ciphertext is left over, and the chunk is no longer than a buffer may be.
pub on_rtsp_data-encrypted :
    (cipher : Cipher) (c : Client Counters) (bytes : Bytes)
    → IsCipher cipher
    → c.keys.is_encrypted ≡ true
    → c.encrypted_buffer ≡ []
    → length bytes ≤ max_buffer_size
    → length (chacha20_encrypt cipher c.keys.read_count bytes).0 ≤ max_buffer_size
    → on_rtsp_data (transform_incoming cipher) c (chacha20_encrypt cipher c.keys.read_count bytes).0
      ≡ record (on_rtsp_data unchanged c bytes) {
        keys = record c.keys { read_count = (chacha20_encrypt cipher c.keys.read_count bytes).1 };
      }
unfolding on_rtsp_data transform_incoming
on_rtsp_data-encrypted cipher c bytes is_cipher e b plain_fits fits =
    let sealed = chacha20_encrypt cipher c.keys.read_count bytes in
    rw
      (
        b,
        le→ltb_false max_buffer_size (length sealed.0) fits,
        le→ltb_false max_buffer_size (length bytes) plain_fits,
        e,
        chacha20_decrypt-encrypt cipher is_cipher c.keys.read_count bytes,
      )
      (on_incoming-with_keys (record c.keys { is_encrypted = true; read_count = sealed.1 })
        (record c { keys = record c.keys { is_encrypted = true } }) bytes)
