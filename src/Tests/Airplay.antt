-- ===== src/Tests/Airplay.antt =====
-- Runs and instances for packages/airplay/src.
use apple_protocols.Prelude.{[], ◌∷◌, some, Bytes, true, replicate, ◌≡◌, refl, arith}
use apple_protocols.CompanionLink.Stream.{Cipher}
use apple_protocols.CompanionLink.Stream.Sealed.{IsCipher}
use apple_protocols.Rtsp.Text.{codes}
use apple_protocols.Rtsp.Client.{Client, start}
use apple_protocols.Rtsp.Client.Receive.{on_rtsp_data}
use apple_protocols.Rtsp.Client.Chunks.{unchanged}
use apple_protocols.Airplay.Encryption.{waits, fails, opened, chacha20_decrypt, chacha20_encrypt}
use apple_protocols.Airplay.Sealed.{chacha20_decrypt-encrypt}
use apple_protocols.Airplay.Control.{Counters, transform_incoming, on_rtsp_data-encrypted}

-- A cipher that hides nothing, with a tag of zeros.
abbrev open_cipher : Cipher
open_cipher = record {
  encrypt = λ n header payload. (payload, replicate 16 0);
  decrypt = λ n header ciphertext tag. some ciphertext;
}

open_cipher-IsCipher : IsCipher open_cipher
open_cipher-IsCipher = record {
  opens = λ n header payload. refl;
  same_length = λ n header payload. refl;
  tag_length = λ n header payload. refl;
}

chacha20_decrypt-encrypt_example :
    chacha20_decrypt open_cipher 7 (chacha20_encrypt open_cipher 7 (1 ∷ 2 ∷ 3 ∷ [])).0
    ≡ opened (1 ∷ 2 ∷ 3 ∷ []) (chacha20_encrypt open_cipher 7 (1 ∷ 2 ∷ 3 ∷ [])).1
chacha20_decrypt-encrypt_example =
    chacha20_decrypt-encrypt open_cipher open_cipher-IsCipher 7 (1 ∷ 2 ∷ 3 ∷ [])

-- A frame that is not whole, and one of length zero.
half_frame : chacha20_decrypt open_cipher 0 (3 ∷ 0 ∷ 1 ∷ 2 ∷ []) ≡ waits
unfolding chacha20_decrypt
half_frame = refl

empty_frame : chacha20_decrypt open_cipher 4 (0 ∷ 0 ∷ []) ≡ fails 4
unfolding chacha20_decrypt
empty_frame = refl

abbrev encrypted : Client Counters
encrypted = start (record { is_encrypted = true; read_count = 3; write_count = 5 })

abbrev ok_zero : Bytes
ok_zero = codes "RTSP/1.0 200 OK\r\nCSeq: 0\r\n\r\n"

on_rtsp_data-encrypted_example :
    on_rtsp_data
      (transform_incoming open_cipher)
      encrypted
      (chacha20_encrypt open_cipher 3 ok_zero).0
    ≡ record (on_rtsp_data unchanged encrypted ok_zero) {
      keys = record {
        is_encrypted = true;
        read_count = (chacha20_encrypt open_cipher 3 ok_zero).1;
        write_count = 5;
      };
    }
unfolding start chacha20_encrypt
on_rtsp_data-encrypted_example =
    on_rtsp_data-encrypted open_cipher encrypted ok_zero open_cipher-IsCipher refl refl
      (omega arith) (omega arith)
