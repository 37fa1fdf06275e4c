-- ===== src/Tests/CompanionLink.antt =====
-- Runs and instances for packages/companion-link/src.
use apple_protocols.Prelude.{
  ℕ, List, [], ◌∷◌, some, Bytes, Bool, true, false, replicate, ◌≡◌, refl, arith,
}
use apple_protocols.CompanionLink.Stream.{
  Cipher, Receiver, on_stream_data, frames, next_frame, handle_frame, open_frame, handle_opened,
}
use apple_protocols.CompanionLink.Stream.Chunks.{on_stream_data-append}
use apple_protocols.CompanionLink.Stream.Sealed.{IsCipher}
use apple_protocols.CompanionLink.Stream.Framing.{AllReceived, send_all-AllReceived}

-- A cipher that hides nothing, with a tag of zeros.
abbrev open_cipher : Cipher
open_cipher = record {
  encrypt = λ n header payload. (payload, replicate 16 0);
  decrypt = λ n header ciphertext tag. some ciphertext;
}

open_cipher-IsCipher : IsCipher open_cipher
open_cipher-IsCipher = record {
  opens = λ n header payload. refl;
  same_length = λ n header payload. refl;
  tag_length = λ n header payload. refl;
}

abbrev accept_all : Bytes → Bytes → Bool
accept_all header payload = true

abbrev fresh : Receiver
fresh = record { buffer = []; read_count = 0; handled = []; errors = 0 }

abbrev messages : List (ℕ × Bytes)
messages = (8, 1 ∷ 2 ∷ 3 ∷ []) ∷ (8, 4 ∷ []) ∷ []

send_all-AllReceived_example :
    AllReceived open_cipher open_cipher-IsCipher accept_all true 0 messages fresh
send_all-AllReceived_example =
    send_all-AllReceived open_cipher open_cipher-IsCipher accept_all true 0 messages fresh refl refl
      ((omega arith, refl), ((omega arith, refl), tt)) (omega arith) (λ header payload. refl)

-- A plain frame that is cut inside its header.
no_errors : (on_stream_data open_cipher false accept_all fresh (7 ∷ 0 ∷ [])).errors ≡ 0
unfolding on_stream_data frames next_frame
no_errors = refl

on_stream_data-append_example :
    on_stream_data open_cipher false accept_all
      (on_stream_data open_cipher false accept_all fresh (7 ∷ 0 ∷ []))
      (0 ∷ 1 ∷ 9 ∷ [])
    ≡ on_stream_data open_cipher false accept_all fresh (7 ∷ 0 ∷ 0 ∷ 1 ∷ 9 ∷ [])
on_stream_data-append_example =
    on_stream_data-append open_cipher false accept_all fresh (7 ∷ 0 ∷ []) (0 ∷ 1 ∷ 9 ∷ []) no_errors
      (omega arith)

one_handled :
    (on_stream_data open_cipher false accept_all fresh (7 ∷ 0 ∷ 0 ∷ 1 ∷ 9 ∷ [])).handled
    ≡ (7 ∷ 0 ∷ 0 ∷ 1 ∷ [], 9 ∷ []) ∷ []
unfolding on_stream_data frames next_frame handle_frame handle_opened open_frame
one_handled = refl
