-- ===== src/CompanionLink/Stream.antt =====
-- packages/companion-link/src/stream.ts: frames on a TCP stream. The cipher is a parameter, and so
-- is what is done with a frame.
pub mod Rounds
pub mod Chunks
pub mod Sealed
pub mod Framing
use apple_protocols.Prelude.{
  ℕ, zero, suc, ◌+◌, ◌-◌, ◌*◌, ◌^◌, ◌<◌, List, [], ◌∷◌, ◌++◌, Option, none, some, Bytes, ◌>>=◌,
  be_bytes, be_value, le_bytes, Bool, true, false, not, ◌&&◌, ltb, ◌==◌, if◌then◌else◌, take, drop,
  length, replicate,
}

abbrev pub header_size : ℕ
header_size = 4

-- 1 MB.
abbrev pub max_buffer_size : ℕ
max_buffer_size = 1024 * 1024

-- `FrameType.NoOp`
abbrev pub no_op : ℕ
no_op = 1

abbrev pub auth_tag_length : ℕ
auth_tag_length = 16

-- `Chacha20` with the connection's two keys: a nonce, a header and a text give a ciphertext and a
-- tag, and these the text again, or an error, `none`.
pub record Cipher : Type 0 where
  pub encrypt : Bytes → Bytes → Bytes → Bytes × Bytes
  pub decrypt : Bytes → Bytes → Bytes → Bytes → Option Bytes

-- Twelve bytes: the counter in eight, and zeros.
abbrev pub nonce : ℕ → Bytes
nonce count = le_bytes 8 count ++ replicate 4 0

abbrev pub frame_header : ℕ → ℕ → Bytes
frame_header type payload_length = type ∷ be_bytes 3 payload_length

-- `send`: the bytes that are written and the new write counter; `none` is the RangeError of a type
-- that is no byte or of a length that does not fit three.
unfoldable pub send : Cipher → Bool → ℕ → ℕ → Bytes → Option (Bytes × ℕ)
send cipher is_encrypted write_count type payload =
    let encrypt = is_encrypted && not (type == no_op) in
    let payload_length = if encrypt then length payload + auth_tag_length else length payload in
    let header = frame_header type payload_length in
    let sealed = cipher.encrypt (nonce write_count) header payload in
    if not (ltb type 256 && ltb payload_length (2 ^ 24))
    then none
    else if encrypt
    then some (header ++ (sealed.0 ++ sealed.1), write_count + 1)
    else some (header ++ payload, write_count)

-- The receiving half: the bytes that no frame was made of yet, the read counter, the headers and
-- payloads that were handled, and the number of errors emitted.
pub record Receiver : Type 0 where
  pub buffer : Bytes
  pub read_count : ℕ
  pub handled : List (Bytes × Bytes)
  pub errors : ℕ

-- A whole frame in front of the buffer, and what is behind it.
unfoldable pub next_frame : Bytes → Option (Bytes × Bytes)
next_frame buffer =
    let total_length = header_size + be_value (take 3 (drop 1 buffer)) in
    if ltb (length buffer) header_size
    then none
    else if ltb (length buffer) total_length
    then none
    else some (take total_length buffer, drop total_length buffer)

-- `#decrypt`: the frame in the clear, if there is no error, and the new read counter.
unfoldable pub decrypt : Cipher → ℕ → Bytes → Option Bytes × ℕ
decrypt cipher read_count frame =
    let header = take 4 frame in
    let payload_length = be_value (take 3 (drop 1 header)) in
    let payload = take payload_length (drop 4 frame) in
    let auth_tag = drop (length payload - 16) payload in
    let ciphertext = take (length payload - 16) payload in
    if ltb payload_length 16 then (none, read_count) else (
      (cipher.decrypt (nonce read_count) header ciphertext auth_tag >>= λ text.
          some (header ++ text)),
      read_count + 1,
    )

unfoldable pub open_frame : Cipher → Bool → ℕ → Bytes → Option Bytes × ℕ
unfolding decrypt
open_frame cipher is_encrypted read_count frame =
    if is_encrypted then decrypt cipher read_count frame else (some frame, read_count)

-- `accepts` tells whether `#handle` throws nothing on a header and a payload.
module _ (cipher : Cipher) (is_encrypted : Bool) (accepts : Bytes → Bytes → Bool) where
  -- One round of the loop behind the buffer's change, with whether the loop goes on.
  unfoldable pub handle_opened : Receiver → Bytes → Option Bytes × ℕ → Receiver × Bool
  handle_opened r header (none, read_count) =
      (record r { read_count = read_count; errors = r.errors + 1 }, false)
  handle_opened r header (some frame, read_count) =
      let payload = drop header_size frame in
      if accepts header payload
      then (
        record r { read_count = read_count; handled = r.handled ++ ((header, payload) ∷ []) },
        true,
      )
      else (record r { read_count = read_count; errors = r.errors + 1 }, false)

  -- A round of the loop on a frame and what is behind it.
  unfoldable pub handle_frame : Receiver → Bytes × Bytes → Receiver × Bool
  unfolding open_frame handle_opened
  handle_frame r (frame, behind) =
      handle_opened (record r { buffer = behind }) (take header_size frame)
        (open_frame cipher is_encrypted r.read_count frame)

  -- The loop, on a fuel that the length of the buffer gives. An error ends it, with the bytes behind
  -- the frame left in the buffer.
  unfoldable pub frames : ℕ → Receiver → Receiver
  unfolding next_frame handle_frame
  frames zero r = r
  frames (suc fuel) r = elim (next_frame r.buffer) [
    | none ↦ r
    | some found ↦
        let (r', goes_on) = handle_frame r found in
        elim goes_on [ false ↦ r' | true ↦ frames fuel r' ]
  ]

  -- `onStreamData`
  unfoldable pub on_stream_data : Receiver → Bytes → Receiver
  unfolding frames
  on_stream_data r data_ =
      let buffer = r.buffer ++ data_ in
      if ltb max_buffer_size (length buffer)
      then record r { buffer = []; errors = r.errors + 1 }
      else frames (length buffer) (record r { buffer = buffer })
