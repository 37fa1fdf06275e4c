-- ===== src/Common/Ptp/Messages/Sent.antt =====
-- What the master sends, and what a receiver is to make of it.
use apple_protocols.Prelude.{
  ℕ, ◌+◌, ◌*◌, ◌/◌, ◌%◌, ◌^◌, ◌<◌, [], ◌∷◌, ◌++◌, Option, some, Bytes, length, append-nil, pos, ◌≡◌,
  refl, ap, ◌∙◌, arith,
}
use apple_protocols.Common.Ptp.Timestamp.{PtpTimestamp, decode_timestamp, timestamp_bytes}
use apple_protocols.Common.Ptp.Messages.{
  PtpMessageType, sync, follow_up, delay_resp, announce, signaling, Body, sync_body, follow_up_body,
  delay_resp_body, announce_body, signaling_body, header_fields, encode_sync, encode_follow_up,
  encode_announce, encode_delay_resp, encode_signaling_stop, zero_timestamp,
}
use apple_protocols.Common.Ptp.Messages.Decode.{decode_message}
use apple_protocols.Common.Ptp.Messages.Parts.{
  our_port, decode_timestamp-behind, decode_timestamp-front,
}

-- The messages that the master sends, with what it chooses for each.
pub data Sent : Type 0 where
  sends_sync : Sent
  sends_follow_up : PtpTimestamp → Sent
  sends_announce : ℕ → ℕ → Sent
  sends_delay_resp : PtpTimestamp → Bytes → Sent
  sends_signaling_stop : Bytes → Sent

abbrev pub encode_sent : ℕ → Bytes → Sent → Option Bytes
encode_sent seq id sends_sync = encode_sync seq id
encode_sent seq id (sends_follow_up ts) = encode_follow_up seq id ts
encode_sent seq id (sends_announce p q) = encode_announce seq id p q
encode_sent seq id (sends_delay_resp ts port) = encode_delay_resp seq id ts port
encode_sent seq id (sends_signaling_stop port) = encode_signaling_stop seq id port

-- The times that fit their field, and the port identities of ten bytes.
abbrev pub FitsTime : PtpTimestamp → Type 0
FitsTime ts = (ts.seconds < 2 ^ 48) × (ts.nanoseconds < 2 ^ 32)

abbrev pub FitsSent : Sent → Type 0
FitsSent sends_sync = Unit {0}
FitsSent (sends_follow_up ts) = FitsTime ts
FitsSent (sends_announce p q) = (p < 256) × (q < 256)
FitsSent (sends_delay_resp ts port) = FitsTime ts × (length port ≡ 10)
FitsSent (sends_signaling_stop port) = length port ≡ 10

-- Decoding a timestamp behind a header.
pub timestamp_at_34 :
    (ts : PtpTimestamp) (header rest : Bytes)
    → FitsTime ts
    → length header ≡ 34
    → decode_timestamp
        (header
          ++ (timestamp_bytes (ts.seconds / 2 ^ 32 % 2 ^ 16) (ts.seconds % 2 ^ 32) ts.nanoseconds
              ++ rest))
        34
      ≡ some ts
timestamp_at_34 ts header rest (s, n) size =
    let high = ts.seconds / 2 ^ 32 % 2 ^ 16 in
    let low = ts.seconds % 2 ^ 32 in
    let whole : high * 2 ^ 32 + low ≡ ts.seconds = omega arith in
    decode_timestamp-behind 34 0 header _ (omega arith)
    ∙ decode_timestamp-front high low ts.nanoseconds rest (omega arith) (omega arith) n
    ∙ ap (λ x. some (record { seconds = x; nanoseconds = ts.nanoseconds })) whole

-- The bytes of a timestamp.
abbrev pub bytes_of : PtpTimestamp → Bytes
bytes_of ts = timestamp_bytes (ts.seconds / 2 ^ 32 % 2 ^ 16) (ts.seconds % 2 ^ 32) ts.nanoseconds

pub length-bytes_of : (ts : PtpTimestamp) → length (bytes_of ts) ≡ 10
unfolding timestamp_bytes
length-bytes_of ts = refl

pub lone_timestamp :
    (ts : PtpTimestamp) (header : Bytes)
    → FitsTime ts
    → length header ≡ 34
    → decode_timestamp (header ++ bytes_of ts) 34 ≡ some ts
lone_timestamp ts header f size = rw append-nil at (timestamp_at_34 ts header [] f size)

-- What a receiver makes of a message: its header's length and flags, and its contents.
abbrev pub expected_length : Sent → ℕ
expected_length sends_sync = 44
expected_length (sends_follow_up ts) = 74
expected_length (sends_announce p q) = 64
expected_length (sends_delay_resp ts port) = 54
expected_length (sends_signaling_stop port) = 58

abbrev pub type_of_sent : Sent → PtpMessageType
type_of_sent sends_sync = sync
type_of_sent (sends_follow_up ts) = follow_up
type_of_sent (sends_announce p q) = announce
type_of_sent (sends_delay_resp ts port) = delay_resp
type_of_sent (sends_signaling_stop port) = signaling

-- Only a Sync announces that a second message will follow.
abbrev pub flags_of_sent : Sent → ℕ
flags_of_sent sends_sync = 0x0208
flags_of_sent _ = 0x0008

-- The request to stop all three kinds of messages, as it stands on the wire.
abbrev pub stop_tlv : Bytes
stop_tlv = 0 ∷ 3 ∷ 0 ∷ 10 ∷ 0x00 ∷ 0x80 ∷ 0xC2 ∷ 2 ∷ 0x7E ∷ 0x7E ∷ 0x7E ∷ 0 ∷ 0 ∷ 0 ∷ []

abbrev pub expected_body : Bytes → Sent → Body
expected_body id sends_sync = sync_body zero_timestamp
expected_body id (sends_follow_up ts) = follow_up_body ts
expected_body id (sends_announce p q) = announce_body (record {
  origin_timestamp = zero_timestamp;
  current_utc_offset = pos 37;
  grandmaster_priority_1 = p;
  clock_class = 248;
  clock_accuracy = 0xFE;
  offset_scaled_log_variance = 0xFFFF;
  grandmaster_priority_2 = q;
  grandmaster_identity = id;
  steps_removed = 0;
  time_source = 0xA0;
})
expected_body id (sends_delay_resp ts port) = delay_resp_body ts port
expected_body id (sends_signaling_stop port) = signaling_body port stop_tlv

-- The message is encoded, and decodes to these.
abbrev pub Arrives : ℕ → Bytes → Sent → Type 0
Arrives seq id m =
    (buf : Bytes) × (encode_sent seq id m ≡ some buf)
    × (decode_message buf
        ≡ some (
            some (
              header_fields (type_of_sent m) (our_port id) seq (expected_length m)
                  (flags_of_sent m),
              expected_body id m,
            )))
