-- ===== src/Common/Ptp/Messages.antt =====
-- packages/common/src/timing/ptp/messages.ts: the messages that the master sends, and the decoder
-- of those that it receives.
pub mod Decode
pub mod Lengths
pub mod Parts
pub mod Sent
pub mod RoundTrip
use apple_protocols.Prelude.{
  ℕ, ◌+◌, ◌-◌, ◌*◌, ◌/◌, ◌%◌, ◌^◌, ◌<◌, List, [], ◌∷◌, ◌++◌, Option, none, some, Bytes, ◌>>=◌,
  alloc_unsafe, write_uint_be, write_int_be, read_uint_be, read_int_be, store_byte, byte_at, put_at,
  take, drop, length, ltb, ◌==◌, if◌then◌else◌, ℤ, pos, negsuc,
}
use apple_protocols.Common.Ptp.Timestamp.{PtpTimestamp, encode_timestamp, decode_timestamp}
use apple_protocols.Common.Ptp.Header.{
  HeaderFields, ptp_header_length, default_port_number, encode_header, decode_header,
}
use apple_protocols.Common.Ptp.Tlv.{default_follow_up_info_tlv, encode_message_interval_request_tlv}

pub data PtpMessageType : Type 0 where
  sync delay_req follow_up delay_resp announce signaling : PtpMessageType

abbrev pub type_code : PtpMessageType → ℕ
type_code sync = 0x00
type_code delay_req = 0x01
type_code follow_up = 0x08
type_code delay_resp = 0x09
type_code announce = 0x0B
type_code signaling = 0x0C

-- `ControlField` and `LogInterval` of each message type.
abbrev pub control_field_of : PtpMessageType → ℕ
control_field_of sync = 0x00
control_field_of delay_req = 0x01
control_field_of follow_up = 0x02
control_field_of delay_resp = 0x03
control_field_of announce = 0x05
control_field_of signaling = 0x05

abbrev pub log_interval_of : PtpMessageType → ℤ
log_interval_of sync = negsuc 2
log_interval_of announce = pos 0
log_interval_of follow_up = pos 0
log_interval_of delay_req = pos 0x7F
log_interval_of delay_resp = pos 0x7F
log_interval_of signaling = pos 0x7F

abbrev pub default_priority_1 : ℕ
default_priority_1 = 248

abbrev pub default_priority_2 : ℕ
default_priority_2 = 128

pub record AnnounceBody : Type 0 where
  pub origin_timestamp : PtpTimestamp
  pub current_utc_offset : ℤ
  pub grandmaster_priority_1 : ℕ
  pub clock_class : ℕ
  pub clock_accuracy : ℕ
  pub offset_scaled_log_variance : ℕ
  pub grandmaster_priority_2 : ℕ
  pub grandmaster_identity : Bytes
  pub steps_removed : ℕ
  pub time_source : ℕ

-- What a message is decoded to, beside its header.
pub data Body : Type 0 where
  sync_body : PtpTimestamp → Body
  delay_req_body : PtpTimestamp → Body
  follow_up_body : PtpTimestamp → Body
  delay_resp_body : PtpTimestamp → Bytes → Body
  announce_body : AnnounceBody → Body
  signaling_body : Bytes → Bytes → Body

abbrev pub zero_timestamp : PtpTimestamp
zero_timestamp = record { seconds = 0; nanoseconds = 0 }

-- `sourcePortIdentity` of `buildHeader`: the first eight bytes of the clock identity and our port.
abbrev pub port_identity : Bytes → Option Bytes
port_identity clock_identity =
    write_uint_be 2 default_port_number 8
      (put_at (alloc_unsafe (λ _. 0) 10) 0 (take 8 clock_identity))

-- The fields that `buildHeader` gives to `encodeHeader`.
abbrev pub header_fields : PtpMessageType → Bytes → ℕ → ℕ → ℕ → HeaderFields
header_fields type identity sequence_id message_length flags = record {
  message_type = type_code type;
  transport_specific = 1;
  message_length = message_length;
  domain_number = 0;
  flags = flags;
  correction_field = pos 0;
  source_port_identity = identity;
  sequence_id = sequence_id;
  control_field = control_field_of type;
  log_message_interval = log_interval_of type;
}

unfoldable pub build_header : PtpMessageType → Bytes → ℕ → ℕ → ℕ → Option Bytes
build_header type clock_identity sequence_id message_length flags =
    port_identity clock_identity >>= λ identity.
    encode_header (header_fields type identity sequence_id message_length flags)

-- The parts of a message are built before any is sent: an error in one is an error of the whole.
unfoldable pub encode_sync : ℕ → Bytes → Option Bytes
unfolding build_header
encode_sync sequence_id clock_identity =
    build_header sync clock_identity sequence_id (ptp_header_length + 10) 0x0208 >>= λ header.
    encode_timestamp zero_timestamp >>= λ zero_ts. some (header ++ zero_ts)

unfoldable pub encode_follow_up : ℕ → Bytes → PtpTimestamp → Option Bytes
unfolding build_header
encode_follow_up sequence_id clock_identity precise_origin_timestamp =
    encode_timestamp precise_origin_timestamp >>= λ timestamp. default_follow_up_info_tlv >>= λ tlv.
    build_header follow_up clock_identity sequence_id
      (ptp_header_length + length timestamp + length tlv) 0x0008
    >>= λ header. some (header ++ (timestamp ++ tlv))

-- The 20 bytes behind the timestamp of an Announce.
unfoldable pub encode_announce_body : Bytes → ℕ → ℕ → Option Bytes
encode_announce_body clock_identity priority_1 priority_2 =
    write_int_be 2 (pos 37) 0 (alloc_unsafe (λ _. 0) 20) >>= λ b₀.
    let b₁ = store_byte 5 0xFE (store_byte 4 248 (store_byte 3 priority_1 b₀)) in
    write_uint_be 2 0xFFFF 6 b₁ >>= λ b₂.
    let b₃ = put_at (store_byte 8 priority_2 b₂) 9 (take 8 clock_identity) in
    write_uint_be 2 0 17 b₃ >>= λ b₄. some (store_byte 19 0xA0 b₄)

unfoldable pub encode_announce : ℕ → Bytes → ℕ → ℕ → Option Bytes
unfolding build_header encode_announce_body
encode_announce sequence_id clock_identity priority_1 priority_2 =
    build_header announce clock_identity sequence_id (ptp_header_length + 10 + 20) 0x0008
    >>= λ header. encode_timestamp zero_timestamp >>= λ zero_ts.
        encode_announce_body clock_identity priority_1 priority_2 >>= λ body.
        some (header ++ (zero_ts ++ body))

unfoldable pub encode_delay_resp : ℕ → Bytes → PtpTimestamp → Bytes → Option Bytes
unfolding build_header
encode_delay_resp sequence_id clock_identity receive_timestamp requesting_port_identity =
    encode_timestamp receive_timestamp >>= λ timestamp.
    build_header delay_resp clock_identity sequence_id (ptp_header_length + length timestamp + 10)
      0x0008
    >>= λ header.
        let requester = put_at (alloc_unsafe (λ _. 0) 10) 0 (take 10 requesting_port_identity) in
        some (header ++ (timestamp ++ requester))

unfoldable pub encode_signaling_stop : ℕ → Bytes → Bytes → Option Bytes
unfolding build_header
encode_signaling_stop sequence_id clock_identity target_port_identity =
    encode_message_interval_request_tlv (pos 0x7E) (pos 0x7E) (pos 0x7E) >>= λ tlv.
    let target = put_at (alloc_unsafe (λ _. 0) 10) 0 (take 10 target_port_identity) in
    build_header signaling clock_identity sequence_id
      (ptp_header_length + length target + length tlv) 0x0008
    >>= λ header. some (header ++ (target ++ tlv))
