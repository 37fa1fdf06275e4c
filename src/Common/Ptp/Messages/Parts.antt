-- ===== src/Common/Ptp/Messages/Parts.antt =====
-- The parts of a message, decoded one by one.
use apple_protocols.Prelude.{
  ℕ, ◌+◌, ◌*◌, ◌^◌, ◌<◌, ◌≤◌, [], ◌∷◌, ◌++◌, some, Bytes, length, length-append, FitsInt, ◌≡◌, refl,
  arith, read_uint_be-behind, read_uint_be-front, byte_at-behind, slice-behind, le→ltb_false, be_2,
  be_4, bit_or_high,
}
use apple_protocols.Common.Ptp.Timestamp.{decode_timestamp, timestamp_bytes}
use apple_protocols.Common.Ptp.Header.{
  HeaderFields, decode_header, decode_header-front, decode-encode_header,
}
use apple_protocols.Common.Ptp.Messages.{
  PtpMessageType, sync, type_code, control_field_of, log_interval_of, Body, header_fields,
  port_identity, build_header,
}
use apple_protocols.Common.Ptp.Messages.Decode.{
  type_of, body_length, decode_announce_body, decode_body, decode_message,
}

-- The port identity that a clock identity of eight bytes is sent with.
abbrev pub our_port : Bytes → Bytes
our_port clock_identity = clock_identity ++ (0 ∷ 1 ∷ [])

port_identity-our_port : (id : Bytes) → length id ≡ 8 → port_identity id ≡ some (our_port id)
port_identity-our_port (a ∷ b ∷ c ∷ d ∷ e ∷ f ∷ g ∷ h ∷ []) n = refl
port_identity-our_port _ n = absurd (omega arith)

log_interval-FitsInt : (type : PtpMessageType) → FitsInt 1 (log_interval_of type)
log_interval-FitsInt sync = omega arith
log_interval-FitsInt _ = omega arith

type_code-lt : (type : PtpMessageType) → type_code type < 16
type_code-lt sync = omega arith
type_code-lt _ = omega arith

control_field-lt : (type : PtpMessageType) → control_field_of type < 256
control_field-lt sync = omega arith
control_field-lt _ = omega arith

type_of-type_code : (type : PtpMessageType) → type_of (type_code type) ≡ some type
unfolding type_of
type_of-type_code sync = refl
type_of-type_code _ = refl

-- The header that is built decodes to the fields that were given.
pub build_header-decode :
    (type : PtpMessageType) (id : Bytes) (sequence_id message_length flags : ℕ)
    → length id ≡ 8
    → sequence_id < 2 ^ 16
    → message_length < 2 ^ 16
    → flags < 2 ^ 16
    → (header : Bytes) × (build_header type id sequence_id message_length flags ≡ some header)
      × (length header ≡ 34)
      × (decode_header header
          ≡ some (header_fields type (our_port id) sequence_id message_length flags))
unfolding build_header
build_header-decode type id sequence_id message_length flags n s m f =
    let fields = header_fields type (our_port id) sequence_id message_length flags in
    rw (port_identity-our_port id n) (
      decode-encode_header fields
        (record {
          message_type = type_code-lt type;
          transport_specific = omega arith;
          message_length = m;
          domain_number = omega arith;
          flags = f;
          correction_field = omega arith;
          sequence_id = s;
          control_field = control_field-lt type;
          log_message_interval = log_interval-FitsInt type;
        })
        (omega (arith, length-append id (0 ∷ 1 ∷ []))))

-- A message that is a header and a body is decoded part by part.
pub decode_message-parts :
    (type : PtpMessageType) (header body : Bytes) (fields : HeaderFields) (b : Body)
    → fields.message_type ≡ type_code type
    → length header ≡ 34
    → decode_header header ≡ some fields
    → body_length type ≤ length body
    → decode_body type (header ++ body) 34 ≡ some b
    → decode_message (header ++ body) ≡ some (some (fields, b))
unfolding decode_message
decode_message-parts type header body fields b t n d l e =
    let sizes = length-append header body in
    rw (
      le→ltb_false (length (header ++ body)) 34 (omega (arith, sizes)),
      decode_header-front header body n,
      d,
      t,
      type_of-type_code type,
      le→ltb_false (length (header ++ body)) (34 + body_length type) (omega (arith, sizes)),
      e,
    )

pub decode_timestamp-behind :
    (offset k : ℕ) (front rest : Bytes)
    → offset ≡ length front + k
    → decode_timestamp (front ++ rest) offset ≡ decode_timestamp rest k
unfolding decode_timestamp
decode_timestamp-behind offset k front rest e = rw (
  read_uint_be-behind 2 offset k front rest e,
  read_uint_be-behind 4 (offset + 2) (k + 2) front rest (omega arith),
  read_uint_be-behind 4 (offset + 6) (k + 6) front rest (omega arith),
)

-- A timestamp in front of other bytes.
pub decode_timestamp-front :
    (high low nanoseconds : ℕ) (rest : Bytes)
    → high < 2 ^ 16
    → low < 2 ^ 32
    → nanoseconds < 2 ^ 32
    → decode_timestamp (timestamp_bytes high low nanoseconds ++ rest) 0
      ≡ some (record { seconds = high * 2 ^ 32 + low; nanoseconds = nanoseconds })
unfolding decode_timestamp timestamp_bytes
decode_timestamp-front high low nanoseconds rest h l n =
    let front = timestamp_bytes high low nanoseconds in
    rw
      (
        read_uint_be-front 2 0 front rest (omega arith),
        read_uint_be-front 4 (0 + 2) front rest (omega arith),
        read_uint_be-front 4 (0 + 6) front rest (omega arith),
      )
      (rw (be_2 high h, be_4 low l, be_4 nanoseconds n, bit_or_high 32 high low l))

-- A message is built from a header and a body, and decodes to the fields of the one and the
-- contents of the other.
pub build-decode :
    (type : PtpMessageType) (id : Bytes) (sequence_id message_length flags : ℕ) (body : Bytes)
    (b : Body)
    → length id ≡ 8
    → sequence_id < 2 ^ 16
    → message_length < 2 ^ 16
    → flags < 2 ^ 16
    → body_length type ≤ length body
    → ((header : Bytes) → length header ≡ 34 → decode_body type (header ++ body) 34 ≡ some b)
    → (header : Bytes) × (build_header type id sequence_id message_length flags ≡ some header)
      × (decode_message (header ++ body)
          ≡ some (some (header_fields type (our_port id) sequence_id message_length flags, b)))
build-decode type id sequence_id message_length flags body b n s m f l d =
    let (header, e, size, fields) =
      build_header-decode type id sequence_id message_length flags n s m f in
    (header, e, decode_message-parts type header body _ b refl size fields l (d header size))

pub decode_announce_body-behind :
    (front rest : Bytes)
    → length front ≡ 34
    → decode_announce_body (front ++ rest) 34 ≡ decode_announce_body rest 0
unfolding decode_announce_body
decode_announce_body-behind front rest e = rw (
  decode_timestamp-behind 34 0 front rest (omega arith),
  read_uint_be-behind 2 (34 + 10) (0 + 10) front rest (omega arith),
  byte_at-behind (34 + 13) (0 + 13) front rest (omega arith),
  byte_at-behind (34 + 14) (0 + 14) front rest (omega arith),
  byte_at-behind (34 + 15) (0 + 15) front rest (omega arith),
  read_uint_be-behind 2 (34 + 16) (0 + 16) front rest (omega arith),
  byte_at-behind (34 + 18) (0 + 18) front rest (omega arith),
  read_uint_be-behind 2 (34 + 27) (0 + 27) front rest (omega arith),
  byte_at-behind (34 + 29) (0 + 29) front rest (omega arith),
  slice-behind 8 (34 + 19) (0 + 19) front rest (omega arith),
)
