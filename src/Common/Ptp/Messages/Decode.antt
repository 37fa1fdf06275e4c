-- ===== src/Common/Ptp/Messages/Decode.antt =====
-- `decodeMessage` of packages/common/src/timing/ptp/messages.ts.
use apple_protocols.Prelude.{
  ℕ, ◌+◌, ◌<◌, ◌≤◌, Option, none, some, Bytes, ◌>>=◌, read_uint_be, read_int_be, byte_at,
  byte_at-ne-none, >>=-ne-none, some-ne-none, read_uint_be-ne-none, lt_or_le, inl, inr, lt→ltb,
  le→ltb_false, take, drop, length, ltb, ◌==◌, if◌then◌else◌, ◌≢◌, arith,
}
use apple_protocols.Common.Ptp.Timestamp.{decode_timestamp}
use apple_protocols.Common.Ptp.Header.{HeaderFields, ptp_header_length, decode_header}
use apple_protocols.Common.Ptp.Messages.{
  PtpMessageType, sync, delay_req, follow_up, delay_resp, announce, signaling, AnnounceBody, Body,
  sync_body, delay_req_body, follow_up_body, delay_resp_body, announce_body, signaling_body,
}

-- The message type of a header, if it is one of those that are decoded.
unfoldable pub type_of : ℕ → Option PtpMessageType
type_of code =
    if code == 0x00
    then some sync
    else if code == 0x01
    then some delay_req
    else if code == 0x08
    then some follow_up
    else if code == 0x09
    then some delay_resp
    else if code == 0x0B
    then some announce
    else if code == 0x0C
    then some signaling
    else none

-- How many bytes the body of each message must have at least.
abbrev pub body_length : PtpMessageType → ℕ
body_length sync = 10
body_length delay_req = 10
body_length follow_up = 10
body_length delay_resp = 20
body_length announce = 30
body_length signaling = 10

unfoldable pub decode_announce_body : Bytes → ℕ → Option AnnounceBody
decode_announce_body buf offset = decode_timestamp buf offset >>= λ origin_timestamp.
    read_int_be 2 (offset + 10) buf >>= λ current_utc_offset.
    byte_at buf (offset + 13) >>= λ grandmaster_priority_1.
    byte_at buf (offset + 14) >>= λ clock_class. byte_at buf (offset + 15) >>= λ clock_accuracy.
    read_uint_be 2 (offset + 16) buf >>= λ offset_scaled_log_variance.
    byte_at buf (offset + 18) >>= λ grandmaster_priority_2.
    read_uint_be 2 (offset + 27) buf >>= λ steps_removed.
    byte_at buf (offset + 29) >>= λ time_source. some (record {
      origin_timestamp = origin_timestamp;
      current_utc_offset = current_utc_offset;
      grandmaster_priority_1 = grandmaster_priority_1;
      clock_class = clock_class;
      clock_accuracy = clock_accuracy;
      offset_scaled_log_variance = offset_scaled_log_variance;
      grandmaster_priority_2 = grandmaster_priority_2;
      grandmaster_identity = take 8 (drop (offset + 19) buf);
      steps_removed = steps_removed;
      time_source = time_source;
    })

-- `none` is an error that is thrown.
unfoldable pub decode_body : PtpMessageType → Bytes → ℕ → Option Body
unfolding decode_announce_body
decode_body sync buf offset = decode_timestamp buf offset >>= λ ts. some (sync_body ts)
decode_body delay_req buf offset = decode_timestamp buf offset >>= λ ts. some (delay_req_body ts)
decode_body follow_up buf offset = decode_timestamp buf offset >>= λ ts. some (follow_up_body ts)
decode_body delay_resp buf offset = decode_timestamp buf offset >>= λ ts.
    some (delay_resp_body ts (take 10 (drop (offset + 10) buf)))
decode_body announce buf offset = decode_announce_body buf offset >>= λ b. some (announce_body b)
decode_body signaling buf offset =
    some (signaling_body (take 10 (drop offset buf)) (drop (offset + 10) buf))

-- A case of the `switch`: `some none` is the `null` of a message that is too short or unknown.
unfoldable pub decode_case :
    Option PtpMessageType → HeaderFields → Bytes → Option (Option (HeaderFields × Body))
unfolding decode_body
decode_case none header buf = some none
decode_case (some type) header buf =
    if ltb (length buf) (ptp_header_length + body_length type)
    then some none
    else (decode_body type buf ptp_header_length >>= λ body. some (some (header, body)))

unfoldable pub decode_message : Bytes → Option (Option (HeaderFields × Body))
unfolding decode_case type_of
decode_message buf =
    if ltb (length buf) ptp_header_length
    then some none
    else (decode_header buf >>= λ header. decode_case (type_of header.message_type) header buf)

decode_timestamp-total :
    (buf : Bytes) (offset : ℕ) → offset + 10 ≤ length buf → decode_timestamp buf offset ≢ none
unfolding decode_timestamp
decode_timestamp-total buf offset h e = ground arith

decode_announce_body-total :
    (buf : Bytes) (offset : ℕ) → offset + 30 ≤ length buf → decode_announce_body buf offset ≢ none
unfolding decode_announce_body
decode_announce_body-total buf offset h =
    let byte = λ (i : ℕ) (fits : i < 30). byte_at-ne-none buf (offset + i) (omega arith) in
    let word =
      λ (i : ℕ) (fits : i + 2 ≤ 30). read_uint_be-ne-none 2 (offset + i) buf (omega arith) in
    >>=-ne-none _ _ (decode_timestamp-total buf offset (omega arith)) λ _.
      >>=-ne-none _ _ (>>=-ne-none _ _ (word 10 (omega arith)) (λ w. some-ne-none _)) λ _.
        >>=-ne-none _ _ (byte 13 (omega arith)) λ _. >>=-ne-none _ _ (byte 14 (omega arith)) λ _.
          >>=-ne-none _ _ (byte 15 (omega arith)) λ _. >>=-ne-none _ _ (word 16 (omega arith)) λ _.
            >>=-ne-none _ _ (byte 18 (omega arith)) λ _.
              >>=-ne-none _ _ (word 27 (omega arith))
                λ _. >>=-ne-none _ _ (byte 29 (omega arith)) λ _. some-ne-none _

pub decode_body-total :
    (type : PtpMessageType) (buf : Bytes)
    → 34 + body_length type ≤ length buf
    → decode_body type buf 34 ≢ none
unfolding decode_body
decode_body-total sync buf h e = ground (arith, decode_timestamp-total buf 34)
decode_body-total delay_req buf h e = ground (arith, decode_timestamp-total buf 34)
decode_body-total follow_up buf h e = ground (arith, decode_timestamp-total buf 34)
decode_body-total delay_resp buf h e = ground (arith, decode_timestamp-total buf 34)
decode_body-total announce buf h e =
    >>=-ne-none (decode_announce_body buf 34) (λ b. some (announce_body b))
      (decode_announce_body-total buf 34 h) (λ b. some-ne-none _) e
decode_body-total signaling buf h e = cc

pub decode_header-total : (buf : Bytes) → 34 ≤ length buf → decode_header buf ≢ none
unfolding decode_header
decode_header-total buf h e =
    ground (arith, byte_at-ne-none buf 0, byte_at-ne-none buf 4, byte_at-ne-none buf 32)

decode_case-total :
    (type : Option PtpMessageType) (header : HeaderFields) (buf : Bytes)
    → decode_case type header buf ≢ none
unfolding decode_case
decode_case-total none header buf e = cc
decode_case-total (some type) header buf e = elim (lt_or_le (length buf) (34 + body_length type)) [
  | inl short ↦ cc (rw (lt→ltb (length buf) (34 + body_length type) short) at e)
  | inr enough ↦
      >>=-ne-none (decode_body type buf 34) (λ body. some (some (header, body)))
        (decode_body-total type buf enough) (λ body. some-ne-none _)
        (rw (le→ltb_false (length buf) (34 + body_length type) enough) at e)
]

-- The decoder throws on no input: no read of any message goes past the end of the buffer.
pub decode_message-ne-none : (buf : Bytes) → decode_message buf ≢ none
unfolding decode_message
decode_message-ne-none buf e = elim (lt_or_le (length buf) 34) [
  | inl short ↦ cc (rw (lt→ltb (length buf) 34 short) at e)
  | inr enough ↦
      >>=-ne-none (decode_header buf)
        (λ header. decode_case (type_of header.message_type) header buf)
        (decode_header-total buf enough)
        (λ header. decode_case-total (type_of header.message_type) header buf)
        (rw (le→ltb_false (length buf) 34 enough) at e)
]
