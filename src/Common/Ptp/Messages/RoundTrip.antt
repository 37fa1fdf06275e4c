-- ===== src/Common/Ptp/Messages/RoundTrip.antt =====
-- What the master sends is what a receiver with this decoder reads.
use apple_protocols.Prelude.{
  ℕ, ◌%◌, ◌^◌, ◌<◌, [], ◌∷◌, ◌++◌, some, Bytes, take, length, length-append, put_at, put_at-all,
  take-all, alloc_unsafe, replicate, drop-append_eq, take-append_eq, pos, ◌≡◌, refl, arith,
  slice-behind, drop-behind,
}
use apple_protocols.Common.Ptp.Timestamp.{
  PtpTimestamp, decode_timestamp, timestamp_bytes, encode_timestamp-bytes,
}
use apple_protocols.Common.Ptp.Messages.{
  sync, follow_up, delay_resp, announce, signaling, sync_body, follow_up_body, delay_resp_body,
  signaling_body, build_header, encode_sync, encode_follow_up, encode_announce, encode_delay_resp,
  encode_signaling_stop, encode_announce_body, zero_timestamp,
}
use apple_protocols.Common.Ptp.Tlv.{default_follow_up_info_tlv, encode_message_interval_request_tlv}
use apple_protocols.Common.Ptp.Messages.Decode.{decode_announce_body, decode_body}
use apple_protocols.Common.Ptp.Messages.Parts.{build-decode, decode_announce_body-behind}
use apple_protocols.Common.Ptp.Messages.Sent.{
  Sent, sends_sync, sends_follow_up, sends_announce, sends_delay_resp, sends_signaling_stop,
  FitsSent, timestamp_at_34, bytes_of, length-bytes_of, lone_timestamp, stop_tlv, expected_body,
  Arrives,
}

-- The 20 bytes behind the timestamp of an Announce.
abbrev announce_bytes : ℕ → ℕ → Bytes → Bytes
announce_bytes p q c =
    0 ∷ 37 ∷ 0 ∷ p % 256 ∷ 248 ∷ 0xFE ∷ 0xFF ∷ 0xFF ∷ q % 256 ∷ (c ++ (0 ∷ 0 ∷ 0xA0 ∷ []))

encode_announce_body-bytes :
    (p q : ℕ) (c : Bytes) → length c ≡ 8 → encode_announce_body c p q ≡ some (announce_bytes p q c)
unfolding encode_announce_body
encode_announce_body-bytes p q (x₀ ∷ x₁ ∷ x₂ ∷ x₃ ∷ x₄ ∷ x₅ ∷ x₆ ∷ x₇ ∷ []) h = refl
encode_announce_body-bytes p q _ h = absurd (omega arith)

decode_announce_body-bytes :
    (p q : ℕ) (c : Bytes)
    → length c ≡ 8
    → p < 256
    → q < 256
    → decode_announce_body (bytes_of zero_timestamp ++ announce_bytes p q c) 0
      ≡ some (record {
        origin_timestamp = zero_timestamp;
        current_utc_offset = pos 37;
        grandmaster_priority_1 = p;
        clock_class = 248;
        clock_accuracy = 0xFE;
        offset_scaled_log_variance = 0xFFFF;
        grandmaster_priority_2 = q;
        grandmaster_identity = c;
        steps_removed = 0;
        time_source = 0xA0;
      })
unfolding decode_announce_body decode_timestamp timestamp_bytes
decode_announce_body-bytes p q (x₀ ∷ x₁ ∷ x₂ ∷ x₃ ∷ x₄ ∷ x₅ ∷ x₆ ∷ x₇ ∷ []) h hp hq =
    let p_fits : p % 256 ≡ p = omega arith in
    let q_fits : q % 256 ≡ q = omega arith in rw (p_fits, q_fits)
decode_announce_body-bytes p q _ h hp hq = absurd (omega arith)

copy_ten :
    (port : Bytes) → length port ≡ 10 → put_at (alloc_unsafe (λ _. 0) 10) 0 (take 10 port) ≡ port
copy_ten port h =
    rw (take-all 10 port (omega arith)) (put_at-all (alloc_unsafe (λ _. 0) 10) port (omega arith))

module _ (seq : ℕ) (id : Bytes) (small : seq < 2 ^ 16) (eight : length id ≡ 8) where
  sync-Arrives : Arrives seq id sends_sync
  unfolding encode_sync decode_body
  sync-Arrives =
      let body = bytes_of zero_timestamp in
      let (header, e, d) =
        build-decode sync id seq 44 0x0208 body (sync_body zero_timestamp) eight small (omega arith)
          (omega arith) (omega (arith, length-bytes_of zero_timestamp))
          (λ header size. rw (lone_timestamp zero_timestamp header (omega arith) size)) in
      (header ++ body, rw (e, encode_timestamp-bytes zero_timestamp (omega arith)), d)

  delay_resp-Arrives :
      (ts : PtpTimestamp) (port : Bytes)
      → FitsSent (sends_delay_resp ts port)
      → Arrives seq id (sends_delay_resp ts port)
  unfolding encode_delay_resp decode_body
  delay_resp-Arrives ts port (f, ten) =
      let stamp = bytes_of ts in
      let (header, e, d) =
        build-decode delay_resp id seq 54 0x0008 (stamp ++ port) (delay_resp_body ts port) eight
          small (omega arith) (omega arith)
          (omega (arith, length-append stamp port, length-bytes_of ts))
          (λ header size. rw (
            timestamp_at_34 ts header port f size,
            slice-behind 10 44 10 header (stamp ++ port) (omega arith),
            drop-append_eq 10 stamp port (length-bytes_of ts),
            take-all 10 port (omega arith),
          )) in
      (
        header ++ (stamp ++ port),
        rw (encode_timestamp-bytes ts f.1, length-bytes_of ts, copy_ten port ten, e),
        d,
      )

  encode_signaling_stop-of_header :
      (port header : Bytes)
      → length port ≡ 10
      → build_header signaling id seq 58 0x0008 ≡ some header
      → encode_signaling_stop seq id port ≡ some (header ++ (port ++ stop_tlv))
  unfolding encode_signaling_stop encode_message_interval_request_tlv
  encode_signaling_stop-of_header port header ten e = rw (copy_ten port ten, ten, e)

  signaling-Arrives :
      (port : Bytes)
      → FitsSent (sends_signaling_stop port)
      → Arrives seq id (sends_signaling_stop port)
  unfolding decode_body
  signaling-Arrives port ten =
      let (header, e, d) =
        build-decode signaling id seq 58 0x0008 (port ++ stop_tlv) (signaling_body port stop_tlv)
          eight small (omega arith) (omega arith) (omega (arith, length-append port stop_tlv))
          (λ header size. rw (
            slice-behind 10 34 0 header (port ++ stop_tlv) (omega arith),
            drop-behind 44 10 header (port ++ stop_tlv) (omega arith),
            drop-append_eq 10 port stop_tlv ten,
            take-append_eq 10 port stop_tlv ten,
          )) in
      (header ++ (port ++ stop_tlv), encode_signaling_stop-of_header port header ten e, d)

  follow_up-Arrives :
      (ts : PtpTimestamp) → FitsSent (sends_follow_up ts) → Arrives seq id (sends_follow_up ts)
  unfolding encode_follow_up decode_body default_follow_up_info_tlv
  follow_up-Arrives ts f =
      let stamp = bytes_of ts in
      let tlv : Bytes = 0 ∷ 3 ∷ 0 ∷ 26 ∷ 0x00 ∷ 0x80 ∷ 0xC2 ∷ 1 ∷ replicate 22 0 in
      let (header, e, d) =
        build-decode follow_up id seq 74 0x0008 (stamp ++ tlv) (follow_up_body ts) eight small
          (omega arith) (omega arith) (omega (arith, length-append stamp tlv, length-bytes_of ts))
          (λ header size. rw (timestamp_at_34 ts header tlv f size)) in
      (header ++ (stamp ++ tlv), rw (encode_timestamp-bytes ts f.1, length-bytes_of ts, e), d)

  announce-Arrives : (p q : ℕ) → FitsSent (sends_announce p q) → Arrives seq id (sends_announce p q)
  unfolding encode_announce decode_body
  announce-Arrives p q (hp, hq) =
      let stamp = bytes_of zero_timestamp in
      let tail = announce_bytes p q id in
      let (header, e, d) =
        build-decode announce id seq 64 0x0008 (stamp ++ tail)
          (expected_body id (sends_announce p q)) eight small (omega arith) (omega arith)
          (omega (
            arith,
            length-append stamp tail,
            length-bytes_of zero_timestamp,
            length-append id (0 ∷ 0 ∷ 0xA0 ∷ []),
          ))
          (λ header size. rw (
            decode_announce_body-behind header (stamp ++ tail) size,
            decode_announce_body-bytes p q id eight hp hq,
          )) in
      (
        header ++ (stamp ++ tail),
        rw (
          e,
          encode_timestamp-bytes zero_timestamp (omega arith),
          encode_announce_body-bytes p q id eight,
        ),
        d,
      )

-- Every message that the master sends, with a sequence number of 16 bits, a clock identity of eight
-- bytes and contents that fit their fields, is encoded and decodes to what was sent: its type, its
-- own length, the sequence number and the identity in the header, and the contents.
pub sent-Arrives :
    (seq : ℕ) (id : Bytes) (m : Sent) → seq < 2 ^ 16 → length id ≡ 8 → FitsSent m → Arrives seq id m
sent-Arrives seq id sends_sync s n f = sync-Arrives seq id s n
sent-Arrives seq id (sends_follow_up ts) s n f = follow_up-Arrives seq id s n ts f
sent-Arrives seq id (sends_announce p q) s n f = announce-Arrives seq id s n p q f
sent-Arrives seq id (sends_delay_resp ts port) s n f = delay_resp-Arrives seq id s n ts port f
sent-Arrives seq id (sends_signaling_stop port) s n f = signaling-Arrives seq id s n port f
