-- ===== src/Common/Ptp/Master/Handlers.antt =====
-- What each handler of the master hands to its sockets.
use apple_protocols.Prelude.{
  ℕ, ◌+◌, ◌%◌, ◌^◌, ◌<◌, ◌≤◌, [], ◌∷◌, ◌++◌, Option, none, some, Bytes, IsByte, ◌>>=◌, Bool, true,
  false, not, ◌||◌, leb, bit_and_u16, All, length, Bool-cases, ◌≡◌, ◌⊎◌, inl, inr, refl, ap, arith,
}
use apple_protocols.Common.Ptp.Timestamp.{PtpTimestamp, ptp_now}
use apple_protocols.Common.Ptp.Header.{HeaderFields}
use apple_protocols.Common.Ptp.Messages.{
  Body, sync_body, delay_req_body, follow_up_body, delay_resp_body, announce_body, signaling_body,
  default_priority_1,
}
use apple_protocols.Common.Ptp.Messages.Decode.{decode_message, decode_message-ne-none}
use apple_protocols.Common.Ptp.Messages.Parts.{our_port}
use apple_protocols.Common.Ptp.Messages.Sent.{
  sends_sync, sends_follow_up, sends_announce, sends_delay_resp, sends_signaling_stop, FitsTime,
}
use apple_protocols.Common.Ptp.Messages.RoundTrip.{sent-Arrives}
use apple_protocols.Common.Ptp.Master.{
  PtpMaster, Packet, event_packet, general_packet, stop, send_general, on_event_body,
  on_event_decoded, send_signaling_stop, on_general_body, on_general_decoded,
  send_sync_and_follow_up, sync_sent, send_announce, Input, event_arrived, general_arrived,
  sync_was_sent,
}
use apple_protocols.Common.Ptp.Master.Receive.{
  Addressed, decode_message-Addressed, send_signaling_stop-open,
}

-- Packets are bytes, the sequence number that a callback captured has 16 bits, and the time is one
-- that a Date can hold.
abbrev pub FitsInput : Input → Type 0
FitsInput (event_arrived buf now_ms) = All IsByte buf × (now_ms < 2 ^ 53)
FitsInput (general_arrived buf) = All IsByte buf
FitsInput (sync_was_sent sequence_id failed now_ms) = (sequence_id < 2 ^ 16) × (now_ms < 2 ^ 53)
FitsInput _ = Unit {0}

-- A packet decodes to a message from this clock; event messages have types below 8, and go to the
-- event socket.
abbrev pub IsOurs : Bytes → Packet → Type 0
IsOurs id (event_packet buf) =
    (header : HeaderFields) × (body : Body) × (decode_message buf ≡ some (some (header, body)))
    × (header.source_port_identity ≡ our_port id)
    × (header.message_type < 8)
IsOurs id (general_packet buf) =
    (header : HeaderFields) × (body : Body) × (decode_message buf ≡ some (some (header, body)))
    × (header.source_port_identity ≡ our_port id)
    × (8 ≤ header.message_type)

-- The handler throws nothing, keeps the clock identity, and sends one packet of ours or none.
abbrev pub Sends : PtpMaster → PtpMaster → Type 0
Sends m m' =
    (m'.sent ≡ m.sent)
    ⊎ ((packet : Packet) × IsOurs m.clock_identity packet × (m'.sent ≡ m.sent ++ (packet ∷ [])))

abbrev pub Handles : PtpMaster → Option PtpMaster → Type 0
Handles m o = (m' : PtpMaster) × (o ≡ some m') × (m'.clock_identity ≡ m.clock_identity) × Sends m m'

ptp_now-FitsTime : (now_ms : ℕ) → now_ms < 2 ^ 53 → FitsTime (ptp_now now_ms)
unfolding ptp_now
ptp_now-FitsTime now_ms h = omega arith

-- A send from the general socket, after a change of counters alone.
send_general-Sends :
    (m n : PtpMaster) (buf : Bytes)
    → n.sent ≡ m.sent
    → n.clock_identity ≡ m.clock_identity
    → IsOurs m.clock_identity (general_packet buf)
    → Handles m (some (send_general buf n))
unfolding send_general
send_general-Sends m n buf s c ours = elim (Bool-cases n.general_socket) [
  | inl open_ ↦ (
    record n { sent = n.sent ++ (general_packet buf ∷ []) },
    simp open_,
    c,
    inr (general_packet buf, ours, ap (λ l. l ++ (general_packet buf ∷ [])) s),
  )
  | inr closed ↦ (n, simp closed, c, inl s)
]

module _ (m : PtpMaster) (eight : length m.clock_identity ≡ 8) where
  delay_req-Handles :
      (now_ms : ℕ) (header : HeaderFields) (ts : PtpTimestamp)
      → now_ms < 2 ^ 53
      → Addressed header
      → Handles m (on_event_body now_ms header (delay_req_body ts) m)
  unfolding on_event_body
  delay_req-Handles now_ms header ts h (port, number) =
      let (buf, e, d) =
        sent-Arrives header.sequence_id m.clock_identity
          (sends_delay_resp (ptp_now now_ms) header.source_port_identity) number eight
          (ptp_now-FitsTime now_ms h, port) in
      rw e (
        send_general-Sends m (record m { delay_reqs_received = m.delay_reqs_received + 1 }) buf refl
          refl (_, _, d, refl, omega arith))

  event_body-Handles :
      (now_ms : ℕ) (header : HeaderFields) (body : Body)
      → now_ms < 2 ^ 53
      → Addressed header
      → Handles m (on_event_body now_ms header body m)
  unfolding on_event_body
  event_body-Handles now_ms header (delay_req_body ts) h a = delay_req-Handles now_ms header ts h a
  event_body-Handles now_ms header (sync_body _) h a = (m, refl, refl, inl refl)
  event_body-Handles now_ms header (follow_up_body _) h a = (m, refl, refl, inl refl)
  event_body-Handles now_ms header (delay_resp_body _ _) h a = (m, refl, refl, inl refl)
  event_body-Handles now_ms header (announce_body _) h a = (m, refl, refl, inl refl)
  event_body-Handles now_ms header (signaling_body _ _) h a = (m, refl, refl, inl refl)

  pub event_decoded-Handles :
      (now_ms : ℕ) (buf : Bytes) (o : Option (Option (HeaderFields × Body)))
      → All IsByte buf
      → now_ms < 2 ^ 53
      → decode_message buf ≡ o
      → Handles m (o >>= λ decoded. on_event_decoded now_ms decoded m)
  unfolding on_event_decoded
  event_decoded-Handles now_ms buf none bytes h e = absurd (decode_message-ne-none buf e)
  event_decoded-Handles now_ms buf (some none) bytes h e = (m, refl, refl, inl refl)
  event_decoded-Handles now_ms buf (some (some (header, body))) bytes h e =
      event_body-Handles now_ms header body h (decode_message-Addressed buf header body bytes e)

  send_signaling_stop-closed :
      (target : Bytes) (n : PtpMaster)
      → n.general_socket ≡ false
      → send_signaling_stop target n ≡ some n
  unfolding send_signaling_stop
  send_signaling_stop-closed target n closed = simp closed

  announce-Handles :
      (header : HeaderFields) (n : PtpMaster)
      → Addressed header
      → n.sent ≡ m.sent
      → n.clock_identity ≡ m.clock_identity
      → Handles m (send_signaling_stop header.source_port_identity n >>= λ m'. some (stop m'))
  unfolding stop
  announce-Handles header n (port, number) s c = elim (Bool-cases n.general_socket) [
    | inl open_ ↦
        let seq = (n.signaling_sequence_id + 1) % 2 ^ 16 in
        let (buf, e, d) =
          sent-Arrives seq n.clock_identity (sends_signaling_stop header.source_port_identity)
            (omega arith) (rw c eight) port in
        (
          stop (record n {
            signaling_sequence_id = seq;
            sent = n.sent ++ (general_packet buf ∷ []);
          }),
          rw (send_signaling_stop-open n header.source_port_identity buf open_ e),
          c,
          inr (
            general_packet buf,
            (_, _, d, ap our_port c, omega arith),
            ap (λ l. l ++ (general_packet buf ∷ [])) s,
          ),
        )
    | inr closed ↦
        (stop n, rw (send_signaling_stop-closed header.source_port_identity n closed), c, inl s)
  ]

  general_body-Handles :
      (header : HeaderFields) (body : Body)
      → Addressed header
      → Handles m (on_general_body header body m)
  unfolding on_general_body
  general_body-Handles header (announce_body body) a =
      let counted : PtpMaster = record m { announces_received = m.announces_received + 1 } in
      elim (Bool-cases (leb default_priority_1 body.grandmaster_priority_1)) [
        | inl worse ↦ simp worse (counted, refl, refl, inl refl)
        | inr better ↦ simp better (announce-Handles header counted a refl refl)
      ]
  general_body-Handles header (delay_req_body _) a = (m, refl, refl, inl refl)
  general_body-Handles header (sync_body _) a = (m, refl, refl, inl refl)
  general_body-Handles header (follow_up_body _) a = (m, refl, refl, inl refl)
  general_body-Handles header (delay_resp_body _ _) a = (m, refl, refl, inl refl)
  general_body-Handles header (signaling_body _ _) a = (m, refl, refl, inl refl)

  pub general_decoded-Handles :
      (buf : Bytes) (o : Option (Option (HeaderFields × Body)))
      → All IsByte buf
      → decode_message buf ≡ o
      → Handles m (o >>= λ decoded. on_general_decoded decoded m)
  unfolding on_general_decoded
  general_decoded-Handles buf none bytes e = absurd (decode_message-ne-none buf e)
  general_decoded-Handles buf (some none) bytes e = (m, refl, refl, inl refl)
  general_decoded-Handles buf (some (some (header, body))) bytes e =
      general_body-Handles header body (decode_message-Addressed buf header body bytes e)

  pub sync_fired-Handles : Handles m (send_sync_and_follow_up m)
  unfolding send_sync_and_follow_up
  sync_fired-Handles =
      let seq = (m.sync_sequence_id + 1) % 2 ^ 16 in
      let (buf, e, d) = sent-Arrives seq m.clock_identity sends_sync (omega arith) eight tt in
      elim (Bool-cases (not m.event_socket || not m.general_socket)) [
        | inl closed ↦ (m, simp closed, refl, inl refl)
        | inr open_ ↦ (
          record m { sync_sequence_id = seq; sent = m.sent ++ (event_packet buf ∷ []) },
          simp (open_, bit_and_u16 (m.sync_sequence_id + 1), e),
          refl,
          inr (event_packet buf, (_, _, d, refl, omega arith), refl),
        )
      ]

  pub sync_sent-Handles :
      (seq now_ms : ℕ) (failed : Bool)
      → seq < 2 ^ 16
      → now_ms < 2 ^ 53
      → Handles m (sync_sent seq failed now_ms m)
  unfolding sync_sent
  sync_sent-Handles seq now_ms true small h = (m, refl, refl, inl refl)
  sync_sent-Handles seq now_ms false small h =
      let (buf, e, d) =
        sent-Arrives seq m.clock_identity (sends_follow_up (ptp_now now_ms)) small eight
          (ptp_now-FitsTime now_ms h) in
      rw e (
        send_general-Sends m (record m { syncs_sent = m.syncs_sent + 1 }) buf refl refl
          (_, _, d, refl, omega arith))

  pub announce_fired-Handles : Handles m (send_announce m)
  unfolding send_announce
  announce_fired-Handles =
      let seq = (m.announce_sequence_id + 1) % 2 ^ 16 in
      let (buf, e, d) =
        sent-Arrives seq m.clock_identity (sends_announce 248 128) (omega arith) eight
          (omega arith, omega arith) in
      elim (Bool-cases (not m.general_socket)) [
        | inl closed ↦ (m, simp closed, refl, inl refl)
        | inr open_ ↦
            simp (open_, bit_and_u16 (m.announce_sequence_id + 1), e)
              (send_general-Sends m (record m { announce_sequence_id = seq }) buf refl refl
                (_, _, d, refl, omega arith))
      ]
