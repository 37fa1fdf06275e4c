-- ===== src/Common/Ptp/Master/Yield.antt =====
-- The master yields to an Announce of a better clock.
use apple_protocols.Prelude.{
  ℕ, ◌+◌, ◌%◌, ◌^◌, ◌<◌, ◌≤◌, [], ◌∷◌, ◌++◌, some, Bytes, ◌>>=◌, true, length, length-append, pos,
  lt_or_le, le→leb, gt→leb_false, ◌≡◌, refl, arith, inl, inr,
}
use apple_protocols.Common.Ptp.Messages.{
  announce, announce_body, AnnounceBody, zero_timestamp, encode_announce, header_fields,
}
use apple_protocols.Common.Ptp.Header.{HeaderFields}
use apple_protocols.Common.Ptp.Messages.Parts.{our_port}
use apple_protocols.Common.Ptp.Messages.Sent.{sends_announce, sends_signaling_stop}
use apple_protocols.Common.Ptp.Messages.RoundTrip.{sent-Arrives}
use apple_protocols.Common.Ptp.Master.{
  PtpMaster, general_packet, on_general_packet, on_general_decoded, on_general_body, stop,
}
use apple_protocols.Common.Ptp.Master.Receive.{Yielded, Reacts, send_signaling_stop-open}

module _ (m : PtpMaster) (open_ : m.general_socket ≡ true) (eight : length m.clock_identity ≡ 8)
    (peer : Bytes) (peer_eight : length peer ≡ 8) (header : HeaderFields) (body : AnnounceBody)
    (port : header.source_port_identity ≡ our_port peer) where
  better :
      body.grandmaster_priority_1 < 248
      → (m' : PtpMaster) × (on_general_body header (announce_body body) m ≡ some m')
        × Yielded peer m m'
  unfolding on_general_body stop
  better low =
      let counted : PtpMaster = record m { announces_received = m.announces_received + 1 } in
      let seq = (m.signaling_sequence_id + 1) % 2 ^ 16 in
      let (signal, e, arrives) =
        sent-Arrives seq m.clock_identity (sends_signaling_stop (our_port peer)) (omega arith) eight
          (omega (arith, length-append peer (0 ∷ 1 ∷ []))) in
      (
        stop (record counted {
          signaling_sequence_id = seq;
          sent = m.sent ++ (general_packet signal ∷ []);
        }),
        rw (
          gt→leb_false 248 body.grandmaster_priority_1 low,
          port,
          send_signaling_stop-open counted (our_port peer) signal open_ e,
        ),
        (signal, refl, arrives, refl, refl, refl, refl, refl),
      )

  worse :
      248 ≤ body.grandmaster_priority_1
      → on_general_body header (announce_body body) m
        ≡ some (record m { announces_received = m.announces_received + 1 })
  unfolding on_general_body
  worse high = rw (le→leb 248 body.grandmaster_priority_1 high)

abbrev announced_body : Bytes → ℕ → ℕ → AnnounceBody
announced_body peer p q = record {
  origin_timestamp = zero_timestamp;
  current_utc_offset = pos 37;
  grandmaster_priority_1 = p;
  clock_class = 248;
  clock_accuracy = 0xFE;
  offset_scaled_log_variance = 0xFFFF;
  grandmaster_priority_2 = q;
  grandmaster_identity = peer;
  steps_removed = 0;
  time_source = 0xA0;
}

-- An Announce that a peer sends, with priorities that are bytes, is received by a master whose
-- general socket is open without an error. If its first priority is below 248, the master sends the
-- peer the request to stop its messages, stops, closes both sockets and clears both timers;
-- otherwise it only counts the message.
pub announce-Reacts :
    (m : PtpMaster) (peer : Bytes) (seq p q : ℕ)
    → m.general_socket ≡ true
    → length m.clock_identity ≡ 8
    → length peer ≡ 8
    → seq < 2 ^ 16
    → p < 256
    → q < 256
    → (m' : PtpMaster) × ((encode_announce seq peer p q >>= λ buf. on_general_packet buf m)
        ≡ some m')
      × Reacts peer p m m'
unfolding on_general_packet on_general_decoded
announce-Reacts m peer seq p q open_ eight peer_eight small hp hq =
    let (buf, e, d) = sent-Arrives seq peer (sends_announce p q) small peer_eight (hp, hq) in
    let header = header_fields announce (our_port peer) seq 64 0x0008 in
    let body = announced_body peer p q in
    elim (lt_or_le p 248) [
      | inl low ↦
          let (m', r, y) = better m open_ eight peer peer_eight header body refl low in
          (m', rw (e, d) r, inl (low, y))
      | inr high ↦ (
        _,
        rw (e, d) (worse m open_ eight peer peer_eight header body refl high),
        inr (high, refl),
      )
    ]
