-- ===== src/Raop/Sender.antt =====
-- `StreamClient` of packages/raop/src/streamClient.ts: the packets of a stream and their pacing, with
-- `sendAudioPacket` of raop.ts and the counters of statistics.ts.
pub mod Ends
pub mod Order
use apple_protocols.Prelude.{
  ℕ, zero, suc, ◌+◌, ◌-◌, ◌*◌, ◌/◌, ◌%◌, ◌^◌, List, [], ◌∷◌, ◌++◌, Option, none, some, Bool, true,
  false, Bytes, length, leb, ltb, ◌==◌, if◌then◌else◌, min, replicate, put_at, read_uint_be,
}
use apple_protocols.Raop.Fifo
use apple_protocols.Raop.Fifo.{PacketFifo}
use apple_protocols.Raop.Headers.{encode_audio_header}

-- The constants AUDIO_FRAMES_PER_PACKET and MAX_PACKETS_COMPENSATE.
abbrev pub frames_per_packet : ℕ
frames_per_packet = 352

abbrev pub max_packets_compensate : ℕ
max_packets_compensate = 3

-- What sending works on. The source is what its next reads give, before it gives nothing for
-- good, with `none` for a read that rejects;
-- `sent` has the packets that went out, the oldest first. The frame size is not 0.
pub record Sender : Type 0 where
  pub source : List (Option Bytes)
  pub packet_size : ℕ
  pub frame_size : ℕ
  pub latency : ℕ
  pub padding_sent : ℕ
  pub rtpseq : ℕ
  pub head_ts : ℕ
  pub session_id : ℕ
  pub backlog : PacketFifo
  pub sent : List Bytes

-- What a call of `#sendPacket` does: it throws, or returns how many frames it sent.
pub data Sending : Type 0 where
  failed : Sender → Sending
  frames_sent : ℕ → Sender → Sending

-- Frames of another length are cut, or filled up with zeros.
abbrev pub padded : ℕ → Bytes → Bytes
padded packet_size frames =
    if length frames == packet_size then frames else put_at (replicate packet_size 0) 0 frames

-- One read of the source, and silence behind its end.
abbrev pub next_frames : Sender → List (Option Bytes) → Option Bytes × Sender
next_frames s [] = (
  some (replicate s.packet_size 0),
  record s { padding_sent = s.padding_sent + s.packet_size / s.frame_size },
)
next_frames s (none ∷ source) = (none, record s { source = source })
next_frames s (some frames ∷ source) =
    (some (padded s.packet_size frames), record s { source = source })

-- What is left to do once the packet went out.
abbrev pub stored : Sender → Bytes → Bytes → Option ℕ → Sending
stored s packet frames none = failed s
stored s packet frames (some seqno) =
    let n = length frames / s.frame_size in
    frames_sent n (record s {
      backlog = Fifo.set s.backlog seqno packet;
      rtpseq = (s.rtpseq + 1) % 2 ^ 16;
      head_ts = (s.head_ts + n) % 2 ^ 32;
      sent = s.sent ++ (packet ∷ []);
    })

-- What a burst does: it throws, or returns the frames it sent and whether there are more.
pub data Burst : Type 0 where
  burst_failed : Sender → Burst
  burst_sent : ℕ → Bool → Sender → Burst

-- How the stream ends: with an error, at its end, or not within the fuel.
pub data Ended : Type 0 where
  out_of_fuel : Ended
  threw : Sender → Ended
  finished : Sender → Ended

abbrev pub after_packet : (ℕ → Sender → Burst) → ℕ → Sending → Burst
after_packet more total (failed s) = burst_failed s
after_packet more total (frames_sent zero s) = burst_sent total false s
after_packet more total (frames_sent (suc n) s) = more (total + suc n) s

abbrev pub after_burst : (ℕ → Sender → Ended) → ℕ → Burst → Ended
after_burst more total (burst_failed s) = threw s
after_burst more total (burst_sent n true s) = more (total + n) s
after_burst more total (burst_sent n false s) = finished s

module _ (junk : ℕ → ℕ) (accepts : Bytes → Bool) where
  -- `sendAudioPacket`: the transport may report an error.
  abbrev pub send_audio_packet : Sender → Bytes → Option Bytes → Sending
  send_audio_packet s frames none = failed s
  send_audio_packet s frames (some header) =
      if accepts (header ++ frames)
      then stored s (header ++ frames) frames (read_uint_be 2 2 header)
      else failed s

  abbrev pub with_header : Bool → Option Bytes × Sender → Sending
  with_header first_packet (none, s) = failed s
  with_header first_packet (some frames, s) = send_audio_packet s frames (
      encode_audio_header junk 0x80 (if first_packet then 0xE0 else 0x60) s.rtpseq s.head_ts
        s.session_id)

  unfoldable pub send_packet : Bool → Sender → Sending
  send_packet first_packet s =
      if leb s.latency s.padding_sent
      then frames_sent 0 s
      else with_header first_packet (next_frames s s.source)

  -- The loop of `#sendNumberOfPackets`, with the frames sent so far.
  unfoldable pub burst_from : ℕ → ℕ → Sender → Burst
  unfolding send_packet
  burst_from total zero s = burst_sent total true s
  burst_from total (suc count) s =
      after_packet (λ total s. burst_from total count s) total (send_packet false s)

  unfoldable pub send_number_of_packets : ℕ → Sender → Burst
  unfolding burst_from
  send_number_of_packets count s = burst_from 0 count s

  module _ (is_playing : ℕ → Bool) (expected : ℕ → ℕ) where
    -- More packets are sent at once when the frames sent are behind the clock.
    unfoldable pub compensate : (ℕ → Sender → Ended) → ℕ → ℕ → Sender → Ended
    unfolding send_number_of_packets
    compensate more i total s =
        let behind = expected i - total in
        let count = min (behind / frames_per_packet) max_packets_compensate in
        if leb frames_per_packet behind
        then after_burst more total (send_number_of_packets count s)
        else more total s

    abbrev pub after_first : (ℕ → Sender → Ended) → ℕ → ℕ → Sending → Ended
    after_first more i total (failed s) = threw s
    after_first more i total (frames_sent zero s) = finished s
    after_first more i total (frames_sent (suc n) s) = compensate more i (total + suc n) s

    abbrev pub pass : (ℕ → Sender → Ended) → ℕ → ℕ → Sender → Bool → Ended
    pass more i total s true = after_first more i total (send_packet (total == 0) s)
    pass more i total s false = finished s

    -- The loop of `#streamData` from pass `i` on, with `stats.totalFrames`: `isPlaying` and
    -- `expectedFrameCount` are what pass `i` reads. The waits and the log are left out.
    unfoldable pub stream_data : ℕ → ℕ → ℕ → Sender → Ended
    unfolding compensate
    stream_data zero i total s = out_of_fuel
    stream_data (suc fuel) i total s =
        pass (λ total s. stream_data fuel (suc i) total s) i total s (is_playing i)
