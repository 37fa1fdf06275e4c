-- ===== src/Raop/Sender/Ends.antt =====
-- Streaming ends: `#streamData` of packages/raop/src/streamClient.ts.
use apple_protocols.Prelude.{
  ℕ, zero, suc, ◌%◌, ◌^◌, if◌then◌else◌, ◌+◌, ◌-◌, ◌/◌, ◌<◌, ◌≤◌, List, [], ◌∷◌, ◌++◌, Option, none,
  some, Bool, true, false, Bytes, length, leb, ◌==◌, min, ◌≡◌, refl, arith, inl, inr, Bool-cases,
  replicate, read_uint_be,
}
use apple_protocols.Raop.Fifo
use apple_protocols.Raop.Headers.{encode_audio_header}
use apple_protocols.Raop.Sender.{
  Sender, Sending, failed, frames_sent, Burst, burst_failed, burst_sent, Ended, out_of_fuel, threw,
  finished, stored, send_audio_packet, with_header, next_frames, padded, after_packet, after_burst,
  after_first, send_packet, burst_from, send_number_of_packets, compensate, stream_data,
  frames_per_packet, max_packets_compensate,
}

-- What a stream still has to send: reads of the source, then silence.
abbrev pub remaining : Sender → ℕ
remaining s = length s.source + (s.latency - s.padding_sent)

abbrev Shrinks : ℕ → Sending → Type 0
Shrinks r (failed s) = Unit
Shrinks r (frames_sent zero s) = Unit
Shrinks r (frames_sent (suc n) s) = remaining s < r

frames_sent-Shrinks :
    (r n : ℕ) (s : Sender) → (0 < n → remaining s < r) → Shrinks r (frames_sent n s)
frames_sent-Shrinks r zero s h = tt
frames_sent-Shrinks r (suc n) s h = h (omega arith)

length-replicate : (n b : ℕ) → length (replicate n b) ≡ n
length-replicate zero b = refl
length-replicate (suc n) b = rw (length-replicate n b) refl

stored-Shrinks :
    (r : ℕ) (s : Sender) (packet frames : Bytes) (seqno : Option ℕ)
    → (0 < length frames / s.frame_size → remaining s < r)
    → Shrinks r (stored s packet frames seqno)
stored-Shrinks r s packet frames none h = tt
stored-Shrinks r s packet frames (some seqno) h =
    let n = length frames / s.frame_size in
    let after : Sender = record s {
      backlog = Fifo.set s.backlog seqno packet;
      rtpseq = (s.rtpseq + 1) % 2 ^ 16;
      head_ts = (s.head_ts + n) % 2 ^ 32;
      sent = s.sent ++ (packet ∷ []);
    } in
    frames_sent-Shrinks r n after h

-- A stream that came to its end or to an error.
abbrev pub IsOver : Ended → Type 0
IsOver out_of_fuel = ⊥
IsOver (threw s) = Unit
IsOver (finished s) = Unit

module _ (junk : ℕ → ℕ) (accepts : Bytes → Bool) where
  send_audio_packet-Shrinks :
      (r : ℕ) (s : Sender) (frames : Bytes) (header : Option Bytes)
      → (0 < length frames / s.frame_size → remaining s < r)
      → Shrinks r (send_audio_packet junk accepts s frames header)
  send_audio_packet-Shrinks r s frames none h = tt
  send_audio_packet-Shrinks r s frames (some header) h =
      elim (Bool-cases (accepts (header ++ frames))) [
        | inl ok ↦ rw ok (stored-Shrinks r s (header ++ frames) frames (read_uint_be 2 2 header) h)
        | inr bad ↦ rw bad tt
      ]

  abbrev header_of : Bool → Sender → Option Bytes
  header_of first_packet s =
      encode_audio_header junk 0x80 (if first_packet then 0xE0 else 0x60) s.rtpseq s.head_ts
        s.session_id

  next-Shrinks :
      (first_packet : Bool) (s : Sender) (source : List (Option Bytes))
      → s.source ≡ source
      → s.padding_sent < s.latency
      → Shrinks (remaining s) (with_header junk accepts first_packet (next_frames s source))
  next-Shrinks first_packet s [] e h =
      let n = s.packet_size / s.frame_size in
      let silence = replicate s.packet_size 0 in
      let after : Sender = record s { padding_sent = s.padding_sent + n } in
      let size : length silence ≡ s.packet_size = length-replicate s.packet_size 0 in
      let less : 0 < length silence / s.frame_size → remaining after < remaining s =
        rw size (λ some_frames. omega arith) in
      send_audio_packet-Shrinks (remaining s) after silence (header_of first_packet after) less
  next-Shrinks first_packet s (none ∷ source) e h = tt
  next-Shrinks first_packet s (some frames ∷ source) e h =
      let after : Sender = record s { source = source } in
      send_audio_packet-Shrinks (remaining s) after (padded s.packet_size frames)
        (header_of first_packet after) (λ some_frames. rw e (omega arith))

  -- A packet that has frames leaves less to send.
  send_packet-Shrinks :
      (first_packet : Bool) (s : Sender)
      → Shrinks (remaining s) (send_packet junk accepts first_packet s)
  unfolding send_packet
  send_packet-Shrinks first_packet s = elim (Bool-cases (leb s.latency s.padding_sent)) [
    | inl done ↦ rw done tt
    | inr more ↦
        (let less : s.padding_sent < s.latency = ground arith in
          rw more (next-Shrinks first_packet s s.source refl less))
  ]

  -- A burst that may go on leaves no more to send than there was.
  abbrev Within : ℕ → Burst → Type 0
  Within r (burst_failed s) = Unit
  Within r (burst_sent n true s) = remaining s < r
  Within r (burst_sent n false s) = Unit

  after_packet-Within :
      (r : ℕ) (more : ℕ → Sender → Burst) (total : ℕ) (sending : Sending)
      → ((total : ℕ) (s : Sender) → remaining s < r → Within r (more total s))
      → Shrinks r sending
      → Within r (after_packet more total sending)
  after_packet-Within r more total (failed s) h w = tt
  after_packet-Within r more total (frames_sent zero s) h w = tt
  after_packet-Within r more total (frames_sent (suc n) s) h w = h (total + suc n) s w

  Shrinks-mono : (q r : ℕ) (sending : Sending) → q ≤ r → Shrinks q sending → Shrinks r sending
  Shrinks-mono q r (failed s) h w = tt
  Shrinks-mono q r (frames_sent zero s) h w = tt
  Shrinks-mono q r (frames_sent (suc n) s) h w = omega arith

  burst_from-Within :
      (r total count : ℕ) (s : Sender)
      → remaining s < r
      → Within r (burst_from junk accepts total count s)
  unfolding burst_from
  burst_from-Within r total zero s h = h
  burst_from-Within r total (suc count) s h =
      after_packet-Within r (λ total s. burst_from junk accepts total count s) total
        (send_packet junk accepts false s) (λ total s h. burst_from-Within r total count s h)
        (Shrinks-mono (remaining s) r (send_packet junk accepts false s) (omega arith)
          (send_packet-Shrinks false s))

  -- A continuation that ends when there is less to send.
  abbrev Goes : ℕ → (ℕ → Sender → Ended) → Type 0
  Goes r more = (total : ℕ) (s : Sender) → remaining s < r → IsOver (more total s)

  module _ (is_playing : ℕ → Bool) (expected : ℕ → ℕ) where
    after_burst-IsOver :
        (r : ℕ) (more : ℕ → Sender → Ended) (total : ℕ) (burst : Burst)
        → Goes r more
        → Within r burst
        → IsOver (after_burst more total burst)
    after_burst-IsOver r more total (burst_failed s) g w = tt
    after_burst-IsOver r more total (burst_sent n true s) g w = g (total + n) s w
    after_burst-IsOver r more total (burst_sent n false s) g w = tt

    compensate-IsOver :
        (r : ℕ) (more : ℕ → Sender → Ended) (i total : ℕ) (s : Sender)
        → Goes r more
        → remaining s < r
        → IsOver (compensate junk accepts is_playing expected more i total s)
    unfolding compensate send_number_of_packets
    compensate-IsOver r more i total s g w =
        let behind = expected i - total in
        let count = min (behind / frames_per_packet) max_packets_compensate in
        elim (Bool-cases (leb frames_per_packet behind)) [
          | inl late ↦ rw late (
              after_burst-IsOver r more total (burst_from junk accepts 0 count s) g
                (burst_from-Within r 0 count s w))
          | inr in_time ↦ rw in_time (g total s w)
        ]

    after_first-IsOver :
        (r : ℕ) (more : ℕ → Sender → Ended) (i total : ℕ) (sending : Sending)
        → Goes r more
        → Shrinks r sending
        → IsOver (after_first junk accepts is_playing expected more i total sending)
    after_first-IsOver r more i total (failed s) g w = tt
    after_first-IsOver r more i total (frames_sent zero s) g w = tt
    after_first-IsOver r more i total (frames_sent (suc n) s) g w =
        compensate-IsOver r more i (total + suc n) s g w

    -- Streaming comes to an end, whatever the clock, the transport and stopping do: the loop takes
    -- no more passes than there are reads of the source and frames of silence to send, and one.
    pub stream_data-IsOver :
        (fuel i total : ℕ) (s : Sender)
        → remaining s < fuel
        → IsOver (stream_data junk accepts is_playing expected fuel i total s)
    unfolding stream_data
    stream_data-IsOver zero i total s h = absurd (omega arith)
    stream_data-IsOver (suc fuel) i total s h =
        let next : ℕ → Sender → Ended =
          λ total s. stream_data junk accepts is_playing expected fuel (suc i) total s in
        elim (Bool-cases (is_playing i)) [
          | inl playing ↦ rw playing (
              after_first-IsOver (remaining s) next i total
                (send_packet junk accepts (total == 0) s)
                (λ total later less. stream_data-IsOver fuel (suc i) total later (omega arith))
                (send_packet-Shrinks (total == 0) s))
          | inr stopped ↦ rw stopped tt
        ]
