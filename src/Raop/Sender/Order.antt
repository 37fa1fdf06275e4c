-- ===== src/Raop/Sender/Order.antt =====
-- The packets of a stream follow each other: `#sendPacket` and `#streamData` of
-- packages/raop/src/streamClient.ts.
use apple_protocols.Prelude.{
  ℕ, zero, suc, ◌+◌, ◌-◌, ◌/◌, ◌%◌, ◌^◌, ◌<◌, List, [], ◌∷◌, ◌++◌, Option, none, some, Bool, true,
  false, Bytes, length, leb, ◌==◌, min, ◌≡◌, refl, sym, ap, subst, replicate, read_uint_be-front,
  ◌≤◌, ◌∙◌, arith, inl, inr, Bool-cases, read_uint_be, append_assoc, append-nil,
}
use apple_protocols.Raop.Headers.{encode_audio_header}
use apple_protocols.Raop.Sender.{
  Sender, Sending, failed, frames_sent, Burst, burst_failed, burst_sent, Ended, out_of_fuel, threw,
  finished, stored, send_audio_packet, with_header, next_frames, padded, after_packet, after_burst,
  after_first, send_packet, burst_from, send_number_of_packets, compensate, stream_data,
  frames_per_packet, max_packets_compensate,
}
use apple_protocols.Raop.Sender.Ends.{IsOver, remaining, stream_data-IsOver}

-- Packets whose sequence numbers go up by one from a first one on, and wrap around at 16 bits.
abbrev pub Numbered : ℕ → List Bytes → Type 0
Numbered seqno [] = Unit
Numbered seqno (packet ∷ packets) =
    (read_uint_be 2 2 packet ≡ some seqno) × Numbered ((seqno + 1) % 2 ^ 16) packets

-- The number that comes after them.
abbrev pub after_all : ℕ → List Bytes → ℕ
after_all seqno [] = seqno
after_all seqno (packet ∷ packets) = after_all ((seqno + 1) % 2 ^ 16) packets

-- From one state to a later one, only such packets were sent, and the next number follows them.
abbrev pub Follows : Sender → Sender → Type 0
Follows s later =
    (packets : List Bytes) × (later.sent ≡ s.sent ++ packets)
    × Numbered s.rtpseq packets
    × (later.rtpseq ≡ after_all s.rtpseq packets)

Follows-same : (s later : Sender) → later.sent ≡ s.sent → later.rtpseq ≡ s.rtpseq → Follows s later
Follows-same s later e n = ([], e ∙ sym (append-nil s.sent), tt, n)

Numbered-append :
    (seqno : ℕ) (xs ys : List Bytes)
    → Numbered seqno xs
    → Numbered (after_all seqno xs) ys
    → Numbered seqno (xs ++ ys)
Numbered-append seqno [] ys n m = m
Numbered-append seqno (x ∷ xs) ys (e, n) m = (e, Numbered-append ((seqno + 1) % 2 ^ 16) xs ys n m)

after_all-append :
    (seqno : ℕ) (xs ys : List Bytes)
    → after_all seqno (xs ++ ys) ≡ after_all (after_all seqno xs) ys
after_all-append seqno [] ys = refl
after_all-append seqno (x ∷ xs) ys = after_all-append ((seqno + 1) % 2 ^ 16) xs ys

Follows-trans : (a b c : Sender) → Follows a b → Follows b c → Follows a c
Follows-trans a b c (xs, e, n, k) (ys, f, m, l) =
    let m' : Numbered (after_all a.rtpseq xs) ys = subst (λ q. Numbered q ys) k m in
    (
      xs ++ ys,
      f ∙ ap (λ z. z ++ ys) e ∙ append_assoc a.sent xs ys,
      Numbered-append a.rtpseq xs ys n m',
      l ∙ ap (λ q. after_all q ys) k ∙ sym (after_all-append a.rtpseq xs ys),
    )

-- A header has its sequence number at byte 2.
header-seqno :
    (junk : ℕ → ℕ) (first payload_type seqno timestamp ssrc : ℕ) (header : Bytes)
    → encode_audio_header junk first payload_type seqno timestamp ssrc ≡ some header
    → read_uint_be 2 2 header ≡ some seqno
unfolding encode_audio_header
header-seqno junk first payload_type seqno timestamp ssrc header h = ground arith

abbrev later_of : Sending → Sender
later_of (failed s) = s
later_of (frames_sent n s) = s

stored-Follows :
    (s : Sender) (packet frames : Bytes) (seqno : Option ℕ)
    → read_uint_be 2 2 packet ≡ some s.rtpseq
    → Follows s (later_of (stored s packet frames seqno))
stored-Follows s packet frames none e = Follows-same s s refl refl
stored-Follows s packet frames (some seqno) e = (packet ∷ [], refl, (e, tt), refl)

abbrev end_of : Burst → Sender
end_of (burst_failed s) = s
end_of (burst_sent n more s) = s

-- How a stream ends, seen from the state it starts in.
abbrev pub EndFollows : Sender → Ended → Type 0
EndFollows s out_of_fuel = Unit
EndFollows s (threw later) = Follows s later
EndFollows s (finished later) = Follows s later

EndFollows-trans : (s t : Sender) (e : Ended) → Follows s t → EndFollows t e → EndFollows s e
EndFollows-trans s t out_of_fuel f g = tt
EndFollows-trans s t (threw later) f g = Follows-trans s t later f g
EndFollows-trans s t (finished later) f g = Follows-trans s t later f g

abbrev pub InOrder : Sender → Ended → Type 0
InOrder s e = IsOver e × EndFollows s e

-- A continuation of the stream.
abbrev Continues : (ℕ → Sender → Ended) → Type 0
Continues more = (total : ℕ) (t : Sender) → EndFollows t (more total t)

after_burst-Follows :
    (s : Sender) (more : ℕ → Sender → Ended) (total : ℕ) (burst : Burst)
    → Continues more
    → Follows s (end_of burst)
    → EndFollows s (after_burst more total burst)
after_burst-Follows s more total (burst_failed t) c f = f
after_burst-Follows s more total (burst_sent n true t) c f =
    EndFollows-trans s t (more (total + n) t) f (c (total + n) t)
after_burst-Follows s more total (burst_sent n false t) c f = f

module _ (junk : ℕ → ℕ) (accepts : Bytes → Bool) where
  send_audio_packet-Follows :
      (s : Sender) (frames : Bytes) (header : Option Bytes)
      → ((bytes : Bytes) → header ≡ some bytes → read_uint_be 2 2 bytes ≡ some s.rtpseq)
      → Follows s (later_of (send_audio_packet junk accepts s frames header))
  send_audio_packet-Follows s frames none h = Follows-same s s refl refl
  send_audio_packet-Follows s frames (some header) h =
      let named = h header refl in
      let long : 4 ≤ length header = ground arith in
      elim (Bool-cases (accepts (header ++ frames))) [
        | inl ok ↦ rw ok (
            stored-Follows s (header ++ frames) frames (read_uint_be 2 2 header)
              (read_uint_be-front 2 2 header frames long ∙ named))
        | inr bad ↦ rw bad (Follows-same s s refl refl)
      ]

  with_header-Follows :
      (first_packet : Bool) (s : Sender) (source : List (Option Bytes))
      → Follows s (later_of (with_header junk accepts first_packet (next_frames s source)))
  with_header-Follows first_packet s [] =
      let after : Sender = record s {
        padding_sent = s.padding_sent + s.packet_size / s.frame_size;
      } in
      send_audio_packet-Follows after (replicate s.packet_size 0) _
        (λ bytes e. header-seqno junk 0x80 _ s.rtpseq s.head_ts s.session_id bytes e)
  with_header-Follows first_packet s (none ∷ source) =
      let after : Sender = record s { source = source } in Follows-same s after refl refl
  with_header-Follows first_packet s (some frames ∷ source) =
      let after : Sender = record s { source = source } in
      send_audio_packet-Follows after (padded s.packet_size frames) _
        (λ bytes e. header-seqno junk 0x80 _ s.rtpseq s.head_ts s.session_id bytes e)

  send_packet-Follows :
      (first_packet : Bool) (s : Sender)
      → Follows s (later_of (send_packet junk accepts first_packet s))
  unfolding send_packet
  send_packet-Follows first_packet s = elim (Bool-cases (leb s.latency s.padding_sent)) [
    | inl done ↦ rw done (Follows-same s s refl refl)
    | inr more ↦ rw more (with_header-Follows first_packet s s.source)
  ]

  after_packet-Follows :
      (s : Sender) (more : ℕ → Sender → Burst) (total : ℕ) (sending : Sending)
      → ((total : ℕ) (t : Sender) → Follows t (end_of (more total t)))
      → Follows s (later_of sending)
      → Follows s (end_of (after_packet more total sending))
  after_packet-Follows s more total (failed t) h f = f
  after_packet-Follows s more total (frames_sent zero t) h f = f
  after_packet-Follows s more total (frames_sent (suc n) t) h f =
      Follows-trans s t (end_of (more (total + suc n) t)) f (h (total + suc n) t)

  burst_from-Follows :
      (total count : ℕ) (s : Sender) → Follows s (end_of (burst_from junk accepts total count s))
  unfolding burst_from
  burst_from-Follows total zero s = Follows-same s s refl refl
  burst_from-Follows total (suc count) s =
      after_packet-Follows s (λ total t. burst_from junk accepts total count t) total
        (send_packet junk accepts false s) (λ total t. burst_from-Follows total count t)
        (send_packet-Follows false s)

  module _ (is_playing : ℕ → Bool) (expected : ℕ → ℕ) where
    compensate-Follows :
        (more : ℕ → Sender → Ended) (i total : ℕ) (s : Sender)
        → Continues more
        → EndFollows s (compensate junk accepts is_playing expected more i total s)
    unfolding compensate send_number_of_packets
    compensate-Follows more i total s c =
        let behind = expected i - total in
        let count = min (behind / frames_per_packet) max_packets_compensate in
        elim (Bool-cases (leb frames_per_packet behind)) [
          | inl late ↦ rw late (
              after_burst-Follows s more total (burst_from junk accepts 0 count s) c
                (burst_from-Follows 0 count s))
          | inr in_time ↦ rw in_time (c total s)
        ]

    after_first-Follows :
        (s : Sender) (more : ℕ → Sender → Ended) (i total : ℕ) (sending : Sending)
        → Continues more
        → Follows s (later_of sending)
        → EndFollows s (after_first junk accepts is_playing expected more i total sending)
    after_first-Follows s more i total (failed t) c f = f
    after_first-Follows s more i total (frames_sent zero t) c f = f
    after_first-Follows s more i total (frames_sent (suc n) t) c f =
        let e = compensate junk accepts is_playing expected more i (total + suc n) t in
        EndFollows-trans s t e f (compensate-Follows more i (total + suc n) t c)

    stream_data-EndFollows :
        (fuel i total : ℕ) (s : Sender)
        → EndFollows s (stream_data junk accepts is_playing expected fuel i total s)
    unfolding stream_data
    stream_data-EndFollows zero i total s = tt
    stream_data-EndFollows (suc fuel) i total s =
        let next : ℕ → Sender → Ended =
          λ total t. stream_data junk accepts is_playing expected fuel (suc i) total t in
        elim (Bool-cases (is_playing i)) [
          | inl playing ↦ rw playing (
              after_first-Follows s next i total (send_packet junk accepts (total == 0) s)
                (λ total t. stream_data-EndFollows fuel (suc i) total t)
                (send_packet-Follows (total == 0) s))
          | inr stopped ↦ rw stopped (Follows-same s s refl refl)
        ]

    -- With a pass for each read of the source and each frame of silence and one more, the stream
    -- comes to its end or to an error. However the clock speeds it up, and wherever it is stopped
    -- or fails: the packets that went out have sequence numbers that go up by one from the one the
    -- stream starts at, wrapping around at 16 bits, and the number left is the one after them.
    pub stream_data-InOrder :
        (fuel i total : ℕ) (s : Sender)
        → remaining s < fuel
        → InOrder s (stream_data junk accepts is_playing expected fuel i total s)
    stream_data-InOrder fuel i total s h = (
      stream_data-IsOver junk accepts is_playing expected fuel i total s h,
      stream_data-EndFollows fuel i total s,
    )
