-- ===== src/Raop/Headers.antt =====
-- The packet headers of packages/raop/src/packets.ts, and the retransmission request.
use apple_protocols.Prelude.{
  ℕ, ◌^◌, ◌<◌, Option, none, some, Bytes, ◌>>=◌, length, ◌↔◌, ◌≡◌, arith, lt→ltb, be_1, be_2, be_4,
  alloc_unsafe, write_uint_be, read_uint_be,
}

-- `AudioPacketHeader.encode`.
unfoldable pub encode_audio_header : (ℕ → ℕ) → ℕ → ℕ → ℕ → ℕ → ℕ → Option Bytes
encode_audio_header junk header payload_type seqno timestamp ssrc =
    write_uint_be 1 header 0 (alloc_unsafe junk 12) >>= λ b₀.
    write_uint_be 1 payload_type 1 b₀ >>= λ b₁. write_uint_be 2 seqno 2 b₁ >>= λ b₂.
    write_uint_be 4 timestamp 4 b₂ >>= λ b₃. write_uint_be 4 ssrc 8 b₃

-- `SyncPacket.encode`.
unfoldable pub encode_sync : (ℕ → ℕ) → ℕ → ℕ → ℕ → ℕ → ℕ → ℕ → ℕ → Option Bytes
encode_sync junk header payload_type seqno rtp_timestamp ntp_sec ntp_frac rtp_timestamp_now =
    write_uint_be 1 header 0 (alloc_unsafe junk 20) >>= λ b₀.
    write_uint_be 1 payload_type 1 b₀ >>= λ b₁. write_uint_be 2 seqno 2 b₁ >>= λ b₂.
    write_uint_be 4 rtp_timestamp 4 b₂ >>= λ b₃. write_uint_be 4 ntp_sec 8 b₃ >>= λ b₄.
    write_uint_be 4 ntp_frac 12 b₄ >>= λ b₅. write_uint_be 4 rtp_timestamp_now 16 b₅

pub record RetransmitRequest : Type 0 where
  pub lost_seqno : ℕ
  pub lost_packets : ℕ

-- `none` is the RangeError of a packet that is too small.
unfoldable pub decode_retransmit_request : Bytes → Option RetransmitRequest
decode_retransmit_request packet = read_uint_be 2 4 packet >>= λ lost_seqno.
    read_uint_be 2 6 packet >>= λ lost_packets.
    some (record { lost_seqno = lost_seqno; lost_packets = lost_packets })

-- The six fields of an RTP header as a reader takes them from the wire: first byte, payload type,
-- sequence number, timestamp and source.
abbrev pub AudioFields : Type 0
AudioFields = ℕ × ℕ × ℕ × ℕ × ℕ

abbrev pub read_audio_header : Bytes → Option AudioFields
read_audio_header b = read_uint_be 1 0 b >>= λ header. read_uint_be 1 1 b >>= λ payload_type.
    read_uint_be 2 2 b >>= λ seqno. read_uint_be 4 4 b >>= λ timestamp.
    read_uint_be 4 8 b >>= λ ssrc. some (header, payload_type, seqno, timestamp, ssrc)

-- A header whose fields fit their widths is encoded into 12 bytes, from which the fields read back
-- big-endian at their places.
pub read-encode_audio_header :
    (junk : ℕ → ℕ) (header payload_type seqno timestamp ssrc : ℕ)
    → header < 2 ^ 8
    → payload_type < 2 ^ 8
    → seqno < 2 ^ 16
    → timestamp < 2 ^ 32
    → ssrc < 2 ^ 32
    → (encode_audio_header junk header payload_type seqno timestamp ssrc >>= read_audio_header)
      ≡ some (header, payload_type, seqno, timestamp, ssrc)
unfolding encode_audio_header
read-encode_audio_header junk header payload_type seqno timestamp ssrc h p q t c =
    rw (lt→ltb _ _ h, lt→ltb _ _ p, lt→ltb _ _ q, lt→ltb _ _ t, lt→ltb _ _ c)
      (rw (be_1 header h, be_1 payload_type p, be_2 seqno q, be_4 timestamp t, be_4 ssrc c))

-- The seven fields of a sync packet: those of a header, then the time.
abbrev pub SyncFields : Type 0
SyncFields = ℕ × ℕ × ℕ × ℕ × ℕ × ℕ × ℕ

abbrev pub read_sync : Bytes → Option SyncFields
read_sync b = read_audio_header b >>= λ (header, payload_type, seqno, rtp_timestamp, ntp_sec).
    read_uint_be 4 12 b >>= λ ntp_frac. read_uint_be 4 16 b >>= λ now.
    some (header, payload_type, seqno, rtp_timestamp, ntp_sec, ntp_frac, now)

-- A sync packet whose fields fit their widths is encoded into 20 bytes, from which the fields read
-- back big-endian at their places.
pub read-encode_sync :
    (junk : ℕ → ℕ) (header payload_type seqno rtp_timestamp ntp_sec ntp_frac now : ℕ)
    → header < 2 ^ 8
    → payload_type < 2 ^ 8
    → seqno < 2 ^ 16
    → rtp_timestamp < 2 ^ 32
    → ntp_sec < 2 ^ 32
    → ntp_frac < 2 ^ 32
    → now < 2 ^ 32
    → (encode_sync junk header payload_type seqno rtp_timestamp ntp_sec ntp_frac now >>= read_sync)
      ≡ some (header, payload_type, seqno, rtp_timestamp, ntp_sec, ntp_frac, now)
unfolding encode_sync
read-encode_sync junk header payload_type seqno rtp_timestamp ntp_sec ntp_frac now h p q t s f n =
    rw
      (
        lt→ltb _ _ h,
        lt→ltb _ _ p,
        lt→ltb _ _ q,
        lt→ltb _ _ t,
        lt→ltb _ _ s,
        lt→ltb _ _ f,
        lt→ltb _ _ n,
      )
      (rw (
        be_1 header h,
        be_1 payload_type p,
        be_2 seqno q,
        be_4 rtp_timestamp t,
        be_4 ntp_sec s,
        be_4 ntp_frac f,
        be_4 now n,
      ))

-- A request is decoded exactly from packets of 8 bytes at least.
pub decode_retransmit_request-eq_none_iff :
    (packet : Bytes) → (decode_retransmit_request packet ≡ none) ↔ (length packet < 8)
unfolding decode_retransmit_request
decode_retransmit_request-eq_none_iff packet = (λ e. ground arith, λ h. ground arith)
