-- ===== src/Encoding/Ntp.antt =====
-- packages/encoding/src/ntp.ts: NTP timestamps and the timing packet.
use apple_protocols.Prelude.{
  ℕ, ◌+◌, ◌-◌, ◌*◌, ◌/◌, ◌%◌, ◌^◌, ◌≤◌, ◌<◌, bit_and, bit_or, Option, none, some, Bytes, ◌>>=◌,
  length, leb, ltb, if◌then◌else◌, ◌≡◌, arith, lt→ltb, be_1, be_2, be_4, inl, inr, lt_or_le, ◌↔◌,
  bit_or_high, bit_and_u32, alloc_unsafe, write_uint_be, read_uint_be,
}

-- Seconds from 1900 to 1970.
abbrev pub epoch : ℕ
epoch = 0x83AA7E80

-- `now` at the wall-clock time that `Date.now()` returns, in milliseconds.
unfoldable pub now : ℕ → ℕ
now now_ms =
    let seconds = now_ms / 1000 in
    let frac = now_ms - seconds * 1000 in bit_or ((seconds + epoch) * 2 ^ 32) (frac * 2 ^ 32 / 1000)

unfoldable pub parts : ℕ → ℕ × ℕ
parts ntp = (ntp / 2 ^ 32, bit_and ntp 0xFFFFFFFF)

now-sum :
    (now_ms : ℕ) → now now_ms ≡ (now_ms / 1000 + epoch) * 2 ^ 32 + now_ms % 1000 * 2 ^ 32 / 1000
unfolding now
now-sum now_ms =
    let frac : now_ms - now_ms / 1000 * 1000 ≡ now_ms % 1000 = omega arith in
    rw frac (bit_or_high 32 (now_ms / 1000 + epoch) (now_ms % 1000 * 2 ^ 32 / 1000) (omega arith))

-- Splitting the timestamp of a time gives its whole seconds since 1900, and a fraction that is the
-- milliseconds left over in units of 2⁻³² s, rounded down: turning it back into milliseconds loses
-- less than one.
pub parts-now :
    (now_ms : ℕ)
    → ((parts (now now_ms)).0 ≡ now_ms / 1000 + 2208988800)
      × ((parts (now now_ms)).1 < 2 ^ 32)
      × ((parts (now now_ms)).1 * 1000 ≤ now_ms % 1000 * 2 ^ 32)
      × (now_ms % 1000 * 2 ^ 32 < (parts (now now_ms)).1 * 1000 + 1000)
unfolding parts
parts-now now_ms = rw (now-sum now_ms, bit_and_u32) (omega arith)

pub record PacketFields : Type 0 where
  pub proto : ℕ
  pub type : ℕ
  pub seqno : ℕ
  pub padding : ℕ
  pub reftime_sec : ℕ
  pub reftime_frac : ℕ
  pub recvtime_sec : ℕ
  pub recvtime_frac : ℕ
  pub sendtime_sec : ℕ
  pub sendtime_frac : ℕ

-- `none` is the RangeError of a packet that is too small.
unfoldable pub decode : Bytes → Option PacketFields
decode buffer =
    if ltb (length buffer) 24
    then none
    else (read_uint_be 1 0 buffer >>= λ proto. read_uint_be 1 1 buffer >>= λ type.
        read_uint_be 2 2 buffer >>= λ seqno. read_uint_be 4 4 buffer >>= λ padding.
        read_uint_be 4 8 buffer >>= λ reftime_sec. read_uint_be 4 12 buffer >>= λ reftime_frac.
        read_uint_be 4 16 buffer >>= λ recvtime_sec. read_uint_be 4 20 buffer >>= λ recvtime_frac.
        (if leb 28 (length buffer) then read_uint_be 4 24 buffer else some 0) >>= λ sendtime_sec.
        (if leb 32 (length buffer) then read_uint_be 4 28 buffer else some 0) >>= λ sendtime_frac.
        some (record {
          proto = proto;
          type = type;
          seqno = seqno;
          padding = padding;
          reftime_sec = reftime_sec;
          reftime_frac = reftime_frac;
          recvtime_sec = recvtime_sec;
          recvtime_frac = recvtime_frac;
          sendtime_sec = sendtime_sec;
          sendtime_frac = sendtime_frac;
        }))

-- `none` is the RangeError of a field that does not fit.
unfoldable pub encode : (ℕ → ℕ) → PacketFields → Option Bytes
encode junk fields = write_uint_be 1 fields.proto 0 (alloc_unsafe junk 32) >>= λ b₀.
    write_uint_be 1 fields.type 1 b₀ >>= λ b₁. write_uint_be 2 fields.seqno 2 b₁ >>= λ b₂.
    write_uint_be 4 fields.padding 4 b₂ >>= λ b₃. write_uint_be 4 fields.reftime_sec 8 b₃ >>= λ b₄.
    write_uint_be 4 fields.reftime_frac 12 b₄ >>= λ b₅.
    write_uint_be 4 fields.recvtime_sec 16 b₅ >>= λ b₆.
    write_uint_be 4 fields.recvtime_frac 20 b₆ >>= λ b₇.
    write_uint_be 4 fields.sendtime_sec 24 b₇ >>= λ b₈. write_uint_be 4 fields.sendtime_frac 28 b₈

pub record Fits (f : PacketFields) : Type 0 where
  pub proto : f.proto < 2 ^ 8
  pub type : f.type < 2 ^ 8
  pub seqno : f.seqno < 2 ^ 16
  pub padding : f.padding < 2 ^ 32
  pub reftime_sec : f.reftime_sec < 2 ^ 32
  pub reftime_frac : f.reftime_frac < 2 ^ 32
  pub recvtime_sec : f.recvtime_sec < 2 ^ 32
  pub recvtime_frac : f.recvtime_frac < 2 ^ 32
  pub sendtime_sec : f.sendtime_sec < 2 ^ 32
  pub sendtime_frac : f.sendtime_frac < 2 ^ 32

-- A packet whose fields fit their widths is encoded, and decodes to the same fields.
pub decode-encode_packet :
    (junk : ℕ → ℕ) (f : PacketFields) → Fits f → (encode junk f >>= decode) ≡ some f
unfolding encode decode
decode-encode_packet junk f h =
    rw
      (
        lt→ltb _ _ h.proto,
        lt→ltb _ _ h.type,
        lt→ltb _ _ h.seqno,
        lt→ltb _ _ h.padding,
        lt→ltb _ _ h.reftime_sec,
        lt→ltb _ _ h.reftime_frac,
        lt→ltb _ _ h.recvtime_sec,
        lt→ltb _ _ h.recvtime_frac,
        lt→ltb _ _ h.sendtime_sec,
        lt→ltb _ _ h.sendtime_frac,
      )
      (rw (
        be_1 f.proto h.proto,
        be_1 f.type h.type,
        be_2 f.seqno h.seqno,
        be_4 f.padding h.padding,
        be_4 f.reftime_sec h.reftime_sec,
        be_4 f.reftime_frac h.reftime_frac,
        be_4 f.recvtime_sec h.recvtime_sec,
        be_4 f.recvtime_frac h.recvtime_frac,
        be_4 f.sendtime_sec h.sendtime_sec,
        be_4 f.sendtime_frac h.sendtime_frac,
      ))

-- The decoder throws exactly on buffers of fewer than 24 bytes: no read goes past the end of a
-- longer one, though the last two fields need 28 and 32 bytes.
pub decode_packet-eq_none_iff : (buffer : Bytes) → (decode buffer ≡ none) ↔ (length buffer < 24)
unfolding decode
decode_packet-eq_none_iff buffer = (
  λ e. elim (lt_or_le (length buffer) 24) [ inl short ↦ short | inr enough ↦ ground arith ],
  λ short. rw (lt→ltb (length buffer) 24 short),
)
