-- ===== src/Common/Ptp/Timestamp.antt =====
-- packages/common/src/timing/ptp/timestamp.ts: seconds and nanoseconds in ten bytes.
use apple_protocols.Prelude.{
  ℕ, ◌+◌, ◌-◌, ◌*◌, ◌/◌, ◌%◌, ◌^◌, ◌<◌, bit_and, bit_or, Option, some, Bytes, ◌>>=◌, alloc_unsafe,
  write_uint_be, read_uint_be, be_bytes, ◌++◌, ◌≡◌, arith, lt→ltb, bit_or_high, bit_and_u16,
  bit_and_u32, be_2, be_4,
}

pub record PtpTimestamp : Type 0 where
  pub seconds : ℕ
  pub nanoseconds : ℕ

-- `ptpNow` at the wall-clock time that `Date.now()` returns, in milliseconds.
unfoldable pub ptp_now : ℕ → PtpTimestamp
ptp_now now_ms =
    let seconds = now_ms / 1000 in
    record { seconds = seconds; nanoseconds = (now_ms - seconds * 1000) * 1_000_000 }

unfoldable pub encode_timestamp : PtpTimestamp → Option Bytes
encode_timestamp ts =
    let high = bit_and (ts.seconds / 2 ^ 32) 0xFFFF in
    let low = bit_and ts.seconds 0xFFFFFFFF in
    write_uint_be 2 high 0 (alloc_unsafe (λ _. 0) 10) >>= λ b₀.
    write_uint_be 4 low 2 b₀ >>= λ b₁. write_uint_be 4 ts.nanoseconds 6 b₁

unfoldable pub decode_timestamp : Bytes → ℕ → Option PtpTimestamp
decode_timestamp buf offset = read_uint_be 2 offset buf >>= λ high.
    read_uint_be 4 (offset + 2) buf >>= λ low. read_uint_be 4 (offset + 6) buf >>= λ nanoseconds.
    some (record { seconds = bit_or (high * 2 ^ 32) low; nanoseconds = nanoseconds })

-- The ten bytes that a timestamp is encoded to.
unfoldable pub timestamp_bytes : ℕ → ℕ → ℕ → Bytes
timestamp_bytes high low nanoseconds = be_bytes 2 high ++ (be_bytes 4 low ++ be_bytes 4 nanoseconds)

pub encode_timestamp-bytes :
    (ts : PtpTimestamp)
    → ts.nanoseconds < 2 ^ 32
    → encode_timestamp ts
      ≡ some (timestamp_bytes (ts.seconds / 2 ^ 32 % 2 ^ 16) (ts.seconds % 2 ^ 32) ts.nanoseconds)
unfolding encode_timestamp timestamp_bytes
encode_timestamp-bytes ts h =
    rw (bit_and_u16, bit_and_u32)
      (rw (
        lt→ltb (ts.seconds / 2 ^ 32 % 2 ^ 16) (2 ^ 16) (omega arith),
        lt→ltb (ts.seconds % 2 ^ 32) (2 ^ 32) (omega arith),
        lt→ltb ts.nanoseconds (2 ^ 32) h,
      ))

-- A timestamp whose nanoseconds fit 32 bits is encoded, and decodes to the same nanoseconds and to
-- the seconds modulo 2⁴⁸.
pub decode-encode_timestamp :
    (ts : PtpTimestamp)
    → ts.nanoseconds < 2 ^ 32
    → (encode_timestamp ts >>= λ buf. decode_timestamp buf 0)
      ≡ some (record { seconds = ts.seconds % 2 ^ 48; nanoseconds = ts.nanoseconds })
unfolding decode_timestamp timestamp_bytes
decode-encode_timestamp ts h =
    let high = ts.seconds / 2 ^ 32 % 2 ^ 16 in
    let low = ts.seconds % 2 ^ 32 in
    let low_fits : low < 2 ^ 32 = omega arith in
    let whole : high * 2 ^ 32 + low ≡ ts.seconds % 2 ^ 48 = omega arith in
    rw (encode_timestamp-bytes ts h) (
      rw (
        be_2 high (omega arith),
        be_4 low low_fits,
        be_4 ts.nanoseconds h,
        bit_or_high 32 high low low_fits,
        whole,
      ))

-- The time of day is split without loss: seconds and nanoseconds give the milliseconds back, and
-- the nanoseconds fit their 32 bits.
pub ptp_now_parts :
    (now_ms : ℕ)
    → ((ptp_now now_ms).seconds * 1_000_000_000 + (ptp_now now_ms).nanoseconds ≡ now_ms * 1_000_000)
      × ((ptp_now now_ms).nanoseconds < 1_000_000_000)
unfolding ptp_now
ptp_now_parts now_ms = omega arith
