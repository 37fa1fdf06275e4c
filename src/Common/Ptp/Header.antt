-- ===== src/Common/Ptp/Header.antt =====
-- packages/common/src/timing/ptp/header.ts: the 34-byte header of every message.
use apple_protocols.Prelude.{
  ℕ, ◌*◌, ◌/◌, ◌%◌, ◌^◌, ◌<◌, bit_and, bit_or, [], ◌∷◌, Option, some, Bytes, ◌>>=◌, alloc_unsafe,
  write_uint_be, read_uint_be, write_int_be, read_int_be, byte_at, store_byte, put_at, take, drop,
  length, ◌≡◌, refl, arith, lt→ltb, bit_or_low, bit_and_15, be_1, be_2, be_8, ℤ, FitsInt,
  pattern_of, >>=-eq_some, byte_at-front, read_uint_be-front, slice-front, ◌++◌, pattern_of-lt_1,
  pattern_of-lt_8, int_of-pattern_1, int_of-pattern_8,
}

abbrev pub ptp_header_length : ℕ
ptp_header_length = 34

abbrev pub ptp_version : ℕ
ptp_version = 2

abbrev pub default_port_number : ℕ
default_port_number = 1

pub record HeaderFields : Type 0 where
  pub message_type : ℕ
  pub transport_specific : ℕ
  pub message_length : ℕ
  pub domain_number : ℕ
  pub flags : ℕ
  pub correction_field : ℤ
  pub source_port_identity : Bytes
  pub sequence_id : ℕ
  pub control_field : ℕ
  pub log_message_interval : ℤ

-- `none` is the RangeError of a field that does not fit.
unfoldable pub encode_header : HeaderFields → Option Bytes
encode_header fields =
    let first =
      bit_or (bit_and fields.message_type 0xF) (bit_and fields.transport_specific 0xF * 2 ^ 4) in
    let start =
      store_byte 1 ptp_version (store_byte 0 first (alloc_unsafe (λ _. 0) ptp_header_length)) in
    write_uint_be 2 fields.message_length 2 start >>= λ b₀.
    write_uint_be 2 fields.flags 6 (store_byte 4 fields.domain_number b₀) >>= λ b₁.
    write_int_be 8 fields.correction_field 8 b₁ >>= λ b₂.
    write_uint_be 2 fields.sequence_id 30 (put_at b₂ 20 (take 10 fields.source_port_identity))
    >>= λ b₃. write_int_be 1 fields.log_message_interval 33 (store_byte 32 fields.control_field b₃)

-- Every buffer of fewer than 34 bytes ends in a RangeError, `none`: at the latest in the read of
-- the last byte, so that no `undefined` of an index past the end comes out.
unfoldable pub decode_header : Bytes → Option HeaderFields
decode_header buf = byte_at buf 0 >>= λ first. read_uint_be 2 2 buf >>= λ message_length.
    byte_at buf 4 >>= λ domain_number. read_uint_be 2 6 buf >>= λ flags.
    read_int_be 8 8 buf >>= λ correction_field. read_uint_be 2 30 buf >>= λ sequence_id.
    byte_at buf 32 >>= λ control_field. read_int_be 1 33 buf >>= λ log_message_interval.
    some (record {
      message_type = bit_and first 0xF;
      transport_specific = bit_and (first / 2 ^ 4) 0xF;
      message_length = message_length;
      domain_number = domain_number;
      flags = flags;
      correction_field = correction_field;
      source_port_identity = take 10 (drop 20 buf);
      sequence_id = sequence_id;
      control_field = control_field;
      log_message_interval = log_message_interval;
    })

-- A header whose fields fit their widths; the port identity has ten bytes.
pub record Fits (f : HeaderFields) : Type 0 where
  pub message_type : f.message_type < 16
  pub transport_specific : f.transport_specific < 16
  pub message_length : f.message_length < 2 ^ 16
  pub domain_number : f.domain_number < 256
  pub flags : f.flags < 2 ^ 16
  pub correction_field : FitsInt 8 f.correction_field
  pub sequence_id : f.sequence_id < 2 ^ 16
  pub control_field : f.control_field < 256
  pub log_message_interval : FitsInt 1 f.log_message_interval

-- The header of a message is read from its first 34 bytes alone.
pub decode_header-front :
    (front rest : Bytes) → length front ≡ 34 → decode_header (front ++ rest) ≡ decode_header front
unfolding decode_header
decode_header-front front rest h = rw (
  byte_at-front 0 front rest (omega arith),
  byte_at-front 4 front rest (omega arith),
  byte_at-front 32 front rest (omega arith),
  read_uint_be-front 2 2 front rest (omega arith),
  read_uint_be-front 2 6 front rest (omega arith),
  read_uint_be-front 8 8 front rest (omega arith),
  read_uint_be-front 2 30 front rest (omega arith),
  read_uint_be-front 1 33 front rest (omega arith),
  slice-front 10 20 front rest (omega arith),
)

abbrev ten : ℕ → ℕ → ℕ → ℕ → ℕ → ℕ → ℕ → ℕ → ℕ → ℕ → Bytes
ten a b c d e f g h i j = a ∷ b ∷ c ∷ d ∷ e ∷ f ∷ g ∷ h ∷ i ∷ j ∷ []

-- The two halves of the first byte.
first_low :
    (low high : ℕ)
    → low < 16
    → high < 16
    → bit_and (bit_or (bit_and low 15) (bit_and high 15 * 16) % 256) 15 ≡ low
first_low low high l h =
    rw (bit_and_15 low, bit_and_15 high)
      (rw (bit_or_low 4 (high % 16) (low % 16) (omega arith)) (rw bit_and_15 (omega arith)))

first_high :
    (low high : ℕ)
    → low < 16
    → high < 16
    → bit_and (bit_or (bit_and low 15) (bit_and high 15 * 16) % 256 / 16) 15 ≡ high
first_high low high l h =
    rw (bit_and_15 low, bit_and_15 high)
      (rw (bit_or_low 4 (high % 16) (low % 16) (omega arith)) (rw bit_and_15 (omega arith)))

mod_256 : (v : ℕ) → v < 256 → v % 256 ≡ v
mod_256 v h = omega arith

-- Encoded and decoded, with the number of bytes between.
abbrev there_and_back : HeaderFields → Option (ℕ × HeaderFields)
there_and_back x = encode_header x >>= λ buf. decode_header buf >>= λ y. some (length buf, y)

decode-encode_header_at :
    (x : HeaderFields) (a b c d e f g h i j : ℕ)
    → Fits x
    → x.source_port_identity ≡ ten a b c d e f g h i j
    → there_and_back x ≡ some (34, x)
unfolding encode_header decode_header
decode-encode_header_at x a b c d e f g h i j v p =
    rw
      (
        p,
        lt→ltb _ _ v.message_length,
        lt→ltb _ _ v.flags,
        lt→ltb _ _ v.correction_field,
        lt→ltb _ _ v.sequence_id,
        lt→ltb _ _ v.log_message_interval,
      )
      (rw (
        first_low x.message_type x.transport_specific v.message_type v.transport_specific,
        first_high x.message_type x.transport_specific v.message_type v.transport_specific,
        be_2 x.message_length v.message_length,
        mod_256 x.domain_number v.domain_number,
        be_2 x.flags v.flags,
        be_8 (pattern_of 8 x.correction_field)
            (pattern_of-lt_8 x.correction_field v.correction_field),
        int_of-pattern_8 x.correction_field v.correction_field,
        be_2 x.sequence_id v.sequence_id,
        mod_256 x.control_field v.control_field,
        be_1 (pattern_of 1 x.log_message_interval)
            (pattern_of-lt_1 x.log_message_interval v.log_message_interval),
        int_of-pattern_1 x.log_message_interval v.log_message_interval,
      ))

module _ (x : HeaderFields) (v : Fits x) where
  decode-encode_header_of :
      (l : Bytes) → x.source_port_identity ≡ l → length l ≡ 10 → there_and_back x ≡ some (34, x)
  decode-encode_header_of (a ∷ b ∷ c ∷ d ∷ e ∷ f ∷ g ∷ h ∷ i ∷ j ∷ []) p n =
      decode-encode_header_at x a b c d e f g h i j v p
  decode-encode_header_of _ p n = absurd (omega arith)

-- A header whose fields fit their widths, with a port identity of ten bytes, is encoded into 34
-- bytes, and decodes to the same fields, the signed correction and interval included.
pub decode-encode_header :
    (x : HeaderFields)
    → Fits x
    → length x.source_port_identity ≡ 10
    → (buf : Bytes) × (encode_header x ≡ some buf)
      × (length buf ≡ 34)
      × (decode_header buf ≡ some x)
decode-encode_header x v n =
    let (buf, e, rest) = >>=-eq_some (encode_header x) _ (decode-encode_header_of x v _ refl n) in
    let (y, d, same) = >>=-eq_some (decode_header buf) _ rest in
    (buf, e, ground arith, ground arith)
