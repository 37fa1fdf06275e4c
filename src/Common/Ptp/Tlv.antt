-- ===== src/Common/Ptp/Tlv.antt =====
-- packages/common/src/timing/ptp/tlv.ts: the two organisation extensions that are sent.
use apple_protocols.Prelude.{
  ℕ, ◌+◌, [], ◌∷◌, Option, none, some, Bytes, ◌>>=◌, alloc_unsafe, write_uint_be, write_int_be,
  store_byte, put_at, length, ◌==◌, not, if◌then◌else◌, ℤ,
}

abbrev pub organization_extension : ℕ
organization_extension = 0x0003

abbrev pub ieee_802_1_organization_id : Bytes
ieee_802_1_organization_id = 0x00 ∷ 0x80 ∷ 0xC2 ∷ []

abbrev pub follow_up_information_subtype : ℕ
follow_up_information_subtype = 1

abbrev pub message_interval_request_subtype : ℕ
message_interval_request_subtype = 2

-- The type and the length in front of a payload, as both encoders write them.
unfoldable pub wrap_tlv : Bytes → Option Bytes
wrap_tlv payload =
    write_uint_be 2 organization_extension 0 (alloc_unsafe (λ _. 0) (4 + length payload)) >>= λ b₀.
    write_uint_be 2 (length payload) 2 b₀ >>= λ b₁. some (put_at b₁ 4 payload)

-- `none` is an error: a phase change that is not of 12 bytes, or a field that does not fit.
unfoldable pub encode_follow_up_info_tlv : ℕ → ℕ → Bytes → ℕ → Option Bytes
unfolding wrap_tlv
encode_follow_up_info_tlv rate_offset time_base_indicator phase_change freq_change =
    let start =
      store_byte 3 follow_up_information_subtype
        (put_at (alloc_unsafe (λ _. 0) 26) 0 ieee_802_1_organization_id) in
    if not (length phase_change == 12)
    then none
    else (write_uint_be 4 rate_offset 4 start >>= λ b₀.
        write_uint_be 2 time_base_indicator 8 b₀ >>= λ b₁.
        write_uint_be 4 freq_change 22 (put_at b₁ 10 phase_change) >>= λ payload. wrap_tlv payload)

-- Its default arguments.
unfoldable pub default_follow_up_info_tlv : Option Bytes
unfolding encode_follow_up_info_tlv
default_follow_up_info_tlv = encode_follow_up_info_tlv 0 0 (alloc_unsafe (λ _. 0) 12) 0

unfoldable pub encode_message_interval_request_tlv : ℤ → ℤ → ℤ → Option Bytes
unfolding wrap_tlv
encode_message_interval_request_tlv log_link_delay log_time_sync log_announce =
    let start =
      store_byte 3 message_interval_request_subtype
        (put_at (alloc_unsafe (λ _. 0) 10) 0 ieee_802_1_organization_id) in
    write_int_be 1 log_link_delay 4 start >>= λ b₀. write_int_be 1 log_time_sync 5 b₀ >>= λ b₁.
    write_int_be 1 log_announce 6 b₁ >>= λ b₂. wrap_tlv (store_byte 7 0 b₂)
