-- ===== src/Tests/Encoding.antt =====
-- Runs and instances for the wire formats of packages/encoding/src.
use apple_protocols.Prelude.{
  ℕ, zero, ◌+◌, ◌*◌, ◌/◌, ◌%◌, ◌^◌, ◌≤◌, ◌<◌, List, [], ◌∷◌, none, some, Bytes, ◌>>=◌, length, ◌≡◌,
  ◌≢◌, ◌↔◌, ◌⊎◌, refl, arith, replicate, ok, thrown, out_of_fuel,
}
use apple_protocols.Prelude.JsMap
use apple_protocols.Prelude.JsMap.{JsMap}
use apple_protocols.Encoding.Tlv8
use apple_protocols.Encoding.Tlv8.{
  Entry, byte, buffer, total_size, truncated_header, truncated_value,
}
use apple_protocols.Encoding.Tlv8.Decode.{print_records, decode-ne-out_of_fuel}
use apple_protocols.Encoding.Tlv8.Records.{by_type, decode-eq-ok_iff}
use apple_protocols.Encoding.Tlv8.RoundTrip.{values_of, decode-encode}
use apple_protocols.Encoding.Tlv8.Bail.{
  bail, thrown_code, unknown_error, known_error, authentication, bail_code,
}
use apple_protocols.Encoding.Ntp
use apple_protocols.Encoding.Ntp.{
  PacketFields, now, parts, epoch, parts-now, decode-encode_packet, decode_packet-eq_none_iff,
}

-- A state, an empty salt and a public key that takes two fragments.
abbrev pairing : List Entry
pairing = (0x06, byte 1) ∷ (0x02, buffer []) ∷ (0x03, buffer (replicate 300 7)) ∷ []

pairing_decodes :
    Tlv8.decode (6 ∷ 1 ∷ 1 ∷ 2 ∷ 0 ∷ 6 ∷ 2 ∷ 8 ∷ 9 ∷ []) ≡ ok ((6, 1 ∷ 8 ∷ 9 ∷ []) ∷ (2, []) ∷ [])
unfolding Tlv8.decode
pairing_decodes = refl

cut_header : Tlv8.decode (6 ∷ 1 ∷ 1 ∷ 3 ∷ []) ≡ thrown truncated_header
unfolding Tlv8.decode
cut_header = refl

cut_value : Tlv8.decode (6 ∷ 2 ∷ 1 ∷ []) ≡ thrown truncated_value
unfolding Tlv8.decode
cut_value = refl

pairing_encodes :
    Tlv8.encode (λ i. 0xAA) ((6, byte 3) ∷ (2, buffer (9 ∷ 8 ∷ [])) ∷ [])
    ≡ some (6 ∷ 1 ∷ 3 ∷ 2 ∷ 2 ∷ 9 ∷ 8 ∷ [])
unfolding Tlv8.encode
pairing_encodes = refl

decode-encode_example :
    (buf : Bytes) × (m : JsMap Bytes) × (Tlv8.encode (λ i. 0xAA) pairing ≡ some buf)
    × (length buf ≡ total_size pairing)
    × (Tlv8.decode buf ≡ ok m)
    × ((t : ℕ) → JsMap.get m t ≡ values_of t pairing)
decode-encode_example = decode-encode (λ i. 0xAA) pairing (omega arith)

decode-eq-ok_iff_example : (Tlv8.decode (6 ∷ 1 ∷ 4 ∷ []) ≡ ok ((6, 4 ∷ []) ∷ [])) ↔ (
    (records : List (ℕ × Bytes)) × (6 ∷ 1 ∷ 4 ∷ [] ≡ print_records records)
    × (◌≡◌ {A = JsMap Bytes} ((6, 4 ∷ []) ∷ []) (by_type records)))
decode-eq-ok_iff_example = decode-eq-ok_iff (6 ∷ 1 ∷ 4 ∷ []) ((6, 4 ∷ []) ∷ [])

decode-ne-out_of_fuel_example : Tlv8.decode (6 ∷ 200 ∷ 4 ∷ []) ≢ out_of_fuel
decode-ne-out_of_fuel_example = decode-ne-out_of_fuel (6 ∷ 200 ∷ 4 ∷ [])

abbrev busy_response : JsMap Bytes
busy_response = (6, 2 ∷ []) ∷ (7, 3 ∷ []) ∷ (8, 44 ∷ 1 ∷ []) ∷ []

abbrev odd_response : JsMap Bytes
odd_response = (6, 4 ∷ []) ∷ (7, 99 ∷ []) ∷ []

bail_code_example :
    (thrown_code (bail odd_response) ≡ some 99)
    × ((bail odd_response ≡ unknown_error 99) ↔ ((◌≡◌ {A = ℕ} 99 0) ⊎ (7 < 99)))
bail_code_example = bail_code odd_response 99 [] refl refl

known_code : bail ((7, 2 ∷ []) ∷ []) ≡ known_error authentication
unfolding bail
known_code = refl

parts-now_example :
    ((parts (now 1_700_000_000_250)).0 ≡ 1_700_000_000_250 / 1000 + 2208988800)
    × ((parts (now 1_700_000_000_250)).1 < 2 ^ 32)
    × ((parts (now 1_700_000_000_250)).1 * 1000 ≤ 1_700_000_000_250 % 1000 * 2 ^ 32)
    × (1_700_000_000_250 % 1000 * 2 ^ 32 < (parts (now 1_700_000_000_250)).1 * 1000 + 1000)
parts-now_example = parts-now 1_700_000_000_250

quarter : parts (now 1_000_250) ≡ (2208989800, 1073741824)
unfolding parts now
quarter = refl

abbrev timing : PacketFields
timing = record {
  proto = 0x80;
  type = 0xD3;
  seqno = 7;
  padding = 0;
  reftime_sec = 1;
  reftime_frac = 2;
  recvtime_sec = 3900000000;
  recvtime_frac = 4000000000;
  sendtime_sec = 5;
  sendtime_frac = 6;
}

decode-encode_packet_example : (Ntp.encode (λ i. i) timing >>= Ntp.decode) ≡ some timing
decode-encode_packet_example = decode-encode_packet (λ i. i) timing (omega arith)

decode_packet-eq_none_iff_example :
    (Ntp.decode (replicate 24 1) ≡ none) ↔ (length (replicate 24 (zero + 1)) < 24)
decode_packet-eq_none_iff_example = decode_packet-eq_none_iff (replicate 24 1)
