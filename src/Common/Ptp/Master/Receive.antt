-- ===== src/Common/Ptp/Master/Receive.antt =====
-- The addresses of a decoded message, and what the master does with the Announce of another clock.
use apple_protocols.Prelude.{
  ℕ, zero, suc, ◌+◌, ◌%◌, ◌^◌, ◌<◌, ◌≤◌, [], ◌∷◌, ◌++◌, Option, none, some, Bytes, IsByte,
  >>=-eq_some, true, false, bit_and_u16, All, take, drop, length, length-take, length-drop,
  read_uint_be, read_int_be, byte_at, be_value, lt_or_le, lt→ltb, le→ltb_false, le→leb,
  gt→leb_false, ◌⊎◌, ◌≡◌, refl, sym, arith, inl, inr,
}
use mathlib.Core.Path.{subst}
use apple_protocols.Common.Ptp.Header.{HeaderFields, decode_header}
use apple_protocols.Common.Ptp.Messages.{
  PtpMessageType, signaling, Body, signaling_body, encode_signaling_stop, header_fields,
}
use apple_protocols.Common.Ptp.Messages.Decode.{
  type_of, decode_case, decode_message, decode_body, body_length,
}
use apple_protocols.Common.Ptp.Messages.Parts.{our_port}
use apple_protocols.Common.Ptp.Messages.Sent.{stop_tlv}
use apple_protocols.Common.Ptp.Master.{
  PtpMaster, general_packet, stopped, send_signaling_stop, send_general,
}

All-take-drop : (n k : ℕ) (buf : Bytes) → All IsByte buf → All IsByte (take n (drop k buf))
All-take-drop zero zero buf h = tt
All-take-drop zero (suc k) buf h = tt
All-take-drop (suc n) k [] h = subst (λ l. All IsByte (take (suc n) l)) (sym (nothing k)) tt
  where
    nothing : (k : ℕ) → ◌≡◌ {A = Bytes} (drop k []) []
    nothing zero = refl
    nothing (suc k) = refl
All-take-drop (suc n) zero (b ∷ buf) (p, h) = (p, All-take-drop n zero buf h)
All-take-drop (suc n) (suc k) (b ∷ buf) (p, h) = All-take-drop (suc n) k buf h

two_bytes : (bs : Bytes) → All IsByte bs → length bs ≤ 2 → be_value bs < 2 ^ 16
two_bytes [] h l = omega arith
two_bytes (a ∷ []) (p, h) l = omega arith
two_bytes (a ∷ b ∷ []) (p, (q, h)) l = omega arith
two_bytes (a ∷ b ∷ c ∷ bs) h l = absurd (omega arith)

read_two-lt :
    (offset v : ℕ) (buf : Bytes) → All IsByte buf → read_uint_be 2 offset buf ≡ some v → v < 2 ^ 16
read_two-lt offset v buf bytes e = elim (lt_or_le (length buf) (offset + 2)) [
  | inl short ↦ cc (rw (gt→leb_false (offset + 2) (length buf) short) at e)
  | inr enough ↦
      let found : some (be_value (take 2 (drop offset buf))) ≡ some v =
        rw (le→leb (offset + 2) (length buf) enough) at e in
      let same : be_value (take 2 (drop offset buf)) ≡ v = cc in
      rw (← same) (
        two_bytes (take 2 (drop offset buf)) (All-take-drop 2 offset buf bytes)
          (omega (arith, length-take 2 (drop offset buf))))
]

-- The port identity and the sequence number of a decoded header.
abbrev pub Addressed : HeaderFields → Type 0
Addressed header = (length header.source_port_identity ≡ 10) × (header.sequence_id < 2 ^ 16)

decode_header-Addressed :
    (buf : Bytes) (header : HeaderFields)
    → All IsByte buf
    → 34 ≤ length buf
    → decode_header buf ≡ some header
    → Addressed header
unfolding decode_header
decode_header-Addressed buf header bytes long e =
    let (_, _, e₁) = >>=-eq_some (byte_at buf 0) _ e in
    let (_, _, e₂) = >>=-eq_some (read_uint_be 2 2 buf) _ e₁ in
    let (_, _, e₃) = >>=-eq_some (byte_at buf 4) _ e₂ in
    let (_, _, e₄) = >>=-eq_some (read_uint_be 2 6 buf) _ e₃ in
    let (_, _, e₅) = >>=-eq_some (read_int_be 8 8 buf) _ e₄ in
    let (seq, s, e₆) = >>=-eq_some (read_uint_be 2 30 buf) _ e₅ in
    let (_, _, e₇) = >>=-eq_some (byte_at buf 32) _ e₆ in
    let (_, _, e₈) = >>=-eq_some (read_int_be 1 33 buf) _ e₇ in
    let port : header.source_port_identity ≡ take 10 (drop 20 buf) = ground arith in
    let number : header.sequence_id ≡ seq = ground arith in
    (
      rw port (omega (arith, length-take 10 (drop 20 buf), length-drop 20 buf)),
      rw number (read_two-lt 30 seq buf bytes s),
    )

decode_case-header :
    (type : Option PtpMessageType) (h header : HeaderFields) (buf : Bytes) (body : Body)
    → decode_case type h buf ≡ some (some (header, body))
    → h ≡ header
unfolding decode_case
decode_case-header none h header buf body e = cc
decode_case-header (some type) h header buf body e =
    elim (lt_or_le (length buf) (34 + body_length type)) [
      | inl short ↦ cc (rw (lt→ltb (length buf) (34 + body_length type) short) at e)
      | inr enough ↦
          let (b, _, e') =
            >>=-eq_some (decode_body type buf 34) _
              (rw (le→ltb_false (length buf) (34 + body_length type) enough) at e) in
          ground arith
    ]

pub decode_message-Addressed :
    (buf : Bytes) (header : HeaderFields) (body : Body)
    → All IsByte buf
    → decode_message buf ≡ some (some (header, body))
    → Addressed header
unfolding decode_message
decode_message-Addressed buf header body bytes e = elim (lt_or_le (length buf) 34) [
  | inl short ↦ cc (rw (lt→ltb (length buf) 34 short) at e)
  | inr enough ↦
      let (h, d, e') =
        >>=-eq_some (decode_header buf) _ (rw (le→ltb_false (length buf) 34 enough) at e) in
      rw (← decode_case-header (type_of h.message_type) h header buf body e')
        (decode_header-Addressed buf h bytes enough d)
]

-- After yielding: stopped, with both sockets and both timers gone, and one packet more sent, which
-- a receiver decodes as the request to stop, addressed to the peer.
abbrev pub Yielded : Bytes → PtpMaster → PtpMaster → Type 0
Yielded peer m m' =
    (signal : Bytes) × (m'.sent ≡ m.sent ++ (general_packet signal ∷ []))
    × (decode_message signal
        ≡ some (
            some (
              header_fields signaling (our_port m.clock_identity)
                  ((m.signaling_sequence_id + 1) % 2 ^ 16) 58 0x0008,
              signaling_body (our_port peer) stop_tlv,
            )))
    × (m'.state ≡ stopped)
    × (m'.event_socket ≡ false)
    × (m'.general_socket ≡ false)
    × (m'.sync_timer ≡ false)
    × (m'.announce_timer ≡ false)

-- The master yields to a better priority, and otherwise only counts the Announce.
abbrev pub Reacts : Bytes → ℕ → PtpMaster → PtpMaster → Type 0
Reacts peer p m m' =
    ((p < 248) × Yielded peer m m')
    ⊎ ((248 ≤ p) × (m' ≡ record m { announces_received = m.announces_received + 1 }))

pub send_signaling_stop-open :
    (m : PtpMaster) (target signal : Bytes)
    → m.general_socket ≡ true
    → encode_signaling_stop ((m.signaling_sequence_id + 1) % 2 ^ 16) m.clock_identity target
      ≡ some signal
    → send_signaling_stop target m
      ≡ some (record m {
        signaling_sequence_id = (m.signaling_sequence_id + 1) % 2 ^ 16;
        sent = m.sent ++ (general_packet signal ∷ []);
      })
unfolding send_signaling_stop send_general
send_signaling_stop-open m target signal open_ e =
    simp (open_, bit_and_u16 (m.signaling_sequence_id + 1), e)
