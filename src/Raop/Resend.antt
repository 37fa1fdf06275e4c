-- ===== src/Raop/Resend.antt =====
-- How packages/raop/src/controlClient.ts answers the receiver: lost packets are sent again.
use apple_protocols.Prelude.{
  ℕ, zero, suc, ◌+◌, List, [], ◌∷◌, ◌++◌, Option, none, some, Bool, true, false, Bytes, ◌>>=◌,
  length, take, drop, ltb, ◌==◌, if◌then◌else◌, bit_and, be_bytes, byte_at,
}
use apple_protocols.Raop.Fifo.{PacketFifo, get, has}
use apple_protocols.Raop.Headers.{RetransmitRequest, decode_retransmit_request}

-- A packet of the backlog in its response. One of less than 4 bytes is passed over.
abbrev resent : Bytes → List Bytes
resent packet =
    if ltb (length packet) 4 then [] else ((0x80 ∷ 0xD6 ∷ (take 2 (drop 2 packet) ++ packet)) ∷ [])

-- The response for a packet that is not in the backlog any more.
abbrev futile : ℕ → Bytes
futile seqno = 0x80 ∷ 0xD6 ∷ (be_bytes 2 seqno ++ (0 ∷ 0 ∷ 0 ∷ 0 ∷ []))

-- What is sent for one number: it is looked for with `has`, then read with `get`.
unfoldable pub response : ℕ → Bool → Option Bytes → List Bytes
response seqno true (some packet) = resent packet
response seqno true none = []
response seqno false found = futile seqno ∷ []

-- Without a transport a packet is not sent.
abbrev pub sent_by : Bool → List Bytes → List Bytes
sent_by true packets = packets
sent_by false packets = []

-- The loop of `#retransmitLostPackets`, from index `i`, with this many rounds to go: the packets
-- that are sent, in order.
unfoldable pub retransmit_from : Bool → PacketFifo → ℕ → ℕ → ℕ → List Bytes
unfolding response
retransmit_from has_transport backlog lost_seqno i zero = []
retransmit_from has_transport backlog lost_seqno i (suc n) =
    let seqno = bit_and (lost_seqno + i) 0xFFFF in
    sent_by has_transport (response seqno (has backlog seqno) (get backlog seqno))
    ++ retransmit_from has_transport backlog lost_seqno (suc i) n

unfoldable pub retransmit_lost_packets : Bool → PacketFifo → RetransmitRequest → List Bytes
unfolding retransmit_from
retransmit_lost_packets has_transport backlog request =
    retransmit_from has_transport backlog request.lost_seqno 0 request.lost_packets

-- The test for type 0x55. Reading past the end of the message gives no type.
abbrev pub is_retransmit : Option ℕ → Bool
is_retransmit none = false
is_retransmit (some byte) = bit_and byte 0x7F == 0x55

-- `#onMessage`: the packets it sends; `none` is the RangeError of a request that is too short.
unfoldable pub on_message : Bool → PacketFifo → Bytes → Option (List Bytes)
unfolding retransmit_lost_packets
on_message has_transport backlog message =
    if is_retransmit (byte_at message 1)
    then (decode_retransmit_request message >>= λ request.
        some (retransmit_lost_packets has_transport backlog request))
    else some []
