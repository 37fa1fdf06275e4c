-- ===== src/Raop/Resent.antt =====
-- What a receiver gets for the packets that it lost: packages/raop/src/controlClient.ts with the
-- backlog of packages/raop/src/packets.ts.
use apple_protocols.Prelude.{
  ℕ, zero, suc, ◌+◌, ◌^◌, ◌%◌, ◌<◌, List, [], ◌∷◌, map, Option, some, true, false, Bytes, ◌>>=◌,
  length, drop, ltb, read_uint_be, ◌==◌, if◌then◌else◌, ◌≡◌, refl, sym, ap, ◌∙◌, arith, inl, inr,
  Bool-cases, subst, ==_iff, map-append, be_2, bit_and_u16, byte_at, ◌-◌,
}
use apple_protocols.Prelude.JsMap
use apple_protocols.Prelude.JsMap.{JsMap, IsDistinct}
use apple_protocols.Raop.Fifo.{PacketFifo, create, get, has}
use apple_protocols.Raop.Fifo.Invariant.{last}
use apple_protocols.Raop.Fifo.Recent.{send_all, send_all-last}
use apple_protocols.Raop.Resend.{
  response, retransmit_from, retransmit_lost_packets, on_message, is_retransmit,
}
use apple_protocols.Raop.Headers.{decode_retransmit_request}

-- How a receiver reads a response: the number it names, and what stands behind the four bytes.
abbrev pub read_response : Bytes → Option (ℕ × Bytes)
read_response b = read_uint_be 2 2 b >>= λ seqno. some (seqno, drop 4 b)

-- Every packet carries its number, as its RTP header does.
abbrev pub AllNumbered : JsMap Bytes → Type 0
AllNumbered [] = Unit
AllNumbered ((seqno, packet) ∷ m) = (read_uint_be 2 2 packet ≡ some seqno) × AllNumbered m

-- What answers a number: its packet among the ones that are kept, or four zeros.
abbrev pub kept : JsMap Bytes → ℕ → Bytes
kept [] seqno = 0 ∷ 0 ∷ 0 ∷ 0 ∷ []
kept ((j, packet) ∷ m) seqno = if j == seqno then packet else kept m seqno

-- The numbers that are asked for: so many from the first on, which wrap around at 16 bits.
abbrev pub requested : ℕ → ℕ → ℕ → List ℕ
requested lost_seqno i zero = []
requested lost_seqno i (suc n) = (lost_seqno + i) % 2 ^ 16 ∷ requested lost_seqno (suc i) n

resent-read :
    (seqno : ℕ) (packet : Bytes)
    → read_uint_be 2 2 packet ≡ some seqno
    → map read_response (response seqno true (some packet)) ≡ some (seqno, packet) ∷ []
unfolding response
resent-read seqno [] h = ground arith
resent-read seqno (a ∷ []) h = ground arith
resent-read seqno (a ∷ b ∷ []) h = ground arith
resent-read seqno (a ∷ b ∷ c ∷ []) h = ground arith
resent-read seqno (a ∷ b ∷ c ∷ d ∷ packet) h =
    let long : ltb (length (a ∷ b ∷ c ∷ d ∷ packet)) 4 ≡ false = ground arith in
    let named : read_uint_be 2 2 (128 ∷ 214 ∷ c ∷ d ∷ a ∷ b ∷ c ∷ d ∷ packet) ≡ some seqno =
      ground arith in
    rw long (rw named refl)

response-read :
    (m : JsMap Bytes) (seqno : ℕ)
    → AllNumbered m
    → seqno < 2 ^ 16
    → map read_response (response seqno (JsMap.has m seqno) (JsMap.get m seqno))
      ≡ some (seqno, kept m seqno) ∷ []
unfolding response
response-read [] seqno n h = rw (be_2 seqno h) refl
response-read ((j, packet) ∷ m) seqno (e, n) h = elim (Bool-cases (j == seqno)) [
  | inl same ↦ rw same (rw (← (==_iff j seqno).0 same) (resent-read j packet e))
  | inr other ↦ rw other (response-read m seqno n h)
]

-- The answer to a number as the receiver reads it.
abbrev pub answer : JsMap Bytes → ℕ → Option (ℕ × Bytes)
answer m seqno = some (seqno, kept m seqno)

retransmit_from-read :
    (f : PacketFifo) (lost_seqno i n : ℕ)
    → AllNumbered f.packets
    → map read_response (retransmit_from true f lost_seqno i n)
      ≡ map (answer f.packets) (requested lost_seqno i n)
unfolding retransmit_from get has
retransmit_from-read f lost_seqno i zero a = refl
retransmit_from-read f lost_seqno i (suc n) a =
    let seqno = (lost_seqno + i) % 2 ^ 16 in
    let now = response-read f.packets seqno a (omega arith) in
    let later = retransmit_from-read f lost_seqno (suc i) n a in
    rw (bit_and_u16 (lost_seqno + i), map-append) (rw now (rw later refl))

drop-AllNumbered : (n : ℕ) (m : JsMap Bytes) → AllNumbered m → AllNumbered (drop n m)
drop-AllNumbered zero m a = a
drop-AllNumbered (suc n) [] a = a
drop-AllNumbered (suc n) ((j, packet) ∷ m) (e, a) = drop-AllNumbered n m a

-- Packets with distinct numbers, each of which carries its own, are sent and stored in a new
-- backlog of a given size, full by then or not. Then a request for lost packets is answered by one
-- response for each number it asks for, in order, the numbers wrapping around at 16 bits. Each
-- response names its number, and holds the packet as it was sent if it is one of the last ones, as
-- many as the size, or four zeros if not.
pub on_message-send_all :
    (max_size : ℕ) (packets : JsMap Bytes) (message : Bytes) (lost_seqno lost_packets : ℕ)
    → IsDistinct packets
    → AllNumbered packets
    → is_retransmit (byte_at message 1) ≡ true
    → read_uint_be 2 4 message ≡ some lost_seqno
    → read_uint_be 2 6 message ≡ some lost_packets
    → (on_message true (send_all (create max_size) packets) message >>= λ sent.
        some (map read_response sent))
      ≡ some (map (answer (last max_size packets)) (requested lost_seqno 0 lost_packets))
unfolding on_message retransmit_lost_packets decode_retransmit_request
on_message-send_all max_size packets message lost_seqno lost_packets d a t s n =
    let backlog = send_all (create max_size) packets in
    let holds : backlog.packets ≡ last max_size packets = send_all-last max_size packets d in
    let numbered : AllNumbered (last max_size packets) =
      drop-AllNumbered (length packets - max_size) packets a in
    let sent =
      retransmit_from-read backlog lost_seqno 0 lost_packets
        (subst AllNumbered (sym holds) numbered) in
    rw (t, s, n)
      (ap some (sent ∙ ap (λ m. map (answer m) (requested lost_seqno 0 lost_packets)) holds))
