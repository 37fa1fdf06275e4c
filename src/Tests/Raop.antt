-- ===== src/Tests/Raop.antt =====
-- Runs and instances for the packets of packages/raop/src.
use apple_protocols.Prelude.{
  List, true, ℕ, [], ◌∷◌, some, Bytes, map, ◌-◌, ◌*◌, ◌+◌, ◌≤◌, ◌<◌, ◌^◌, ◌>>=◌, ◌≡◌, refl, arith,
}
use apple_protocols.Prelude.JsMap.{JsMap}
use apple_protocols.Raop.Fifo
use apple_protocols.Raop.Fifo.{PacketFifo, create}
use apple_protocols.Raop.Fifo.Invariant.{IsValid, store, run, run-create-IsValid, create-IsValid}
use apple_protocols.Raop.Fifo.Recent.{remember, set-remember, send_all, get-send_all}
use apple_protocols.Raop.Resend.{on_message}
use apple_protocols.Raop.Resent.{read_response, on_message-send_all}
use apple_protocols.Raop.Sync.{ntp_from_ts, ntp_from_ts-elapsed}
use apple_protocols.Raop.Sender.{Sender, Ended, out_of_fuel, threw, finished, stream_data}
use apple_protocols.Raop.Sender.Order.{InOrder, stream_data-InOrder}
use apple_protocols.Raop.Headers.{encode_audio_header, read_audio_header, read-encode_audio_header}

abbrev packet : ℕ → Bytes
packet n = 0x80 ∷ n ∷ []

run-create-IsValid_example : IsValid (
    run (create 2) (store 5 (packet 5) ∷ store 6 (packet 6) ∷ store 5 [] ∷ store 7 (packet 7) ∷ []))
run-create-IsValid_example =
    run-create-IsValid 2
      (store 5 (packet 5) ∷ store 6 (packet 6) ∷ store 5 [] ∷ store 7 (packet 7) ∷ [])

abbrev sent : JsMap Bytes
sent = (65534, packet 1) ∷ (65535, packet 2) ∷ (0, packet 3) ∷ []

get-send_all_example : Fifo.get (send_all (create 2) sent) 65535 ≡ some (packet 2)
get-send_all_example = get-send_all 2 sent 65535 (refl, (refl, (refl, tt)))

set-remember_example : (Fifo.set (create 1) 9 (packet 9)).packets ≡ remember 1 [] 9 (packet 9)
unfolding create
set-remember_example = set-remember (create 1) 9 (packet 9) (create-IsValid 1)

read-encode_audio_header_example :
    (encode_audio_header (λ i. i) 0x80 0xE0 65535 4294967295 1 >>= read_audio_header)
    ≡ some (0x80, 0xE0, 65535, 4294967295, 1)
read-encode_audio_header_example =
    read-encode_audio_header (λ i. i) 0x80 0xE0 65535 4294967295 1 (omega arith) (omega arith)
      (omega arith) (omega arith) (omega arith)

abbrev numbered_packet : ℕ → Bytes
numbered_packet n = 0x80 ∷ 0x60 ∷ 0xFF ∷ n ∷ 7 ∷ []

abbrev numbered_packets : JsMap Bytes
numbered_packets =
    (0xFFFD, numbered_packet 0xFD)
    ∷ (0xFFFE, numbered_packet 0xFE)
    ∷ (0xFFFF, numbered_packet 0xFF)
    ∷ []

on_message-send_all_example :
    (on_message true
        (send_all (create 2) numbered_packets)
        (0x80 ∷ 0xD5 ∷ 0 ∷ 1 ∷ 0xFF ∷ 0xFD ∷ 0 ∷ 4 ∷ [])
      >>= λ sent. some (map read_response sent))
    ≡ some (
        some (0xFFFD, 0 ∷ 0 ∷ 0 ∷ 0 ∷ [])
        ∷ some (0xFFFE, numbered_packet 0xFE)
        ∷ some (0xFFFF, numbered_packet 0xFF)
        ∷ some (0, 0 ∷ 0 ∷ 0 ∷ 0 ∷ [])
        ∷ [])
on_message-send_all_example =
    on_message-send_all 2 numbered_packets (0x80 ∷ 0xD5 ∷ 0 ∷ 1 ∷ 0xFF ∷ 0xFD ∷ 0 ∷ 4 ∷ []) 0xFFFD 4
      (refl, (refl, (refl, tt))) (refl, (refl, (refl, tt))) refl refl refl

-- A stream whose timestamp wraps around: 44,100 samples after the anchor are a second.
ntp_from_ts-elapsed_example :
    (1000 ≤ ntp_from_ts 43100 44100 4294966296 1000)
    × ((ntp_from_ts 43100 44100 4294966296 1000 - 1000) * 44100 ≤ 44100 * 2 ^ 32)
    × (44100 * 2 ^ 32 < (ntp_from_ts 43100 44100 4294966296 1000 - 1000) * 44100 + 2 * 44100)
ntp_from_ts-elapsed_example =
    ntp_from_ts-elapsed 4294966296 1000 44100 44100 (omega arith) (omega arith) (omega arith)

-- Two frames to a packet, three frames of silence at the end: a short read is filled up.
abbrev some_sender : Sender
some_sender = record {
  source = some (1 ∷ 2 ∷ 3 ∷ 4 ∷ 5 ∷ 6 ∷ 7 ∷ 8 ∷ []) ∷ some (9 ∷ []) ∷ [];
  packet_size = 8;
  frame_size = 4;
  latency = 3;
  padding_sent = 0;
  rtpseq = 65535;
  head_ts = 4294967295;
  session_id = 7;
  backlog = record { max_size = 1000; packets = []; order = [] };
  sent = [];
}

stream_data-InOrder_example :
    InOrder some_sender (stream_data (λ i. i) (λ p. true) (λ i. true) (λ i. 1000) 6 0 0 some_sender)
stream_data-InOrder_example =
    stream_data-InOrder (λ i. i) (λ p. true) (λ i. true) (λ i. 1000) 6 0 0 some_sender (omega arith)

abbrev sent_of : Ended → List Bytes
sent_of out_of_fuel = []
sent_of (threw s) = []
sent_of (finished s) = s.sent

four_packets :
    sent_of (stream_data (λ i. i) (λ p. true) (λ i. true) (λ i. 1000) 6 0 0 some_sender)
    ≡ (0x80 ∷ 0xE0 ∷ 255 ∷ 255 ∷ 255 ∷ 255 ∷ 255 ∷ 255 ∷ 0 ∷ 0 ∷ 0 ∷ 7 ∷ 1 ∷ 2 ∷ 3 ∷ 4 ∷ 5 ∷ 6 ∷ 7
        ∷ 8 ∷ [])
      ∷ (0x80 ∷ 0x60 ∷ 0 ∷ 0 ∷ 0 ∷ 0 ∷ 0 ∷ 1 ∷ 0 ∷ 0 ∷ 0 ∷ 7 ∷ 9 ∷ 0 ∷ 0 ∷ 0 ∷ 0 ∷ 0 ∷ 0 ∷ 0 ∷ [])
      ∷ (0x80 ∷ 0x60 ∷ 0 ∷ 1 ∷ 0 ∷ 0 ∷ 0 ∷ 3 ∷ 0 ∷ 0 ∷ 0 ∷ 7 ∷ 0 ∷ 0 ∷ 0 ∷ 0 ∷ 0 ∷ 0 ∷ 0 ∷ 0 ∷ [])
      ∷ (0x80 ∷ 0x60 ∷ 0 ∷ 2 ∷ 0 ∷ 0 ∷ 0 ∷ 5 ∷ 0 ∷ 0 ∷ 0 ∷ 7 ∷ 0 ∷ 0 ∷ 0 ∷ 0 ∷ 0 ∷ 0 ∷ 0 ∷ 0 ∷ [])
      ∷ []
unfolding stream_data encode_audio_header Fifo.set
four_packets = refl
