-- ===== src/Tests/Ptp.antt =====
-- Runs and instances for packages/common/src/timing/ptp.
use apple_protocols.Prelude.{
  false, ℕ, List, [], ◌∷◌, ◌++◌, Option, none, some, Bytes, ◌>>=◌, true, false, All, length, ◌≡◌,
  refl, arith,
}
use apple_protocols.Common.Ptp.Timestamp.{PtpTimestamp, ptp_now, encode_timestamp}
use apple_protocols.Common.Ptp.Header.{encode_header}
use apple_protocols.Common.Ptp.Messages.{encode_announce, encode_sync, encode_follow_up}
use apple_protocols.Common.Ptp.Tlv.{default_follow_up_info_tlv}
use apple_protocols.Common.Ptp.Messages.Decode.{decode_message}
use apple_protocols.Common.Ptp.Messages.Sent.{Arrives, sends_delay_resp}
use apple_protocols.Common.Ptp.Messages.RoundTrip.{sent-Arrives}
use apple_protocols.Common.Ptp.Master.{
  PtpMaster, master, create, run, Input, start_called, event_was_bound, general_was_bound,
  stop_called, event_arrived, sync_fired, sync_was_sent, announce_fired, on_general_packet,
}
use apple_protocols.Common.Ptp.Master.Handlers.{FitsInput, IsOurs}
use apple_protocols.Common.Ptp.Master.Receive.{Reacts}
use apple_protocols.Common.Ptp.Master.Yield.{announce-Reacts}
use apple_protocols.Common.Ptp.Master.Runs.{run_master-IsOurs}
use apple_protocols.Common.Ptp.Master.Stopped.{Down, stop-Silent, start-stop-IsMaster}

abbrev clock : Bytes
clock = 2 ∷ 0 ∷ 0 ∷ 255 ∷ 254 ∷ 0 ∷ 0 ∷ 1 ∷ []

abbrev peer_clock : Bytes
peer_clock = 2 ∷ 0 ∷ 0 ∷ 255 ∷ 254 ∷ 0 ∷ 0 ∷ 9 ∷ []

abbrev noon : PtpTimestamp
noon = record { seconds = 1_700_000_000; nanoseconds = 250_000_000 }

sent-Arrives_example : Arrives 65535 clock (sends_delay_resp noon (peer_clock ++ (0 ∷ 1 ∷ [])))
sent-Arrives_example =
    sent-Arrives 65535 clock (sends_delay_resp noon (peer_clock ++ (0 ∷ 1 ∷ []))) (omega arith) refl
      ((omega arith, omega arith), refl)

abbrev started : PtpMaster
started = record (create clock) {
  state = master;
  event_socket = true;
  general_socket = true;
  sync_timer = true;
  announce_timer = true;
}

announce-Reacts_example :
    (m : PtpMaster) × ((encode_announce 7 peer_clock 247 128 >>= λ buf.
    on_general_packet buf started)
      ≡ some m)
    × Reacts peer_clock 247 started m
unfolding create
announce-Reacts_example =
    announce-Reacts started peer_clock 7 247 128 refl refl refl (omega arith) (omega arith)
      (omega arith)

-- A packet that is too short, a Sync and its FollowUp.
abbrev session : List Input
session =
    start_called
    ∷ event_was_bound false
    ∷ general_was_bound false
    ∷ event_arrived (1 ∷ 2 ∷ []) 1000
    ∷ sync_fired
    ∷ sync_was_sent 1 false 1500
    ∷ announce_fired
    ∷ stop_called
    ∷ sync_fired
    ∷ []

session-FitsInput : All FitsInput session
session-FitsInput = (
  tt,
  (
    tt,
    (
      tt,
      (
        ((omega arith, (omega arith, tt)), omega arith),
        (tt, ((omega arith, omega arith), (tt, (tt, (tt, tt))))),
      ),
    ),
  ),
)

abbrev packets_sent : Option PtpMaster → ℕ
packets_sent none = 0
packets_sent (some m) = length m.sent

session_packets : packets_sent (run (create clock) session) ≡ 3
unfolding run create decode_message encode_sync encode_header encode_timestamp encode_follow_up
    ptp_now default_follow_up_info_tlv encode_announce
session_packets = refl

run_master-IsOurs_example :
    (m : PtpMaster) × (run (create clock) session ≡ some m) × All (IsOurs clock) m.sent
run_master-IsOurs_example = run_master-IsOurs clock session refl session-FitsInput

stop-Silent_example :
    (m : PtpMaster) × (run started (stop_called ∷ sync_fired ∷ start_called ∷ announce_fired ∷ [])
      ≡ some m)
    × Down m
    × (m.sent ≡ [])
unfolding create
stop-Silent_example =
    stop-Silent started (sync_fired ∷ start_called ∷ announce_fired ∷ []) refl refl refl
      (tt, (tt, (tt, tt)))

start-stop-IsMaster_example :
    (m : PtpMaster) × (run
        (create clock)
        (start_called ∷ stop_called ∷ event_was_bound false ∷ general_was_bound false ∷ [])
      ≡ some m)
    × (m.state ≡ master)
    × (m.event_socket ≡ true)
    × (m.general_socket ≡ true)
    × (m.sync_timer ≡ true)
    × (m.announce_timer ≡ true)
unfolding create
start-stop-IsMaster_example = start-stop-IsMaster (create clock) refl refl refl
