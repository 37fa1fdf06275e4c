-- ===== src/Common/Ptp/Master.antt =====
-- `PtpMaster` of packages/common/src/timing/ptp/index.ts. Timers, packets, and the callbacks of
-- sends and of socket binding are inputs of their own, in any order.
pub mod Receive
pub mod Yield
pub mod Handlers
pub mod Runs
pub mod Stopped
use apple_protocols.Prelude.{
  ℕ, zero, suc, ◌+◌, ◌%◌, ◌^◌, ◌<◌, List, [], ◌∷◌, ◌++◌, Option, none, some, Bytes, ◌>>=◌, Bool,
  true, false, not, ◌||◌, ltb, leb, bit_and, if◌then◌else◌,
}
use apple_protocols.Common.Ptp.Timestamp.{PtpTimestamp, ptp_now}
use apple_protocols.Common.Ptp.Header.{HeaderFields}
use apple_protocols.Common.Ptp.Messages.{
  Body, sync_body, delay_req_body, follow_up_body, delay_resp_body, announce_body, signaling_body,
  AnnounceBody, default_priority_1, default_priority_2, encode_sync, encode_follow_up,
  encode_announce, encode_delay_resp, encode_signaling_stop,
}
use apple_protocols.Common.Ptp.Messages.Decode.{decode_message}

pub data MasterState : Type 0 where
  idle master stopped : MasterState

-- A packet is sent from the event socket or from the general socket.
pub data Packet : Type 0 where
  event_packet general_packet : Bytes → Packet

-- `event_socket` and `general_socket` tell whether the field holds a socket, `binding_event` and
-- `binding_general` count the calls of `start` that await the first and the second socket, and
-- `sent` is the log of what was handed to the sockets.
pub record PtpMaster : Type 0 where
  pub clock_identity : Bytes
  pub state : MasterState
  pub event_socket : Bool
  pub general_socket : Bool
  pub sync_timer : Bool
  pub announce_timer : Bool
  pub sync_sequence_id : ℕ
  pub announce_sequence_id : ℕ
  pub signaling_sequence_id : ℕ
  pub syncs_sent : ℕ
  pub announces_sent : ℕ
  pub delay_reqs_received : ℕ
  pub delay_resps_sent : ℕ
  pub announces_received : ℕ
  pub binding_event : ℕ
  pub binding_general : ℕ
  pub sent : List Packet

unfoldable pub create : Bytes → PtpMaster
create clock_identity = record {
  clock_identity = clock_identity;
  state = idle;
  event_socket = false;
  general_socket = false;
  sync_timer = false;
  announce_timer = false;
  sync_sequence_id = 0;
  announce_sequence_id = 0;
  signaling_sequence_id = 0;
  syncs_sent = 0;
  announces_sent = 0;
  delay_reqs_received = 0;
  delay_resps_sent = 0;
  announces_received = 0;
  binding_event = 0;
  binding_general = 0;
  sent = [];
}

abbrev pub is_idle : MasterState → Bool
is_idle idle = true
is_idle _ = false

-- `start` up to its first `await`.
unfoldable pub start : PtpMaster → PtpMaster
start m = if is_idle m.state then record m { binding_event = m.binding_event + 1 } else m

-- `start` behind its first `await`, which ended with a socket or with an error.
unfoldable pub event_bound : Bool → PtpMaster → ℕ → PtpMaster
event_bound failed m zero = m
event_bound failed m (suc n) = if failed then record m { binding_event = n } else record m {
  event_socket = true;
  binding_event = n;
  binding_general = m.binding_general + 1;
}

-- `start` behind its second `await`. When the event socket is gone by then, its `address()` throws
-- and `start` is rejected, with the general socket kept.
unfoldable pub general_bound : Bool → PtpMaster → ℕ → PtpMaster
general_bound failed m zero = m
general_bound failed m (suc n) =
    if failed
    then record m { binding_general = n }
    else if not m.event_socket
    then record m { general_socket = true; binding_general = n }
    else record m {
      general_socket = true;
      state = master;
      sync_timer = true;
      announce_timer = true;
      binding_general = n;
    }

unfoldable pub stop : PtpMaster → PtpMaster
stop m = record m {
  sync_timer = false;
  announce_timer = false;
  event_socket = false;
  general_socket = false;
  state = stopped;
}

-- `socket?.send(…)`: nothing is sent from a socket that is not open.
unfoldable pub send_general : Bytes → PtpMaster → PtpMaster
send_general packet m =
    if m.general_socket then record m { sent = m.sent ++ (general_packet packet ∷ []) } else m

-- The answer to a DelayReq; `none` is an error that is thrown.
unfoldable pub on_event_body : ℕ → HeaderFields → Body → PtpMaster → Option PtpMaster
unfolding send_general
on_event_body now_ms header (delay_req_body _) m =
    encode_delay_resp header.sequence_id m.clock_identity (ptp_now now_ms)
      header.source_port_identity
    >>= λ response.
        some (send_general response (record m { delay_reqs_received = m.delay_reqs_received + 1 }))
on_event_body now_ms header _ m = some m

unfoldable pub on_event_decoded : ℕ → Option (HeaderFields × Body) → PtpMaster → Option PtpMaster
unfolding on_event_body
on_event_decoded now_ms none m = some m
on_event_decoded now_ms (some (header, body)) m = on_event_body now_ms header body m

unfoldable pub on_event_packet : Bytes → ℕ → PtpMaster → Option PtpMaster
unfolding on_event_decoded
on_event_packet buf now_ms m = decode_message buf >>= λ decoded. on_event_decoded now_ms decoded m

unfoldable pub send_signaling_stop : Bytes → PtpMaster → Option PtpMaster
unfolding send_general
send_signaling_stop target m =
    let sequence_id = bit_and (m.signaling_sequence_id + 1) 0xFFFF in
    if not m.general_socket
    then some m
    else (encode_signaling_stop sequence_id m.clock_identity target >>= λ signaling.
        some (send_general signaling (record m { signaling_sequence_id = sequence_id })))

unfoldable pub on_general_body : HeaderFields → Body → PtpMaster → Option PtpMaster
unfolding send_signaling_stop stop
on_general_body header (announce_body body) m =
    let counted = record m { announces_received = m.announces_received + 1 } in
    if leb default_priority_1 body.grandmaster_priority_1
    then some counted
    else (send_signaling_stop header.source_port_identity counted >>= λ m'. some (stop m'))
on_general_body header _ m = some m

unfoldable pub on_general_decoded : Option (HeaderFields × Body) → PtpMaster → Option PtpMaster
unfolding on_general_body
on_general_decoded none m = some m
on_general_decoded (some (header, body)) m = on_general_body header body m

unfoldable pub on_general_packet : Bytes → PtpMaster → Option PtpMaster
unfolding on_general_decoded
on_general_packet buf m = decode_message buf >>= λ decoded. on_general_decoded decoded m

-- The sync timer's callback, and the callback of the send that it makes.
unfoldable pub send_sync_and_follow_up : PtpMaster → Option PtpMaster
send_sync_and_follow_up m =
    let sequence_id = bit_and (m.sync_sequence_id + 1) 0xFFFF in
    if not m.event_socket || not m.general_socket
    then some m
    else (encode_sync sequence_id m.clock_identity >>= λ packet.
        some (record m {
          sync_sequence_id = sequence_id;
          sent = m.sent ++ (event_packet packet ∷ []);
        }))

unfoldable pub sync_sent : ℕ → Bool → ℕ → PtpMaster → Option PtpMaster
unfolding send_general
sync_sent sequence_id failed now_ms m =
    if failed
    then some m
    else (encode_follow_up sequence_id m.clock_identity (ptp_now now_ms) >>= λ follow_up.
        some (send_general follow_up (record m { syncs_sent = m.syncs_sent + 1 })))

unfoldable pub send_announce : PtpMaster → Option PtpMaster
unfolding send_general
send_announce m =
    let sequence_id = bit_and (m.announce_sequence_id + 1) 0xFFFF in
    if not m.general_socket
    then some m
    else (encode_announce sequence_id m.clock_identity default_priority_1 default_priority_2
        >>= λ packet. some (send_general packet (record m { announce_sequence_id = sequence_id })))

-- Timers and packets come at any time, since a second `start` replaces the first one's timers and
-- sockets without stopping them. The flag of a callback tells that it failed.
pub data Input : Type 0 where
  start_called : Input
  event_was_bound : Bool → Input
  general_was_bound : Bool → Input
  stop_called : Input
  event_arrived : Bytes → ℕ → Input
  general_arrived : Bytes → Input
  sync_fired : Input
  sync_was_sent : ℕ → Bool → ℕ → Input
  announce_fired : Input
  announce_was_sent : Bool → Input
  delay_resp_was_sent : Bool → Input

unfoldable pub step : PtpMaster → Input → Option PtpMaster
unfolding start event_bound general_bound stop on_event_packet on_general_packet
    send_sync_and_follow_up sync_sent send_announce
step m start_called = some (start m)
step m (event_was_bound failed) = some (event_bound failed m m.binding_event)
step m (general_was_bound failed) = some (general_bound failed m m.binding_general)
step m stop_called = some (stop m)
step m (event_arrived buf now_ms) = on_event_packet buf now_ms m
step m (general_arrived buf) = on_general_packet buf m
step m sync_fired = send_sync_and_follow_up m
step m (sync_was_sent sequence_id failed now_ms) = sync_sent sequence_id failed now_ms m
step m announce_fired = send_announce m
step m (announce_was_sent failed) =
    some (if failed then m else record m { announces_sent = m.announces_sent + 1 })
step m (delay_resp_was_sent failed) =
    some (if failed then m else record m { delay_resps_sent = m.delay_resps_sent + 1 })

unfoldable pub run : PtpMaster → List Input → Option PtpMaster
unfolding step
run m [] = some m
run m (i ∷ inputs) = step m i >>= λ m'. run m' inputs
