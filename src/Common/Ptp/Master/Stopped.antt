-- ===== src/Common/Ptp/Master/Stopped.antt =====
-- Nothing follows a stop, unless `start` was awaiting its sockets.
use apple_protocols.Prelude.{
  ℕ, ◌+◌, List, [], ◌∷◌, Option, none, some, Bytes, ◌>>=◌, >>=-eq_some, Bool, true, false, All,
  length, leb, Bool-cases, ◌≡◌, inl, inr, refl, ◌∙◌, arith,
}
use apple_protocols.Common.Ptp.Timestamp.{ptp_now}
use apple_protocols.Common.Ptp.Header.{HeaderFields}
use apple_protocols.Common.Ptp.Messages.{
  Body, sync_body, delay_req_body, follow_up_body, delay_resp_body, announce_body, signaling_body,
  default_priority_1, encode_delay_resp, encode_follow_up,
}
use apple_protocols.Common.Ptp.Messages.Decode.{decode_message}
use apple_protocols.Common.Ptp.Master.{
  PtpMaster, idle, master, stopped, start, event_bound, general_bound, stop, Input, start_called,
  event_was_bound, general_was_bound, stop_called, event_arrived, general_arrived, sync_fired,
  sync_was_sent, announce_fired, announce_was_sent, delay_resp_was_sent, step, run, on_event_packet,
  on_event_decoded, on_event_body, on_general_packet, on_general_decoded, on_general_body,
  sync_sent, send_general, send_signaling_stop, send_sync_and_follow_up, send_announce,
}
use apple_protocols.Common.Ptp.Master.Handlers.{FitsInput}
use apple_protocols.Common.Ptp.Master.Runs.{step-Handles}

-- Stopped, with no socket and no `start` under way.
abbrev pub Down : PtpMaster → Type 0
Down m =
    (m.state ≡ stopped)
    × (m.event_socket ≡ false)
    × (m.general_socket ≡ false)
    × (m.binding_event ≡ 0)
    × (m.binding_general ≡ 0)

-- The handler, if it throws nothing, leaves the master down, and nothing more sent.
abbrev Silent : PtpMaster → Option PtpMaster → Type 0
Silent m o = (m' : PtpMaster) → o ≡ some m' → Down m' × (m'.sent ≡ m.sent)

module _ (m : PtpMaster) (down : Down m) where
  silent : Silent m (some m)
  silent m' e = let same : m ≡ m' = cc in rw (← same) (down, refl)

  event_body-Silent :
      (now_ms : ℕ) (header : HeaderFields) (body : Body)
      → Silent m (on_event_body now_ms header body m)
  unfolding on_event_body send_general
  event_body-Silent now_ms header (delay_req_body ts) m' e =
      let (s, ev, g, b, c) = down in
      let (response, _, e') =
        >>=-eq_some
          (encode_delay_resp header.sequence_id m.clock_identity (ptp_now now_ms)
            header.source_port_identity)
          _ e in
      let same : record m { delay_reqs_received = m.delay_reqs_received + 1 } ≡ m' = ground arith in
      rw (← same) (down, refl)
  event_body-Silent now_ms header (sync_body _) m' e = silent m' e
  event_body-Silent now_ms header (follow_up_body _) m' e = silent m' e
  event_body-Silent now_ms header (delay_resp_body _ _) m' e = silent m' e
  event_body-Silent now_ms header (announce_body _) m' e = silent m' e
  event_body-Silent now_ms header (signaling_body _ _) m' e = silent m' e

  event_packet-Silent : (buf : Bytes) (now_ms : ℕ) → Silent m (on_event_packet buf now_ms m)
  unfolding on_event_packet on_event_decoded
  event_packet-Silent buf now_ms m' e =
      let (decoded, _, e') = >>=-eq_some (decode_message buf) _ e in decoded-Silent decoded e'
    where
      decoded-Silent :
          (o : Option (HeaderFields × Body))
          → on_event_decoded now_ms o m ≡ some m'
          → Down m' × (m'.sent ≡ m.sent)
      decoded-Silent none e' = silent m' e'
      decoded-Silent (some (header, body)) e' = event_body-Silent now_ms header body m' e'

  -- Yielding when down is only counted.
  announce-Silent :
      (target : Bytes)
      → Silent m (
          send_signaling_stop target (record m { announces_received = m.announces_received + 1 })
          >>= λ m'. some (stop m'))
  unfolding send_signaling_stop stop
  announce-Silent target m' e =
      let (s, ev, g, b, c) = down in
      let n : PtpMaster = stop (record m { announces_received = m.announces_received + 1 }) in
      let same : some n ≡ some m' = simp g at e in
      let same' : n ≡ m' = cc in rw (← same') ((refl, refl, refl, b, c), refl)

  general_body-Silent :
      (header : HeaderFields) (body : Body) → Silent m (on_general_body header body m)
  unfolding on_general_body
  general_body-Silent header (announce_body body) m' e =
      let counted : PtpMaster = record m { announces_received = m.announces_received + 1 } in
      elim (Bool-cases (leb default_priority_1 body.grandmaster_priority_1)) [
        | inl worse ↦
            let same : some counted ≡ some m' = simp worse at e in
            let same' : counted ≡ m' = cc in rw (← same') (down, refl)
        | inr better ↦ announce-Silent header.source_port_identity m' (simp better at e)
      ]
  general_body-Silent header (sync_body _) m' e = silent m' e
  general_body-Silent header (delay_req_body _) m' e = silent m' e
  general_body-Silent header (follow_up_body _) m' e = silent m' e
  general_body-Silent header (delay_resp_body _ _) m' e = silent m' e
  general_body-Silent header (signaling_body _ _) m' e = silent m' e

  general_packet-Silent : (buf : Bytes) → Silent m (on_general_packet buf m)
  unfolding on_general_packet on_general_decoded
  general_packet-Silent buf m' e =
      let (decoded, _, e') = >>=-eq_some (decode_message buf) _ e in decoded-Silent decoded e'
    where
      decoded-Silent :
          (o : Option (HeaderFields × Body))
          → on_general_decoded o m ≡ some m'
          → Down m' × (m'.sent ≡ m.sent)
      decoded-Silent none e' = silent m' e'
      decoded-Silent (some (header, body)) e' = general_body-Silent header body m' e'

  sync_sent-Silent : (seq now_ms : ℕ) (failed : Bool) → Silent m (sync_sent seq failed now_ms m)
  unfolding sync_sent send_general
  sync_sent-Silent seq now_ms true m' e = silent m' e
  sync_sent-Silent seq now_ms false m' e =
      let (s, ev, g, b, c) = down in
      let (follow_up, _, e') =
        >>=-eq_some (encode_follow_up seq m.clock_identity (ptp_now now_ms)) _ e in
      let same : record m { syncs_sent = m.syncs_sent + 1 } ≡ m' = ground arith in
      rw (← same) (down, refl)

  step-Silent : (i : Input) → Silent m (step m i)
  unfolding step start event_bound general_bound stop send_sync_and_follow_up send_announce
  step-Silent start_called m' e = let (s, ev, g, b, c) = down in silent m' (simp s at e)
  step-Silent (event_was_bound failed) m' e = let (s, ev, g, b, c) = down in silent m' (simp b at e)
  step-Silent (general_was_bound failed) m' e =
      let (s, ev, g, b, c) = down in silent m' (simp c at e)
  step-Silent stop_called m' e =
      let (s, ev, g, b, c) = down in
      let same : stop m ≡ m' = cc in rw (← same) ((refl, refl, refl, b, c), refl)
  step-Silent (event_arrived buf now_ms) m' e = event_packet-Silent buf now_ms m' e
  step-Silent (general_arrived buf) m' e = general_packet-Silent buf m' e
  step-Silent sync_fired m' e = let (s, ev, g, b, c) = down in silent m' (simp ev at e)
  step-Silent (sync_was_sent seq failed now_ms) m' e = sync_sent-Silent seq now_ms failed m' e
  step-Silent announce_fired m' e = let (s, ev, g, b, c) = down in silent m' (simp g at e)
  step-Silent (announce_was_sent true) m' e = silent m' e
  step-Silent (announce_was_sent false) m' e =
      let same : record m { announces_sent = m.announces_sent + 1 } ≡ m' = cc in
      rw (← same) (down, refl)
  step-Silent (delay_resp_was_sent true) m' e = silent m' e
  step-Silent (delay_resp_was_sent false) m' e =
      let same : record m { delay_resps_sent = m.delay_resps_sent + 1 } ≡ m' = cc in
      rw (← same) (down, refl)

run-Silent :
    (m : PtpMaster) (inputs : List Input)
    → Down m
    → length m.clock_identity ≡ 8
    → All FitsInput inputs
    → (m' : PtpMaster) × (run m inputs ≡ some m') × Down m' × (m'.sent ≡ m.sent)
unfolding run
run-Silent m [] down eight fits = (m, refl, down, refl)
run-Silent m (i ∷ inputs) down eight (f, fits) =
    let (m₁, e, c, _) = step-Handles m i eight f in
    let (down₁, same₁) = step-Silent m down i m₁ e in
    let (m', e', down', same) = run-Silent m₁ inputs down₁ (rw c eight) fits in
    (m', rw e e', down', same ∙ same₁)

-- When no call of `start` awaits a socket, `stop` is final: whatever packets, timers, callbacks and
-- further calls come after it, nothing throws, nothing more is sent, and the master stays stopped
-- with both sockets closed.
pub stop-Silent :
    (m : PtpMaster) (inputs : List Input)
    → m.binding_event ≡ 0
    → m.binding_general ≡ 0
    → length m.clock_identity ≡ 8
    → All FitsInput inputs
    → (m' : PtpMaster) × (run m (stop_called ∷ inputs) ≡ some m') × Down m' × (m'.sent ≡ m.sent)
unfolding run step stop
stop-Silent m inputs b g eight fits = run-Silent (stop m) inputs (refl, refl, refl, b, g) eight fits

-- A `stop` that comes while `start` awaits its first socket is undone: once both sockets are bound,
-- an idle master is in the role of master, with both sockets open and both timers running.
pub start-stop-IsMaster :
    (m : PtpMaster)
    → m.state ≡ idle
    → m.binding_event ≡ 0
    → m.binding_general ≡ 0
    → (m' : PtpMaster) × (run m
          (start_called ∷ stop_called ∷ event_was_bound false ∷ general_was_bound false ∷ [])
        ≡ some m')
      × (m'.state ≡ master)
      × (m'.event_socket ≡ true)
      × (m'.general_socket ≡ true)
      × (m'.sync_timer ≡ true)
      × (m'.announce_timer ≡ true)
unfolding run step start stop event_bound general_bound
start-stop-IsMaster m s b g = (
  record m {
    event_socket = true;
    general_socket = true;
    state = master;
    sync_timer = true;
    announce_timer = true;
    binding_event = 0;
    binding_general = 0;
  },
  simp (s, b, g),
  refl,
  refl,
  refl,
  refl,
  refl,
)
