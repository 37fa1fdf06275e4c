-- ===== src/Tests/Common.antt =====
-- Runs and instances for packages/common/src.
use apple_protocols.Prelude.{
  ◌>>=◌, ◌+◌, some, ◌/◌, ◌*◌, min, List, [], ◌∷◌, ◌++◌, true, if◌then◌else◌, ◌≡◌, refl, arith,
}
use apple_protocols.Encoding.Ntp
use apple_protocols.Encoding.Ntp.{PacketFields, now, parts}
use apple_protocols.Common.Timing.{on_message, on_message-Answers}
use apple_protocols.Common.Recovery.{
  default_options, recovering, failed, create, calculate_delay, Input, disconnected, reset_called,
  retry_fired, reconnected, reconnect_failed, run,
}
use apple_protocols.Common.Recovery.Invariant.{IsValid}
use apple_protocols.Common.Recovery.Callbacks.{run_recovery-IsValid}
use apple_protocols.Common.Recovery.Backoff.{
  calculate_delay_lem, all_fail, announced, GivesUp, run-GivesUp,
}

-- An attempt fails, a reset comes while the second one awaits its reconnection, which then returns.
abbrev disturbed : List Input
disturbed =
    disconnected true
    ∷ retry_fired
    ∷ reconnect_failed 0 7
    ∷ retry_fired
    ∷ reset_called
    ∷ reconnected 0
    ∷ disconnected true
    ∷ []

disturbed_events :
    (run (create default_options) disturbed).emitted
    ≡ recovering 1 ∷ recovering 2 ∷ recovering 1 ∷ []
unfolding run create
disturbed_events = refl

run_recovery-IsValid_example : IsValid (run (create default_options) disturbed)
run_recovery-IsValid_example = run_recovery-IsValid default_options disturbed

calculate_delay_lem_example :
    (calculate_delay default_options 1 ≡ (if true then min 1000 30000 else 1000))
    × (calculate_delay default_options 6
        ≡ (if true then min (2 * calculate_delay default_options 5) 30000 else 1000))
calculate_delay_lem_example = calculate_delay_lem default_options 5 (omega arith)

last_delay : calculate_delay default_options 6 ≡ 30000
unfolding calculate_delay
last_delay = refl

run-GivesUp_example :
    GivesUp
      (run (create default_options) (disconnected true ∷ all_fail (4 ∷ 5 ∷ 6 ∷ [])))
      (announced 0 (4 ∷ 5 ∷ 6 ∷ []) ++ (failed (4 ∷ 5 ∷ 6 ∷ []) ∷ []))
run-GivesUp_example = run-GivesUp default_options (4 ∷ 5 ∷ 6 ∷ []) (omega arith) (omega arith)

abbrev request : PacketFields
request = record {
  proto = 0x80;
  type = 0xD2;
  seqno = 7;
  padding = 0;
  reftime_sec = 0;
  reftime_frac = 0;
  recvtime_sec = 0;
  recvtime_frac = 0;
  sendtime_sec = 3900000000;
  sendtime_frac = 4000000000;
}

on_message-Answers_example :
    ((Ntp.encode (λ i. 0) request >>= λ packet. on_message (λ i. 0xAA) packet 1700000000500)
      >>= Ntp.decode)
    ≡ some (record {
      proto = 0x80;
      type = 0xD3;
      seqno = 7;
      padding = 0;
      reftime_sec = 3900000000;
      reftime_frac = 4000000000;
      recvtime_sec = 1700000000500 / 1000 + 2208988800;
      recvtime_frac = (parts (now 1700000000500)).1;
      sendtime_sec = 1700000000500 / 1000 + 2208988800;
      sendtime_frac = (parts (now 1700000000500)).1;
    })
on_message-Answers_example =
    on_message-Answers (λ i. 0) (λ i. 0xAA) request 1700000000500 (omega arith) (omega arith)
