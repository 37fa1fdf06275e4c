-- ===== src/Common/Ptp/Master/Runs.antt =====
-- What runs of the master hand to its sockets, and that nothing follows a stop.
use apple_protocols.Prelude.{
  ℕ, zero, suc, ◌+◌, List, [], ◌∷◌, some, Bytes, Bool, true, false, not, All, All-append, length,
  Bool-cases, ◌≡◌, inl, inr, refl, sym, ◌∙◌,
}
use mathlib.Core.Path.{subst}
use apple_protocols.Common.Ptp.Master.{
  PtpMaster, master, create, start, event_bound, general_bound, stop, is_idle, Input, start_called,
  event_was_bound, general_was_bound, stop_called, event_arrived, general_arrived, sync_fired,
  sync_was_sent, announce_fired, announce_was_sent, delay_resp_was_sent, step, run, on_event_packet,
  on_general_packet,
}
use apple_protocols.Common.Ptp.Master.Handlers.{
  FitsInput, IsOurs, Sends, Handles, event_decoded-Handles, general_decoded-Handles,
  sync_fired-Handles, sync_sent-Handles, announce_fired-Handles,
}

-- What is neither a packet nor a timer sends nothing.
start-Handles : (m : PtpMaster) → Handles m (some (start m))
unfolding start
start-Handles m = elim (Bool-cases (is_idle m.state)) [
  | inl free ↦ (record m { binding_event = m.binding_event + 1 }, simp free, refl, inl refl)
  | inr started ↦ (m, simp started, refl, inl refl)
]

event_bound-Handles :
    (m : PtpMaster) (failed : Bool) (n : ℕ) → Handles m (some (event_bound failed m n))
unfolding event_bound
event_bound-Handles m failed zero = (m, refl, refl, inl refl)
event_bound-Handles m true (suc n) = (_, refl, refl, inl refl)
event_bound-Handles m false (suc n) = (_, refl, refl, inl refl)

general_bound-Handles :
    (m : PtpMaster) (failed : Bool) (n : ℕ) → Handles m (some (general_bound failed m n))
unfolding general_bound
general_bound-Handles m failed zero = (m, refl, refl, inl refl)
general_bound-Handles m true (suc n) = (_, refl, refl, inl refl)
general_bound-Handles m false (suc n) = elim (Bool-cases (not m.event_socket)) [
  | inl closed ↦
      (record m { general_socket = true; binding_general = n }, simp closed, refl, inl refl)
  | inr open_ ↦ (
    record m {
      general_socket = true;
      state = master;
      sync_timer = true;
      announce_timer = true;
      binding_general = n;
    },
    simp open_,
    refl,
    inl refl,
  )
]

pub step-Handles :
    (m : PtpMaster) (i : Input) → length m.clock_identity ≡ 8 → FitsInput i → Handles m (step m i)
unfolding step on_event_packet on_general_packet stop
step-Handles m start_called eight f = start-Handles m
step-Handles m (event_was_bound failed) eight f = event_bound-Handles m failed m.binding_event
step-Handles m (general_was_bound failed) eight f = general_bound-Handles m failed m.binding_general
step-Handles m stop_called eight f = (_, refl, refl, inl refl)
step-Handles m (event_arrived buf now_ms) eight (bytes, h) =
    event_decoded-Handles m eight now_ms buf _ bytes h refl
step-Handles m (general_arrived buf) eight bytes = general_decoded-Handles m eight buf _ bytes refl
step-Handles m sync_fired eight f = sync_fired-Handles m eight
step-Handles m (sync_was_sent seq failed now_ms) eight (small, h) =
    sync_sent-Handles m eight seq now_ms failed small h
step-Handles m announce_fired eight f = announce_fired-Handles m eight
step-Handles m (announce_was_sent true) eight f = (_, refl, refl, inl refl)
step-Handles m (announce_was_sent false) eight f = (_, refl, refl, inl refl)
step-Handles m (delay_resp_was_sent true) eight f = (_, refl, refl, inl refl)
step-Handles m (delay_resp_was_sent false) eight f = (_, refl, refl, inl refl)

-- One more packet of ours, or none, leaves all packets ours.
Sends-IsOurs :
    (m m' : PtpMaster)
    → Sends m m'
    → All (IsOurs m.clock_identity) m.sent
    → All (IsOurs m.clock_identity) m'.sent
Sends-IsOurs m m' (inl same) all = subst (All (IsOurs m.clock_identity)) (sym same) all
Sends-IsOurs m m' (inr (packet, ours, more)) all =
    subst (All (IsOurs m.clock_identity)) (sym more)
      (All-append (IsOurs m.clock_identity) m.sent (packet ∷ []) all (ours, tt))

run-IsOurs_of :
    (m : PtpMaster) (inputs : List Input) (id : Bytes)
    → m.clock_identity ≡ id
    → length id ≡ 8
    → All FitsInput inputs
    → All (IsOurs id) m.sent
    → (m' : PtpMaster) × (run m inputs ≡ some m') × All (IsOurs id) m'.sent
unfolding run
run-IsOurs_of m [] id c eight fits all = (m, refl, all)
run-IsOurs_of m (i ∷ inputs) id c eight (f, fits) all =
    let (m', e, c', sends) = step-Handles m i (rw c eight) f in
    rw e (
      run-IsOurs_of m' inputs id (c' ∙ c) eight fits (
        subst (λ x. All (IsOurs x) m'.sent) c
          (Sends-IsOurs m m' sends (subst (λ x. All (IsOurs x) m.sent) (sym c) all))))

-- Whatever packets arrive and in whatever order timers, callbacks, `start` and `stop` come, a new
-- master with a clock identity of eight bytes throws no error, and all that it hands to the sockets
-- are messages that decode, with its port identity as their source: those on the event socket have
-- a type below 8, and those on the general socket one of 8 and above.
pub run_master-IsOurs :
    (id : Bytes) (inputs : List Input)
    → length id ≡ 8
    → All FitsInput inputs
    → (m : PtpMaster) × (run (create id) inputs ≡ some m) × All (IsOurs id) m.sent
unfolding create
run_master-IsOurs id inputs eight fits = run-IsOurs_of _ inputs id refl eight fits tt
