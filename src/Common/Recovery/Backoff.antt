-- ===== src/Common/Recovery/Backoff.antt =====
-- The delays between attempts, and the run in which every attempt fails.
use apple_protocols.Prelude.{
  ℕ, zero, suc, ◌+◌, ◌*◌, ◌≤◌, ◌<◌, min, List, [], ◌∷◌, ◌++◌, none, some, Bool, true, false, length,
  if◌then◌else◌, ◌≡◌, refl, ap, arith, inl, inr, Bool-cases, append_assoc, ltb, le→leb,
  gt→leb_false,
}
use apple_protocols.Common.Recovery.{
  Options, Event, recovering, failed, Recovery, create, calculate_delay, Input, disconnected,
  retry_fired, reconnect_failed, run,
}
use native.Mathlib.Nat.{pow-suc}

-- With exponential backoff the first delay is the base delay, or the maximum where that is less, and
-- each later one is the double of the one before, or the maximum where that is less; without it
-- every delay is the base delay.
pub calculate_delay_lem :
    (options : Options) (attempt : ℕ)
    → 1 ≤ attempt
    → (calculate_delay options 1 ≡ (
        if options.use_exponential_backoff
        then min options.base_delay options.max_delay
        else options.base_delay))
      × (calculate_delay options (suc attempt) ≡ (
          if options.use_exponential_backoff
          then min (2 * calculate_delay options attempt) options.max_delay
          else options.base_delay))
unfolding calculate_delay
calculate_delay_lem options zero h = absurd (omega arith)
calculate_delay_lem options (suc k) h = (
  ground arith,
  ground (arith, pow-suc 2 k, ap (λ (t : ℕ). options.base_delay * t) (pow-suc 2 k)),
)

-- A recovering object with no callback but its timer.
abbrev waiting : Options → Bool → ℕ → List ℕ → List Event → Recovery
waiting options interval attempt errors emitted = record {
  options = options;
  attempt = attempt;
  errors = errors;
  is_recovering = true;
  is_scheduled_reconnecting = false;
  retry = some (record { captured = 0; delay = calculate_delay options attempt });
  interval = interval;
  disposed = false;
  generation = 0;
  in_flight = [];
  scheduled = 0;
  emitted = emitted;
}

-- Each attempt's timer fires, and its reconnection throws the next error.
abbrev pub all_fail : List ℕ → List Input
all_fail [] = []
all_fail (error ∷ errors) = retry_fired ∷ reconnect_failed 0 error ∷ all_fail errors

fail_next :
    (options : Options) (interval : Bool) (k : ℕ) (errors : List ℕ) (emitted : List Event) (e : ℕ)
    (is : List Input)
    → k < options.max_attempts
    → run (waiting options interval k errors emitted) (retry_fired ∷ reconnect_failed 0 e ∷ is)
      ≡ run
          (waiting options interval
            (k + 1)
            (errors ++ (e ∷ []))
            (emitted ++ (recovering (k + 1) ∷ [])))
          is
unfolding run
fail_next options interval k errors emitted e is h = rw (gt→leb_false options.max_attempts k h)

fail_last :
    (options : Options) (interval : Bool) (k : ℕ) (errors : List ℕ) (emitted : List Event) (e : ℕ)
    → options.max_attempts ≤ k
    → let r =
        run (waiting options interval k errors emitted) (retry_fired ∷ reconnect_failed 0 e ∷ []) in
      (r.is_recovering ≡ false)
      × (r.retry ≡ none)
      × (r.emitted ≡ emitted ++ (failed (errors ++ (e ∷ [])) ∷ []))
unfolding run
fail_last options interval k errors emitted e h =
    rw (le→leb options.max_attempts k h) (refl, refl, refl)

-- The attempts that are announced for a list of failures, counted from the one after `k`.
abbrev pub announced : ℕ → List ℕ → List Event
announced k [] = []
announced k (e ∷ es) = recovering (k + 1) ∷ announced (k + 1) es

-- The object has given up: it waits for nothing, and these are the events that it emitted.
abbrev pub GivesUp : Recovery → List Event → Type 0
GivesUp r events = (r.is_recovering ≡ false) × (r.retry ≡ none) × (r.emitted ≡ events)

run-all_fail :
    (options : Options) (interval : Bool) (k : ℕ) (errors : List ℕ) (emitted : List Event) (e : ℕ)
    (es : List ℕ)
    → k + length es ≡ options.max_attempts
    → GivesUp
        (run (waiting options interval k errors emitted) (all_fail (e ∷ es)))
        (emitted ++ (announced k es ++ (failed (errors ++ (e ∷ es)) ∷ [])))
run-all_fail options interval k errors emitted e [] h =
    fail_last options interval k errors emitted e (omega arith)
run-all_fail options interval k errors emitted e (x ∷ es) h =
    rw (fail_next options interval k errors emitted e (all_fail (x ∷ es)) (omega arith)) (
      rw
        (
          ← append_assoc errors (e ∷ []) (x ∷ es),
          ← append_assoc emitted (recovering (k + 1) ∷ [])
              (announced (k + 1) es ++ (failed ((errors ++ (e ∷ [])) ++ (x ∷ es)) ∷ [])),
        )
        (run-all_fail options interval (k + 1) (errors ++ (e ∷ []))
          (emitted ++ (recovering (k + 1) ∷ [])) x es (omega arith)))

first_attempt :
    (options : Options) (inputs : List Input)
    → 1 ≤ options.max_attempts
    → run (create options) (disconnected true ∷ inputs)
      ≡ run (waiting options false 1 [] (recovering 1 ∷ [])) inputs
unfolding run create
first_attempt options inputs h = elim (Bool-cases (ltb 0 options.reconnect_interval)) [
  | inl on ↦ rw (on, gt→leb_false options.max_attempts 0 h)
  | inr off ↦ rw (off, gt→leb_false options.max_attempts 0 h)
]

-- When a new object that allows at least one attempt is told of an unexpected disconnect, and its
-- reconnections throw as many errors as attempts are allowed, it announces each attempt with its
-- number, then reports the failure with all the errors in their order, and waits for nothing more.
pub run-GivesUp :
    (options : Options) (errors : List ℕ)
    → 1 ≤ options.max_attempts
    → length errors ≡ options.max_attempts
    → GivesUp
        (run (create options) (disconnected true ∷ all_fail errors))
        (announced 0 errors ++ (failed errors ∷ []))
run-GivesUp options [] h n = absurd (omega arith)
run-GivesUp options (e ∷ es) h n =
    rw (first_attempt options (all_fail (e ∷ es)) h)
      (run-all_fail options false 1 [] (recovering 1 ∷ []) e es (omega arith))
