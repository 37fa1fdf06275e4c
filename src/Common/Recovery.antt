-- ===== src/Common/Recovery.antt =====
-- `ConnectionRecovery` of packages/common/src/recovery.ts. The callbacks of timers and awaited
-- promises are inputs of their own, so that a run is any interleaving of them with the method
-- calls. Listeners of the events do not call back.
pub mod Counting
pub mod Invariant
pub mod Callbacks
pub mod Backoff
use apple_protocols.Prelude.{
  ℕ, zero, suc, ◌+◌, ◌-◌, ◌*◌, ◌^◌, ◌≤◌, min, List, [], ◌∷◌, ◌++◌, Option, none, some, Bool, true,
  false, ◌||◌, not, ltb, leb, ◌==◌, if◌then◌else◌,
}

pub record Options : Type 0 where
  pub max_attempts : ℕ
  pub base_delay : ℕ
  pub max_delay : ℕ
  pub use_exponential_backoff : Bool
  pub reconnect_interval : ℕ

abbrev pub default_options : Options
default_options = record {
  max_attempts = 3;
  base_delay = 1000;
  max_delay = 30000;
  use_exponential_backoff = true;
  reconnect_interval = 0;
}

-- An error that the reconnect callback threw is known by a number.
pub data Event : Type 0 where
  recovering : ℕ → Event
  recovered : Event
  failed : List ℕ → Event

-- The pending retry timer: the generation that its callback captured, and its delay.
pub record Retry : Type 0 where
  pub captured : ℕ
  pub delay : ℕ

-- `in_flight` holds, for each retry callback that awaits `onReconnect`, the generation that it
-- captured; `scheduled` counts the interval callbacks that await it; `interval` tells whether the
-- interval timer is set. `emitted` is the log of the events, in their order.
pub record Recovery : Type 0 where
  pub options : Options
  pub attempt : ℕ
  pub errors : List ℕ
  pub is_recovering : Bool
  pub is_scheduled_reconnecting : Bool
  pub retry : Option Retry
  pub interval : Bool
  pub disposed : Bool
  pub generation : ℕ
  pub in_flight : List ℕ
  pub scheduled : ℕ
  pub emitted : List Event

unfoldable pub emit : Event → Recovery → Recovery
emit e r = record r { emitted = r.emitted ++ (e ∷ []) }

-- `#startReconnectInterval` replaces the interval timer, so there is one afterwards.
unfoldable pub start_reconnect_interval : Recovery → Recovery
start_reconnect_interval r = record r { interval = true }

unfoldable pub stop_reconnect_interval : Recovery → Recovery
stop_reconnect_interval r = record r { interval = false }

unfoldable pub restart_interval_if_configured : Recovery → Recovery
unfolding start_reconnect_interval
restart_interval_if_configured r =
    if ltb 0 r.options.reconnect_interval then start_reconnect_interval r else r

unfoldable pub create : Options → Recovery
unfolding restart_interval_if_configured
create options = restart_interval_if_configured (record {
  options = options;
  attempt = 0;
  errors = [];
  is_recovering = false;
  is_scheduled_reconnecting = false;
  retry = none;
  interval = false;
  disposed = false;
  generation = 0;
  in_flight = [];
  scheduled = 0;
  emitted = [];
})

unfoldable pub calculate_delay : Options → ℕ → ℕ
calculate_delay options attempt =
    if not options.use_exponential_backoff
    then options.base_delay
    else min (options.base_delay * 2 ^ (attempt - 1)) options.max_delay

-- The part of `#recover` that starts a new attempt.
unfoldable pub start_attempt : Recovery → Recovery
unfolding emit calculate_delay
start_attempt r =
    let attempt = r.attempt + 1 in
    let announced =
      emit (recovering attempt) (record r { is_recovering = true; attempt = attempt }) in
    record announced {
      retry = some (record { captured = r.generation; delay = calculate_delay r.options attempt });
    }

unfoldable pub recover : Recovery → Recovery
unfolding start_attempt
recover r =
    if r.is_recovering || r.disposed
    then r
    else if leb r.options.max_attempts r.attempt
    then emit (failed r.errors) r
    else start_attempt r

unfoldable pub handle_disconnect : Bool → Recovery → Recovery
unfolding recover stop_reconnect_interval
handle_disconnect unexpected r =
    if r.disposed || not unexpected then r else recover (stop_reconnect_interval r)

unfoldable pub reset : Recovery → Recovery
unfolding restart_interval_if_configured
reset r = restart_interval_if_configured (record r {
  generation = r.generation + 1;
  attempt = 0;
  errors = [];
  is_recovering = false;
  retry = none;
})

unfoldable pub dispose : Recovery → Recovery
unfolding stop_reconnect_interval
dispose r = stop_reconnect_interval (record r {
  generation = r.generation + 1;
  disposed = true;
  is_recovering = false;
  is_scheduled_reconnecting = false;
  retry = none;
})

-- `this.#disposed || generation !== this.#generation`.
abbrev pub is_stale : ℕ → Recovery → Bool
is_stale captured r = r.disposed || not (captured == r.generation)

-- The retry timer's callback up to the `await`.
unfoldable pub fire_retry : Recovery → Option Retry → Recovery
fire_retry r none = r
fire_retry r (some t) =
    if is_stale t.captured r
    then record r { retry = none }
    else record r { retry = none; in_flight = t.captured ∷ r.in_flight }

unfoldable pub finish_recovery : Recovery → Recovery
unfolding emit restart_interval_if_configured
finish_recovery r =
    restart_interval_if_configured
      (emit recovered (record r { is_recovering = false; attempt = 0; errors = [] }))

unfoldable pub fail_attempt : ℕ → Recovery → Recovery
unfolding recover
fail_attempt error r =
    recover (record r { is_recovering = false; errors = r.errors ++ (error ∷ []) })

abbrev pub put_back : ℕ → Option (List ℕ) → Option (List ℕ)
put_back g none = none
put_back g (some gs) = some (g ∷ gs)

-- The first occurrence of a captured generation leaves the list, if there is one.
unfoldable pub take_out : ℕ → List ℕ → Option (List ℕ)
take_out g [] = none
take_out g (h ∷ hs) = if h == g then some hs else put_back h (take_out g hs)

-- The retry callback after the `await`, which returned or threw, with the other callbacks that
-- are still in flight.
unfoldable pub settle : ℕ → (Recovery → Recovery) → Recovery → Option (List ℕ) → Recovery
settle captured continue r none = r
settle captured continue r (some others) =
    let r' = record r { in_flight = others } in if is_stale captured r' then r' else continue r'

-- The interval timer's callback up to its `await`, and after it.
unfoldable pub fire_interval : Recovery → Recovery
fire_interval r =
    if not r.interval || (r.is_recovering || (r.disposed || r.is_scheduled_reconnecting))
    then r
    else record r { is_scheduled_reconnecting = true; scheduled = r.scheduled + 1 }

unfoldable pub settle_interval : Recovery → ℕ → Recovery
settle_interval r zero = r
settle_interval r (suc n) = record r { is_scheduled_reconnecting = false; scheduled = n }

-- What can happen to a recovery object: a method call, a timer that fires, or an awaited
-- reconnection that returns or throws.
pub data Input : Type 0 where
  disconnected : Bool → Input
  reset_called : Input
  dispose_called : Input
  retry_fired : Input
  reconnected : ℕ → Input
  reconnect_failed : ℕ → ℕ → Input
  interval_fired : Input
  scheduled_settled : Input

unfoldable pub step : Recovery → Input → Recovery
unfolding handle_disconnect reset dispose fire_retry settle take_out finish_recovery fail_attempt
    fire_interval settle_interval
step r (disconnected unexpected) = handle_disconnect unexpected r
step r reset_called = reset r
step r dispose_called = dispose r
step r retry_fired = fire_retry r r.retry
step r (reconnected g) = settle g finish_recovery r (take_out g r.in_flight)
step r (reconnect_failed g error) = settle g (fail_attempt error) r (take_out g r.in_flight)
step r interval_fired = fire_interval r
step r scheduled_settled = settle_interval r r.scheduled

unfoldable pub run : Recovery → List Input → Recovery
unfolding step
run r [] = r
run r (i ∷ is) = run (step r i) is
