-- ===== src/Common/Recovery/Invariant.antt =====
-- The invariant of the recovery object over every interleaving of calls and callbacks.
use apple_protocols.Prelude.{
  ℕ, ◌+◌, ◌≤◌, ◌<◌, [], ◌∷◌, Option, none, some, Bool, true, false, not, ◌||◌, All, All-append,
  length, ◌≡◌, refl, arith, inl, inr, Bool-cases, leb, ltb,
}
use apple_protocols.Common.Recovery.{
  Event, recovering, recovered, failed, Retry, Recovery, emit, start_reconnect_interval,
  stop_reconnect_interval, restart_interval_if_configured, start_attempt, recover,
  handle_disconnect, reset, dispose, calculate_delay,
}
use apple_protocols.Common.Recovery.Counting.{one_if, count, UpTo, count-next, UpTo-next}

-- A pending retry timer counts once.
abbrev pub pending : Option Retry → ℕ
pending none = 0
pending (some t) = 1

-- The timer was set in the generation that is still current, with the delay of the attempt.
abbrev pub Current : Recovery → Option Retry → Type 0
Current r none = Unit {0}
Current r (some t) = (t.captured ≡ r.generation) × (t.delay ≡ calculate_delay r.options r.attempt)

-- An announced attempt is one of those allowed; giving up reports one error for each of them.
abbrev pub IsAllowed : ℕ → Event → Type 0
IsAllowed limit (recovering k) = (1 ≤ k) × (k ≤ limit)
IsAllowed limit recovered = Unit {0}
IsAllowed limit (failed errors) = length errors ≡ limit

-- While an attempt is under way there is exactly one callback of the current generation for it:
-- the timer that will start it or the reconnection that it awaits. At other times there is none.
-- The errors collected are those of the attempts that failed.
pub record IsValid (r : Recovery) : Type 0 where
  pub within : r.attempt ≤ r.options.max_attempts
  pub one_live : pending r.retry + count r.generation r.in_flight ≡ one_if r.is_recovering
  pub current : Current r r.retry
  pub no_future : UpTo r.generation r.in_flight
  pub disposed_idle : r.disposed ≡ true → r.is_recovering ≡ false
  pub counted : r.disposed ≡ false → length r.errors + one_if r.is_recovering ≡ r.attempt
  pub allowed : All (IsAllowed r.options.max_attempts) r.emitted

pub emit-IsValid :
    (e : Event) (r : Recovery) → IsValid r → IsAllowed r.options.max_attempts e → IsValid (emit e r)
unfolding emit
emit-IsValid e r v h = record {
  within = v.within;
  one_live = v.one_live;
  current = v.current;
  no_future = v.no_future;
  disposed_idle = v.disposed_idle;
  counted = v.counted;
  allowed = All-append (IsAllowed r.options.max_attempts) r.emitted (e ∷ []) v.allowed (h, tt);
}

pub no_retry : (o : Option Retry) (n : ℕ) → pending o + n ≡ 0 → o ≡ none
no_retry none n h = refl
no_retry (some t) n h = absurd (omega arith)

start_attempt-IsValid :
    (r : Recovery)
    → IsValid r
    → r.is_recovering ≡ false
    → r.disposed ≡ false
    → r.attempt < r.options.max_attempts
    → IsValid (start_attempt r)
unfolding start_attempt emit
start_attempt-IsValid r v idle alive more = record {
  within = omega arith;
  one_live = ground (arith, v.one_live);
  current = (refl, refl);
  no_future = v.no_future;
  disposed_idle = λ e. cc;
  counted = λ e. ground (arith, v.counted alive);
  allowed =
      All-append (IsAllowed r.options.max_attempts) r.emitted (recovering (r.attempt + 1) ∷ [])
        v.allowed ((omega arith, omega arith), tt);
}

recover-eq_self : (r : Recovery) → (r.is_recovering || r.disposed) ≡ true → recover r ≡ r
unfolding recover
recover-eq_self r h = simp h

recover-eq_failed :
    (r : Recovery)
    → (r.is_recovering || r.disposed) ≡ false
    → leb r.options.max_attempts r.attempt ≡ true
    → recover r ≡ emit (failed r.errors) r
unfolding recover
recover-eq_failed r h k = simp (h, k)

recover-eq_start :
    (r : Recovery)
    → (r.is_recovering || r.disposed) ≡ false
    → leb r.options.max_attempts r.attempt ≡ false
    → recover r ≡ start_attempt r
unfolding recover
recover-eq_start r h k = simp (h, k)

pub recover-IsValid : (r : Recovery) → IsValid r → IsValid (recover r)
recover-IsValid r v = elim (Bool-cases (r.is_recovering || r.disposed)) [
  | inl stays ↦ rw (recover-eq_self r stays) v
  | inr free ↦
      let idle : r.is_recovering ≡ false = ground arith in
      let alive : r.disposed ≡ false = ground arith in
      elim (Bool-cases (leb r.options.max_attempts r.attempt)) [
        | inl spent ↦
            rw (recover-eq_failed r free spent)
              (emit-IsValid (failed r.errors) r v (ground (arith, v.counted alive, v.within)))
        | inr more ↦
            rw (recover-eq_start r free more) (start_attempt-IsValid r v idle alive (ground arith))
      ]
]

-- The interval timer is no part of the invariant.
pub restart-IsValid : (r : Recovery) → IsValid r → IsValid (restart_interval_if_configured r)
unfolding restart_interval_if_configured
restart-IsValid r v = elim (Bool-cases (ltb 0 r.options.reconnect_interval)) [
  | inl on ↦ simp on (started v)
  | inr off ↦ simp off v
]
  where
    started : IsValid r → IsValid (start_reconnect_interval r)
    started w = record {
      within = w.within;
      one_live = w.one_live;
      current = w.current;
      no_future = w.no_future;
      disposed_idle = w.disposed_idle;
      counted = w.counted;
      allowed = w.allowed;
    }

stop-IsValid : (r : Recovery) → IsValid r → IsValid (stop_reconnect_interval r)
unfolding stop_reconnect_interval
stop-IsValid r v = record {
  within = v.within;
  one_live = v.one_live;
  current = v.current;
  no_future = v.no_future;
  disposed_idle = v.disposed_idle;
  counted = v.counted;
  allowed = v.allowed;
}

pub handle_disconnect-IsValid :
    (unexpected : Bool) (r : Recovery) → IsValid r → IsValid (handle_disconnect unexpected r)
unfolding handle_disconnect
handle_disconnect-IsValid unexpected r v = elim (Bool-cases (r.disposed || not unexpected)) [
  | inl ignored ↦ simp ignored v
  | inr handled ↦ simp handled (recover-IsValid (stop_reconnect_interval r) (stop-IsValid r v))
]

pub reset-IsValid : (r : Recovery) → IsValid r → IsValid (reset r)
unfolding reset
reset-IsValid r v =
    let cleared : Recovery = record r {
      generation = r.generation + 1;
      attempt = 0;
      errors = [];
      is_recovering = false;
      retry = none;
    } in
    restart-IsValid cleared (record {
      within = omega arith;
      one_live = omega (arith, count-next r.generation r.in_flight v.no_future);
      current = tt;
      no_future = UpTo-next r.generation r.in_flight v.no_future;
      disposed_idle = λ e. refl;
      counted = λ e. refl;
      allowed = v.allowed;
    })

pub dispose-IsValid : (r : Recovery) → IsValid r → IsValid (dispose r)
unfolding dispose
dispose-IsValid r v = record {
  within = v.within;
  one_live = omega (arith, count-next r.generation r.in_flight v.no_future);
  current = tt;
  no_future = UpTo-next r.generation r.in_flight v.no_future;
  disposed_idle = λ e. refl;
  counted = λ e. cc;
  allowed = v.allowed;
}
