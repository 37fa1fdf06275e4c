-- ===== src/Common/Recovery/Callbacks.antt =====
-- The callbacks of timers and reconnections keep the invariant, and so does every run.
use apple_protocols.Prelude.{
  ℕ, zero, suc, List, [], ◌∷◌, ◌++◌, Option, none, some, true, false, not, ◌||◌, length-append, ◌≡◌,
  refl, arith, inl, inr, Bool-cases,
}
use mathlib.Core.Path.{subst, sym}
use apple_protocols.Common.Recovery.{
  Options, recovered, Retry, Recovery, emit, create, fire_retry, finish_recovery, fail_attempt,
  settle, fire_interval, settle_interval, take_out, is_stale, Input, disconnected, reset_called,
  dispose_called, retry_fired, reconnected, reconnect_failed, interval_fired, scheduled_settled,
  step, run,
}
use apple_protocols.Common.Recovery.Counting.{count, count-take_out, UpTo-take_out}
use apple_protocols.Common.Recovery.Invariant.{
  Current, IsValid, emit-IsValid, no_retry, recover-IsValid, restart-IsValid,
  handle_disconnect-IsValid, reset-IsValid, dispose-IsValid,
}

-- The pending timer is current, so its callback goes on to reconnect.
fire_retry-IsValid :
    (r : Recovery) (o : Option Retry) → r.retry ≡ o → IsValid r → IsValid (fire_retry r o)
unfolding fire_retry
fire_retry-IsValid r none e v = v
fire_retry-IsValid r (some t) e v =
    let (now, delay) : Current r (some t) = subst (Current r) e v.current in
    let busy : r.is_recovering ≡ true = ground (arith, v.one_live, e) in
    let alive : r.disposed ≡ false = ground (arith, v.disposed_idle) in
    let fresh : is_stale t.captured r ≡ false = ground arith in
    simp fresh (record {
      within = v.within;
      one_live = ground (arith, v.one_live, e);
      current = tt;
      no_future = (omega arith, v.no_future);
      disposed_idle = v.disposed_idle;
      counted = v.counted;
      allowed = v.allowed;
    })

module _ (r : Recovery) (g : ℕ) (others : List ℕ) (v : IsValid r)
    (out : take_out g r.in_flight ≡ some others) where
  without : Recovery
  without = record r { in_flight = others }

  settle_stale-IsValid : is_stale g r ≡ true → IsValid without
  unfolding without
  settle_stale-IsValid stale = record {
    within = v.within;
    one_live =
        ground (
          arith,
          v.one_live,
          v.disposed_idle,
          count-take_out g r.generation r.in_flight others out,
        );
    current = v.current;
    no_future = UpTo-take_out r.generation g r.in_flight others out v.no_future;
    disposed_idle = v.disposed_idle;
    counted = v.counted;
    allowed = v.allowed;
  }

  -- A callback of the current generation is the one of the attempt under way.
  settle_current :
      is_stale g r ≡ false
      → (r.disposed ≡ false)
        × (r.is_recovering ≡ true)
        × (r.retry ≡ none)
        × (count r.generation others ≡ 0)
  settle_current fresh =
      let counts = count-take_out g r.generation r.in_flight others out in
      (
        ground arith,
        ground (arith, v.one_live, counts),
        no_retry r.retry 0 (ground (arith, v.one_live, counts)),
        ground (arith, v.one_live, counts),
      )

  finish-IsValid : is_stale g r ≡ false → IsValid (finish_recovery without)
  unfolding without finish_recovery
  finish-IsValid fresh =
      let (alive, busy, none_pending, last) = settle_current fresh in
      let ended : Recovery = record without { is_recovering = false; attempt = 0; errors = [] } in
      let ended-IsValid : IsValid ended = record {
        within = omega arith;
        one_live = ground (arith, none_pending, last);
        current = subst (Current ended) (sym none_pending) tt;
        no_future = UpTo-take_out r.generation g r.in_flight others out v.no_future;
        disposed_idle = λ e. refl;
        counted = λ e. refl;
        allowed = v.allowed;
      } in
      restart-IsValid (emit recovered ended) (emit-IsValid recovered ended ended-IsValid tt)

  fail-IsValid : (error : ℕ) → is_stale g r ≡ false → IsValid (fail_attempt error without)
  unfolding without fail_attempt
  fail-IsValid error fresh =
      let (alive, busy, none_pending, last) = settle_current fresh in
      let ended : Recovery = record without {
        is_recovering = false;
        errors = r.errors ++ (error ∷ []);
      } in
      recover-IsValid ended (record {
        within = v.within;
        one_live = ground (arith, none_pending, last);
        current = subst (Current ended) (sym none_pending) tt;
        no_future = UpTo-take_out r.generation g r.in_flight others out v.no_future;
        disposed_idle = λ e. refl;
        counted = λ e. ground (arith, v.counted alive, length-append r.errors (error ∷ []));
        allowed = v.allowed;
      })

settle_finish-IsValid :
    (r : Recovery) (g : ℕ) (o : Option (List ℕ))
    → take_out g r.in_flight ≡ o
    → IsValid r
    → IsValid (settle g finish_recovery r o)
unfolding settle without
settle_finish-IsValid r g none e v = v
settle_finish-IsValid r g (some others) e v = elim (Bool-cases (is_stale g r)) [
  | inl stale ↦ simp stale (settle_stale-IsValid r g others v e stale)
  | inr fresh ↦ simp fresh (finish-IsValid r g others v e fresh)
]

settle_fail-IsValid :
    (r : Recovery) (g error : ℕ) (o : Option (List ℕ))
    → take_out g r.in_flight ≡ o
    → IsValid r
    → IsValid (settle g (fail_attempt error) r o)
unfolding settle without
settle_fail-IsValid r g error none e v = v
settle_fail-IsValid r g error (some others) e v = elim (Bool-cases (is_stale g r)) [
  | inl stale ↦ simp stale (settle_stale-IsValid r g others v e stale)
  | inr fresh ↦ simp fresh (fail-IsValid r g others v e error fresh)
]

-- The interval's callbacks touch nothing that the invariant speaks of.
interval_fired-IsValid : (r : Recovery) → IsValid r → IsValid (fire_interval r)
unfolding fire_interval
interval_fired-IsValid r v =
    elim (Bool-cases
      (not r.interval || (r.is_recovering || (r.disposed || r.is_scheduled_reconnecting)))) [
        | inl skipped ↦ simp skipped v
        | inr free ↦ simp free (record {
          within = v.within;
          one_live = v.one_live;
          current = v.current;
          no_future = v.no_future;
          disposed_idle = v.disposed_idle;
          counted = v.counted;
          allowed = v.allowed;
        })
      ]

settle_interval-IsValid : (r : Recovery) (n : ℕ) → IsValid r → IsValid (settle_interval r n)
unfolding settle_interval
settle_interval-IsValid r zero v = v
settle_interval-IsValid r (suc n) v = record {
  within = v.within;
  one_live = v.one_live;
  current = v.current;
  no_future = v.no_future;
  disposed_idle = v.disposed_idle;
  counted = v.counted;
  allowed = v.allowed;
}

-- Every input keeps the invariant.
pub step-IsValid : (r : Recovery) (i : Input) → IsValid r → IsValid (step r i)
unfolding step
step-IsValid r (disconnected unexpected) v = handle_disconnect-IsValid unexpected r v
step-IsValid r reset_called v = reset-IsValid r v
step-IsValid r dispose_called v = dispose-IsValid r v
step-IsValid r retry_fired v = fire_retry-IsValid r r.retry refl v
step-IsValid r (reconnected g) v = settle_finish-IsValid r g _ refl v
step-IsValid r (reconnect_failed g error) v = settle_fail-IsValid r g error _ refl v
step-IsValid r interval_fired v = interval_fired-IsValid r v
step-IsValid r scheduled_settled v = settle_interval-IsValid r r.scheduled v

run-IsValid : (r : Recovery) (inputs : List Input) → IsValid r → IsValid (run r inputs)
unfolding run
run-IsValid r [] v = v
run-IsValid r (i ∷ inputs) v = run-IsValid (step r i) inputs (step-IsValid r i v)

create-IsValid : (options : Options) → IsValid (create options)
unfolding create
create-IsValid options = restart-IsValid fresh (record {
  within = omega arith;
  one_live = refl;
  current = tt;
  no_future = tt;
  disposed_idle = λ e. refl;
  counted = λ e. refl;
  allowed = tt;
})
  where
    fresh : Recovery
    fresh = record {
      options = options;
      attempt = 0;
      errors = [];
      is_recovering = false;
      is_scheduled_reconnecting = false;
      retry = none;
      interval = false;
      disposed = false;
      generation = 0;
      in_flight = [];
      scheduled = 0;
      emitted = [];
    }

-- After any sequence of method calls, timers and reconnections that end in any order, the
-- invariant holds: the attempt never exceeds the maximum; while recovering there is exactly one
-- live retry, its timer or its awaited reconnection, and otherwise none, so callbacks from before a
-- reset or a disposal never count; the timer has the delay of the current attempt; and each
-- `failed` event carries exactly as many errors as attempts are allowed.
pub run_recovery-IsValid :
    (options : Options) (inputs : List Input) → IsValid (run (create options) inputs)
run_recovery-IsValid options inputs = run-IsValid (create options) inputs (create-IsValid options)
