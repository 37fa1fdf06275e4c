-- ===== src/Rtsp/Client/Refines.antt =====
-- packages/rtsp/src/client.ts: every call of the client is a run of the abstract machine.
use apple_protocols.Prelude.{
  ℕ, [], ◌∷◌, Option, none, some, true, ◌≡◌, refl, arith, inl, inr, Bool-cases, Option-cases,
}
use apple_protocols.Prelude.JsMap
use apple_protocols.Prelude.JsMap.{JsMap}
use apple_protocols.Rtsp.Response.{Response}
use apple_protocols.Rtsp.Client.{
  Failure, timed_out, Result, rejected, Pending, Client, remove, is_in, cseq_of, settle, forget,
  reject_each, reject_all, on_rtsp_error, on_timer, answer_of,
}
use apple_protocols.Rtsp.Client.Receive.{answer_number, answer_to, answer}
use apple_protocols.Rtsp.Client.Ledger.{Ledger, settles, Steps, here, next, Steps-trans}

keys-delete : (m : JsMap Pending) (k : ℕ) → JsMap.keys (JsMap.delete m k) ≡ remove k (JsMap.keys m)
keys-delete [] k = refl
keys-delete ((j, p) ∷ m) k = ground (arith, keys-delete m k)

pub is_in-has : (m : JsMap Pending) (k : ℕ) → JsMap.has m k ≡ is_in k (JsMap.keys m)
is_in-has [] k = refl
is_in-has ((j, p) ∷ m) k = ground (arith, is_in-has m k)

is_in-get :
    (m : JsMap Pending) (k : ℕ) (p : Pending)
    → JsMap.get m k ≡ some p
    → is_in k (JsMap.keys m) ≡ true
is_in-get [] k p h = absurd (ground (arith, h))
is_in-get ((j, q) ∷ m) k p h = ground (arith, is_in-get m k p)

module _ {K : Type 0} where
  -- The numbers that are taken, those of the requests, and what was settled.
  abbrev pub view : Client K → Ledger
  view c = record { opened = c.cseq; waiting = JsMap.keys c.requests; settled = c.settled }

  -- A timer runs for each request, in the same order.
  abbrev pub IsTimed : Client K → Type 0
  IsTimed c = c.timers ≡ JsMap.keys c.requests

  pub record Moves (c d : Client K) : Type 0 where
    pub steps : Steps (view c) (view d)
    pub timed : IsTimed d

  pub Moves-trans : {c d e : Client K} → Moves c d → Moves d e → Moves c e
  Moves-trans m n = record { steps = Steps-trans m.steps n.steps; timed = n.timed }

  pub Moves-settle :
      (c : Client K) (k : ℕ) (result : Result)
      → IsTimed c
      → is_in k (JsMap.keys c.requests) ≡ true
      → Moves c (settle k result (forget k c))
  Moves-settle c k result t h = record {
    steps = rw (keys-delete c.requests k) (next here (settles (view c) k result h));
    timed = rw (keys-delete c.requests k, t) refl;
  }

  Moves-reject_each :
      (failure : Failure) (entries : JsMap Pending) (c : Client K)
      → IsTimed c
      → c.requests ≡ entries
      → Moves c (reject_each failure entries c)
  unfolding reject_each
  Moves-reject_each failure [] c t e = record { steps = here; timed = t }
  Moves-reject_each failure ((k, p) ∷ entries) c t e =
      Moves-trans (Moves-settle c k (rejected failure) t (rw e (ground arith))) (
        Moves-reject_each failure entries (settle k (rejected failure) (forget k c))
          (Moves-settle c k (rejected failure) t (rw e (ground arith))).timed (rw e (ground arith)))

  pub Moves-reject_all :
      (failure : Failure) (c : Client K) → IsTimed c → Moves c (reject_all failure c)
  unfolding reject_all
  Moves-reject_all failure c t = Moves-reject_each failure c.requests c t refl

  -- Changes of the buffers and keys are none of the ledger.
  pub Moves-on_rtsp_error :
      (failure : Failure) (c : Client K) → IsTimed c → Moves c (on_rtsp_error failure c)
  unfolding on_rtsp_error
  Moves-on_rtsp_error failure c t = Moves-reject_all failure c t

  pub Moves-on_timer : (k : ℕ) (c : Client K) → IsTimed c → Moves c (on_timer k c)
  unfolding on_timer
  Moves-on_timer k c t = elim (Bool-cases (is_in k c.timers)) [
    | inl e ↦ rw e (Moves-settle c k (rejected timed_out) t (rw (← t) e))
    | inr e ↦ rw e (record { steps = here; timed = t })
  ]

  Moves-answer_number :
      (k : ℕ) (o : Option Pending) (response : Response) (c : Client K)
      → IsTimed c
      → JsMap.get c.requests k ≡ o
      → Moves c (answer_number k o response c)
  unfolding answer_number
  Moves-answer_number k none response c t h = record { steps = here; timed = t }
  Moves-answer_number k (some p) response c t h =
      Moves-settle c k (answer_of p response) t (is_in-get c.requests k p h)

  pub Moves-answer : (response : Response) (c : Client K) → IsTimed c → Moves c (answer response c)
  unfolding answer answer_to
  Moves-answer response c t = elim (Option-cases (cseq_of response)) [
    | inl e ↦ rw e (record { steps = here; timed = t })
    | inr (k, e) ↦ rw e (Moves-answer_number k (JsMap.get c.requests k) response c t refl)
  ]
