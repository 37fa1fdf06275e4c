-- ===== src/Rtsp/Client/Contract.antt =====
-- packages/rtsp/src/client.ts: what holds of a client after any calls.
use apple_protocols.Prelude.{ℕ, List, [], ◌∷◌, Option, refl, arith, Bytes}
use apple_protocols.Prelude.JsMap
use apple_protocols.Rtsp.Headers.{Headers}
use apple_protocols.Rtsp.Client.{
  Failure, Incoming, Write, Client, Request, start, on_rtsp_error, on_rtsp_timeout, on_rtsp_close,
  on_timer,
}
use apple_protocols.Rtsp.Client.Receive.{on_rtsp_data}
use apple_protocols.Rtsp.Client.Exchange.{exchange}
use apple_protocols.Rtsp.Client.Ledger.{Steps, here, Steps-IsBalanced, IsBalanced}
use apple_protocols.Rtsp.Client.Refines.{
  view, IsTimed, Moves, Moves-trans, Moves-on_rtsp_error, Moves-on_timer, Moves-reject_all,
}
use apple_protocols.Rtsp.Client.Calls.{Moves-on_rtsp_data, Moves-send_request, is_in-count}

-- What a caller, the socket or a timer does next.
pub data Call (O : Type 0) : Type 0 where
  exchanges : Request O → Write → Call O
  receives : Bytes → Call O
  times_out : ℕ → Call O
  socket_fails : Failure → Call O
  socket_times_out socket_closes : Call O

-- What the two ends of a client depend on: the property lists, the default headers and the bytes'
-- way in and out.
pub record Setting (K O : Type 0) : Type 0 where
  pub serialize : O → Bytes
  pub defaults : Headers
  pub incoming : K → Bytes → K × Incoming
  pub outgoing : K → Bytes → K × Option Bytes

module _ {K O : Type 0} (s : Setting K O) where
  unfoldable pub call : Client K → Call O → Client K
  unfolding exchange on_rtsp_data on_timer on_rtsp_error on_rtsp_timeout on_rtsp_close
  call c (exchanges r write) = exchange s.serialize s.defaults s.outgoing write c r
  call c (receives chunk) = on_rtsp_data s.incoming c chunk
  call c (times_out k) = on_timer k c
  call c (socket_fails failure) = on_rtsp_error failure c
  call c socket_times_out = on_rtsp_timeout c
  call c socket_closes = on_rtsp_close c

  unfoldable pub calls : Client K → List (Call O) → Client K
  unfolding call
  calls c [] = c
  calls c (x ∷ xs) = calls (call c x) xs

  Moves-call : (c : Client K) (x : Call O) → IsTimed c → IsBalanced (view c) → Moves c (call c x)
  unfolding call exchange on_rtsp_timeout on_rtsp_close
  Moves-call c (exchanges r write) t b =
      Moves-send_request r.allow_error _ write c _ t
        (is_in-count c.cseq (JsMap.keys c.requests) (ground (arith, b c.cseq)))
  Moves-call c (receives chunk) t b = Moves-on_rtsp_data s.incoming c chunk t
  Moves-call c (times_out k) t b = Moves-on_timer k c t
  Moves-call c (socket_fails failure) t b = Moves-on_rtsp_error failure c t
  Moves-call c socket_times_out t b = Moves-reject_all _ c t
  Moves-call c socket_closes t b =
      let m = Moves-reject_all _ (record c { buffer = []; encrypted_buffer = [] }) t in
      record { steps = m.steps; timed = m.timed }

  calls-Moves :
      (xs : List (Call O)) (c : Client K) → IsTimed c → IsBalanced (view c) → Moves c (calls c xs)
  unfolding calls
  calls-Moves [] c t b = record { steps = here; timed = t }
  calls-Moves (x ∷ xs) c t b =
      let m = Moves-call c x t b in
      Moves-trans m (calls-Moves xs (call c x) m.timed (Steps-IsBalanced m.steps b))

  start-IsBalanced : (keys : K) → IsBalanced (view (start keys))
  unfolding start
  start-IsBalanced keys k = ground arith

  start-IsTimed : (keys : K) → IsTimed (start keys)
  unfolding start
  start-IsTimed keys = refl

  start-Moves : (keys : K) (xs : List (Call O)) → Moves (start keys) (calls (start keys) xs)
  start-Moves keys xs = calls-Moves xs (start keys) (start-IsTimed keys) (start-IsBalanced keys)

  -- Whatever callers, the socket and the timers do to a new client, its requests in flight and its
  -- settled promises go through steps of the abstract machine only: each step opens the next number,
  -- or settles one number that waits.
  pub calls-Steps :
      (keys : K) (xs : List (Call O)) → Steps (view (start keys)) (view (calls (start keys) xs))
  calls-Steps keys xs = (start-Moves keys xs).steps

  -- After any calls of a new client, each number that was taken for a request is in flight once or was
  -- settled once, and not both, and no other number is; and a timer runs for each request in flight
  -- and for no other.
  pub calls-IsBalanced :
      (keys : K) (xs : List (Call O))
      → IsBalanced (view (calls (start keys) xs)) × IsTimed (calls (start keys) xs)
  calls-IsBalanced keys xs = (
    Steps-IsBalanced (start-Moves keys xs).steps (start-IsBalanced keys),
    (start-Moves keys xs).timed,
  )
