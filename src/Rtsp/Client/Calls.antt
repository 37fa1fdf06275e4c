-- ===== src/Rtsp/Client/Calls.antt =====
-- packages/rtsp/src/client.ts: the calls of a client and runs of them, against the abstract machine.
use apple_protocols.Prelude.{
  ℕ, zero, suc, List, [], ◌∷◌, ◌++◌, Option, none, some, Bool, true, false, ltb, ◌≡◌, refl, sym,
  subst, ◌∙◌, arith, inl, inr, Bool-cases, drop, length, Bytes,
}
use apple_protocols.Prelude.JsMap
use apple_protocols.Prelude.JsMap.{JsMap}
use apple_protocols.Rtsp.Parsed.{Parsed, ok, thrown}
use apple_protocols.Rtsp.Response.{Response}
use apple_protocols.Rtsp.Client.{
  max_buffer_size, overflow, unreadable, not_decrypted, not_connected, write_threw, not_encrypted,
  rejected, Pending, Incoming, more_needed, failed, plaintext, Write, written, not_open, threw,
  Client, remove, is_in, reject_all,
}
use apple_protocols.Rtsp.Client.Receive.{
  answer, next_response, turn, Run, waits, throws, cut_off, responses, after_run, on_incoming,
  on_rtsp_data,
}
use apple_protocols.Rtsp.Client.Exchange.{after_write, send_request}
use apple_protocols.Rtsp.Client.Ledger.{
  open_next, Steps, here, next, opens, settles, Steps-trans, count,
}
use apple_protocols.Rtsp.Client.Refines.{
  view, IsTimed, is_in-has, Moves, Moves-settle, Moves-reject_all, Moves-on_rtsp_error,
  Moves-answer,
}

pub is_in-count : (k : ℕ) (js : List ℕ) → count k js ≡ 0 → is_in k js ≡ false
is_in-count k [] h = refl
is_in-count k (j ∷ js) h = ground (arith, is_in-count k js)

is_in-last : (k : ℕ) (js : List ℕ) → is_in k (js ++ (k ∷ [])) ≡ true
is_in-last k [] = ground arith
is_in-last k (j ∷ js) = ground (arith, is_in-last k js)

pub remove-last : (k : ℕ) (js : List ℕ) → is_in k js ≡ false → remove k (js ++ (k ∷ [])) ≡ js
remove-last k [] h = ground arith
remove-last k (j ∷ js) h = ground (arith, remove-last k js)

keys-set :
    (m : JsMap Pending) (k : ℕ) (p : Pending)
    → is_in k (JsMap.keys m) ≡ false
    → JsMap.keys (JsMap.set m k p) ≡ JsMap.keys m ++ (k ∷ [])
keys-set m k p h =
    rw (JsMap.set-fresh m k p (is_in-has m k ∙ h)) (JsMap.keys-append m ((k, p) ∷ []))

module _ {K : Type 0} where
  abbrev client_of : Run K → Client K
  client_of (waits c) = c
  client_of (throws fault c) = c
  client_of (cut_off c) = c

  -- What keeps to the machine before the loop goes on keeps to it behind a turn.
  Moves-turn :
      (again : Client K → Run K)
      → ((d : Client K) → IsTimed d → Moves d (client_of (again d)))
      → (c : Client K) (o : Parsed (Option (Response × ℕ))) → IsTimed c
      → Moves c (client_of (turn again c o))
  unfolding turn
  Moves-turn again h c (thrown fault) t = record { steps = here; timed = t }
  Moves-turn again h c (ok none) t = record { steps = here; timed = t }
  Moves-turn again h c (ok (some (response, size))) t =
      let m = Moves-answer response (record c { buffer = drop size c.buffer }) t in
      let n = h (answer response (record c { buffer = drop size c.buffer })) m.timed in
      record { steps = Steps-trans m.steps n.steps; timed = n.timed }

  Moves-cut_off : (d : Client K) → IsTimed d → Moves d (client_of (cut_off d))
  Moves-cut_off d t = record { steps = here; timed = t }

  Moves-responses : (fuel : ℕ) (c : Client K) → IsTimed c → Moves c (client_of (responses fuel c))
  unfolding responses
  Moves-responses zero c t = Moves-turn cut_off Moves-cut_off c (next_response c.buffer) t
  Moves-responses (suc fuel) c t =
      Moves-turn (responses fuel) (Moves-responses fuel) c (next_response c.buffer) t

  Moves-after_run : (run : Run K) → IsTimed (client_of run) → Moves (client_of run) (after_run run)
  unfolding after_run
  Moves-after_run (waits c) t = record { steps = here; timed = t }
  Moves-after_run (cut_off c) t = record { steps = here; timed = t }
  Moves-after_run (throws fault c) t =
      let m =
        Moves-on_rtsp_error (unreadable fault) (record c { buffer = []; encrypted_buffer = [] })
          t in
      record { steps = m.steps; timed = m.timed }

  Moves-on_incoming : (c : Client K) (read : Incoming) → IsTimed c → Moves c (on_incoming c read)
  unfolding on_incoming
  Moves-on_incoming c more_needed t = record { steps = here; timed = t }
  Moves-on_incoming c failed t =
      let m =
        Moves-on_rtsp_error not_decrypted (record c { buffer = []; encrypted_buffer = [] }) t in
      record { steps = m.steps; timed = m.timed }
  Moves-on_incoming c (plaintext bytes) t =
      let d = record c { buffer = c.buffer ++ bytes; encrypted_buffer = [] } in
      let m = Moves-responses (length (c.buffer ++ bytes)) d t in
      let n = Moves-after_run (responses (length (c.buffer ++ bytes)) d) m.timed in
      record { steps = Steps-trans m.steps n.steps; timed = n.timed }

  pub Moves-on_rtsp_data :
      (incoming : K → Bytes → K × Incoming) (c : Client K) (chunk : Bytes)
      → IsTimed c
      → Moves c (on_rtsp_data incoming c chunk)
  unfolding on_rtsp_data
  Moves-on_rtsp_data incoming c chunk t =
      elim (Bool-cases (ltb max_buffer_size (length (c.encrypted_buffer ++ chunk)))) [
        | inl e ↦
            let d = record c { buffer = []; encrypted_buffer = [] } in
            let m = Moves-reject_all overflow d t in
            let n = Moves-on_rtsp_error overflow (reject_all overflow d) m.timed in
            rw e (record { steps = Steps-trans m.steps n.steps; timed = n.timed })
        | inr e ↦
            let read = incoming c.keys (c.encrypted_buffer ++ chunk) in
            let d = record c { encrypted_buffer = c.encrypted_buffer ++ chunk; keys = read.0 } in
            let m = Moves-on_incoming d (read.1) t in
            rw e (record { steps = m.steps; timed = m.timed })
      ]

  Moves-after_write :
      (k : ℕ) (bytes : Bytes) (write : Write) (c : Client K)
      → IsTimed c
      → is_in k (JsMap.keys c.requests) ≡ true
      → Moves c (after_write k bytes write c)
  unfolding after_write
  Moves-after_write k bytes written c t h = record { steps = here; timed = t }
  Moves-after_write k bytes not_open c t h = Moves-on_rtsp_error not_connected c t
  Moves-after_write k bytes threw c t h = Moves-settle c k (rejected write_threw) t h

  -- A new number is taken, and its request waits or is settled at once.
  pub Moves-send_request :
      (allow_error : Bool) (o : Option Bytes) (write : Write) (c : Client K) (keys : K)
      → IsTimed c
      → is_in c.cseq (JsMap.keys c.requests) ≡ false
      → Moves c
          (send_request c.cseq allow_error o write (record c { cseq = suc c.cseq; keys = keys }))
  unfolding send_request
  Moves-send_request allow_error none write c keys t h = record {
    steps =
        subst
          (λ w. Steps (view c) (record {
            opened = suc c.cseq;
            waiting = w;
            settled = c.settled ++ ((c.cseq, rejected not_encrypted) ∷ []);
          }))
          (remove-last c.cseq (JsMap.keys c.requests) h)
          (next (next here (opens (view c))) (
            settles (open_next (view c)) c.cseq (rejected not_encrypted)
              (is_in-last c.cseq (JsMap.keys c.requests))));
    timed = t;
  }
  Moves-send_request allow_error (some bytes) write c keys t h =
      let p : Pending = record { allow_error = allow_error } in
      let d = record c {
        cseq = suc c.cseq;
        keys = keys;
        timers = c.timers ++ (c.cseq ∷ []);
        requests = JsMap.set c.requests c.cseq p;
      } in
      let set_lem = keys-set c.requests c.cseq p h in
      let m =
        Moves-after_write c.cseq bytes write d (rw (set_lem, t) refl)
          (rw set_lem (is_in-last c.cseq (JsMap.keys c.requests))) in
      record {
        steps =
            Steps-trans
              (subst
                (λ w.
                  Steps (view c) (record { opened = suc c.cseq; waiting = w; settled = c.settled }))
                (sym set_lem) (next here (opens (view c))))
              m.steps;
        timed = m.timed;
      }
