-- ===== src/Rtsp/Client/Keys.antt =====
-- packages/rtsp/src/client.ts: receiving plaintext does not look at the keys, and leaves them.
use apple_protocols.Prelude.{
  ℕ, zero, suc, [], ◌∷◌, ◌++◌, Option, none, some, ◌≡◌, refl, ap, ◌∙◌, drop, length, Bytes,
}
use apple_protocols.Prelude.JsMap
use apple_protocols.Prelude.JsMap.{JsMap}
use apple_protocols.Rtsp.Parsed.{Parsed, ok, thrown}
use apple_protocols.Rtsp.Response.{Response}
use apple_protocols.Rtsp.Client.{
  Failure, unreadable, rejected, Pending, plaintext, Client, cseq_of, settle, forget, reject_each,
  reject_all, on_rtsp_error,
}
use apple_protocols.Rtsp.Client.Receive.{
  answer, answer_to, answer_number, next_response, Run, waits, throws, cut_off, turn, responses,
  after_run, on_incoming,
}

module _ {K : Type 0} (keys : K) where
  abbrev pub with_keys : Client K → Client K
  with_keys c = record c { keys = keys }

  abbrev run_with_keys : Run K → Run K
  run_with_keys (waits c) = waits (with_keys c)
  run_with_keys (throws fault c) = throws fault (with_keys c)
  run_with_keys (cut_off c) = cut_off (with_keys c)

  reject_each-with_keys :
      (failure : Failure) (entries : JsMap Pending) (c : Client K)
      → reject_each failure entries (with_keys c) ≡ with_keys (reject_each failure entries c)
  unfolding reject_each
  reject_each-with_keys failure [] c = refl
  reject_each-with_keys failure ((k, p) ∷ entries) c =
      reject_each-with_keys failure entries (forget k (settle k (rejected failure) c))

  on_rtsp_error-with_keys :
      (failure : Failure) (c : Client K)
      → on_rtsp_error failure (with_keys c) ≡ with_keys (on_rtsp_error failure c)
  unfolding on_rtsp_error reject_all
  on_rtsp_error-with_keys failure c = reject_each-with_keys failure c.requests c

  answer-with_keys :
      (response : Response) (c : Client K)
      → answer response (with_keys c) ≡ with_keys (answer response c)
  unfolding answer answer_to answer_number
  answer-with_keys response c = to_lem (cseq_of response)
    where
      number_lem :
          (k : ℕ) (o : Option Pending)
          → answer_number k o response (with_keys c) ≡ with_keys (answer_number k o response c)
      number_lem k none = refl
      number_lem k (some p) = refl

      to_lem :
          (o : Option ℕ) → answer_to o response (with_keys c) ≡ with_keys (answer_to o response c)
      to_lem none = refl
      to_lem (some k) = number_lem k (JsMap.get c.requests k)

  turn-with_keys :
      (again : Client K → Run K) (c : Client K) (o : Parsed (Option (Response × ℕ)))
      → ((d : Client K) → again (with_keys d) ≡ run_with_keys (again d))
      → turn again (with_keys c) o ≡ run_with_keys (turn again c o)
  unfolding turn
  turn-with_keys again c (thrown fault) h = refl
  turn-with_keys again c (ok none) h = refl
  turn-with_keys again c (ok (some (response, size))) h =
      ap again (answer-with_keys response (record c { buffer = drop size c.buffer }))
      ∙ h (answer response (record c { buffer = drop size c.buffer }))

  responses-with_keys :
      (fuel : ℕ) (c : Client K) → responses fuel (with_keys c) ≡ run_with_keys (responses fuel c)
  unfolding responses
  responses-with_keys zero c = turn-with_keys cut_off c (next_response c.buffer) λ d. refl
  responses-with_keys (suc fuel) c =
      turn-with_keys (responses fuel) c (next_response c.buffer) (responses-with_keys fuel)

  after_run-with_keys : (run : Run K) → after_run (run_with_keys run) ≡ with_keys (after_run run)
  unfolding after_run
  after_run-with_keys (waits c) = refl
  after_run-with_keys (cut_off c) = refl
  after_run-with_keys (throws fault c) =
      on_rtsp_error-with_keys (unreadable fault) (record c { buffer = []; encrypted_buffer = [] })

  pub on_incoming-with_keys :
      (c : Client K) (bytes : Bytes)
      → on_incoming (with_keys c) (plaintext bytes) ≡ with_keys (on_incoming c (plaintext bytes))
  unfolding on_incoming
  on_incoming-with_keys c bytes =
      let d = record c { buffer = c.buffer ++ bytes; encrypted_buffer = [] } in
      ap after_run (responses-with_keys (length (c.buffer ++ bytes)) d)
      ∙ after_run-with_keys (responses (length (c.buffer ++ bytes)) d)
