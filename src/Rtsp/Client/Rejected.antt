-- ===== src/Rtsp/Client/Rejected.antt =====
-- packages/rtsp/src/client.ts: the events that end every request in flight.
use apple_protocols.Prelude.{
  ℕ, List, [], ◌∷◌, ◌++◌, ◌≡◌, refl, ap, ◌∙◌, ==_refl, append_assoc, append-nil,
}
use apple_protocols.Prelude.JsMap
use apple_protocols.Prelude.JsMap.{JsMap}
use apple_protocols.Rtsp.Client.{
  Failure, closed, connection_timed_out, Result, rejected, Pending, Client, reject_each, reject_all,
  on_rtsp_error, on_rtsp_timeout, on_rtsp_close,
}
use apple_protocols.Rtsp.Client.Refines.{IsTimed}

abbrev pub rejections : Failure → List ℕ → List (ℕ × Result)
rejections failure [] = []
rejections failure (k ∷ ks) = (k, rejected failure) ∷ rejections failure ks

module _ {K : Type 0} where
  -- Nothing is in flight, and what was is rejected, in the order it was sent.
  abbrev pub all_rejected : Failure → Client K → Client K
  all_rejected failure c = record c {
    requests = [];
    timers = [];
    settled = c.settled ++ rejections failure (JsMap.keys c.requests);
  }

  reject_each-all :
      (failure : Failure) (entries : JsMap Pending) (c : Client K)
      → reject_each failure entries (record c { requests = entries; timers = JsMap.keys entries })
        ≡ record c {
          requests = [];
          timers = [];
          settled = c.settled ++ rejections failure (JsMap.keys entries);
        }
  unfolding reject_each
  reject_each-all failure [] c = rw append-nil refl
  reject_each-all failure ((k, p) ∷ entries) c = rw (==_refl k) (
      reject_each-all failure entries
        (record c { settled = c.settled ++ ((k, rejected failure) ∷ []) })
      ∙ rw
          (append_assoc c.settled ((k, rejected failure) ∷ [])
            (rejections failure (JsMap.keys entries)))
          refl)

  reject_all-all :
      (failure : Failure) (c : Client K) → IsTimed c → reject_all failure c ≡ all_rejected failure c
  unfolding reject_all
  reject_all-all failure c t =
      ap (λ timers. reject_each failure c.requests (record c { timers = timers })) t
      ∙ reject_each-all failure c.requests c

  -- When the connection closes, fails or times out, every request in flight is rejected with that
  -- reason, in the order it was sent, no timer is left, and nothing else changes but that closing empties
  -- both buffers. A timer runs for each request, as it does in every state that a client comes to.
  pub closing-rejects :
      (c : Client K) (failure : Failure)
      → IsTimed c
      → (on_rtsp_close c ≡ all_rejected closed (record c { buffer = []; encrypted_buffer = [] }))
        × (on_rtsp_error failure c ≡ all_rejected failure c)
        × (on_rtsp_timeout c ≡ all_rejected connection_timed_out c)
  unfolding on_rtsp_close on_rtsp_error on_rtsp_timeout
  closing-rejects c failure t = (
    reject_all-all closed (record c { buffer = []; encrypted_buffer = [] }) t,
    reject_all-all failure c t,
    reject_all-all connection_timed_out c t,
  )
