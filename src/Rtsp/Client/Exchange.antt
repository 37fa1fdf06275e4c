-- ===== src/Rtsp/Client/Exchange.antt =====
-- packages/rtsp/src/client.ts: `exchange`.
use apple_protocols.Prelude.{ℕ, suc, [], ◌∷◌, ◌++◌, Option, none, some, Bool, Bytes}
use apple_protocols.Prelude.JsMap
use apple_protocols.Rtsp.Headers.{Headers}
use apple_protocols.Rtsp.Build.{format_request}
use apple_protocols.Rtsp.Client.{
  rejected, not_connected, not_encrypted, write_threw, Write, written, not_open, threw, Client,
  Request, settle, forget, on_rtsp_error,
}

module _ {K : Type 0} where
  unfoldable pub after_write : ℕ → Bytes → Write → Client K → Client K
  unfolding on_rtsp_error
  after_write k bytes written c = record c { sent = c.sent ++ (bytes ∷ []) }
  after_write k bytes not_open c = on_rtsp_error not_connected c
  after_write k bytes threw c = settle k (rejected write_threw) (forget k c)

  -- What follows `transformOutgoing`: the timer starts and the request is kept before it is written.
  unfoldable pub send_request : ℕ → Bool → Option Bytes → Write → Client K → Client K
  unfolding after_write
  send_request k allow_error none write c = record c {
    settled = c.settled ++ ((k, rejected not_encrypted) ∷ []);
  }
  send_request k allow_error (some bytes) write c = after_write k bytes write (record c {
    timers = c.timers ++ (k ∷ []);
    requests = JsMap.set c.requests k (record { allow_error = allow_error });
  })

module _ {K O : Type 0} where
  -- `exchange`, given what `getDefaultHeaders` and `transformOutgoing` give, and what becomes of the
  -- write. The request's number is the CSeq.
  unfoldable pub exchange :
      (O → Bytes)
      → Headers
      → (K → Bytes → K × Option Bytes)
      → Write
      → Client K
      → Request O
      → Client K
  unfolding format_request send_request
  exchange serialize defaults outgoing write c r =
      let raw =
        format_request serialize r.method r.path r.protocol c.cseq defaults r.headers r.content_type
          r.body in
      let (keys, data_) = outgoing c.keys raw in
      send_request c.cseq r.allow_error data_ write (record c { cseq = suc c.cseq; keys = keys })
