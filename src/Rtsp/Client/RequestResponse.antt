-- ===== src/Rtsp/Client/RequestResponse.antt =====
-- packages/rtsp/src: a request of the client, from `exchange` to the response of its CSeq.
use apple_protocols.Prelude.{
  ℕ, zero, suc, ◌≤◌, [], ◌∷◌, ◌++◌, Option, some, true, false, ◌≡◌, refl, sym, ap, ◌∙◌, arith,
  ==_refl, length, length-append, Bytes, append-nil,
}
use apple_protocols.Prelude.JsMap
use apple_protocols.Prelude.JsMap.{JsMap}
use apple_protocols.Rtsp.Text.{Text, all}
use apple_protocols.Rtsp.Decimal.{to_text}
use apple_protocols.Rtsp.Parsed.{ok}
use apple_protocols.Rtsp.Headers.{Headers, cseq_name}
use apple_protocols.Rtsp.Parse.{max_header_length, head_length, parse_after, parse_message}
use apple_protocols.Rtsp.Response.{Response, is_reason, are_legal, to_response, parse_response}
use apple_protocols.Rtsp.Build.{Protocol, head_text, status_line, build_response, format_request}
use apple_protocols.Rtsp.RoundTrip.{head_lines}
use apple_protocols.Rtsp.Plain.{ArePlain}
use apple_protocols.Rtsp.StartLine.{IsReason}
use apple_protocols.Rtsp.Responses.{response_headers, response_of, parse_response-build_response}
use apple_protocols.Rtsp.Client.{
  max_buffer_size, Pending, Client, Request, written, is_in, cseq_of, answer_of,
}
use apple_protocols.Rtsp.Client.Receive.{
  answer, answer_to, answer_number, next_response, responses, after_run, on_rtsp_data,
}
use apple_protocols.Rtsp.Client.Exchange.{after_write, send_request, exchange}
use apple_protocols.Rtsp.Client.Ledger.{IsBalanced}
use apple_protocols.Rtsp.Client.Refines.{view, IsTimed, is_in-has}
use apple_protocols.Rtsp.Client.Calls.{is_in-count, remove-last}
use apple_protocols.Rtsp.Client.Ends.{buffer-answer, next_response-bounds}
use apple_protocols.Rtsp.Client.Chunks.{unchanged}
use apple_protocols.Rtsp.Client.Parts.{on_rtsp_data-unchanged}
use apple_protocols.Rtsp.Client.Answered.{cseq_of-response, responses-one}

delete-set :
    (m : JsMap Pending) (k : ℕ) (p : Pending)
    → JsMap.has m k ≡ false
    → JsMap.delete (JsMap.set m k p) k ≡ m
delete-set [] k p h = ground arith
delete-set ((j, q) ∷ m) k p h = ground (arith, delete-set m k p)

module _ {K : Type 0} where
  received :
      (c : Client K) (chunk : Bytes) (response : Response)
      → c.buffer ≡ []
      → c.encrypted_buffer ≡ []
      → length chunk ≤ max_buffer_size
      → next_response chunk ≡ ok (some (response, length chunk))
      → on_rtsp_data unchanged c chunk
        ≡ answer response (record c { buffer = []; encrypted_buffer = [] })
  unfolding after_run
  received c chunk response b e h n =
      rw (on_rtsp_data-unchanged c chunk e h, b) (run_lem (length chunk) (omega arith))
    where
      d : Client K
      d = record c { buffer = chunk; encrypted_buffer = [] }

      run_lem :
          (f : ℕ)
          → length chunk ≡ f
          → after_run (responses f d)
            ≡ answer response (record c { buffer = []; encrypted_buffer = [] })
      run_lem zero z =
          absurd (omega (arith, z, (next_response-bounds chunk response (length chunk) n).0))
      run_lem (suc f) z =
          rw (responses-one f d response n (buffer-answer response (record d { buffer = [] }))) refl

  -- The answer to the request that was sent last.
  answer-last :
      (c : Client K) (n : ℕ) (p : Pending) (response : Response)
      → JsMap.has c.requests n ≡ false
      → is_in n c.timers ≡ false
      → cseq_of response ≡ some n
      → answer response
          (record c { timers = c.timers ++ (n ∷ []); requests = JsMap.set c.requests n p })
        ≡ record c { settled = c.settled ++ ((n, answer_of p response) ∷ []) }
  unfolding answer answer_to answer_number
  answer-last c n p response h t e =
      rw
        (
          e,
          JsMap.get-set c.requests n n p,
          ==_refl n,
          delete-set c.requests n p h,
          remove-last n c.timers t,
        )
        refl

-- The class's own `transformOutgoing`.
abbrev pub unchanged_out : {K : Type 0} → K → Bytes → K × Option Bytes
unchanged_out keys bytes = (keys, some bytes)

abbrev pub numbered : ℕ → Headers → Headers
numbered n more = (cseq_name, to_text n) ∷ more

next_response_eq : (bytes : Bytes) → next_response bytes ≡ parse_response bytes
unfolding next_response parse_response parse_message head_length parse_after to_response
next_response_eq [] = refl
next_response_eq (b ∷ bs) = refl

length-build_response :
    (protocol : Protocol) (status : ℕ) (reason : Text) (extra : Headers) (body : Bytes)
    → length body ≤ length (build_response protocol status reason extra body)
unfolding build_response
length-build_response protocol status reason extra body = omega (
  arith,
  length-append (head_text (status_line protocol status reason) (response_headers extra body)) body,
)

next_response-build_response :
    (protocol : Protocol) (status : ℕ) (reason : Text) (extra : Headers) (body : Bytes)
    → 200 ≤ status
    → status ≤ 599
    → IsReason reason
    → all is_reason reason ≡ true
    → ArePlain extra
    → are_legal extra ≡ true
    → length (head_lines (status_line protocol status reason) (response_headers extra body))
      ≤ max_header_length
    → length (build_response protocol status reason extra body) ≤ max_buffer_size
    → next_response (build_response protocol status reason extra body)
      ≡ ok (
          some (
            response_of status reason (response_headers extra body) body,
            length (build_response protocol status reason extra body),
          ))
next_response-build_response protocol status reason extra body low high r s e l head_fits fits =
    next_response_eq (build_response protocol status reason extra body)
    ∙ ap parse_response (sym (append-nil (build_response protocol status reason extra body)))
    ∙ parse_response-build_response protocol status reason extra body [] low high r s e l head_fits
        (omega (arith, fits, length-build_response protocol status reason extra body))

exchange-written :
    {K O : Type 0} (serialize : O → Bytes) (defaults : Headers) (c : Client K) (r : Request O)
    → exchange serialize defaults unchanged_out written c r ≡ record c {
      cseq = suc c.cseq;
      timers = c.timers ++ (c.cseq ∷ []);
      requests = JsMap.set c.requests c.cseq (record { allow_error = r.allow_error });
      sent =
          c.sent
          ++ (format_request serialize r.method r.path r.protocol c.cseq defaults r.headers
                r.content_type r.body
              ∷ []);
    }
unfolding exchange send_request after_write
exchange-written serialize defaults c r = refl

-- A request that is written on a connection without a cipher, and then the response that was built
-- with its CSeq, as one chunk: the promise of that request is settled with exactly this response, or
-- rejected with its status where the status is not OK and errors are not allowed. The client is as it
-- was but for the bytes sent and the next CSeq: no request and no timer is left over, and no byte. The
-- client is one that calls come to, with empty buffers; the response is one that can be built and read.
pub exchange-answered :
    {K O : Type 0} (serialize : O → Bytes) (defaults : Headers) (c : Client K) (r : Request O)
    (protocol : Protocol) (status : ℕ) (reason : Text) (more : Headers) (body : Bytes)
    → c.buffer ≡ []
    → c.encrypted_buffer ≡ []
    → IsTimed c
    → IsBalanced (view c)
    → 200 ≤ status
    → status ≤ 599
    → IsReason reason
    → all is_reason reason ≡ true
    → ArePlain (numbered c.cseq more)
    → are_legal (numbered c.cseq more) ≡ true
    → length (
        head_lines
          (status_line protocol status reason)
          (response_headers (numbered c.cseq more) body))
      ≤ max_header_length
    → length (build_response protocol status reason (numbered c.cseq more) body) ≤ max_buffer_size
    → on_rtsp_data unchanged
        (exchange serialize defaults unchanged_out written c r)
        (build_response protocol status reason (numbered c.cseq more) body)
      ≡ record c {
        cseq = suc c.cseq;
        sent =
            c.sent
            ++ (format_request serialize r.method r.path r.protocol c.cseq defaults r.headers
                  r.content_type r.body
                ∷ []);
        settled =
            c.settled
            ++ ((
              c.cseq,
              answer_of
                  (record { allow_error = r.allow_error })
                  (response_of status reason (response_headers (numbered c.cseq more) body) body),
            )
                ∷ []);
      }
exchange-answered serialize defaults c r protocol status reason more body b e t bal low high rs s p
      l head_fits fits =
    let chunk = build_response protocol status reason (numbered c.cseq more) body in
    let response = response_of status reason (response_headers (numbered c.cseq more) body) body in
    let absent = is_in-count c.cseq (JsMap.keys c.requests) (ground (arith, bal c.cseq)) in
    let pending : Pending = record { allow_error = r.allow_error } in
    let request =
      format_request serialize r.method r.path r.protocol c.cseq defaults r.headers r.content_type
        r.body in
    let d = record c {
      cseq = suc c.cseq;
      sent = c.sent ++ (request ∷ []);
      buffer = [];
      encrypted_buffer = [];
    } in
    rw
      (
        exchange-written serialize defaults c r,
        received
            (record d {
              timers = c.timers ++ (c.cseq ∷ []);
              requests = JsMap.set c.requests c.cseq pending;
              buffer = c.buffer;
              encrypted_buffer = c.encrypted_buffer;
            })
            chunk response b e fits
            (next_response-build_response protocol status reason (numbered c.cseq more) body low
              high rs s p l head_fits fits),
        answer-last d c.cseq pending response (is_in-has c.requests c.cseq ∙ absent) (rw t absent)
            (cseq_of-response c.cseq status reason more body (p.1.0)),
      )
      (rw (b, e) refl)
