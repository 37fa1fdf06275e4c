-- ===== src/Tests/RtspClient.antt =====
-- Runs and instances for packages/rtsp/src/client.ts.
use apple_protocols.Prelude.{
  ℕ, List, [], ◌∷◌, ◌++◌, none, some, Bytes, false, length, ◌≡◌, refl, arith,
}
use apple_protocols.Rtsp.Text.{codes}
use apple_protocols.Rtsp.Decimal.{to_text, value}
use apple_protocols.Rtsp.Headers.{cseq_name, normal_name, parse_content_length}
use apple_protocols.Rtsp.Build.{rtsp, no_body, status_line, build_response, format_request}
use apple_protocols.Rtsp.Plain.{ArePlain}
use apple_protocols.Rtsp.Responses.{response_headers, response_of}
use apple_protocols.Rtsp.Client.{
  timed_out, closed, Client, Request, written, start, resolved, rejected, on_rtsp_close,
  on_rtsp_error, on_rtsp_timeout, connection_timed_out,
}
use apple_protocols.Rtsp.Client.Receive.{waits, responses, on_rtsp_data}
use apple_protocols.Rtsp.Client.Exchange.{exchange}
use apple_protocols.Rtsp.Client.Ledger.{Steps, IsBalanced}
use apple_protocols.Rtsp.Client.Refines.{view, IsTimed}
use apple_protocols.Rtsp.Client.Contract.{
  Call, exchanges, receives, times_out, Setting, calls, calls-Steps, calls-IsBalanced,
}
use apple_protocols.Rtsp.Client.Ends.{IsOver, responses-IsOver}
use apple_protocols.Rtsp.Client.Chunks.{unchanged}
use apple_protocols.Rtsp.Client.Parts.{arrived, on_rtsp_data-append}
use apple_protocols.Rtsp.Client.Rejected.{all_rejected, closing-rejects}
use apple_protocols.Rtsp.Client.RequestResponse.{unchanged_out, numbered, exchange-answered}

abbrev serialize : ℕ → Bytes
serialize n = n ∷ []

abbrev setting : Setting ℕ ℕ
setting = record {
  serialize = serialize;
  defaults = [];
  incoming = unchanged;
  outgoing = unchanged_out;
}

abbrev get_info : Request ℕ
get_info = record {
  method = codes "GET";
  path = codes "/info";
  protocol = rtsp;
  headers = [];
  content_type = none;
  body = no_body;
  allow_error = false;
}

abbrev ok_zero : Bytes
ok_zero = codes "RTSP/1.0 200 OK\r\nCSeq: 0\r\n\r\n"

-- A new client. Its keys are a number here, which nothing uses.
abbrev fresh : Client ℕ
fresh = start 0

-- Two requests, the response to the first in two parts, and a timer.
abbrev scenario : List (Call ℕ)
scenario =
    exchanges get_info written
    ∷ exchanges get_info written
    ∷ receives (codes "RTSP/1.0 200 OK\r\nCSe")
    ∷ receives (codes "q: 0\r\n\r\nRTSP")
    ∷ times_out 1
    ∷ []

scenario_settled :
    (calls setting fresh scenario).settled
    ≡ (
      0,
      resolved (record {
        status = 200;
        status_text = codes "OK";
        headers = (cseq_name, codes "0") ∷ [];
        body = some [];
      }),
    )
      ∷ (1, rejected timed_out)
      ∷ []
unfolding calls start parse_content_length value
scenario_settled = refl

calls-Steps_example : Steps (view fresh) (view (calls setting fresh scenario))
calls-Steps_example = calls-Steps setting 0 scenario

calls-IsBalanced_example :
    IsBalanced (view (calls setting fresh scenario)) × IsTimed (calls setting fresh scenario)
calls-IsBalanced_example = calls-IsBalanced setting 0 scenario

-- A client that has received two responses and the start of a third.
abbrev behind : Client ℕ
behind = record fresh { buffer = ok_zero ++ ok_zero ++ codes "RTSP" }

responses-IsOver_example : IsOver (responses (length behind.buffer) behind)
responses-IsOver_example = responses-IsOver behind

abbrev in_flight : Client ℕ
in_flight = calls setting fresh (exchanges get_info written ∷ exchanges get_info written ∷ [])

closing-rejects_example :
    (on_rtsp_close in_flight
      ≡ all_rejected closed (record in_flight { buffer = []; encrypted_buffer = [] }))
    × (on_rtsp_error closed in_flight ≡ all_rejected closed in_flight)
    × (on_rtsp_timeout in_flight ≡ all_rejected connection_timed_out in_flight)
closing-rejects_example = closing-rejects in_flight closed in_flight-IsTimed
  where
    in_flight-IsTimed : IsTimed in_flight
    in_flight-IsTimed =
        (calls-IsBalanced setting 0
          (exchanges get_info written ∷ exchanges get_info written ∷ [])).1

abbrev first_part : Bytes
first_part = codes "RTSP/1.0 200 OK\r\nCSe"

abbrev second_part : Bytes
second_part = codes "q: 0\r\n\r\n"

start_waits :
    responses (length (fresh.buffer ++ first_part)) (arrived fresh first_part)
    ≡ waits (arrived fresh first_part)
unfolding responses start
start_waits = refl

on_rtsp_data-append_example :
    on_rtsp_data unchanged (on_rtsp_data unchanged fresh first_part) second_part
    ≡ on_rtsp_data unchanged fresh (first_part ++ second_part)
unfolding start
on_rtsp_data-append_example =
    on_rtsp_data-append fresh (arrived fresh first_part) first_part second_part refl (omega arith)
      start_waits

numbered-ArePlain : ArePlain (numbered 0 [])
unfolding normal_name to_text
numbered-ArePlain = (
  (
    record {
      normal = refl;
      trimmed = refl;
      inked = refl;
      unbroken = refl;
      closed = refl;
      kept = refl;
    },
    record { trimmed = refl; unbroken = refl },
  ),
  (tt, tt),
)

exchange-answered_example :
    on_rtsp_data unchanged
      (exchange serialize [] unchanged_out written fresh get_info)
      (build_response rtsp 200 (codes "OK") (numbered 0 []) (codes "hi"))
    ≡ record fresh {
      cseq = 1;
      sent = format_request serialize (codes "GET") (codes "/info") rtsp 0 [] [] none no_body ∷ [];
      settled =
          (
            0,
            resolved (
                response_of 200
                  (codes "OK")
                  (response_headers (numbered 0 []) (codes "hi"))
                  (codes "hi")),
          )
          ∷ [];
    }
unfolding start to_text build_response status_line calls
exchange-answered_example =
    exchange-answered serialize [] fresh get_info rtsp 200 (codes "OK") [] (codes "hi") refl refl
      refl ((calls-IsBalanced setting 0 []).0) (omega arith) (omega arith)
      (record { whole = refl; inked = refl; nonempty = refl }) refl numbered-ArePlain refl
      (omega arith) (omega arith)
