-- ===== src/Tests/Rtsp.antt =====
-- Runs and instances for packages/rtsp/src.
use apple_protocols.Prelude.{ℕ, [], ◌∷◌, ◌++◌, none, some, Bytes, length, ◌≡◌, refl, arith}
use apple_protocols.Rtsp.Text.{Text, codes}
use apple_protocols.Rtsp.Parsed.{
  ok, thrown, bad_length, conflicting_length, bad_status_line, bad_response,
}
use apple_protocols.Rtsp.Decimal.{to_text, value}
use apple_protocols.Rtsp.Headers.{Headers, cseq_name, normal_name, parse_content_length}
use apple_protocols.Rtsp.Parse.{Message, parse_message, parse_request_headers, parse_request}
use apple_protocols.Rtsp.Response.{parse_response}
use apple_protocols.Rtsp.Build.{
  rtsp, http, text, status_line, body_bytes, request_headers, format_request, build_response,
}
use apple_protocols.Rtsp.Plain.{IsText, ArePlain}
use apple_protocols.Rtsp.StartLine.{IsWord}
use apple_protocols.Rtsp.Requests.{parse_request-format_request}
use apple_protocols.Rtsp.Responses.{response_headers, response_of, parse_response-build_response}

abbrev serialize : ℕ → Bytes
serialize n = n ∷ []

abbrev agent : Headers
agent = (codes "User-Agent", codes "AirPlay/320.20") ∷ []

agent-ArePlain : ArePlain agent
unfolding normal_name
agent-ArePlain = (
  (
    record {
      normal = refl;
      trimmed = refl;
      inked = refl;
      unbroken = refl;
      closed = refl;
      kept = refl;
    },
    record { trimmed = refl; unbroken = refl },
  ),
  (tt, tt),
)

post-IsWord : IsWord (codes "POST")
post-IsWord = record { inked = refl; nonempty = refl }

info-IsWord : IsWord (codes "/info")
info-IsWord = record { inked = refl; nonempty = refl }

plain-IsText : IsText (codes "text/plain")
plain-IsText = record { trimmed = refl; unbroken = refl }

parse_request-format_request_example :
    parse_request (
      format_request serialize
        (codes "POST")
        (codes "/info")
        rtsp
        7
        agent
        []
        (some (codes "text/plain"))
        (text (codes "hi"))
      ++ codes "GET")
    ≡ ok (
        some (record {
          start = (codes "POST", codes "/info");
          headers =
              request_headers serialize 7 agent [] (some (codes "text/plain")) (text (codes "hi"));
          body = codes "hi";
          total = length (
              format_request serialize
                (codes "POST")
                (codes "/info")
                rtsp
                7
                agent
                []
                (some (codes "text/plain"))
                (text (codes "hi")));
        }))
unfolding request_headers body_bytes to_text
parse_request-format_request_example =
    parse_request-format_request serialize (codes "POST") (codes "/info") rtsp 7 agent []
      (some (codes "text/plain")) (text (codes "hi")) (codes "GET") post-IsWord info-IsWord
      agent-ArePlain tt plain-IsText (omega arith) (omega arith)

parse_response-build_response_example :
    parse_response (build_response http 204 (codes "No Content") agent (codes "x") ++ codes "HT")
    ≡ ok (
        some (
          response_of 204 (codes "No Content") (response_headers agent (codes "x")) (codes "x"),
          length (build_response http 204 (codes "No Content") agent (codes "x")),
        ))
unfolding to_text status_line
parse_response-build_response_example =
    parse_response-build_response http 204 (codes "No Content") agent (codes "x") (codes "HT")
      (omega arith) (omega arith) (record { whole = refl; inked = refl; nonempty = refl }) refl
      agent-ArePlain refl (omega arith) (omega arith)

abbrev get_info : Bytes
get_info = codes "GET /info RTSP/1.0\r\nCSeq: 1\r\n\r\n"

abbrev get_info_message : Message (Text × Text)
get_info_message = record {
  start = (codes "GET", codes "/info");
  headers = (cseq_name, codes "1") ∷ [];
  body = [];
  total = 31;
}

get_info_parsed : parse_message parse_request_headers get_info ≡ ok (some get_info_message)
unfolding parse_message parse_request_headers parse_content_length
get_info_parsed = refl

-- A head that is not whole, a body that is not, and heads that are refused.
half_head : parse_response (codes "RTSP/1.0 200 OK\r\nCSeq: 1\r\n") ≡ ok none
unfolding parse_response parse_content_length value
half_head = refl

half_body : parse_response (codes "RTSP/1.0 200 OK\r\nContent-Length: 4\r\n\r\nabc") ≡ ok none
unfolding parse_response parse_content_length value
half_body = refl

two_lengths :
    parse_response (codes "RTSP/1.0 200 OK\r\ncontent-length: 4\r\nContent-Length: 5\r\n\r\nabcd")
    ≡ thrown conflicting_length
unfolding parse_response parse_content_length value
two_lengths = refl

huge_length :
    parse_response (codes "RTSP/1.0 200 OK\r\nContent-Length: 99999999\r\n\r\n") ≡ thrown bad_length
unfolding parse_response parse_content_length value
huge_length = refl

no_status : parse_response (codes "RTSP/1.0 OK\r\n\r\n") ≡ thrown bad_status_line
unfolding parse_response parse_content_length value
no_status = refl

low_status : parse_response (codes "RTSP/1.0 100 Continue\r\n\r\n") ≡ thrown bad_response
unfolding parse_response parse_content_length value
low_status = refl
