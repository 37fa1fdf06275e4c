-- ===== src/Rtsp/Responses.antt =====
-- packages/rtsp/src/encoding.ts: what buildResponse writes, read by parseResponse.
use apple_protocols.Prelude.{
  ℕ, ◌≤◌, [], ◌∷◌, ◌++◌, Option, none, some, true, if◌then◌else◌, ◌≡◌, refl, arith, map, length,
  Bytes, le→leb, inl, inr, Bool-cases,
}
use apple_protocols.Rtsp.Parsed.{ok}
use apple_protocols.Rtsp.Text.{Text, all, is_digit, same, some_of}
use apple_protocols.Rtsp.Decimal.{to_text, to_text-all}
use apple_protocols.Rtsp.Headers.{Headers, put, put_all, content_length, max_body_length}
use apple_protocols.Rtsp.Parse.{max_header_length, parse_response_headers}
use apple_protocols.Rtsp.Response.{
  Response, is_null_body, is_token, is_value, is_reason, are_legal, new_response, parse_response,
}
use apple_protocols.Rtsp.Build.{Protocol, status_line, build_response, header_line}
use apple_protocols.Rtsp.Lines.{split-join}
use apple_protocols.Rtsp.Plain.{
  ArePlain, ArePlain-put, ArePlain-put_all, lookup-put, header_lines-AreLines, put-same, put-other,
}
use apple_protocols.Rtsp.ReadBack.{parse_headers-header_line, parse_content_length-of}
use apple_protocols.Rtsp.StartLine.{
  IsReason, match_status_line-status_line, status_line-IsLine, all_weaken,
}
use apple_protocols.Rtsp.RoundTrip.{head_lines, parse_message-head_text}
use apple_protocols.Rtsp.Requests.{to_text-IsText, content_length-IsName}

-- The headers that `buildResponse` writes.
abbrev pub response_headers : Headers → Bytes → Headers
response_headers extra body = put (put_all [] extra) content_length (to_text (length body))

response_headers-ArePlain :
    (extra : Headers) (body : Bytes) → ArePlain extra → ArePlain (response_headers extra body)
response_headers-ArePlain extra body e =
    ArePlain-put (put_all [] extra) content_length (to_text (length body))
      (ArePlain-put_all [] extra tt e) content_length-IsName (to_text-IsText (length body))

are_legal-split :
    (name text : Text) (headers : Headers)
    → are_legal ((name, text) ∷ headers) ≡ true
    → (some_of is_token name ≡ true) × ((all is_value text ≡ true) × (are_legal headers ≡ true))
are_legal-split name text headers h = ground arith

are_legal-cons :
    (name text : Text) (headers : Headers)
    → some_of is_token name ≡ true
    → all is_value text ≡ true
    → are_legal headers ≡ true
    → are_legal ((name, text) ∷ headers) ≡ true
are_legal-cons name text headers n t h = rw (n, t, h) refl

are_legal-put :
    (headers : Headers) (name text : Text)
    → are_legal headers ≡ true
    → some_of is_token name ≡ true
    → all is_value text ≡ true
    → are_legal (put headers name text) ≡ true
are_legal-put [] name text h n t = are_legal-cons name text [] n t refl
are_legal-put ((other, old) ∷ headers) name text h n t =
    let (m, (o, g)) = are_legal-split other old headers h in
    elim (Bool-cases (same other name)) [
      | inl e ↦
          rw (put-same headers other old name text e) (are_legal-cons other text headers m t g)
      | inr e ↦ rw (put-other headers other old name text e) (
          are_legal-cons other old (put headers name text) m o
            (are_legal-put headers name text g n t))
    ]

are_legal-put_all :
    (headers more : Headers)
    → are_legal headers ≡ true
    → are_legal more ≡ true
    → are_legal (put_all headers more) ≡ true
are_legal-put_all headers [] h k = h
are_legal-put_all headers ((name, text) ∷ more) h k =
    let (n, (t, g)) = are_legal-split name text more k in
    are_legal-put_all (put headers name text) more (are_legal-put headers name text h n t) g

digit_is_value : (c : ℕ) → is_digit c ≡ true → is_value c ≡ true
digit_is_value c h = ground arith

response_headers-are_legal :
    (extra : Headers) (body : Bytes)
    → are_legal extra ≡ true
    → are_legal (response_headers extra body) ≡ true
response_headers-are_legal extra body e =
    are_legal-put (put_all [] extra) content_length (to_text (length body))
      (are_legal-put_all [] extra refl e) refl
      (all_weaken is_digit is_value digit_is_value (to_text (length body))
        (to_text-all (length body)))

parse_response_headers-lines :
    (protocol : Protocol) (status : ℕ) (reason : Text) (headers : Headers)
    → IsReason reason
    → ArePlain headers
    → parse_response_headers (head_lines (status_line protocol status reason) headers)
      ≡ ok ((status, reason), headers)
unfolding parse_response_headers
parse_response_headers-lines protocol status reason headers r h =
    rw
      (
        split-join (status_line protocol status reason) (map header_line headers)
            (status_line-IsLine protocol status reason r, header_lines-AreLines headers h),
        match_status_line-status_line protocol status reason r,
        parse_headers-header_line headers h,
      )
      refl

-- The response that is read for a status, a status text, headers and a body.
abbrev pub response_of : ℕ → Text → Headers → Bytes → Response
response_of status reason headers body = record {
  status = status;
  status_text = reason;
  headers = headers;
  body = if is_null_body status then none else some body;
}

new_response-ok :
    (status : ℕ) (reason : Text) (headers : Headers) (body : Option Bytes)
    → 200 ≤ status
    → status ≤ 599
    → all is_reason reason ≡ true
    → are_legal headers ≡ true
    → new_response status reason headers body
      ≡ ok (record { status = status; status_text = reason; headers = headers; body = body })
unfolding new_response
new_response-ok status reason headers body low high r h =
    rw (le→leb 200 status low, le→leb status 599 high, r, h) refl

-- A response that `buildResponse` writes is parsed to its status, its status text, the headers it was
-- written with and its body, or no body where the status has none, and to its length, whatever bytes
-- follow it. The status is one that a `Response` can have, the status text starts with no blank and
-- stays in its line, the headers are plain, the names and values are legal, and the head and the body
-- are not above the parser's limits.
pub parse_response-build_response :
    (protocol : Protocol) (status : ℕ) (reason : Text) (extra : Headers) (body behind : Bytes)
    → 200 ≤ status
    → status ≤ 599
    → IsReason reason
    → all is_reason reason ≡ true
    → ArePlain extra
    → are_legal extra ≡ true
    → length (head_lines (status_line protocol status reason) (response_headers extra body))
      ≤ max_header_length
    → length body ≤ max_body_length
    → parse_response (build_response protocol status reason extra body ++ behind)
      ≡ ok (
          some (
            response_of status reason (response_headers extra body) body,
            length (build_response protocol status reason extra body),
          ))
unfolding parse_response build_response
parse_response-build_response protocol status reason extra body behind low high r s e l head_fits
      body_fits =
    let headers = response_headers extra body in
    let plain = response_headers-ArePlain extra body e in
    rw
      (
        parse_message-head_text parse_response_headers (status, reason)
            (status_line protocol status reason) headers body behind
            (status_line-IsLine protocol status reason r) plain
            (parse_response_headers-lines protocol status reason headers r plain) head_fits
            (parse_content_length-of headers (length body)
              (lookup-put (put_all [] extra) content_length (to_text (length body))) body_fits),
        new_response-ok status reason headers (if is_null_body status then none else some body) low
            high s (response_headers-are_legal extra body l),
      )
      refl
