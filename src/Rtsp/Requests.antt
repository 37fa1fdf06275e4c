-- ===== src/Rtsp/Requests.antt =====
-- packages/rtsp/src: the request that `exchange` of client.ts writes, read by parseRequest.
use apple_protocols.Prelude.{
  ℕ, ◌≤◌, [], ◌∷◌, ◌++◌, Option, none, some, true, ◌≡◌, refl, arith, map, length, Bytes,
}
use apple_protocols.Rtsp.Parsed.{ok}
use apple_protocols.Rtsp.Text.{Text, codes, is_ink, is_digit, all, trim_start, trim_end}
use apple_protocols.Rtsp.Decimal.{to_text, to_text-all}
use apple_protocols.Rtsp.Headers.{
  Headers, lookup, put_all, content_length, cseq_name, normal_name, max_body_length,
}
use apple_protocols.Rtsp.Parse.{max_header_length, parse_request_headers, parse_request}
use apple_protocols.Rtsp.Build.{
  Protocol, Body, no_body, text, buffer, object, put_type, body_bytes, type_of, request_headers,
  format_request, header_line,
}
use apple_protocols.Rtsp.Lines.{is_not_return, all_split, split-join}
use apple_protocols.Rtsp.Plain.{
  IsName, IsText, ArePlain, ArePlain-put, ArePlain-put_all, lookup-put, header_lines-AreLines,
}
use apple_protocols.Rtsp.ReadBack.{parse_headers-header_line, parse_content_length-of}
use apple_protocols.Rtsp.StartLine.{
  IsWord, request_line, match_request_line-request_line, request_line-IsLine, all_weaken,
  digit_is_not_return,
}
use apple_protocols.Rtsp.RoundTrip.{head_lines, parse_message-head_text}

trim_start-ink : (cs : Text) → all is_ink cs ≡ true → trim_start cs ≡ cs
trim_start-ink [] h = refl
trim_start-ink (c ∷ cs) h = ground (arith, all_split is_ink c cs h)

trim_end-ink : (cs : Text) → all is_ink cs ≡ true → trim_end cs ≡ cs
trim_end-ink [] h = refl
trim_end-ink (c ∷ []) h = ground arith
trim_end-ink (c ∷ d ∷ cs) h = rw (trim_end-ink (d ∷ cs) (all_split is_ink c (d ∷ cs) h).1) refl

digit_is_ink : (c : ℕ) → is_digit c ≡ true → is_ink c ≡ true
digit_is_ink c h = ground arith

pub to_text-IsText : (n : ℕ) → IsText (to_text n)
to_text-IsText n =
    let inked = all_weaken is_digit is_ink digit_is_ink (to_text n) (to_text-all n) in
    record {
      trimmed = rw (trim_start-ink (to_text n) inked) (trim_end-ink (to_text n) inked);
      unbroken = all_weaken is_digit is_not_return digit_is_not_return (to_text n) (to_text-all n);
    }

pub content_length-IsName : IsName content_length
unfolding normal_name
content_length-IsName = record {
  normal = refl;
  trimmed = refl;
  inked = refl;
  unbroken = refl;
  closed = refl;
  kept = refl;
}

content_type-IsName : IsName (codes "Content-Type")
unfolding normal_name
content_type-IsName = record {
  normal = refl;
  trimmed = refl;
  inked = refl;
  unbroken = refl;
  closed = refl;
  kept = refl;
}

cseq_name-IsName : IsName cseq_name
unfolding normal_name
cseq_name-IsName = record {
  normal = refl;
  trimmed = refl;
  inked = refl;
  unbroken = refl;
  closed = refl;
  kept = refl;
}

-- A type that is given is a plain text.
abbrev pub IsType : Option Text → Type 0
IsType none = Unit
IsType (some type) = IsText type

put_type-ArePlain :
    (type : Option Text) (headers : Headers)
    → IsType type
    → ArePlain headers
    → ArePlain (put_type type headers)
put_type-ArePlain none headers t p = p
put_type-ArePlain (some []) headers t p = p
put_type-ArePlain (some (c ∷ cs)) headers t p =
    ArePlain-put headers (codes "Content-Type") (c ∷ cs) p content_type-IsName t

module _ {O : Type 0} (serialize : O → Bytes) where
  type_of-IsType :
      (type : Option Text) (body : Body O) → IsType type → IsType (type_of serialize type body)
  type_of-IsType type no_body t = t
  type_of-IsType type (text bytes) t = t
  type_of-IsType type (buffer bytes) t = t
  type_of-IsType type (object plist) t = record { trimmed = refl; unbroken = refl }

  request_headers-ArePlain :
      (cseq : ℕ) (defaults extra : Headers) (type : Option Text) (body : Body O)
      → ArePlain defaults
      → ArePlain extra
      → IsType type
      → ArePlain (request_headers serialize cseq defaults extra type body)
  unfolding request_headers
  request_headers-ArePlain cseq defaults extra type body d e t =
      ArePlain-put _ content_length _
        (put_type-ArePlain (type_of serialize type body) _ (type_of-IsType type body t) (
          ArePlain-put_all _ extra
            (ArePlain-put_all ((cseq_name, to_text cseq) ∷ []) defaults
              ((cseq_name-IsName, to_text-IsText cseq), (tt, tt)) d)
            e))
        content_length-IsName (to_text-IsText (length (body_bytes serialize body)))

  lookup-request_headers :
      (cseq : ℕ) (defaults extra : Headers) (type : Option Text) (body : Body O)
      → lookup (request_headers serialize cseq defaults extra type body) content_length
        ≡ some (to_text (length (body_bytes serialize body)))
  unfolding request_headers
  lookup-request_headers cseq defaults extra type body =
      lookup-put
        (put_type (type_of serialize type body)
          (put_all (put_all ((cseq_name, to_text cseq) ∷ []) defaults) extra))
        content_length (to_text (length (body_bytes serialize body)))

parse_request_headers-lines :
    (method path : Text) (protocol : Protocol) (headers : Headers)
    → IsWord method
    → IsWord path
    → ArePlain headers
    → parse_request_headers (head_lines (request_line method path protocol) headers)
      ≡ ok ((method, path), headers)
unfolding parse_request_headers
parse_request_headers-lines method path protocol headers m p h =
    rw
      (
        split-join (request_line method path protocol) (map header_line headers)
            (request_line-IsLine method path protocol m p, header_lines-AreLines headers h),
        match_request_line-request_line method path protocol m p,
        parse_headers-header_line headers h,
      )
      refl

-- A request that the client writes is parsed to its method and path, the headers it was written
-- with, its body and its length, whatever bytes follow it. Method and path are words, the headers
-- that the caller and the class add are plain, a content type is a plain text, and the head and the
-- body are not above the parser's limits.
pub parse_request-format_request :
    {O : Type 0} (serialize : O → Bytes) (method path : Text) (protocol : Protocol) (cseq : ℕ)
    (defaults extra : Headers) (type : Option Text) (body : Body O) (behind : Bytes)
    → IsWord method
    → IsWord path
    → ArePlain defaults
    → ArePlain extra
    → IsType type
    → length (
        head_lines
          (request_line method path protocol)
          (request_headers serialize cseq defaults extra type body))
      ≤ max_header_length
    → length (body_bytes serialize body) ≤ max_body_length
    → parse_request
        (format_request serialize method path protocol cseq defaults extra type body ++ behind)
      ≡ ok (
          some (record {
            start = (method, path);
            headers = request_headers serialize cseq defaults extra type body;
            body = body_bytes serialize body;
            total =
                length
                  (format_request serialize method path protocol cseq defaults extra type body);
          }))
unfolding parse_request format_request
parse_request-format_request serialize method path protocol cseq defaults extra type body behind m p
      d e t head_fits body_fits =
    let headers = request_headers serialize cseq defaults extra type body in
    let plain = request_headers-ArePlain serialize cseq defaults extra type body d e t in
    parse_message-head_text parse_request_headers (method, path) (request_line method path protocol)
      headers (body_bytes serialize body) behind (request_line-IsLine method path protocol m p)
      plain (parse_request_headers-lines method path protocol headers m p plain) head_fits
      (parse_content_length-of headers (length (body_bytes serialize body))
        (lookup-request_headers serialize cseq defaults extra type body) body_fits)
