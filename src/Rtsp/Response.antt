-- ===== src/Rtsp/Response.antt =====
-- packages/rtsp/src/encoding.ts: the `Response` that parseResponse makes of a message, with what the
-- constructor of `Response` refuses.
use apple_protocols.Prelude.{
  ℕ, [], ◌∷◌, Option, none, some, Bool, true, false, not, ◌&&◌, ◌||◌, leb, ◌==◌, if◌then◌else◌,
  Bytes,
}
use apple_protocols.Rtsp.Parsed.{Parsed, ok, thrown, bind, bad_response}
use apple_protocols.Rtsp.Text.{Text, codes, is_digit, all, some_of, upper}
use apple_protocols.Rtsp.Headers.{Headers}
use apple_protocols.Rtsp.Parse.{Message, parse_message, parse_response_headers}

-- A web `Response`; a body of `none` is null.
pub record Response : Type 0 where
  pub status : ℕ
  pub status_text : Text
  pub headers : Headers
  pub body : Option Bytes

abbrev pub is_null_body : ℕ → Bool
is_null_body status = status == 204 || status == 205 || status == 304

abbrev is_letter : ℕ → Bool
is_letter c = leb b'A' (upper c) && leb (upper c) b'Z'

abbrev member : ℕ → Text → Bool
member c [] = false
member c (d ∷ ds) = c == d || member c ds

-- The characters of a header's name.
abbrev pub is_token : ℕ → Bool
is_token c = is_letter c || is_digit c || member c (codes "!#$%&'*+-.^_`|~")

-- The characters of a header's value.
abbrev pub is_value : ℕ → Bool
is_value c = not (c == 0 || c == b'\r' || c == b'\n')

-- The characters of a status text.
abbrev pub is_reason : ℕ → Bool
is_reason c = c == 9 || (leb 32 c && not (c == 127))

abbrev pub are_legal : Headers → Bool
are_legal [] = true
are_legal ((name, text) ∷ headers) = some_of is_token name && all is_value text && are_legal headers

-- `new Response(body, {status, statusText, headers})`
unfoldable pub new_response : ℕ → Text → Headers → Option Bytes → Parsed Response
new_response status status_text headers body =
    if leb 200 status && leb status 599 && all is_reason status_text && are_legal headers
    then ok (record { status = status; status_text = status_text; headers = headers; body = body })
    else thrown bad_response

unfoldable pub to_response : Option (Message (ℕ × Text)) → Parsed (Option (Response × ℕ))
unfolding new_response
to_response none = ok none
to_response (some message) =
    bind
      (new_response (message.start.0) (message.start.1) message.headers
        (if is_null_body (message.start.0) then none else some message.body))
      λ response. ok (some (response, message.total))

-- `parseResponse`: the response and `responseLength`.
unfoldable pub parse_response : Bytes → Parsed (Option (Response × ℕ))
unfolding parse_message parse_response_headers to_response
parse_response buffer = bind (parse_message parse_response_headers buffer) to_response

-- `response.ok`
abbrev pub is_ok : Response → Bool
is_ok response = leb 200 response.status && leb response.status 299
