-- ===== src/Rtsp/Build.antt =====
-- packages/rtsp/src: buildResponse of encoding.ts, and the request that `exchange` of client.ts
-- writes. The property list of an object body comes from a library. No name is an array index, which
-- an object would list first.
use apple_protocols.Prelude.{ℕ, [], ◌∷◌, ◌++◌, Option, none, some, map, length, Bytes}
use apple_protocols.Rtsp.Text.{Text, codes, join}
use apple_protocols.Rtsp.Decimal.{to_text}
use apple_protocols.Rtsp.Headers.{Headers, put, put_all, content_length, cseq_name}

pub data Protocol : Type 0 where
  rtsp http : Protocol

abbrev pub version_text : Protocol → Text
version_text rtsp = codes "RTSP/1.0"
version_text http = codes "HTTP/1.1"

abbrev pub header_line : Text × Text → Text
header_line (name, text) = name ++ (codes ": " ++ text)

-- `headerLines`: the head with the empty line that ends it.
unfoldable pub head_text : Text → Headers → Text
head_text start headers = join (start ∷ map header_line headers ++ ([] ∷ [] ∷ []))

unfoldable pub status_line : Protocol → ℕ → Text → Text
status_line protocol status status_text =
    version_text protocol ++ (codes " " ++ (to_text status ++ (codes " " ++ status_text)))

-- `buildResponse`
unfoldable pub build_response : Protocol → ℕ → Text → Headers → Bytes → Bytes
unfolding head_text status_line
build_response protocol status status_text extra body =
    head_text (status_line protocol status status_text)
      (put (put_all [] extra) content_length (to_text (length body)))
    ++ body

-- The body that a caller gives: a text, a buffer or an object.
pub data Body (O : Type 0) : Type 0 where
  no_body : Body O
  text buffer : Bytes → Body O
  object : O → Body O

-- Writes the type, unless it is missing or empty.
abbrev pub put_type : Option Text → Headers → Headers
put_type none headers = headers
put_type (some []) headers = headers
put_type (some (c ∷ cs)) headers = put headers (codes "Content-Type") (c ∷ cs)

module _ {O : Type 0} (serialize : O → Bytes) where
  -- `bodyBuffer`, empty where there is none. An empty text counts as none.
  unfoldable pub body_bytes : Body O → Bytes
  body_bytes no_body = []
  body_bytes (text bytes) = bytes
  body_bytes (buffer bytes) = bytes
  body_bytes (object plist) = serialize plist

  abbrev pub type_of : Option Text → Body O → Option Text
  type_of content_type (object plist) = some (codes "application/x-apple-binary-plist")
  type_of content_type no_body = content_type
  type_of content_type (text bytes) = content_type
  type_of content_type (buffer bytes) = content_type

  -- The headers of a request, in the order they are written.
  unfoldable pub request_headers : ℕ → Headers → Headers → Option Text → Body O → Headers
  unfolding body_bytes
  request_headers cseq defaults extra content_type body =
      put
        (put_type (type_of content_type body)
          (put_all (put_all ((cseq_name, to_text cseq) ∷ []) defaults) extra))
        content_length (to_text (length (body_bytes body)))

  -- `raw`
  unfoldable pub format_request :
      Text → Text → Protocol → ℕ → Headers → Headers → Option Text → Body O → Bytes
  unfolding head_text request_headers
  format_request method path protocol cseq defaults extra content_type body =
      head_text (method ++ (codes " " ++ (path ++ (codes " " ++ version_text protocol))))
        (request_headers cseq defaults extra content_type body)
      ++ body_bytes body
