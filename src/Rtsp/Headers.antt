-- ===== src/Rtsp/Headers.antt =====
-- packages/rtsp/src/encoding.ts: parseHeaders and parseContentLength. Names that look like an array
-- index, which an object would list first, are not told apart: only look-ups read the headers.
use apple_protocols.Prelude.{
  ℕ, ◌+◌, ◌*◌, List, [], ◌∷◌, Option, none, some, Bool, true, false, not, ◌&&◌, leb, ◌==◌,
  if◌then◌else◌, map, take, drop,
}
use apple_protocols.Rtsp.Parsed.{Parsed, ok, thrown, bind, conflicting_length, bad_length}
use apple_protocols.Rtsp.Text.{
  Text, codes, same, trim, lower, upper, index_of, is_word, is_digit, some_of,
}
use apple_protocols.Rtsp.Decimal.{value}

abbrev pub Headers : Type 0
Headers = List (Text × Text)

abbrev pub lookup : Headers → Text → Option Text
lookup [] name = none
lookup ((key, text) ∷ headers) name = elim (same key name) [
  | true ↦ some text
  | false ↦ lookup headers name
]

-- Writing a name that is there keeps its place.
abbrev pub put : Headers → Text → Text → Headers
put [] name text = (name, text) ∷ []
put ((key, old) ∷ headers) name text = elim (same key name) [
  | true ↦ (key, text) ∷ headers
  | false ↦ (key, old) ∷ put headers name text
]

-- `Object.assign` and the spread of headers after others.
abbrev pub put_all : Headers → Headers → Headers
put_all headers [] = headers
put_all headers ((name, text) ∷ more) = put_all (put headers name text) more

abbrev pub content_length : Text
content_length = codes "Content-Length"

abbrev pub cseq_name : Text
cseq_name = codes "CSeq"

-- `replace(/(^|-)(\w)/g, …)`, with whether the text stands at the start or behind a `-`.
abbrev capitals : Bool → Text → Text
capitals first [] = []
capitals first (c ∷ cs) = (if first && is_word c then upper c else c) ∷ capitals (c == b'-') cs

unfoldable pub normal_name : Text → Text
normal_name name =
    let low = map lower name in if same low (codes "cseq") then cseq_name else capitals true low

-- Whether a Content-Length was there with another value.
abbrev pub conflicts : Option Text → Text → Bool
conflicts none text = false
conflicts (some old) text = not (same old text)

-- A round of `parseHeaders`, given where the colon is. Assigning a text to `__proto__` is ignored by
-- the language.
unfoldable pub parse_header_at : Headers → Text → Option ℕ → Parsed Headers
unfolding normal_name
parse_header_at headers line none = ok headers
parse_header_at headers line (some colon) =
    let name = normal_name (trim (take colon line)) in
    let text = trim (drop (colon + 1) line) in
    if leb colon 0
    then ok headers
    else if same name content_length && conflicts (lookup headers name) text
    then thrown conflicting_length
    else if same name (codes "__proto__")
    then ok headers
    else ok (put headers name text)

unfoldable pub parse_header : Headers → Text → Parsed Headers
unfolding parse_header_at
parse_header headers line = parse_header_at headers line (index_of (b':' ∷ []) line)

-- `parseHeaders`
unfoldable pub parse_headers : Headers → List Text → Parsed Headers
unfolding parse_header
parse_headers headers [] = ok headers
parse_headers headers (line ∷ lines) =
    bind (parse_header headers line) λ more. parse_headers more lines

-- 16 MB
abbrev pub max_body_length : ℕ
max_body_length = 16 * 1024 * 1024

abbrev pub length_of : Option Text → Parsed ℕ
length_of none = ok 0
length_of (some text) =
    if some_of is_digit text && leb (value text) max_body_length
    then ok (value text)
    else thrown bad_length

-- `parseContentLength`. The longest body is a safe integer.
unfoldable pub parse_content_length : Headers → Parsed ℕ
parse_content_length headers = length_of (lookup headers content_length)
