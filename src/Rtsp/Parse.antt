-- ===== src/Rtsp/Parse.antt =====
-- packages/rtsp/src/encoding.ts: parseRequest and parseResponse, on the bytes that have arrived.
use apple_protocols.Prelude.{
  ℕ, ◌+◌, ◌*◌, List, [], ◌∷◌, ◌++◌, Option, none, some, Bool, not, ◌&&◌, ◌||◌, ltb, if◌then◌else◌,
  take, drop, length, Bytes,
}
use apple_protocols.Rtsp.Parsed.{
  Parsed, ok, thrown, bind, Fault, headers_too_long, bad_request_line, bad_status_line,
}
use apple_protocols.Rtsp.Text.{
  Text, codes, crlf, is_space, is_ink, is_digit, is_version_char, is_inline, take_while, drop_while,
  is_empty, some_of, starts_with, index_of, split,
}
use apple_protocols.Rtsp.Decimal.{value}
use apple_protocols.Rtsp.Headers.{Headers, parse_headers, parse_content_length}

-- 64 KB
abbrev pub max_header_length : ℕ
max_header_length = 64 * 1024

abbrev pub head_end : Text
head_end = crlf ++ crlf

-- What a parser reads: the start line's parts, the headers, the body, and the number of bytes.
pub record Message (A : Type 0) : Type 0 where
  pub start : A
  pub headers : Headers
  pub body : Bytes
  pub total : ℕ

abbrev pub checked : ℕ → Option ℕ → Parsed (Option ℕ)
checked size none = if ltb max_header_length size then thrown headers_too_long else ok none
checked size (some n) = if ltb max_header_length n then thrown headers_too_long else ok (some n)

-- The length of the head, once its end has arrived.
unfoldable pub head_length : Bytes → Parsed (Option ℕ)
head_length buffer = checked (length buffer) (index_of head_end buffer)

-- The two parsers differ in how a head is read.
module _ {A : Type 0} (parse_head : Text → Parsed (A × Headers)) where
  -- The message, if its body has arrived.
  unfoldable pub with_body : Bytes → ℕ → A × Headers → ℕ → Option (Message A)
  with_body buffer n (start, headers) body_length =
      let total = n + 4 + body_length in
      if ltb (length buffer) total
      then none
      else some (record {
        start = start;
        headers = headers;
        body = drop (n + 4) (take total buffer);
        total = total;
      })

  unfoldable pub parse_after : Bytes → Option ℕ → Parsed (Option (Message A))
  unfolding with_body
  parse_after buffer none = ok none
  parse_after buffer (some n) = bind (parse_head (take n buffer)) λ head.
      bind (parse_content_length (head.1)) λ body_length. ok (with_body buffer n head body_length)

  unfoldable pub parse_message : Bytes → Parsed (Option (Message A))
  unfolding head_length parse_after
  parse_message buffer = bind (head_length buffer) (parse_after buffer)

-- `(?:RTSP|HTTP)\/[\d.]+` on a whole text.
abbrev pub is_version : Text → Bool
is_version version =
    (starts_with (codes "RTSP/") version || starts_with (codes "HTTP/") version)
    && some_of is_version_char (drop 5 version)

-- The request line's regular expression: method, blanks, path, blanks and a version. A class and the
-- one behind it have no character in common, so each takes all that it can.
unfoldable pub match_request_line : Text → Option (Text × Text)
match_request_line line =
    let method = take_while is_ink line in
    let behind_method = drop_while is_ink line in
    let target = drop_while is_space behind_method in
    let path = take_while is_ink target in
    let behind_path = drop_while is_ink target in
    let version = drop_while is_space behind_path in
    if is_empty method
      || is_empty (take_while is_space behind_method)
      || is_empty path
      || is_empty (take_while is_space behind_path)
      || not (is_version version)
    then none
    else some (method, path)

-- A head whose first line does not match is refused before its other lines are read.
abbrev pub headed : {A : Type 0} → Fault → Option A → Parsed Headers → Parsed (A × Headers)
headed fault none outcome = thrown fault
headed fault (some start) outcome = bind outcome λ headers. ok (start, headers)

-- The first line and the others.
abbrev first_line : List Text → Text
first_line [] = []
first_line (line ∷ lines) = line

unfoldable pub parse_request_headers : Text → Parsed ((Text × Text) × Headers)
unfolding match_request_line parse_headers
parse_request_headers head =
    let lines = split head in
    headed bad_request_line (match_request_line (first_line lines))
      (parse_headers [] (drop 1 lines))

-- `parseRequest`: method and path, headers, body and `requestLength`.
unfoldable pub parse_request : Bytes → Parsed (Option (Message (Text × Text)))
unfolding parse_message parse_request_headers
parse_request = parse_message parse_request_headers

abbrev pub one_line : Text → Option Text
one_line text =
    if is_empty (take_while is_inline text) then none else some (take_while is_inline text)

-- `\s+(.+)`: as many blanks as leave a character of the line behind them.
abbrev pub blanks_then_line : Text → Option Text
blanks_then_line [] = none
blanks_then_line (c ∷ cs) =
    let rest = blanks_then_line cs in
    if not (is_space c) then none else elim rest [ none ↦ one_line cs | some text ↦ some text ]

abbrev with_number : ℕ → Option Text → Option (ℕ × Text)
with_number status none = none
with_number status (some text) = some (status, text)

-- `\s+(\d+)\s+(.+)`
abbrev pub match_number : Text → Option (ℕ × Text)
match_number behind_version =
    let number = drop_while is_space behind_version in
    let digits = take_while is_digit number in
    if is_empty (take_while is_space behind_version) || is_empty digits
    then none
    else with_number (value digits) (blanks_then_line (drop_while is_digit number))

-- The status line's regular expression, from the start of a text on.
unfoldable pub match_status_at : Text → Option (ℕ × Text)
match_status_at line =
    let version = drop 5 line in
    if not (starts_with (codes "HTTP/") line || starts_with (codes "RTSP/") line)
      || is_empty (take_while is_version_char version)
    then none
    else match_number (drop_while is_version_char version)

abbrev first_of : Option (ℕ × Text) → Option (ℕ × Text) → Option (ℕ × Text)
first_of none later = later
first_of (some status) later = some status

-- The first place of a text where it matches.
unfoldable pub match_status_line : Text → Option (ℕ × Text)
unfolding match_status_at
match_status_line [] = none
match_status_line (c ∷ cs) = first_of (match_status_at (c ∷ cs)) (match_status_line cs)

unfoldable pub parse_response_headers : Text → Parsed ((ℕ × Text) × Headers)
unfolding match_status_line parse_headers
parse_response_headers head =
    let lines = split head in
    headed bad_status_line (match_status_line (first_line lines)) (parse_headers [] (drop 1 lines))
