-- ===== src/Rtsp/RoundTrip.antt =====
-- packages/rtsp/src: requests and responses that are written and then parsed.
use apple_protocols.Prelude.{
  ◌+◌, ◌≤◌, List, ◌∷◌, ◌++◌, some, ◌≡◌, refl, ◌∙◌, arith, map, length, Bytes, append_assoc,
  take-length_append, drop-append_eq, length-append, le→ltb_false,
}
use apple_protocols.Rtsp.Parsed.{Parsed, ok}
use apple_protocols.Rtsp.Text.{Text, join}
use apple_protocols.Rtsp.Headers.{Headers, parse_content_length}
use apple_protocols.Rtsp.Parse.{
  Message, max_header_length, head_end, head_length, parse_after, with_body, parse_message,
}
use apple_protocols.Rtsp.Build.{header_line, head_text}
use apple_protocols.Rtsp.Lines.{IsLine, AreLines, index_of-join, join-end}
use apple_protocols.Rtsp.Plain.{ArePlain, header_lines-AreLines}

abbrev pub head_lines : Text → Headers → Text
head_lines start headers = join (start ∷ map header_line headers)

-- The message that a written head and a body are read as.
abbrev pub message_of : {A : Type 0} → A → Text → Headers → Bytes → Message A
message_of start line headers body = record {
  start = start;
  headers = headers;
  body = body;
  total = length (head_text line headers ++ body);
}

head_text-lines :
    (line : Text) (headers : Headers) → head_text line headers ≡ head_lines line headers ++ head_end
unfolding head_text
head_text-lines line headers = join-end line (map header_line headers)

module _ {A : Type 0} (parse_head : Text → Parsed (A × Headers)) where
  with_body-parts :
      (head body behind : Bytes) (start : A) (headers : Headers)
      → with_body parse_head
          (((head ++ head_end) ++ body) ++ behind)
          (length head)
          (start, headers)
          (length body)
        ≡ some (record {
          start = start;
          headers = headers;
          body = body;
          total = length ((head ++ head_end) ++ body);
        })
  unfolding with_body
  with_body-parts head body behind start headers =
      rw
        (
          ← total_lem,
          le→ltb_false (length (((head ++ head_end) ++ body) ++ behind))
              (length ((head ++ head_end) ++ body))
              (omega (arith, length-append ((head ++ head_end) ++ body) behind)),
          take-length_append ((head ++ head_end) ++ body) behind,
          drop-append_eq (length head + 4) (head ++ head_end) body
              (omega (arith, length-append head head_end)),
        )
        refl
    where
      total_lem : length ((head ++ head_end) ++ body) ≡ length head + 4 + length body
      total_lem = omega (arith, length-append (head ++ head_end) body, length-append head head_end)

  head_length-lines :
      (l : Text) (ls : List Text) (behind : Bytes)
      → AreLines (l ∷ ls)
      → length (join (l ∷ ls)) ≤ max_header_length
      → head_length (join (l ∷ ls) ++ (head_end ++ behind)) ≡ ok (some (length (join (l ∷ ls))))
  unfolding head_length
  head_length-lines l ls behind a h =
      rw (index_of-join l ls behind a, le→ltb_false max_header_length (length (join (l ∷ ls))) h)
        refl

  parse_message-lines :
      (start : A) (line : Text) (headers : Headers) (body behind : Bytes)
      → IsLine line
      → ArePlain headers
      → parse_head (head_lines line headers) ≡ ok (start, headers)
      → length (head_lines line headers) ≤ max_header_length
      → parse_content_length headers ≡ ok (length body)
      → parse_message parse_head (((head_lines line headers ++ head_end) ++ body) ++ behind)
        ≡ ok (
            some (record {
              start = start;
              headers = headers;
              body = body;
              total = length ((head_lines line headers ++ head_end) ++ body);
            }))
  unfolding parse_message parse_after
  parse_message-lines start line headers body behind l p e h c =
      rw
        (
          whole_lem,
          head_length-lines line (map header_line headers) (body ++ behind)
              (l, header_lines-AreLines headers p) h,
          take-length_append (head_lines line headers) (head_end ++ (body ++ behind)),
          e,
          c,
          ← whole_lem,
          with_body-parts (head_lines line headers) body behind start headers,
        )
        refl
    where
      whole_lem :
          ((head_lines line headers ++ head_end) ++ body) ++ behind
          ≡ head_lines line headers ++ (head_end ++ (body ++ behind))
      whole_lem =
          append_assoc (head_lines line headers ++ head_end) body behind
          ∙ append_assoc (head_lines line headers) head_end (body ++ behind)

  -- What was written is read whole, whatever follows it.
  pub parse_message-head_text :
      (start : A) (line : Text) (headers : Headers) (body behind : Bytes)
      → IsLine line
      → ArePlain headers
      → parse_head (head_lines line headers) ≡ ok (start, headers)
      → length (head_lines line headers) ≤ max_header_length
      → parse_content_length headers ≡ ok (length body)
      → parse_message parse_head ((head_text line headers ++ body) ++ behind)
        ≡ ok (some (message_of start line headers body))
  parse_message-head_text start line headers body behind l p e h c =
      rw (head_text-lines line headers)
        (parse_message-lines start line headers body behind l p e h c)
