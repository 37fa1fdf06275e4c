-- ===== src/Rtsp/Client/Ends.antt =====
-- packages/rtsp/src/client.ts: the loop over the responses ends, and what ends all requests.
use apple_protocols.Prelude.{
  ℕ, zero, suc, ◌≤◌, [], ◌∷◌, ◌++◌, Option, none, some, if◌then◌else◌, ◌≡◌, refl, ap, arith, drop,
  length, length-drop, Bytes,
}
use apple_protocols.Prelude.JsMap
use apple_protocols.Prelude.JsMap.{JsMap}
use apple_protocols.Rtsp.Text.{Text}
use apple_protocols.Rtsp.Parsed.{Parsed, ok, thrown, bind, bind-eq_ok}
use apple_protocols.Rtsp.Text.{Text}
use apple_protocols.Rtsp.Parse.{Message, parse_message, parse_response_headers}
use apple_protocols.Rtsp.Response.{
  Response, is_null_body, new_response, to_response, parse_response,
}
use apple_protocols.Rtsp.Stable.{parse_message-bounds, parse_message-append}
use apple_protocols.Rtsp.Client.{Pending, Client, cseq_of}
use apple_protocols.Rtsp.Client.Receive.{
  answer, answer_to, answer_number, next_response, Run, waits, throws, cut_off, turn, responses,
}

counted_lem :
    {response : Response} {size : ℕ} (o : Parsed Response) (n : ℕ)
    → bind {B = Option (Response × ℕ)} o (λ r. ok (some (r, n))) ≡ ok (some (response, size))
    → n ≡ size
counted_lem (ok r) n h = cc
counted_lem (thrown fault) n h = absurd (ground (arith, h))

-- A response comes of a message.
pub parse_response-eq_ok :
    (buffer : Bytes) (response : Response) (size : ℕ)
    → parse_response buffer ≡ ok (some (response, size))
    → (m : Message (ℕ × Text)) × ((parse_message parse_response_headers buffer ≡ ok (some m))
        × ((to_response (some m) ≡ ok (some (response, size))) × (m.total ≡ size)))
unfolding parse_response to_response
parse_response-eq_ok buffer response size h =
    let (o, (p, g)) = bind-eq_ok (parse_message parse_response_headers buffer) to_response _ h in
    go o p g
  where
    go :
        (o : Option (Message (ℕ × Text)))
        → parse_message parse_response_headers buffer ≡ ok o
        → to_response o ≡ ok (some (response, size))
        → (m : Message (ℕ × Text)) × ((parse_message parse_response_headers buffer ≡ ok (some m))
            × ((to_response (some m) ≡ ok (some (response, size))) × (m.total ≡ size)))
    go none p g = absurd (ground (arith, g))
    go (some m) p g = (
      m,
      (
        p,
        (
          g,
          counted_lem
              (new_response (m.start.0) (m.start.1) m.headers
                (if is_null_body (m.start.0) then none else some m.body))
              m.total g,
        ),
      ),
    )

-- A response takes bytes, and no more than there are.
pub next_response-bounds :
    (buffer : Bytes) (response : Response) (size : ℕ)
    → next_response buffer ≡ ok (some (response, size))
    → (4 ≤ size) × (size ≤ length buffer)
unfolding next_response
next_response-bounds [] response size h = absurd (ground (arith, h))
next_response-bounds (b ∷ bs) response size h =
    let (m, (p, (g, e))) = parse_response-eq_ok (b ∷ bs) response size h in
    let (low, high) = parse_message-bounds parse_response_headers (b ∷ bs) m p in
    (omega (arith, low, e), omega (arith, high, e))

-- It is read as well when more bytes follow.
pub next_response-append :
    (buffer behind : Bytes) (response : Response) (size : ℕ)
    → next_response buffer ≡ ok (some (response, size))
    → next_response (buffer ++ behind) ≡ ok (some (response, size))
unfolding next_response parse_response
next_response-append [] behind response size h = absurd (ground (arith, h))
next_response-append (b ∷ bs) behind response size h =
    let (m, (p, (g, e))) = parse_response-eq_ok (b ∷ bs) response size h in
    rw (parse_message-append parse_response_headers (b ∷ bs) behind m p) g

module _ {K : Type 0} where
  -- An answer does not look at the buffer, and leaves it.
  pub answer-buffer :
      (response : Response) (c : Client K) (bytes : Bytes)
      → answer response (record c { buffer = bytes })
        ≡ record (answer response c) { buffer = bytes }
  unfolding answer answer_to answer_number
  answer-buffer response c bytes = to_lem (cseq_of response)
    where
      number_lem :
          (k : ℕ) (o : Option Pending)
          → answer_number k o response (record c { buffer = bytes })
            ≡ record (answer_number k o response c) { buffer = bytes }
      number_lem k none = refl
      number_lem k (some p) = refl

      to_lem :
          (o : Option ℕ)
          → answer_to o response (record c { buffer = bytes })
            ≡ record (answer_to o response c) { buffer = bytes }
      to_lem none = refl
      to_lem (some k) = number_lem k (JsMap.get c.requests k)

  pub buffer-answer : (response : Response) (c : Client K) → (answer response c).buffer ≡ c.buffer
  buffer-answer response c = ap (λ d. d.buffer) (answer-buffer response c c.buffer)

  -- How the loop ends: with no whole response in the buffer, or at one that cannot be read.
  abbrev pub IsOver : Run K → Type 0
  IsOver (waits d) = next_response d.buffer ≡ ok none
  IsOver (throws fault d) = next_response d.buffer ≡ thrown fault
  IsOver (cut_off d) = ⊥

  turn-IsOver :
      (again : Client K → Run K) (c : Client K) (o : Parsed (Option (Response × ℕ)))
      → next_response c.buffer ≡ o
      → ((response : Response) (size : ℕ)
          → o ≡ ok (some (response, size))
          → IsOver (again (answer response (record c { buffer = drop size c.buffer }))))
      → IsOver (turn again c o)
  unfolding turn
  turn-IsOver again c (thrown fault) e h = e
  turn-IsOver again c (ok none) e h = e
  turn-IsOver again c (ok (some (response, size))) e h = h response size refl

  -- A fuel of the buffer's length is enough.
  responses-IsOver_of_fuel :
      (fuel : ℕ) (c : Client K) → length c.buffer ≤ fuel → IsOver (responses fuel c)
  unfolding responses
  responses-IsOver_of_fuel zero c h =
      turn-IsOver cut_off c (next_response c.buffer) refl λ response size e. absurd (
        omega (
          arith,
          (next_response-bounds c.buffer response size e).0,
          (next_response-bounds c.buffer response size e).1,
        ))
  responses-IsOver_of_fuel (suc fuel) c h =
      turn-IsOver (responses fuel) c (next_response c.buffer) refl λ response size e.
        responses-IsOver_of_fuel fuel (answer response (record c { buffer = drop size c.buffer })) (
          omega (
            arith,
            ap length (buffer-answer response (record c { buffer = drop size c.buffer })),
            length-drop size c.buffer,
            (next_response-bounds c.buffer response size e).0,
          ))

  -- The loop over the responses ends for every buffer, and it ends with no whole response left in the
  -- buffer, or at bytes that the parser throws on.
  pub responses-IsOver : (c : Client K) → IsOver (responses (length c.buffer) c)
  responses-IsOver c = responses-IsOver_of_fuel (length c.buffer) c (omega arith)
