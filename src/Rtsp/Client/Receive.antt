-- ===== src/Rtsp/Client/Receive.antt =====
-- packages/rtsp/src/client.ts: `onRtspData`.
use apple_protocols.Prelude.{
  ℕ, zero, suc, [], ◌∷◌, ◌++◌, Option, none, some, ltb, if◌then◌else◌, drop, length, Bytes,
}
use apple_protocols.Prelude.JsMap
use apple_protocols.Rtsp.Parsed.{Parsed, ok, thrown, Fault}
use apple_protocols.Rtsp.Response.{Response, parse_response}
use apple_protocols.Rtsp.Client.{
  max_buffer_size, Failure, overflow, unreadable, not_decrypted, Pending, Incoming, more_needed,
  failed, plaintext, Client, cseq_of, settle, forget, answer_of, reject_all, on_rtsp_error,
}

module _ {K : Type 0} where
  unfoldable pub answer_number : ℕ → Option Pending → Response → Client K → Client K
  answer_number k none response c = c
  answer_number k (some p) response c = settle k (answer_of p response) (forget k c)

  unfoldable pub answer_to : Option ℕ → Response → Client K → Client K
  unfolding answer_number
  answer_to none response c = c
  answer_to (some k) response c = answer_number k (JsMap.get c.requests k) response c

  -- What the loop does with a response: the request of its CSeq, if there is one, is deleted and
  -- resolved.
  unfoldable pub answer : Response → Client K → Client K
  unfolding answer_to cseq_of
  answer response c = answer_to (cseq_of response) response c

-- The parser on what is left; an empty buffer ends the loop.
unfoldable pub next_response : Bytes → Parsed (Option (Response × ℕ))
unfolding parse_response
next_response [] = ok none
next_response (b ∷ bs) = parse_response (b ∷ bs)

-- How the loop over the responses ends: it waits for more bytes, it throws, or its fuel ends, which
-- marks no end of the program's loop.
pub data Run (K : Type 0) : Type 0 where
  waits : Client K → Run K
  throws : Fault → Client K → Run K
  cut_off : Client K → Run K

module _ {K : Type 0} where
  -- A turn of the loop, given what the parser makes of the buffer. The bytes of a response are taken
  -- off before it is answered.
  unfoldable pub turn : (Client K → Run K) → Client K → Parsed (Option (Response × ℕ)) → Run K
  unfolding answer
  turn again c (thrown fault) = throws fault c
  turn again c (ok none) = waits c
  turn again c (ok (some (response, size))) =
      again (answer response (record c { buffer = drop size c.buffer }))

  -- The loop on the plaintext; the fuel is the number of responses that it can answer.
  unfoldable pub responses : ℕ → Client K → Run K
  unfolding turn next_response
  responses zero c = turn cut_off c (next_response c.buffer)
  responses (suc fuel) c = turn (responses fuel) c (next_response c.buffer)

  -- The `catch` of `onRtspData`: `destroy` closes the socket, whose events come later.
  abbrev pub give_up : Failure → Client K → Client K
  give_up failure c = on_rtsp_error failure (record c { buffer = []; encrypted_buffer = [] })

  unfoldable pub after_run : Run K → Client K
  unfolding on_rtsp_error
  after_run (waits c) = c
  after_run (throws fault c) = give_up (unreadable fault) c
  after_run (cut_off c) = c

  unfoldable pub on_incoming : Client K → Incoming → Client K
  unfolding responses after_run on_rtsp_error
  on_incoming c more_needed = c
  on_incoming c failed = give_up not_decrypted c
  on_incoming c (plaintext bytes) =
      let buffer = c.buffer ++ bytes in
      after_run (responses (length buffer) (record c { buffer = buffer; encrypted_buffer = [] }))

  -- `onRtspData`, given what `transformIncoming` makes of the bytes. An overflow rejects the requests
  -- and then emits an error, which finds none left.
  unfoldable pub on_rtsp_data : (K → Bytes → K × Incoming) → Client K → Bytes → Client K
  unfolding on_incoming reject_all on_rtsp_error
  on_rtsp_data incoming c chunk =
      let encrypted_buffer = c.encrypted_buffer ++ chunk in
      let (keys, read) = incoming c.keys encrypted_buffer in
      if ltb max_buffer_size (length encrypted_buffer)
      then on_rtsp_error overflow
          (reject_all overflow (record c { buffer = []; encrypted_buffer = [] }))
      else on_incoming (record c { encrypted_buffer = encrypted_buffer; keys = keys }) read
