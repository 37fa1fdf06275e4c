-- ===== src/Rtsp/Client/Parts.antt =====
-- packages/rtsp/src/client.ts: `onRtspData` on two chunks and on one, without a cipher.
use apple_protocols.Prelude.{
  ℕ, zero, suc, ◌≤◌, [], ◌++◌, Option, none, some, ◌≡◌, refl, sym, ap, ◌∙◌, arith, drop, length,
  length-append, le→ltb_false, Bytes, append_assoc,
}
use apple_protocols.Prelude.JsMap
use apple_protocols.Rtsp.Parsed.{Parsed, ok, thrown}
use apple_protocols.Rtsp.Response.{Response}
use apple_protocols.Rtsp.Client.{max_buffer_size, Pending, Client, cseq_of}
use apple_protocols.Rtsp.Client.Receive.{
  answer, answer_to, answer_number, next_response, Run, waits, cut_off, turn, responses, after_run,
  on_incoming, on_rtsp_data,
}
use apple_protocols.Rtsp.Client.Chunks.{unchanged, responses-more}

module _ {K : Type 0} where
  encrypted_buffer-answer :
      (response : Response) (c : Client K)
      → (answer response c).encrypted_buffer ≡ c.encrypted_buffer
  unfolding answer answer_to answer_number
  encrypted_buffer-answer response c = to_lem (cseq_of response)
    where
      number_lem :
          (k : ℕ) (o : Option Pending)
          → (answer_number k o response c).encrypted_buffer ≡ c.encrypted_buffer
      number_lem k none = refl
      number_lem k (some p) = refl

      to_lem : (o : Option ℕ) → (answer_to o response c).encrypted_buffer ≡ c.encrypted_buffer
      to_lem none = refl
      to_lem (some k) = number_lem k (JsMap.get c.requests k)

  -- The loop leaves the ciphertext alone.
  IsKept : Client K → Run K → Type 0
  IsKept c run = (d : Client K) → run ≡ waits d → d.encrypted_buffer ≡ c.encrypted_buffer

  turn-IsKept :
      (again : Client K → Run K) (c : Client K) (o : Parsed (Option (Response × ℕ)))
      → ((x : Client K) → IsKept x (again x))
      → IsKept c (turn again c o)
  unfolding turn IsKept
  turn-IsKept again c (thrown fault) h d w = absurd (ground (arith, w))
  turn-IsKept again c (ok none) h d w = sym (ap (λ x. x.encrypted_buffer) (inj w))
    where
      inj : {a b : Client K} → waits a ≡ waits b → a ≡ b
      inj h = cc
  turn-IsKept again c (ok (some (response, size))) h d w =
      h (answer response (record c { buffer = drop size c.buffer })) d w
      ∙ encrypted_buffer-answer response (record c { buffer = drop size c.buffer })

  responses-IsKept : (f : ℕ) (c : Client K) → IsKept c (responses f c)
  unfolding responses IsKept
  responses-IsKept zero c =
      turn-IsKept cut_off c (next_response c.buffer) λ x d w. absurd (ground (arith, w))
  responses-IsKept (suc f) c =
      turn-IsKept (responses f) c (next_response c.buffer) (responses-IsKept f)

  -- The client with a chunk behind its plaintext.
  abbrev pub arrived : Client K → Bytes → Client K
  arrived c chunk = record c { buffer = c.buffer ++ chunk; encrypted_buffer = [] }

  pub on_rtsp_data-unchanged :
      (c : Client K) (chunk : Bytes)
      → c.encrypted_buffer ≡ []
      → length chunk ≤ max_buffer_size
      → on_rtsp_data unchanged c chunk
        ≡ after_run (responses (length (c.buffer ++ chunk)) (arrived c chunk))
  unfolding on_rtsp_data on_incoming
  on_rtsp_data-unchanged c chunk e h = rw (e, le→ltb_false max_buffer_size (length chunk) h) refl

  -- Without a cipher, two chunks do to a client what one chunk of their bytes does: the same requests
  -- are answered, in the same order, and the same bytes are left. No ciphertext is left over, the chunks
  -- together are no longer than a buffer may be, and the first has nothing that the parser throws on.
  pub on_rtsp_data-append :
      (c d : Client K) (first second : Bytes)
      → c.encrypted_buffer ≡ []
      → length (first ++ second) ≤ max_buffer_size
      → responses (length (c.buffer ++ first)) (arrived c first) ≡ waits d
      → on_rtsp_data unchanged (on_rtsp_data unchanged c first) second
        ≡ on_rtsp_data unchanged c (first ++ second)
  unfolding after_run IsKept
  on_rtsp_data-append c d first second e h w =
      let kept = responses-IsKept (length (c.buffer ++ first)) (arrived c first) d w in
      let size = length (c.buffer ++ (first ++ second)) in
      rw
        (
          on_rtsp_data-unchanged c (first ++ second) e h,
          on_rtsp_data-unchanged c first e (omega (arith, h, length-append first second)),
          w,
          on_rtsp_data-unchanged d second kept (omega (arith, h, length-append first second)),
        )
        (ap after_run (
          ap
            (λ bytes.
              responses (length (d.buffer ++ second))
                (record d { buffer = d.buffer ++ second; encrypted_buffer = bytes }))
            (sym kept)
          ∙ sym (
              responses-more (length (c.buffer ++ first)) (arrived c first) d second w size
                (omega (arith, ap length (append_assoc c.buffer first second))))
          ∙ ap (λ bytes. responses size (record c { buffer = bytes; encrypted_buffer = [] }))
              (append_assoc c.buffer first second)))
