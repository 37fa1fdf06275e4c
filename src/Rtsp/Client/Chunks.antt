-- ===== src/Rtsp/Client/Chunks.antt =====
-- packages/rtsp/src/client.ts: responses that arrive in parts, on a connection without a cipher.
use apple_protocols.Prelude.{
  ℕ, zero, suc, ◌-◌, ◌≤◌, ◌++◌, Option, none, some, ◌≡◌, refl, sym, ap, ◌∙◌, arith, drop, length,
  length-drop, length-append, drop-append_le, Bytes,
}
use apple_protocols.Rtsp.Parsed.{Parsed, ok, thrown}
use apple_protocols.Rtsp.Response.{Response}
use apple_protocols.Rtsp.Client.{Incoming, plaintext, Client}
use apple_protocols.Rtsp.Client.Receive.{
  answer, next_response, Run, waits, cut_off, turn, responses,
}
use apple_protocols.Rtsp.Client.Ends.{
  answer-buffer, buffer-answer, next_response-bounds, next_response-append,
}

-- The class's own `transformIncoming`.
abbrev pub unchanged : {K : Type 0} → K → Bytes → K × Incoming
unchanged keys bytes = (keys, plaintext bytes)

module _ {K : Type 0} where
  turn-fuel :
      (f g : Client K → Run K) (c : Client K) (o : Parsed (Option (Response × ℕ)))
      → ((response : Response) (size : ℕ)
          → o ≡ ok (some (response, size))
          → f (answer response (record c { buffer = drop size c.buffer }))
            ≡ g (answer response (record c { buffer = drop size c.buffer })))
      → turn f c o ≡ turn g c o
  unfolding turn
  turn-fuel f g c (thrown fault) h = refl
  turn-fuel f g c (ok none) h = refl
  turn-fuel f g c (ok (some (response, size))) h = h response size refl

  smaller :
      (c : Client K) (response : Response) (size n : ℕ)
      → next_response c.buffer ≡ ok (some (response, size))
      → length c.buffer ≤ suc n
      → length (answer response (record c { buffer = drop size c.buffer })).buffer ≤ n
  smaller c response size n e h = omega (
    arith,
    ap length (buffer-answer response (record c { buffer = drop size c.buffer })),
    length-drop size c.buffer,
    (next_response-bounds c.buffer response size e).0,
  )

  none_short :
      (c : Client K) (response : Response) (size : ℕ)
      → next_response c.buffer ≡ ok (some (response, size))
      → length c.buffer ≤ 0
      → ⊥
  none_short c response size e h = omega (
    arith,
    (next_response-bounds c.buffer response size e).0,
    (next_response-bounds c.buffer response size e).1,
  )

  -- Any two fuels of the buffer's length give the same.
  responses-fuel :
      (f g : ℕ) (c : Client K)
      → length c.buffer ≤ f
      → length c.buffer ≤ g
      → responses f c ≡ responses g c
  unfolding responses
  responses-fuel zero zero c h k = refl
  responses-fuel zero (suc g) c h k =
      turn-fuel cut_off (responses g) c (next_response c.buffer)
        λ r n e. absurd (none_short c r n e h)
  responses-fuel (suc f) zero c h k =
      turn-fuel (responses f) cut_off c (next_response c.buffer)
        λ r n e. absurd (none_short c r n e k)
  responses-fuel (suc f) (suc g) c h k =
      turn-fuel (responses f) (responses g) c (next_response c.buffer)
        λ r n e. responses-fuel f g _ (smaller c r n f e h) (smaller c r n g e k)

  abbrev pub with_more : Client K → Bytes → Client K
  with_more c bytes = record c { buffer = c.buffer ++ bytes }

  -- What is left to do when bytes follow a buffer that the loop left.
  abbrev pub and_then : Client K → Bytes → Run K
  and_then d bytes = responses (length (d.buffer ++ bytes)) (with_more d bytes)

  answer-with_more :
      (response : Response) (c : Client K) (x bytes : Bytes)
      → answer response (record c { buffer = x ++ bytes })
        ≡ with_more (answer response (record c { buffer = x })) bytes
  answer-with_more response c x bytes =
      answer-buffer response c (x ++ bytes)
      ∙ sym (ap (λ d. with_more d bytes) (answer-buffer response c x))

  waits_inj : {c d : Client K} → waits c ≡ waits d → c ≡ d
  waits_inj h = cc

  more_turn :
      (again : Client K → Run K) (c d : Client K) (bytes : Bytes)
      (o : Parsed (Option (Response × ℕ)))
      → next_response c.buffer ≡ o
      → turn again c o ≡ waits d
      → ((response : Response) (size g : ℕ)
          → o ≡ ok (some (response, size))
          → again (answer response (record c { buffer = drop size c.buffer })) ≡ waits d
          → length ((answer response (record c { buffer = drop size c.buffer })).buffer ++ bytes)
            ≤ g
          → responses g
              (with_more (answer response (record c { buffer = drop size c.buffer })) bytes)
            ≡ and_then d bytes)
      → (g : ℕ) → length (c.buffer ++ bytes) ≤ g
      → responses g (with_more c bytes) ≡ and_then d bytes
  unfolding turn responses
  more_turn again c d bytes (thrown fault) e w h g k = absurd (ground (arith, w))
  more_turn again c d bytes (ok none) e w h g k =
      responses-fuel g (length (c.buffer ++ bytes)) (with_more c bytes) k (omega arith)
      ∙ ap (λ x. and_then x bytes) (waits_inj w)
  more_turn again c d bytes (ok (some (response, size))) e w h zero k =
      absurd (none_short c response size e (omega (arith, length-append c.buffer bytes)))
  more_turn again c d bytes (ok (some (response, size))) e w h (suc g) k =
      rw
        (
          next_response-append c.buffer bytes response size e,
          drop-append_le size c.buffer bytes (next_response-bounds c.buffer response size e).1,
          answer-with_more response c (drop size c.buffer) bytes,
        )
        (h response size g refl w (
          omega (
            arith,
            k,
            length-append c.buffer bytes,
            length-append (answer response (record c { buffer = drop size c.buffer })).buffer bytes,
            smaller c response size (length c.buffer - 1) e (omega arith),
            (next_response-bounds c.buffer response size e).0,
            (next_response-bounds c.buffer response size e).1,
          )))

  pub responses-more :
      (f : ℕ) (c d : Client K) (bytes : Bytes)
      → responses f c ≡ waits d
      → (g : ℕ) → length (c.buffer ++ bytes) ≤ g
      → responses g (with_more c bytes) ≡ and_then d bytes
  unfolding responses
  responses-more zero c d bytes w =
      more_turn cut_off c d bytes (next_response c.buffer) refl w
        λ r n g e v k. absurd (ground (arith, v))
  responses-more (suc f) c d bytes w =
      more_turn (responses f) c d bytes (next_response c.buffer) refl w
        λ r n g e v k. responses-more f _ d bytes v g k
