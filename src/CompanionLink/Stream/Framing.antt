-- ===== src/CompanionLink/Stream/Framing.antt =====
-- What is sent is handled at the other end.
use apple_protocols.Prelude.{
  ℕ, ◌+◌, ◌^◌, ◌<◌, ◌≤◌, List, [], ◌∷◌, ◌++◌, Option, some, Bytes, ◌>>=◌, Bool, true, false, not,
  ◌&&◌, ◌==◌, if◌then◌else◌, length, length-append, append_assoc, append-nil, lt→ltb, ◌≡◌, refl,
  sym, ap, ◌∙◌, arith,
}
use apple_protocols.CompanionLink.Stream.{
  Cipher, Receiver, max_buffer_size, no_op, nonce, frame_header, send, open_frame, handle_opened,
  handle_frame, on_stream_data,
}
use apple_protocols.CompanionLink.Stream.Chunks.{on_stream_data-run, on_stream_data-append}
use apple_protocols.CompanionLink.Stream.Rounds.{run, run-goes_on, frames-none}
use apple_protocols.CompanionLink.Stream.Sealed.{
  IsCipher, next_frame-nil, next_frame-whole, decrypt-sealed,
}

-- Whether `send` encrypts, and the header that it writes.
abbrev pub seals : Bool → ℕ → Bool
seals is_encrypted type = is_encrypted && not (type == no_op)

abbrev pub payload_length_of : Bool → Bytes → ℕ
payload_length_of sealed payload = if sealed then length payload + 16 else length payload

payload_length-le :
    (sealed : Bool) (payload : Bytes) → payload_length_of sealed payload ≤ length payload + 16
payload_length-le true payload = omega arith
payload_length-le false payload = omega arith

module _ (cipher : Cipher) (c : IsCipher cipher) (accepts : Bytes → Bytes → Bool) where
  -- What a receiver that accepts all frames is to make of a frame.
  abbrev pub Received : Bool → ℕ → ℕ → Bytes → Receiver → Type 0
  Received is_encrypted count type payload r =
      (wire : Bytes) × (send cipher is_encrypted count type payload
        ≡ some (wire, if is_encrypted then count + 1 else count))
      × (length wire ≡ 4 + payload_length_of is_encrypted payload)
      × (on_stream_data cipher is_encrypted accepts r wire ≡ record r {
        buffer = [];
        read_count = if is_encrypted then count + 1 else count;
        handled =
            r.handled
            ++ ((frame_header type (payload_length_of is_encrypted payload), payload) ∷ []);
      })

  -- One round that empties the buffer.
  receive_whole :
      (is_encrypted : Bool) (type n : ℕ) (body payload : Bytes) (r : Receiver) (count : ℕ)
      → r.buffer ≡ []
      → n < 2 ^ 24
      → length body ≡ n
      → 4 + n ≤ max_buffer_size
      → open_frame cipher is_encrypted r.read_count (frame_header type n ++ body)
        ≡ (some (frame_header type n ++ payload), count)
      → accepts (frame_header type n) payload ≡ true
      → on_stream_data cipher is_encrypted accepts r (frame_header type n ++ body) ≡ record r {
        buffer = [];
        read_count = count;
        handled = r.handled ++ ((frame_header type n, payload) ∷ []);
      }
  unfolding handle_frame handle_opened
  receive_whole is_encrypted type n body payload r count empty h e fits opened ok_ =
      let wire = frame_header type n ++ body in
      let r₁ = record r { buffer = wire } in
      let found = next_frame-whole type n body h e in
      let handled_one : handle_frame cipher is_encrypted accepts r₁ (wire, []) ≡ (
        record r {
          buffer = [];
          read_count = count;
          handled = r.handled ++ ((frame_header type n, payload) ∷ []);
        },
        true,
      ) =
        rw (handle_frame, opened, ok_) in
      on_stream_data-run cipher is_encrypted accepts r wire (rw empty (omega arith))
      ∙ ap (λ b. run cipher is_encrypted accepts (record r { buffer = b ++ wire })) empty
      ∙ run-goes_on cipher is_encrypted accepts r₁ (wire, []) found (ap (λ p. p.1) handled_one)
      ∙ ap (λ p. run cipher is_encrypted accepts p.0) handled_one
      ∙ frames-none cipher is_encrypted accepts 0 _ next_frame-nil

  plain-Received :
      (count type : ℕ) (payload : Bytes) (r : Receiver)
      → r.buffer ≡ []
      → r.read_count ≡ count
      → type < 256
      → length payload + 20 ≤ max_buffer_size
      → accepts (frame_header type (length payload)) payload ≡ true
      → Received false count type payload r
  unfolding send open_frame
  plain-Received count type payload r empty same byte fits ok_ =
      let n = length payload in
      (
        frame_header type n ++ payload,
        rw (lt→ltb type 256 byte, lt→ltb n (2 ^ 24) (omega arith)),
        omega arith,
        receive_whole false type n payload payload r count empty (omega arith) refl (omega arith)
            (ap (λ k. (some (frame_header type n ++ payload), k)) same) ok_,
      )

  sealed-Received :
      (count type : ℕ) (payload : Bytes) (r : Receiver)
      → r.buffer ≡ []
      → r.read_count ≡ count
      → type < 256
      → (type == no_op) ≡ false
      → length payload + 20 ≤ max_buffer_size
      → accepts (frame_header type (length payload + 16)) payload ≡ true
      → Received true count type payload r
  unfolding send open_frame
  sealed-Received count type payload r empty same byte other fits ok_ =
      let n = length payload + 16 in
      let header = frame_header type n in
      let sealed = cipher.encrypt (nonce count) header payload in
      let size : length (sealed.0 ++ sealed.1) ≡ n = omega (
        arith,
        length-append sealed.0 sealed.1,
        c.same_length (nonce count) header payload,
        c.tag_length (nonce count) header payload,
      ) in
      (
        header ++ (sealed.0 ++ sealed.1),
        simp (other, lt→ltb type 256 byte, lt→ltb n (2 ^ 24) (omega arith)),
        omega (arith, size),
        receive_whole true type n (sealed.0 ++ sealed.1) payload r (count + 1) empty (omega arith)
            size (omega arith) (rw same (decrypt-sealed cipher count type payload c (omega arith)))
            ok_,
      )

  pub send-Received :
      (is_encrypted : Bool) (count type : ℕ) (payload : Bytes) (r : Receiver)
      → r.buffer ≡ []
      → r.read_count ≡ count
      → type < 256
      → (is_encrypted && (type == no_op)) ≡ false
      → length payload + 20 ≤ max_buffer_size
      → ((header text : Bytes) → accepts header text ≡ true)
      → Received is_encrypted count type payload r
  send-Received false count type payload r empty same byte other fits all_ =
      plain-Received count type payload r empty same byte fits (all_ _ _)
  send-Received true count type payload r empty same byte other fits all_ =
      sealed-Received count type payload r empty same byte other fits (all_ _ _)

  -- A sequence of calls of `send`, and what the other end is to handle.
  abbrev pub send_all : Bool → ℕ → List (ℕ × Bytes) → Option (Bytes × ℕ)
  send_all is_encrypted count [] = some ([], count)
  send_all is_encrypted count ((type, payload) ∷ ms) =
      send cipher is_encrypted count type payload >>= λ (wire, count').
      send_all is_encrypted count' ms >>= λ (wires, count''). some (wire ++ wires, count'')

  abbrev pub expected : Bool → List (ℕ × Bytes) → List (Bytes × Bytes)
  expected is_encrypted [] = []
  expected is_encrypted ((type, payload) ∷ ms) =
      (frame_header type (payload_length_of is_encrypted payload), payload)
      ∷ expected is_encrypted ms

  abbrev pub size_of_all : List (ℕ × Bytes) → ℕ
  size_of_all [] = 0
  size_of_all ((type, payload) ∷ ms) = length payload + 20 + size_of_all ms

  abbrev pub CanBeSent : Bool → List (ℕ × Bytes) → Type 0
  CanBeSent is_encrypted [] = Unit {0}
  CanBeSent is_encrypted ((type, payload) ∷ ms) =
      ((type < 256) × ((is_encrypted && (type == no_op)) ≡ false)) × CanBeSent is_encrypted ms

  abbrev pub AllReceived : Bool → ℕ → List (ℕ × Bytes) → Receiver → Type 0
  AllReceived is_encrypted count ms r =
      (wire : Bytes) × (count' : ℕ) × (send_all is_encrypted count ms ≡ some (wire, count'))
      × (length wire ≤ size_of_all ms)
      × (on_stream_data cipher is_encrypted accepts r wire ≡ record r {
        buffer = [];
        read_count = count';
        handled = r.handled ++ expected is_encrypted ms;
      })

  -- What is sent in any number of frames, plain or encrypted, with types that are bytes and, when
  -- encrypted, no NoOp, and that fits the receiver's buffer, arrives: a receiver with an empty
  -- buffer and the sender's counter, and whose handler throws nothing, handles the headers and
  -- payloads in their order, emits no error, and is left with an empty buffer and the sender's new
  -- counter.
  pub send_all-AllReceived :
      (is_encrypted : Bool) (count : ℕ) (ms : List (ℕ × Bytes)) (r : Receiver)
      → r.buffer ≡ []
      → r.read_count ≡ count
      → CanBeSent is_encrypted ms
      → size_of_all ms ≤ max_buffer_size
      → ((header text : Bytes) → accepts header text ≡ true)
      → AllReceived is_encrypted count ms r
  send_all-AllReceived is_encrypted count [] r empty same can fits all_ = (
    [],
    count,
    refl,
    omega arith,
    on_stream_data-run cipher is_encrypted accepts r [] (rw empty (omega arith))
        ∙ ap (λ b. run cipher is_encrypted accepts (record r { buffer = b ++ [] })) empty
        ∙ frames-none cipher is_encrypted accepts 0 _ next_frame-nil
        ∙ ap (λ k. record r { buffer = []; read_count = k }) same
        ∙ ap (λ l. record r { buffer = []; read_count = count; handled = l })
            (sym (append-nil r.handled)),
  )
  send_all-AllReceived is_encrypted count ((type, payload) ∷ ms) r empty same ((byte, other), can)
        fits all_ =
      let count₁ = if is_encrypted then count + 1 else count in
      let one : Bytes × Bytes =
        (frame_header type (payload_length_of is_encrypted payload), payload) in
      let (wire, e, size, received) =
        send-Received is_encrypted count type payload r empty same byte other (omega arith) all_ in
      let r₁ = record r { buffer = []; read_count = count₁; handled = r.handled ++ (one ∷ []) } in
      let (wires, count', e', sizes, rest) =
        send_all-AllReceived is_encrypted count₁ ms r₁ refl refl can (omega arith) all_ in
      let small : payload_length_of is_encrypted payload ≤ length payload + 16 =
        payload_length-le is_encrypted payload in
      (
        wire ++ wires,
        count',
        rw (e, e'),
        omega (arith, length-append wire wires, small),
        sym (
              on_stream_data-append cipher is_encrypted accepts r wire wires
                (ap (λ x. x.errors) received) (omega (arith, small, ap length empty)))
            ∙ ap (λ x. on_stream_data cipher is_encrypted accepts x wires) received
            ∙ rest
            ∙ ap (λ l. record r { buffer = []; read_count = count'; handled = l })
                (append_assoc r.handled (one ∷ []) (expected is_encrypted ms)),
      )
