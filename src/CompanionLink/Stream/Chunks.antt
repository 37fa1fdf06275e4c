-- ===== src/CompanionLink/Stream/Chunks.antt =====
-- How the bytes are cut into chunks makes no difference.
use apple_protocols.Prelude.{
  ℕ, zero, suc, ◌+◌, ◌≤◌, ◌++◌, Bytes, Bool, length, length-append, append_assoc, Bool-cases,
  Option-cases, le→ltb_false, ◌≡◌, inl, inr, sym, ap, ◌∙◌, arith,
}
use apple_protocols.CompanionLink.Stream.{
  Cipher, Receiver, max_buffer_size, next_frame, handle_frame, frames, on_stream_data,
}
use apple_protocols.CompanionLink.Stream.Rounds.{
  next_frame-append, next_frame-shorter, add, frames-goes_on, frames-ends, frames-none,
  handled-buffer, run, run-goes_on, run-ends, handle_frame-add, handled-errors,
}

module _ (cipher : Cipher) (is_encrypted : Bool) (accepts : Bytes → Bytes → Bool) where
  -- Bytes that come while the loop has ended without an error might as well have come before.
  run-add :
      (n : ℕ) (r : Receiver) (more : Bytes)
      → length r.buffer ≤ n
      → (run cipher is_encrypted accepts r).errors ≡ r.errors
      → run cipher is_encrypted accepts (add more r)
        ≡ run cipher is_encrypted accepts (add more (run cipher is_encrypted accepts r))
  run-add zero r more h quiet = elim (Option-cases (next_frame r.buffer)) [
    | inl e ↦
        ap (λ x. run cipher is_encrypted accepts (add more x))
          (sym (frames-none cipher is_encrypted accepts (length r.buffer) r e))
    | inr ((frame, behind), e) ↦ absurd (omega (arith, next_frame-shorter r.buffer frame behind e))
  ]
  run-add (suc n) r more h quiet = elim (Option-cases (next_frame r.buffer)) [
    | inl e ↦
        ap (λ x. run cipher is_encrypted accepts (add more x))
          (sym (frames-none cipher is_encrypted accepts (length r.buffer) r e))
    | inr ((frame, behind), e) ↦ elim (handled-errors cipher is_encrypted accepts r frame behind) [
      | inr (off, one_more) ↦ absurd (
          omega (
            arith,
            ap (λ x. x.errors) (run-ends cipher is_encrypted accepts r (frame, behind) e off),
          ))
      | inl (on, same) ↦
          let r' = (handle_frame cipher is_encrypted accepts r (frame, behind)).0 in
          let round = run-goes_on cipher is_encrypted accepts r (frame, behind) e on in
          let left = ap length (handled-buffer cipher is_encrypted accepts r frame behind) in
          let both = handle_frame-add cipher is_encrypted accepts r more frame behind in
          run-goes_on cipher is_encrypted accepts (add more r) (frame, behind ++ more)
            (next_frame-append r.buffer more frame behind e) (ap (λ p. p.1) both ∙ on)
          ∙ ap (λ p. run cipher is_encrypted accepts p.0) both
          ∙ run-add n r' more (omega (arith, next_frame-shorter r.buffer frame behind e, left))
              (sym (ap (λ x. x.errors) round) ∙ quiet ∙ sym same)
          ∙ ap (λ x. run cipher is_encrypted accepts (add more x)) (sym round)
    ]
  ]

  -- The loop does not make the buffer longer.
  frames-length :
      (n : ℕ) (r : Receiver)
      → length (frames cipher is_encrypted accepts n r).buffer ≤ length r.buffer
  unfolding frames
  frames-length zero r = omega arith
  frames-length (suc n) r = elim (Option-cases (next_frame r.buffer)) [
    | inl e ↦ rw (frames-none cipher is_encrypted accepts (suc n) r e) (omega arith)
    | inr ((frame, behind), e) ↦
        let r' = (handle_frame cipher is_encrypted accepts r (frame, behind)).0 in
        let shorter = next_frame-shorter r.buffer frame behind e in
        let left = ap length (handled-buffer cipher is_encrypted accepts r frame behind) in
        elim (Bool-cases (handle_frame cipher is_encrypted accepts r (frame, behind)).1) [
          | inl on ↦
              rw (frames-goes_on cipher is_encrypted accepts n r (frame, behind) e on)
                (omega (arith, shorter, left, frames-length n r'))
          | inr off ↦
              rw (frames-ends cipher is_encrypted accepts n r (frame, behind) e off)
                (omega (arith, shorter, left))
        ]
  ]

  pub on_stream_data-run :
      (r : Receiver) (chunk : Bytes)
      → length (r.buffer ++ chunk) ≤ max_buffer_size
      → on_stream_data cipher is_encrypted accepts r chunk
        ≡ run cipher is_encrypted accepts (add chunk r)
  unfolding on_stream_data
  on_stream_data-run r chunk fits =
      rw (le→ltb_false max_buffer_size (length (r.buffer ++ chunk)) fits)

  -- Receiving the bytes in two chunks is receiving them in one, as long as the first chunk causes no
  -- error and all that is held and received fits the buffer.
  pub on_stream_data-append :
      (r : Receiver) (first second : Bytes)
      → (on_stream_data cipher is_encrypted accepts r first).errors ≡ r.errors
      → length r.buffer + length first + length second ≤ max_buffer_size
      → on_stream_data cipher is_encrypted accepts
          (on_stream_data cipher is_encrypted accepts r first)
          second
        ≡ on_stream_data cipher is_encrypted accepts r (first ++ second)
  on_stream_data-append r first second quiet fits =
      let sizes = length-append r.buffer first in
      let once = on_stream_data-run r first (omega (arith, sizes)) in
      let r₁ = run cipher is_encrypted accepts (add first r) in
      let kept = frames-length (length (r.buffer ++ first)) (add first r) in
      ap (λ x. on_stream_data cipher is_encrypted accepts x second) once
      ∙ on_stream_data-run r₁ second (omega (arith, sizes, kept, length-append r₁.buffer second))
      ∙ sym (
          run-add (length (r.buffer ++ first)) (add first r) second (omega arith)
            (sym (ap (λ x. x.errors) once) ∙ quiet))
      ∙ ap (λ b. run cipher is_encrypted accepts (record r { buffer = b }))
          (append_assoc r.buffer first second)
      ∙ sym (
          on_stream_data-run r (first ++ second)
            (omega (arith, length-append r.buffer (first ++ second), length-append first second)))
