-- ===== src/CompanionLink/Stream/Rounds.antt =====
-- Finding a frame in the buffer, and the rounds of the loop.
use apple_protocols.Prelude.{
  ℕ, zero, suc, ◌+◌, ◌≤◌, ◌++◌, Option, none, some, Bytes, be_value, Bool, true, false, take, drop,
  length, length-append, length-drop, drop-append_le, take-append_le, slice-front, Bool-cases,
  Option-cases, lt_or_le, lt→ltb, le→ltb_false, ◌≡◌, ◌⊎◌, inl, inr, refl, sym, ap, ◌∙◌, arith,
}
use apple_protocols.CompanionLink.Stream.{
  Cipher, Receiver, next_frame, open_frame, handle_opened, handle_frame, frames,
}

-- What finding a frame says of the buffer.
abbrev pub total_of : Bytes → ℕ
total_of buffer = 4 + be_value (take 3 (drop 1 buffer))

pub next_frame-eq_some :
    (buffer : Bytes) (found : Bytes × Bytes)
    → next_frame buffer ≡ some found
    → (4 ≤ length buffer)
      × (total_of buffer ≤ length buffer)
      × (found ≡ (take (total_of buffer) buffer, drop (total_of buffer) buffer))
unfolding next_frame
next_frame-eq_some buffer found e = elim (lt_or_le (length buffer) 4) [
  | inl short ↦ cc (rw (lt→ltb (length buffer) 4 short) at e)
  | inr enough ↦ elim (lt_or_le (length buffer) (total_of buffer)) [
    | inl cut ↦ cc (
        rw (le→ltb_false (length buffer) 4 enough, lt→ltb (length buffer) (total_of buffer) cut) at
          e)
    | inr whole ↦
        let same : some (take (total_of buffer) buffer, drop (total_of buffer) buffer)
            ≡ some found =
          rw
            (
              le→ltb_false (length buffer) 4 enough,
              le→ltb_false (length buffer) (total_of buffer) whole,
            )
            at e in
        (enough, whole, ground arith)
  ]
]

-- A frame is found in the same place when more bytes follow.
pub next_frame-append :
    (buffer more frame behind : Bytes)
    → next_frame buffer ≡ some (frame, behind)
    → next_frame (buffer ++ more) ≡ some (frame, behind ++ more)
unfolding next_frame
next_frame-append buffer more frame behind e =
    let (enough, whole, same) = next_frame-eq_some buffer (frame, behind) e in
    let sizes = length-append buffer more in
    let total : total_of (buffer ++ more) ≡ total_of buffer =
      ap (λ l. 4 + be_value l) (slice-front 3 1 buffer more (omega arith)) in
    let frame_same : frame ≡ take (total_of buffer) buffer = ap (λ p. p.0) same in
    let behind_same : behind ≡ drop (total_of buffer) buffer = ap (λ p. p.1) same in
    rw (
      le→ltb_false (length (buffer ++ more)) 4 (omega arith),
      total,
      le→ltb_false (length (buffer ++ more)) (total_of buffer) (omega arith),
      take-append_le (total_of buffer) buffer more whole,
      drop-append_le (total_of buffer) buffer more whole,
      frame_same,
      behind_same,
    )

pub next_frame-shorter :
    (buffer frame behind : Bytes)
    → next_frame buffer ≡ some (frame, behind)
    → length behind + 4 ≤ length buffer
next_frame-shorter buffer frame behind e =
    let (enough, whole, same) = next_frame-eq_some buffer (frame, behind) e in
    let behind_same : behind ≡ drop (total_of buffer) buffer = ap (λ p. p.1) same in
    rw behind_same (omega (arith, length-drop (total_of buffer) buffer))

-- More bytes behind those that the receiver holds.
abbrev pub add : Bytes → Receiver → Receiver
add more r = record r { buffer = r.buffer ++ more }

module _ (cipher : Cipher) (is_encrypted : Bool) (accepts : Bytes → Bytes → Bool) where
  -- What a round leaves alone.
  pub handle_opened-facts :
      (r : Receiver) (header : Bytes) (o : Option Bytes × ℕ)
      → ((handle_opened cipher is_encrypted accepts r header o).0.buffer ≡ r.buffer)
        × (((handle_opened cipher is_encrypted accepts r header o).1 ≡ true)
              × ((handle_opened cipher is_encrypted accepts r header o).0.errors ≡ r.errors)
            ⊎ ((handle_opened cipher is_encrypted accepts r header o).1 ≡ false)
              × ((handle_opened cipher is_encrypted accepts r header o).0.errors ≡ r.errors + 1))
  unfolding handle_opened
  handle_opened-facts r header (none, n) = (refl, inr (refl, refl))
  handle_opened-facts r header (some frame, n) = elim (Bool-cases (accepts header (drop 4 frame))) [
    | inl yes_ ↦ simp yes_ (refl, inl (refl, refl))
    | inr no_ ↦ simp no_ (refl, inr (refl, refl))
  ]

  pub handle_opened-add :
      (r : Receiver) (more header : Bytes) (o : Option Bytes × ℕ)
      → handle_opened cipher is_encrypted accepts (add more r) header o ≡ (
        add more (handle_opened cipher is_encrypted accepts r header o).0,
        (handle_opened cipher is_encrypted accepts r header o).1,
      )
  unfolding handle_opened
  handle_opened-add r more header (none, n) = refl
  handle_opened-add r more header (some frame, n) =
      elim (Bool-cases (accepts header (drop 4 frame))) [
        | inl yes_ ↦ simp yes_
        | inr no_ ↦ simp no_
      ]

  -- A round in its two outcomes.
  pub frames-goes_on :
      (fuel : ℕ) (r : Receiver) (found : Bytes × Bytes)
      → next_frame r.buffer ≡ some found
      → (handle_frame cipher is_encrypted accepts r found).1 ≡ true
      → frames cipher is_encrypted accepts (suc fuel) r
        ≡ frames cipher is_encrypted accepts fuel
            (handle_frame cipher is_encrypted accepts r found).0
  unfolding frames
  frames-goes_on fuel r found e on = rw (frames, e, on)

  pub frames-ends :
      (fuel : ℕ) (r : Receiver) (found : Bytes × Bytes)
      → next_frame r.buffer ≡ some found
      → (handle_frame cipher is_encrypted accepts r found).1 ≡ false
      → frames cipher is_encrypted accepts (suc fuel) r
        ≡ (handle_frame cipher is_encrypted accepts r found).0
  unfolding frames
  frames-ends fuel r found e on = rw (frames, e, on)

  pub frames-none :
      (fuel : ℕ) (r : Receiver)
      → next_frame r.buffer ≡ none
      → frames cipher is_encrypted accepts fuel r ≡ r
  unfolding frames
  frames-none zero r e = refl
  frames-none (suc fuel) r e = rw (frames, e)

  pub handled-buffer :
      (r : Receiver) (frame behind : Bytes)
      → (handle_frame cipher is_encrypted accepts r (frame, behind)).0.buffer ≡ behind
  unfolding handle_frame
  handled-buffer r frame behind =
      (handle_opened-facts (record r { buffer = behind }) (take 4 frame)
        (open_frame cipher is_encrypted r.read_count frame)).0

  -- More fuel than the buffer is long changes nothing.
  pub frames-fuel :
      (n m : ℕ) (r : Receiver)
      → length r.buffer ≤ n
      → length r.buffer ≤ m
      → frames cipher is_encrypted accepts n r ≡ frames cipher is_encrypted accepts m r
  frames-fuel zero m r hn hm = elim (Option-cases (next_frame r.buffer)) [
    | inl e ↦ frames-none zero r e ∙ sym (frames-none m r e)
    | inr ((frame, behind), e) ↦ absurd (omega (arith, next_frame-shorter r.buffer frame behind e))
  ]
  frames-fuel (suc n) zero r hn hm = elim (Option-cases (next_frame r.buffer)) [
    | inl e ↦ frames-none (suc n) r e ∙ sym (frames-none zero r e)
    | inr ((frame, behind), e) ↦ absurd (omega (arith, next_frame-shorter r.buffer frame behind e))
  ]
  frames-fuel (suc n) (suc m) r hn hm = elim (Option-cases (next_frame r.buffer)) [
    | inl e ↦ frames-none (suc n) r e ∙ sym (frames-none (suc m) r e)
    | inr ((frame, behind), e) ↦
        elim (Bool-cases (handle_frame cipher is_encrypted accepts r (frame, behind)).1) [
          | inl on ↦
              let r' = (handle_frame cipher is_encrypted accepts r (frame, behind)).0 in
              let shorter = next_frame-shorter r.buffer frame behind e in
              let left = ap length (handled-buffer r frame behind) in
              frames-goes_on n r (frame, behind) e on
              ∙ frames-fuel n m r' (omega (arith, shorter, left)) (omega (arith, shorter, left))
              ∙ sym (frames-goes_on m r (frame, behind) e on)
          | inr off ↦
              frames-ends n r (frame, behind) e off ∙ sym (frames-ends m r (frame, behind) e off)
        ]
  ]

  -- The loop on the fuel that it is given.
  abbrev pub run : Receiver → Receiver
  run r = frames cipher is_encrypted accepts (length r.buffer) r

  pub run-goes_on :
      (r : Receiver) (found : Bytes × Bytes)
      → next_frame r.buffer ≡ some found
      → (handle_frame cipher is_encrypted accepts r found).1 ≡ true
      → run r ≡ run (handle_frame cipher is_encrypted accepts r found).0
  run-goes_on r (frame, behind) e on =
      let n = length r.buffer in
      let r' = (handle_frame cipher is_encrypted accepts r (frame, behind)).0 in
      let shorter = next_frame-shorter r.buffer frame behind e in
      let left = ap length (handled-buffer r frame behind) in
      frames-fuel n (suc n) r (omega arith) (omega arith)
      ∙ frames-goes_on n r (frame, behind) e on
      ∙ frames-fuel n (length r'.buffer) r' (omega (arith, shorter, left)) (omega arith)

  pub run-ends :
      (r : Receiver) (found : Bytes × Bytes)
      → next_frame r.buffer ≡ some found
      → (handle_frame cipher is_encrypted accepts r found).1 ≡ false
      → run r ≡ (handle_frame cipher is_encrypted accepts r found).0
  run-ends r found e off =
      frames-fuel (length r.buffer) (suc (length r.buffer)) r (omega arith) (omega arith)
      ∙ frames-ends (length r.buffer) r found e off

  pub handle_frame-add :
      (r : Receiver) (more frame behind : Bytes)
      → handle_frame cipher is_encrypted accepts (add more r) (frame, behind ++ more) ≡ (
        add more (handle_frame cipher is_encrypted accepts r (frame, behind)).0,
        (handle_frame cipher is_encrypted accepts r (frame, behind)).1,
      )
  unfolding handle_frame
  handle_frame-add r more frame behind =
      handle_opened-add (record r { buffer = behind }) more (take 4 frame)
        (open_frame cipher is_encrypted r.read_count frame)

  pub handled-errors :
      (r : Receiver) (frame behind : Bytes)
      → let p = handle_frame cipher is_encrypted accepts r (frame, behind) in
        ((p.1 ≡ true) × (p.0.errors ≡ r.errors)) ⊎ ((p.1 ≡ false) × (p.0.errors ≡ r.errors + 1))
  unfolding handle_frame
  handled-errors r frame behind =
      (handle_opened-facts (record r { buffer = behind }) (take 4 frame)
        (open_frame cipher is_encrypted r.read_count frame)).1
