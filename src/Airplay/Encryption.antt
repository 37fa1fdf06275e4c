-- ===== src/Airplay/Encryption.antt =====
-- packages/airplay/src/encryption.ts: frames of ciphertext on a TCP stream. The cipher, with the keys of
-- both directions, is a parameter; the counters are the state.
use apple_protocols.Prelude.{
  ℕ, zero, suc, ◌+◌, [], ◌∷◌, ◌++◌, Option, none, some, ltb, ◌==◌, if◌then◌else◌, take, drop,
  length, replicate, Bytes, le_bytes, le_value,
}
use apple_protocols.CompanionLink.Stream.{Cipher}

-- Four zeros and the counter in eight bytes.
abbrev pub nonce : ℕ → Bytes
nonce counter = replicate 4 0 ++ le_bytes 8 counter

abbrev pub frame_length : ℕ
frame_length = 1024

-- What stands in front of the data: nothing, a part of a frame, a frame of length zero, or a frame with
-- its length, ciphertext and tag, and what is behind it.
pub data Front : Type 0 where
  nothing partial corrupt : Front
  frame : ℕ → Bytes → Bytes → Bytes → Front

unfoldable pub front : Bytes → Front
front data_ =
    let n = le_value (take 2 data_) in
    if length data_ == 0
    then nothing
    else if ltb (length data_) 2
    then partial
    else if n == 0
    then corrupt
    else if ltb (length data_) (2 + n + 16)
    then partial
    else frame n (take n (drop 2 data_)) (take 16 (drop n (drop 2 data_)))
        (drop 16 (drop n (drop 2 data_)))

-- What decryption gives: `false`, an error with the counter that is kept, or the text and the counter.
-- `cut_off` marks the end of a fuel, and no end of the program's loop.
pub data Opened : Type 0 where
  waits cut_off : Opened
  fails : ℕ → Opened
  opened : Bytes → ℕ → Opened

abbrev pub before : Bytes → Opened → Opened
before text waits = waits
before text cut_off = cut_off
before text (fails count) = fails count
before text (opened more count) = opened (text ++ more) count

module _ (cipher : Cipher) where
  -- The counter has been increased when decryption throws.
  abbrev pub with_text : ℕ → (ℕ → Bytes → Opened) → Bytes → Option Bytes → Opened
  with_text count again behind none = fails (count + 1)
  with_text count again behind (some text) = before text (again (count + 1) behind)

  abbrev pub open_front : ℕ → (ℕ → Bytes → Opened) → Front → Opened
  open_front count again nothing = opened [] count
  open_front count again partial = waits
  open_front count again corrupt = fails count
  open_front count again (frame n ciphertext tag behind) =
      with_text count again behind (cipher.decrypt (nonce count) (le_bytes 2 n) ciphertext tag)

  abbrev stopped : ℕ → Bytes → Opened
  stopped count behind = cut_off

  -- The loop; the fuel is the number of frames that it can open.
  unfoldable pub open_frames : ℕ → ℕ → Bytes → Opened
  unfolding front
  open_frames zero count data_ = open_front count stopped (front data_)
  open_frames (suc fuel) count data_ = open_front count (open_frames fuel) (front data_)

  -- `chacha20Decrypt`, from the read counter on. Where it gives `false` the counter is left.
  unfoldable pub chacha20_decrypt : ℕ → Bytes → Opened
  unfolding open_frames
  chacha20_decrypt count data_ = open_frames (length data_) count data_

  unfoldable pub seal : ℕ → Bytes → Bytes
  seal count text =
      let header = le_bytes 2 (length text) in
      let sealed = cipher.encrypt (nonce count) header text in header ++ (sealed.0 ++ sealed.1)

  -- The loop of `chacha20Encrypt`, a frame a round.
  unfoldable pub seal_frames : ℕ → ℕ → Bytes → Bytes × ℕ
  unfolding seal
  seal_frames zero count data_ = ([], count)
  seal_frames (suc fuel) count [] = ([], count)
  seal_frames (suc fuel) count (b ∷ bs) =
      let text = take frame_length (b ∷ bs) in
      let (rest, next) = seal_frames fuel (count + 1) (drop frame_length (b ∷ bs)) in
      (seal count text ++ rest, next)

  -- `chacha20Encrypt`: the bytes, and the new write counter.
  unfoldable pub chacha20_encrypt : ℕ → Bytes → Bytes × ℕ
  unfolding seal_frames
  chacha20_encrypt count data_ = seal_frames (length data_) count data_
