-- ===== src/Raop/Fifo/Recent.antt =====
-- What the store holds, against the history of the packets that were sent.
use apple_protocols.Prelude.{
  ℕ, zero, suc, ◌-◌, ◌≤◌, List, [], ◌∷◌, ◌++◌, false, Bytes, length, length-append, length-drop,
  drop, drop-nil, drop-drop, if◌then◌else◌, ◌≡◌, refl, sym, ap, ◌∙◌, arith, inl, inr, Bool-cases,
  append_assoc, append-nil,
}
use apple_protocols.Prelude.JsMap
use apple_protocols.Prelude.JsMap.{JsMap, IsDistinct, has-append, has-drop}
use apple_protocols.Raop.Fifo.{PacketFifo, create, set, get}
use apple_protocols.Raop.Fifo.Invariant.{
  IsValid, last, set_fresh, set_known, set-IsValid, create-IsValid,
}

-- What a call of `set` leaves, as a history of packets: the oldest leave when there are too many.
pub remember : ℕ → JsMap Bytes → ℕ → Bytes → JsMap Bytes
remember n m seqno packet = if JsMap.has m seqno then m else last n (m ++ ((seqno, packet) ∷ []))

-- On every valid store `set` is that step on the history, and the order list follows it.
pub set-remember :
    (f : PacketFifo) (seqno : ℕ) (packet : Bytes)
    → IsValid f
    → (set f seqno packet).packets ≡ remember f.max_size f.packets seqno packet
unfolding remember
set-remember f seqno packet v = elim (Bool-cases (JsMap.has f.packets seqno)) [
  | inl known ↦ rw (set_known f seqno packet known, known)
  | inr fresh ↦ rw (set_fresh f seqno packet v fresh, fresh)
]

-- Sending packets one after the other.
unfoldable pub send_all : PacketFifo → JsMap Bytes → PacketFifo
send_all f [] = f
send_all f ((seqno, packet) ∷ more) = send_all (set f seqno packet) more

drop-append {ℓ} :
    {A : Type ℓ} (n : ℕ) (xs ys : List A) → n ≤ length xs → drop n (xs ++ ys) ≡ drop n xs ++ ys
drop-append zero xs ys h = refl
drop-append (suc n) [] ys h = absurd (omega arith)
drop-append (suc n) (x ∷ xs) ys h = drop-append n xs ys (omega arith)

-- Cutting a history before a packet comes makes no difference to what is kept after it.
last-snoc {ℓ} :
    {A : Type ℓ} (n : ℕ) (xs : List A) (x : A)
    → last n (last n xs ++ (x ∷ [])) ≡ last n (xs ++ (x ∷ []))
last-snoc n xs x =
    let cut = length xs - n in
    let tail = x ∷ [] in
    let sizes = length-append xs tail in
    let kept = length-drop cut xs in
    rw (← drop-append cut xs tail (omega arith)) (
      rw (drop-drop, length-drop cut (xs ++ tail), sizes)
        (ap (λ k. drop k (xs ++ tail)) (omega arith)))

-- A history is kept by a store if the store holds its last packets.
abbrev Keeps : PacketFifo → JsMap Bytes → Type 0
Keeps f history = f.packets ≡ last f.max_size history

set-Keeps :
    (f : PacketFifo) (history : JsMap Bytes) (seqno : ℕ) (packet : Bytes)
    → IsValid f
    → Keeps f history
    → JsMap.has history seqno ≡ false
    → (set f seqno packet).packets ≡ last f.max_size (history ++ ((seqno, packet) ∷ []))
set-Keeps f history seqno packet v k fresh =
    let absent : JsMap.has f.packets seqno ≡ false =
      rw k (has-drop (length history - f.max_size) history seqno fresh) in
    rw (set_fresh f seqno packet v absent, k) (last-snoc f.max_size history (seqno, packet))

set-max_size :
    (f : PacketFifo) (seqno : ℕ) (packet : Bytes) → (set f seqno packet).max_size ≡ f.max_size
unfolding set
set-max_size f seqno packet = ground arith

IsDistinct-append_left :
    (xs ys : JsMap Bytes) (k : ℕ) (p : Bytes)
    → IsDistinct (xs ++ ((k, p) ∷ ys))
    → JsMap.has xs k ≡ false
IsDistinct-append_left [] ys k p d = refl
IsDistinct-append_left ((j, w) ∷ xs) ys k p (f, d) =
    ground (arith, has-append xs ((k, p) ∷ ys) j, IsDistinct-append_left xs ys k p d)

send_all-Keeps :
    (n : ℕ) (f : PacketFifo) (history more : JsMap Bytes)
    → IsValid f
    → f.max_size ≡ n
    → f.packets ≡ last n history
    → IsDistinct (history ++ more)
    → (send_all f more).packets ≡ last n (history ++ more)
unfolding send_all
send_all-Keeps n f history [] v e k d = rw append-nil k
send_all-Keeps n f history ((seqno, packet) ∷ more) v e k d =
    let grown = history ++ ((seqno, packet) ∷ []) in
    let fresh = IsDistinct-append_left history more seqno packet d in
    let regroup = append_assoc history ((seqno, packet) ∷ []) more in
    let kept = k ∙ ap (λ j. last j history) (sym e) in
    rw (← regroup) (
      send_all-Keeps n (set f seqno packet) grown more (set-IsValid f seqno packet v)
        (set-max_size f seqno packet ∙ e)
        (set-Keeps f history seqno packet v kept fresh ∙ ap (λ j. last j grown) e) (rw regroup d))

-- When packets with distinct sequence numbers are stored in a new FIFO of a given size, it holds
-- exactly the last ones of them, as many as the size, in the order they were sent.
pub send_all-last :
    (max_size : ℕ) (sent : JsMap Bytes)
    → IsDistinct sent
    → (send_all (create max_size) sent).packets ≡ last max_size sent
unfolding create
send_all-last max_size sent d =
    send_all-Keeps max_size (create max_size) [] sent (create-IsValid max_size) refl (rw drop-nil) d

-- When packets with distinct sequence numbers are stored in a new FIFO of a given size, a packet is
-- found under its number if it is one of the last ones, as many as the size, whether or not the
-- FIFO is full by then; for any other number nothing is found.
pub get-send_all :
    (max_size : ℕ) (sent : JsMap Bytes) (seqno : ℕ)
    → IsDistinct sent
    → get (send_all (create max_size) sent) seqno ≡ JsMap.get (last max_size sent) seqno
unfolding get
get-send_all max_size sent seqno d = rw (send_all-last max_size sent d)
