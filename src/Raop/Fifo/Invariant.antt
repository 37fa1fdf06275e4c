-- ===== src/Raop/Fifo/Invariant.antt =====
-- The invariant of the store, and that every operation keeps it.
use apple_protocols.Prelude.{
  ℕ, suc, ◌-◌, ◌≤◌, List, [], ◌∷◌, ◌++◌, true, false, Bytes, length, length-drop, drop, drop-nil,
  ◌≡◌, refl, sym, arith, inl, inr, lt_or_le, lt→ltb, le→ltb_false, ==_refl, Bool-cases,
}
use apple_protocols.Prelude.JsMap
use apple_protocols.Prelude.JsMap.{
  JsMap, set-fresh, keys-append, IsDistinct, IsDistinct-append, IsDistinct-drop, length-keys, keys,
  keys-drop,
}
use apple_protocols.Raop.Fifo.{PacketFifo, create, evict, set, clear}

-- The list of sequence numbers is that of the map's keys in their order, none stands twice, and
-- there are not more than the store may hold.
pub record IsValid (f : PacketFifo) : Type 0 where
  pub in_order : f.order ≡ keys f.packets
  pub distinct : IsDistinct f.packets
  pub bounded : length f.order ≤ f.max_size

-- The last n elements.
abbrev pub last {ℓ} : {A : Type ℓ} → ℕ → List A → List A
last n xs = drop (length xs - n) xs

evict-last :
    (n : ℕ) (m : JsMap Bytes) → IsDistinct m → evict n (keys m) m ≡ (keys (last n m), last n m)
unfolding evict
evict-last n [] d = rw drop-nil
evict-last n ((k, p) ∷ m) (f, d) = elim (lt_or_le n (suc (length m))) [
  | inl more ↦
      let left : suc (length m) - n ≡ suc (length m - n) = omega arith in
      rw (length-keys m, lt→ltb n (suc (length m)) more, ==_refl k, left) (evict-last n m d)
  | inr fits ↦
      let left : suc (length m) - n ≡ 0 = omega arith in
      rw (length-keys m, le→ltb_false n (suc (length m)) fits, left)
]

pub set_fresh :
    (f : PacketFifo) (seqno : ℕ) (packet : Bytes)
    → IsValid f
    → JsMap.has f.packets seqno ≡ false
    → let kept = last f.max_size (f.packets ++ ((seqno, packet) ∷ [])) in
      set f seqno packet ≡ record f { packets = kept; order = keys kept }
unfolding set
set_fresh f seqno packet v fresh =
    let added : keys f.packets ++ (seqno ∷ []) ≡ keys (f.packets ++ ((seqno, packet) ∷ [])) =
      sym (keys-append f.packets ((seqno, packet) ∷ [])) in
    rw (fresh, v.in_order, set-fresh f.packets seqno packet fresh, added)
      (rw (evict-last f.max_size _ (IsDistinct-append f.packets seqno packet v.distinct fresh)))

pub set_known :
    (f : PacketFifo) (seqno : ℕ) (packet : Bytes)
    → JsMap.has f.packets seqno ≡ true
    → set f seqno packet ≡ f
unfolding set
set_known f seqno packet known = rw known

length-last {ℓ} : {A : Type ℓ} (n : ℕ) (xs : List A) → length (last n xs) ≤ n
length-last n xs = omega (arith, length-drop (length xs - n) xs)

keys_of_last-IsValid :
    (n : ℕ) (m : JsMap Bytes)
    → IsDistinct m
    → IsValid (record { max_size = n; packets = last n m; order = keys (last n m) })
keys_of_last-IsValid n m d = record {
  in_order = refl;
  distinct = IsDistinct-drop (length m - n) m d;
  bounded = omega (arith, length-keys (last n m), length-last n m);
}

pub set-IsValid :
    (f : PacketFifo) (seqno : ℕ) (packet : Bytes) → IsValid f → IsValid (set f seqno packet)
set-IsValid f seqno packet v = elim (Bool-cases (JsMap.has f.packets seqno)) [
  | inl known ↦ rw (set_known f seqno packet known) v
  | inr fresh ↦ rw (set_fresh f seqno packet v fresh) (
      keys_of_last-IsValid f.max_size (f.packets ++ ((seqno, packet) ∷ []))
        (IsDistinct-append f.packets seqno packet v.distinct fresh))
]

pub create-IsValid : (n : ℕ) → IsValid (create n)
unfolding create
create-IsValid n = record { in_order = refl; distinct = tt; bounded = omega arith }

pub clear-IsValid : (f : PacketFifo) → IsValid (clear f)
unfolding clear
clear-IsValid f = record { in_order = refl; distinct = tt; bounded = omega arith }

-- The calls that change a store, and the store after a sequence of them.
pub data Call : Type 0 where
  store : ℕ → Bytes → Call
  clear_all : Call

unfoldable pub call : PacketFifo → Call → PacketFifo
call f (store seqno packet) = set f seqno packet
call f clear_all = clear f

unfoldable pub run : PacketFifo → List Call → PacketFifo
unfolding call
run f [] = f
run f (c ∷ cs) = run (call f c) cs

call-IsValid : (f : PacketFifo) (c : Call) → IsValid f → IsValid (call f c)
unfolding call
call-IsValid f (store seqno packet) v = set-IsValid f seqno packet v
call-IsValid f clear_all v = clear-IsValid f

run-IsValid : (f : PacketFifo) (cs : List Call) → IsValid f → IsValid (run f cs)
unfolding run
run-IsValid f [] v = v
run-IsValid f (c ∷ cs) v = run-IsValid (call f c) cs (call-IsValid f c v)

-- After any sequence of `set` and `clear` calls on a new store, the order list is that of the
-- map's keys, no sequence number stands twice, and at most `max_size` packets are kept.
pub run-create-IsValid : (max_size : ℕ) (calls : List Call) → IsValid (run (create max_size) calls)
run-create-IsValid max_size calls = run-IsValid (create max_size) calls (create-IsValid max_size)
