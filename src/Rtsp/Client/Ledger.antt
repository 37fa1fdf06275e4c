-- ===== src/Rtsp/Client/Ledger.antt =====
-- packages/rtsp/src/client.ts: the contract of the requests in flight, as an abstract machine. A
-- ledger numbers the exchanges; a step opens the next one, or settles one that waits.
use apple_protocols.Prelude.{
  ℕ, suc, ◌+◌, List, [], ◌∷◌, ◌++◌, true, ltb, ◌==◌, if◌then◌else◌, ◌≡◌, arith,
}
use apple_protocols.Prelude.JsMap
use apple_protocols.Prelude.JsMap.{JsMap}
use apple_protocols.Rtsp.Client.{Result, remove, is_in}

pub record Ledger : Type 0 where
  pub opened : ℕ
  pub waiting : List ℕ
  pub settled : List (ℕ × Result)

abbrev pub open_next : Ledger → Ledger
open_next l = record l { opened = suc l.opened; waiting = l.waiting ++ (l.opened ∷ []) }

abbrev pub settle_one : ℕ → Result → Ledger → Ledger
settle_one k result l = record l {
  waiting = remove k l.waiting;
  settled = l.settled ++ ((k, result) ∷ []);
}

pub data Step : Ledger → Ledger → Type 0 where
  opens : (l : Ledger) → Step l (open_next l)
  settles :
      (l : Ledger) (k : ℕ) (result : Result)
      → is_in k l.waiting ≡ true
      → Step l (settle_one k result l)

pub data Steps (l : Ledger) : Ledger → Type 0 where
  here : Steps l l
  next : {m n : Ledger} → Steps l m → Step m n → Steps l n

pub Steps-trans : {l m n : Ledger} → Steps l m → Steps m n → Steps l n
Steps-trans s here = s
Steps-trans s (next t st) = next (Steps-trans s t) st

abbrev pub count : ℕ → List ℕ → ℕ
count k [] = 0
count k (j ∷ js) = if j == k then suc (count k js) else count k js

abbrev once_below : ℕ → ℕ → ℕ
once_below k n = if ltb k n then 1 else 0

-- Each number that was opened is there once, waiting or settled, and no other number.
abbrev pub IsBalanced : Ledger → Type 0
IsBalanced l = (k : ℕ) → count k l.waiting + count k (JsMap.keys l.settled) ≡ once_below k l.opened

pub count-append : (k : ℕ) (js is : List ℕ) → count k (js ++ is) ≡ count k js + count k is
count-append k [] is = omega arith
count-append k (j ∷ js) is = ground (arith, count-append k js is)

count-remove :
    (k j : ℕ) (js : List ℕ)
    → is_in j js ≡ true
    → count k (remove j js) + count k (j ∷ []) ≡ count k js
count-remove k j [] h = absurd (ground (arith, h))
count-remove k j (i ∷ js) h = ground (arith, count-remove k j js)

Step-IsBalanced : {l m : Ledger} → Step l m → IsBalanced l → IsBalanced m
Step-IsBalanced (opens l) b k = ground (arith, b k, count-append k l.waiting (l.opened ∷ []))
Step-IsBalanced (settles l j result h) b k = rw (JsMap.keys-append l.settled ((j, result) ∷ [])) (
    omega
      (arith, b k, count-remove k j l.waiting h, count-append k (JsMap.keys l.settled) (j ∷ [])))

pub Steps-IsBalanced : {l m : Ledger} → Steps l m → IsBalanced l → IsBalanced m
Steps-IsBalanced here b = b
Steps-IsBalanced (next s st) b = Step-IsBalanced st (Steps-IsBalanced s b)
