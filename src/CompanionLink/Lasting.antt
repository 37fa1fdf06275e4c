-- ===== src/CompanionLink/Lasting.antt =====
-- packages/companion-link/src/stream.ts: no exchange waits for ever.
use apple_protocols.Prelude.{
  ℕ, suc, List, [], ◌∷◌, ◌++◌, Option, none, some, Bool, true, false, ◌||◌, ltb, ◌==◌,
  if◌then◌else◌, ◌≡◌, refl, arith, inl, inr, Bool-cases,
}
use apple_protocols.Prelude.JsMap
use apple_protocols.Prelude.JsMap.{JsMap}
use apple_protocols.Encoding.Opack.{Value}
use apple_protocols.CompanionLink.Exchanges.{
  Failure, timed_out, not_connected, not_sent, Result, rejected, Write, written, not_open, threw,
  Exchanges, settle, finish, reject_each, reject_all, timer_ends, after_send, exchange, is_pairing,
  pairing_key,
}

-- The exchanges in the queue have been made.
abbrev pub AreMade : ℕ → JsMap ℕ → Type 0
AreMade n [] = Unit
AreMade n ((key, k) ∷ m) = (ltb k n ≡ true) × AreMade n m

-- Each exchange is settled, or its timer runs, which will settle it.
pub record IsLasting (c : Exchanges) : Type 0 where
  pub lasting : (k : ℕ) → (JsMap.has c.settled k || JsMap.has c.timers k) ≡ ltb k c.made
  pub queued : AreMade c.made c.queue

pub has-delete :
    {V : Type 0} (m : JsMap V) (k j : ℕ)
    → (k == j) ≡ false
    → JsMap.has (JsMap.delete m k) j ≡ JsMap.has m j
has-delete [] k j h = refl
has-delete ((i, v) ∷ m) k j h = ground (arith, has-delete m k j)

pub has-snoc :
    (m : List (ℕ × Result)) (k : ℕ) (result : Result) (j : ℕ)
    → JsMap.has (m ++ ((k, result) ∷ [])) j ≡ (if k == j then true else JsMap.has m j)
has-snoc m k result j = ground (arith, JsMap.has-append m ((k, result) ∷ []) j)

AreMade-delete : (n : ℕ) (m : JsMap ℕ) (key : ℕ) → AreMade n m → AreMade n (JsMap.delete m key)
AreMade-delete n [] key a = tt
AreMade-delete n ((j, k) ∷ m) key (h, a) = elim (Bool-cases (j == key)) [
  | inl e ↦ simp e a
  | inr e ↦ simp e (h, AreMade-delete n m key a)
]

AreMade-set :
    (n : ℕ) (m : JsMap ℕ) (key k : ℕ) → AreMade n m → ltb k n ≡ true → AreMade n (JsMap.set m key k)
AreMade-set n [] key k a h = (h, tt)
AreMade-set n ((j, i) ∷ m) key k (g, a) h = elim (Bool-cases (j == key)) [
  | inl e ↦ simp e (h, a)
  | inr e ↦ simp e (g, AreMade-set n m key k a h)
]

AreMade-suc : (n : ℕ) (m : JsMap ℕ) → AreMade n m → AreMade (suc n) m
AreMade-suc n [] a = tt
AreMade-suc n ((j, k) ∷ m) (h, a) = (ground arith, AreMade-suc n m a)

pub get-AreMade :
    (n : ℕ) (m : JsMap ℕ) (key k : ℕ) → AreMade n m → JsMap.get m key ≡ some k → ltb k n ≡ true
get-AreMade n [] key k a h = absurd (ground (arith, h))
get-AreMade n ((j, i) ∷ m) key k (g, a) h = ground (arith, get-AreMade n m key k a)

settle-IsLasting :
    (c : Exchanges) (k : ℕ) (result : Result)
    → IsLasting c
    → ltb k c.made ≡ true
    → IsLasting (settle k result c)
settle-IsLasting c k result l h = record {
  lasting = λ j. ground (arith, has-snoc c.settled k result j, l.lasting j);
  queued = l.queued;
}

finish-IsLasting :
    (c : Exchanges) (k : ℕ) (result : Result)
    → IsLasting c
    → ltb k c.made ≡ true
    → IsLasting (finish k result c)
finish-IsLasting c k result l h = record {
  lasting =
      λ j. ground (arith, has-snoc c.settled k result j, l.lasting j, has-delete c.timers k j);
  queued = l.queued;
}

queue-IsLasting :
    (c : Exchanges) (queue : JsMap ℕ)
    → IsLasting c
    → AreMade c.made queue
    → IsLasting (record c { queue = queue })
queue-IsLasting c queue l a = record { lasting = l.lasting; queued = a }

reject_each-IsLasting :
    (failure : Failure) (entries : JsMap ℕ) (c : Exchanges)
    → IsLasting c
    → AreMade c.made entries
    → IsLasting (reject_each failure entries c)
unfolding reject_each
reject_each-IsLasting failure [] c l a = l
reject_each-IsLasting failure ((key, k) ∷ entries) c l (h, a) =
    reject_each-IsLasting failure entries (finish k (rejected failure) c)
      (finish-IsLasting c k (rejected failure) l h) a

pub reject_all-IsLasting :
    (failure : Failure) (c : Exchanges) → IsLasting c → IsLasting (reject_all failure c)
unfolding reject_all
reject_all-IsLasting failure c l =
    queue-IsLasting (reject_each failure c.queue c) []
      (reject_each-IsLasting failure c.queue c l l.queued) tt

pub has-get :
    {V : Type 0} (m : JsMap V) (k : ℕ) (v : V) → JsMap.get m k ≡ some v → JsMap.has m k ≡ true
has-get [] k v h = absurd (ground (arith, h))
has-get ((j, w) ∷ m) k v h = ground (arith, has-get m k v)

pub timer_ends-IsLasting :
    (k : ℕ) (o : Option ℕ) (c : Exchanges)
    → IsLasting c
    → JsMap.get c.timers k ≡ o
    → IsLasting (timer_ends k o c)
timer_ends-IsLasting k none c l e = l
timer_ends-IsLasting k (some key) c l e =
    finish-IsLasting (record c { queue = JsMap.delete c.queue key }) k (rejected timed_out)
      (queue-IsLasting c (JsMap.delete c.queue key) l (AreMade-delete c.made c.queue key l.queued))
      (ground (arith, l.lasting k, has-get c.timers k key e))

after_send-IsLasting :
    (k : ℕ) (write : Write) (c : Exchanges)
    → IsLasting c
    → ltb k c.made ≡ true
    → IsLasting (after_send k write c)
unfolding after_send
after_send-IsLasting k written c l h = l
after_send-IsLasting k not_open c l h = reject_all-IsLasting not_connected c l
after_send-IsLasting k threw c l h = settle-IsLasting c k (rejected not_sent) l h

pub has-set :
    {V : Type 0} (m : JsMap V) (k : ℕ) (v : V) (j : ℕ)
    → JsMap.has (JsMap.set m k v) j ≡ (if k == j then true else JsMap.has m j)
has-set [] k v j = ground arith
has-set ((i, w) ∷ m) k v j = ground (arith, has-set m k v j)

opened-IsLasting :
    (c : Exchanges) (key : ℕ)
    → IsLasting c
    → IsLasting (record c {
      queue = JsMap.set c.queue key c.made;
      timers = JsMap.set c.timers c.made key;
      made = suc c.made;
      xid = suc c.xid;
    })
opened-IsLasting c key l = record {
  lasting = λ j. ground (arith, has-set c.timers c.made key j, l.lasting j);
  queued =
      AreMade-set (suc c.made) c.queue key c.made (AreMade-suc c.made c.queue l.queued)
        (ground arith);
}

pub exchange-IsLasting :
    (type : ℕ) (write : Write) (c : Exchanges) → IsLasting c → IsLasting (exchange type write c)
unfolding exchange
exchange-IsLasting type write c l =
    let key = if is_pairing type then pairing_key else suc c.xid in
    after_send-IsLasting c.made write
      (record c {
        queue = JsMap.set c.queue key c.made;
        timers = JsMap.set c.timers c.made key;
        made = suc c.made;
        xid = suc c.xid;
      })
      (opened-IsLasting c key l) (ground arith)

pub taken-IsLasting :
    (c : Exchanges) (key k : ℕ) (result : Result)
    → IsLasting c
    → ltb k c.made ≡ true
    → IsLasting (record (finish k result c) { queue = JsMap.delete c.queue key })
taken-IsLasting c key k result l h =
    queue-IsLasting (finish k result c) (JsMap.delete c.queue key) (finish-IsLasting c k result l h)
      (AreMade-delete c.made c.queue key l.queued)

pub if-IsLasting :
    (b : Bool) (c d : Exchanges) → IsLasting c → IsLasting d → IsLasting (if b then c else d)
if-IsLasting true c d l m = l
if-IsLasting false c d l m = m

pub emitted-IsLasting :
    (c : Exchanges) (emitted : List (Value × Option Value))
    → IsLasting c
    → IsLasting (record c { emitted = emitted })
emitted-IsLasting c emitted l = record { lasting = l.lasting; queued = l.queued }
