-- ===== src/CompanionLink/Once.antt =====
-- packages/companion-link/src/stream.ts: as long as the encoder throws on no request, each exchange is
-- settled once.
use apple_protocols.Prelude.{
  ℕ, [], ◌∷◌, Option, none, some, true, false, ◌==◌, ◌≡◌, refl, sym, ap, ◌∙◌, ==_iff, arith, inl,
  inr, Bool-cases,
}
use apple_protocols.Prelude.JsMap
use apple_protocols.Prelude.JsMap.{JsMap, IsDistinct}
use apple_protocols.CompanionLink.Exchanges.{
  Failure, timed_out, Result, rejected, Exchanges, finish, reject_each, reject_all, timer_ends,
}
use apple_protocols.CompanionLink.Lasting.{has-delete, has-get, has-set, has-snoc}

module _ {V : Type 0} where
  pub has-delete_same :
      (m : JsMap V) (k : ℕ) → IsDistinct m → JsMap.has (JsMap.delete m k) k ≡ false
  has-delete_same [] k d = refl
  has-delete_same ((j, v) ∷ m) k (f, d) = ground (arith, has-delete_same m k d)

  has-delete-false :
      (m : JsMap V) (k j : ℕ) → JsMap.has m j ≡ false → JsMap.has (JsMap.delete m k) j ≡ false
  has-delete-false [] k j h = refl
  has-delete-false ((i, v) ∷ m) k j h = ground (arith, has-delete-false m k j)

  pub IsDistinct-delete : (m : JsMap V) (k : ℕ) → IsDistinct m → IsDistinct (JsMap.delete m k)
  IsDistinct-delete [] k d = tt
  IsDistinct-delete ((j, v) ∷ m) k (f, d) = elim (Bool-cases (j == k)) [
    | inl e ↦ simp e d
    | inr e ↦ simp e (has-delete-false m k j f, IsDistinct-delete m k d)
  ]

  pub IsDistinct-set : (m : JsMap V) (k : ℕ) (v : V) → IsDistinct m → IsDistinct (JsMap.set m k v)
  IsDistinct-set [] k v d = (refl, tt)
  IsDistinct-set ((j, w) ∷ m) k v (f, d) = elim (Bool-cases (j == k)) [
    | inl e ↦ simp e (f, d)
    | inr e ↦ simp e (has-set m k v j ∙ ground arith, IsDistinct-set m k v d)
  ]

  get-delete :
      (m : JsMap V) (k j : ℕ) → (k == j) ≡ false → JsMap.get (JsMap.delete m k) j ≡ JsMap.get m j
  get-delete [] k j h = refl
  get-delete ((i, v) ∷ m) k j h = ground (arith, get-delete m k j h)

-- The timer of each exchange in the queue runs, and is for its key.
abbrev pub Agree : JsMap ℕ → JsMap ℕ → Type 0
Agree timers [] = Unit
Agree timers ((key, k) ∷ queue) = (JsMap.get timers k ≡ some key) × Agree timers queue

pub Agree-delete :
    (timers queue : JsMap ℕ) (key : ℕ) → Agree timers queue → Agree timers (JsMap.delete queue key)
Agree-delete timers [] key a = tt
Agree-delete timers ((j, k) ∷ queue) key (e, a) = elim (Bool-cases (j == key)) [
  | inl same ↦ simp same a
  | inr other ↦ simp other (e, Agree-delete timers queue key a)
]

-- A timer that is cleared is that of no other key.
pub Agree-cleared :
    (timers queue : JsMap ℕ) (key k : ℕ)
    → Agree timers queue
    → JsMap.has queue key ≡ false
    → JsMap.get timers k ≡ some key
    → Agree (JsMap.delete timers k) queue
Agree-cleared timers [] key k a h g = tt
Agree-cleared timers ((j, i) ∷ queue) key k (e, a) h g =
    let tail = Agree-cleared timers queue key k a (ground arith) g in
    elim (Bool-cases (k == i)) [
      | inl same ↦ absurd (ground (arith, e, g, h, same))
      | inr other ↦ (get-delete timers k i other ∙ e, tail)
    ]

pub get-Agree :
    (timers queue : JsMap ℕ) (key k : ℕ)
    → Agree timers queue
    → JsMap.get queue key ≡ some k
    → JsMap.get timers k ≡ some key
get-Agree timers [] key k a h = absurd (ground (arith, h))
get-Agree timers ((j, i) ∷ queue) key k (e, a) h = ground (arith, get-Agree timers queue key k a)

get-set_new :
    (timers : JsMap ℕ) (n key k : ℕ) (j : ℕ)
    → JsMap.has timers n ≡ false
    → JsMap.get timers k ≡ some j
    → JsMap.get (JsMap.set timers n key) k ≡ some j
get-set_new timers n key k j h g =
    JsMap.get-set timers n k key ∙ ground (arith, has-get timers k j g)

pub Agree-timer :
    (timers queue : JsMap ℕ) (n key : ℕ)
    → JsMap.has timers n ≡ false
    → Agree timers queue
    → Agree (JsMap.set timers n key) queue
Agree-timer timers [] n key h a = tt
Agree-timer timers ((j, k) ∷ queue) n key h (e, a) =
    (get-set_new timers n key k j h e, Agree-timer timers queue n key h a)

pub Agree-set :
    (timers queue : JsMap ℕ) (key k : ℕ)
    → JsMap.get timers k ≡ some key
    → Agree timers queue
    → Agree timers (JsMap.set queue key k)
Agree-set timers [] key k g a = (g, tt)
Agree-set timers ((j, i) ∷ queue) key k g (e, a) = elim (Bool-cases (j == key)) [
  | inl same ↦ simp same (g ∙ ap some (sym ((==_iff j key).0 same)), a)
  | inr other ↦ simp other (e, Agree-set timers queue key k g a)
]

-- No exchange is settled twice, and one that is settled has no timer.
pub record IsOnce (c : Exchanges) : Type 0 where
  pub once : IsDistinct c.settled
  pub timed : IsDistinct c.timers
  pub keyed : IsDistinct c.queue
  pub apart : (k : ℕ) → JsMap.has c.timers k ≡ true → JsMap.has c.settled k ≡ false
  pub agree : Agree c.timers c.queue

-- Settling an exchange whose timer runs.
pub finish-IsOnce :
    (c : Exchanges) (k key : ℕ) (result : Result) (queue : JsMap ℕ)
    → IsOnce c
    → JsMap.get c.timers k ≡ some key
    → IsDistinct queue
    → Agree (JsMap.delete c.timers k) queue
    → IsOnce (record (finish k result c) { queue = queue })
finish-IsOnce c k key result queue o g d a = record {
  once = JsMap.IsDistinct-append c.settled k result o.once (o.apart k (has-get c.timers k key g));
  timed = IsDistinct-delete c.timers k o.timed;
  keyed = d;
  apart = λ j h.
      has-snoc c.settled k result j
      ∙ ground (arith, h, o.apart j, has-delete c.timers k j, has-delete_same c.timers k o.timed);
  agree = a;
}

-- Settling the exchange under a key takes it out of the queue.
pub taken-IsOnce :
    (c : Exchanges) (k key : ℕ) (result : Result)
    → IsOnce c
    → JsMap.get c.timers k ≡ some key
    → IsOnce (record (finish k result c) { queue = JsMap.delete c.queue key })
taken-IsOnce c k key result o g =
    let queue = JsMap.delete c.queue key in
    finish-IsOnce c k key result queue o g (IsDistinct-delete c.queue key o.keyed) (
      Agree-cleared c.timers queue key k (Agree-delete c.timers c.queue key o.agree)
        (has-delete_same c.queue key o.keyed) g)

reject_each-IsOnce :
    (failure : Failure) (entries : JsMap ℕ) (c : Exchanges)
    → IsOnce (record c { queue = entries })
    → IsOnce (record (reject_each failure entries c) { queue = [] })
unfolding reject_each
reject_each-IsOnce failure [] c o = o
reject_each-IsOnce failure ((key, k) ∷ entries) c o =
    let waiting : Exchanges = record c { queue = (key, k) ∷ entries } in
    reject_each-IsOnce failure entries (finish k (rejected failure) c) (
      finish-IsOnce waiting k key (rejected failure) entries o o.agree.0 o.keyed.1
        (Agree-cleared c.timers entries key k o.agree.1 o.keyed.0 o.agree.0))

pub reject_all-IsOnce :
    (failure : Failure) (c : Exchanges) → IsOnce c → IsOnce (reject_all failure c)
unfolding reject_all
reject_all-IsOnce failure c o = reject_each-IsOnce failure c.queue c o

pub timer_ends-IsOnce :
    (k : ℕ) (t : Option ℕ) (c : Exchanges)
    → IsOnce c
    → JsMap.get c.timers k ≡ t
    → IsOnce (timer_ends k t c)
timer_ends-IsOnce k none c o g = o
timer_ends-IsOnce k (some key) c o g = taken-IsOnce c k key (rejected timed_out) o g
