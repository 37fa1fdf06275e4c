-- ===== src/CompanionLink/Settled.antt =====
-- packages/companion-link/src/stream.ts: runs in which the encoder throws on no request.
use apple_protocols.Prelude.{
  ℕ, suc, ◌<◌, lt→ltb, List, [], ◌∷◌, ◌++◌, Option, none, some, Bool, true, false, not,
  if◌then◌else◌, Bytes, byte_at, ℤ, ◌≡◌, refl, ◌∙◌, arith, inl, inr, Bool-cases,
}
use apple_protocols.Prelude.JsMap
use apple_protocols.Prelude.JsMap.{JsMap, IsDistinct}
use apple_protocols.Encoding.Opack.{Value, Entries, text}
use apple_protocols.CompanionLink.Exchanges.{
  closed, socket_failed, not_connected, resolved, Write, written, not_open, threw, Exchanges, start,
  on_timer, after_send, exchange, is_pairing, pairing_key, with_key, found, emit_event, emit,
  dispatch_to, dispatch, handle_decoded, handle_type, handle, fields_of, field, answered_key,
  run_listeners, is_opack,
}
use apple_protocols.CompanionLink.Lasting.{IsLasting, has-set}
use apple_protocols.CompanionLink.Calls.{
  Call, exchanges, receives, times_out, socket_fails, socket_closes, after_handle, call, calls,
  call-IsLasting, calls-IsLasting, start-IsLasting,
}
use apple_protocols.CompanionLink.Once.{
  IsOnce, Agree-timer, Agree-set, get-Agree, IsDistinct-set, taken-IsOnce, reject_all-IsOnce,
  timer_ends-IsOnce,
}

-- The encoder and the frame's header throw on none of the requests.
abbrev pub Sends : Write → Type 0
Sends written = Unit
Sends not_open = Unit
Sends threw = ⊥

abbrev pub SendsAll : List Call → Type 0
SendsAll [] = Unit
SendsAll (exchanges type write ∷ xs) = Sends write × SendsAll xs
SendsAll (x ∷ xs) = SendsAll xs

-- A new exchange has no timer yet, and is not settled.
opened-IsOnce :
    (c : Exchanges) (key : ℕ)
    → IsLasting c
    → IsOnce c
    → IsOnce (record c {
      queue = JsMap.set c.queue key c.made;
      timers = JsMap.set c.timers c.made key;
      made = suc c.made;
      xid = suc c.xid;
    })
opened-IsOnce c key l o =
    let untimed : JsMap.has c.timers c.made ≡ false = ground (arith, l.lasting c.made) in
    let unsettled : JsMap.has c.settled c.made ≡ false = ground (arith, l.lasting c.made) in
    let timers = JsMap.set c.timers c.made key in
    record {
      once = o.once;
      timed = IsDistinct-set c.timers c.made key o.timed;
      keyed = IsDistinct-set c.queue key c.made o.keyed;
      apart = λ k h. ground (arith, has-set c.timers c.made key k, h, o.apart k, unsettled);
      agree =
          Agree-set timers c.queue key c.made
            (JsMap.get-set c.timers c.made c.made key ∙ ground arith)
            (Agree-timer c.timers c.queue c.made key untimed o.agree);
    }

after_send-IsOnce :
    (k : ℕ) (write : Write) (c : Exchanges) → Sends write → IsOnce c → IsOnce (after_send k write c)
unfolding after_send
after_send-IsOnce k written c s o = o
after_send-IsOnce k not_open c s o = reject_all-IsOnce not_connected c o
after_send-IsOnce k threw c s o = absurd s

exchange-IsOnce :
    (type : ℕ) (write : Write) (c : Exchanges)
    → Sends write
    → IsLasting c
    → IsOnce c
    → IsOnce (exchange type write c)
unfolding exchange
exchange-IsOnce type write c s l o =
    let key = if is_pairing type then pairing_key else suc c.xid in
    after_send-IsOnce c.made write _ s (opened-IsOnce c key l o)

if-IsOnce : (b : Bool) (c d : Exchanges) → IsOnce c → IsOnce d → IsOnce (if b then c else d)
if-IsOnce true c d o p = o
if-IsOnce false c d o p = p

run_listeners-IsOnce : (event : Value) (c : Exchanges) → IsOnce c → IsOnce (run_listeners event c)
run_listeners-IsOnce (text name) c o =
    if-IsOnce _ _ _ (reject_all-IsOnce socket_failed c o)
      (if-IsOnce _ _ _ (reject_all-IsOnce closed c o) o)
run_listeners-IsOnce _ c o = o

emitted-IsOnce :
    (c : Exchanges) (emitted : List (Value × Option Value))
    → IsOnce c
    → IsOnce (record c { emitted = emitted })
emitted-IsOnce c emitted o = record {
  once = o.once;
  timed = o.timed;
  keyed = o.keyed;
  apart = o.apart;
  agree = o.agree;
}

emit_event-IsOnce :
    (event content : Option Value) (c : Exchanges) → IsOnce c → IsOnce (emit_event event content c)
emit_event-IsOnce none content c o = o
emit_event-IsOnce (some event) content c o =
    run_listeners-IsOnce event _ (emitted-IsOnce c (c.emitted ++ ((event, content) ∷ [])) o)

-- What is found under a key has its timer.
with_key-timed :
    (c : Exchanges) (j key k : ℕ) (t : Option ℕ)
    → IsOnce c
    → JsMap.get c.queue j ≡ t
    → with_key j t ≡ some (key, k)
    → JsMap.get c.timers k ≡ some key
with_key-timed c j key k none o e h = absurd (ground (arith, h))
with_key-timed c j key k (some i) o e h =
    let timed : JsMap.get c.timers i ≡ some j = get-Agree c.timers c.queue j i o.agree e in cc

found-timed :
    (t : Option ℕ) (c : Exchanges) (key k : ℕ)
    → IsOnce c
    → found t c ≡ some (key, k)
    → JsMap.get c.timers k ≡ some key
found-timed none c key k o h = absurd (ground (arith, h))
found-timed (some j) c key k o h = with_key-timed c j key k (JsMap.get c.queue j) o refl h

dispatch_to-IsOnce :
    (t p : Option (ℕ × ℕ)) (a b : Option ℕ) (header : Bytes) (payload : Value) (fields : Entries)
    (c : Exchanges)
    → IsOnce c
    → found a c ≡ t
    → found b c ≡ p
    → IsOnce (dispatch_to t p header payload fields c)
unfolding dispatch_to emit
dispatch_to-IsOnce (some (key, k)) p a b header payload fields c o e f =
    taken-IsOnce c k key (resolved header payload) o (found-timed a c key k o e)
dispatch_to-IsOnce none (some (key, k)) a b header payload fields c o e f =
    taken-IsOnce c k key (resolved header payload) o (found-timed b c key k o f)
dispatch_to-IsOnce none none a b header payload fields c o e f =
    emit_event-IsOnce (field (b'_' ∷ b'i' ∷ []) fields) (field (b'_' ∷ b'c' ∷ []) fields) c o

module _ (to_number : Value → Option ℤ) (is_response : Value → Bool) where
  dispatch-IsOnce :
      (header : Bytes) (payload : Value) (t : Option Entries) (c : Exchanges)
      → IsOnce c
      → IsOnce (after_handle (dispatch to_number is_response header payload t c) c)
  unfolding dispatch
  dispatch-IsOnce header payload none c o = reject_all-IsOnce socket_failed c o
  dispatch-IsOnce header payload (some fields) c o =
      let answered = answered_key to_number is_response fields in
      dispatch_to-IsOnce (found answered c) (found (some pairing_key) c) answered (some pairing_key)
        header payload fields c o refl refl

  handle_decoded-IsOnce :
      (header : Bytes) (decoded : Option Value) (c : Exchanges)
      → IsOnce c
      → IsOnce (after_handle (handle_decoded to_number is_response header decoded c) c)
  handle_decoded-IsOnce header none c o = reject_all-IsOnce socket_failed c o
  handle_decoded-IsOnce header (some payload) c o =
      dispatch-IsOnce header payload (fields_of payload) c o

  handle_type-IsOnce :
      (type : Option ℕ) (header : Bytes) (decoded : Option Value) (c : Exchanges)
      → IsOnce c
      → IsOnce (after_handle (handle_type to_number is_response type header decoded c) c)
  handle_type-IsOnce none header decoded c o = reject_all-IsOnce socket_failed c o
  handle_type-IsOnce (some type) header decoded c o = elim (Bool-cases (is_opack type)) [
    | inl e ↦ rw e (handle_decoded-IsOnce header decoded c o)
    | inr e ↦ rw e o
  ]

  calls-IsOnce :
      (xs : List Call) (c : Exchanges)
      → SendsAll xs
      → IsLasting c
      → IsOnce c
      → IsOnce (calls to_number is_response c xs)
  unfolding calls call handle on_timer
  calls-IsOnce [] c s l o = o
  calls-IsOnce (exchanges type write ∷ xs) c (w, s) l o =
      let x = exchanges type write in
      calls-IsOnce xs (call to_number is_response c x) s
        (call-IsLasting to_number is_response c x l) (exchange-IsOnce type write c w l o)
  calls-IsOnce (receives header decoded ∷ xs) c s l o =
      let x = receives header decoded in
      calls-IsOnce xs (call to_number is_response c x) s
        (call-IsLasting to_number is_response c x l)
        (handle_type-IsOnce (byte_at header 0) header decoded c o)
  calls-IsOnce (times_out k ∷ xs) c s l o =
      let x = times_out k in
      calls-IsOnce xs (call to_number is_response c x) s
        (call-IsLasting to_number is_response c x l)
        (timer_ends-IsOnce k (JsMap.get c.timers k) c o refl)
  calls-IsOnce (socket_fails ∷ xs) c s l o =
      calls-IsOnce xs (call to_number is_response c socket_fails) s
        (call-IsLasting to_number is_response c socket_fails l)
        (reject_all-IsOnce socket_failed c o)
  calls-IsOnce (socket_closes ∷ xs) c s l o =
      calls-IsOnce xs (call to_number is_response c socket_closes) s
        (call-IsLasting to_number is_response c socket_closes l) (reject_all-IsOnce closed c o)

  start-IsOnce : (xid : ℕ) → IsOnce (start xid)
  unfolding start
  start-IsOnce xid = record { once = tt; timed = tt; keyed = tt; apart = λ k h. refl; agree = tt }

  -- After any calls of a new stream in which sending throws on no request, no promise was resolved
  -- or rejected twice, and each exchange that was made is either settled, with its timer cleared, or
  -- not settled, with its timer running.
  pub calls-Once :
      (xid : ℕ) (xs : List Call) (k : ℕ)
      → SendsAll xs
      → k < (calls to_number is_response (start xid) xs).made
      → IsDistinct (calls to_number is_response (start xid) xs).settled
        × (JsMap.has (calls to_number is_response (start xid) xs).settled k
            ≡ not (JsMap.has (calls to_number is_response (start xid) xs).timers k))
  calls-Once xid xs k s h =
      let d = calls to_number is_response (start xid) xs in
      let l =
        calls-IsLasting to_number is_response xs (start xid)
          (start-IsLasting to_number is_response xid) in
      let o =
        calls-IsOnce xs (start xid) s (start-IsLasting to_number is_response xid)
          (start-IsOnce xid) in
      (o.once, ground (arith, l.lasting k, o.apart k, lt→ltb k d.made h))
