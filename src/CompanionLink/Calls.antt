-- ===== src/CompanionLink/Calls.antt =====
-- packages/companion-link/src/stream.ts: the calls and events of a stream, and runs of them.
use apple_protocols.Prelude.{
  ℕ, ◌<◌, lt→ltb, List, [], ◌∷◌, ◌++◌, Option, none, some, Bool, true, false, ltb, Bytes, byte_at,
  ℤ, ◌≡◌, refl, ap, ◌∙◌, arith, inl, inr, Bool-cases,
}
use apple_protocols.Prelude.JsMap
use apple_protocols.Prelude.JsMap.{JsMap}
use apple_protocols.Encoding.Opack.{Value, Entries, text}
use apple_protocols.CompanionLink.Exchanges.{
  timed_out, closed, socket_failed, resolved, rejected, Write, Exchanges, start, reject_all,
  timer_ends, on_timer, exchange, with_key, found, emit_event, emit, dispatch_to, dispatch,
  handle_decoded, handle_type, handle, fields_of, field, answered_key, run_listeners, is_opack,
  pairing_key,
}
use apple_protocols.CompanionLink.Lasting.{
  IsLasting, if-IsLasting, emitted-IsLasting, taken-IsLasting, exchange-IsLasting,
  timer_ends-IsLasting, reject_all-IsLasting, get-AreMade, has-snoc,
}

run_listeners-IsLasting :
    (event : Value) (c : Exchanges) → IsLasting c → IsLasting (run_listeners event c)
run_listeners-IsLasting (text name) c l =
    if-IsLasting _ _ _ (reject_all-IsLasting socket_failed c l)
      (if-IsLasting _ _ _ (reject_all-IsLasting closed c l) l)
run_listeners-IsLasting _ c l = l

emit_event-IsLasting :
    (event content : Option Value) (c : Exchanges)
    → IsLasting c
    → IsLasting (emit_event event content c)
emit_event-IsLasting none content c l = l
emit_event-IsLasting (some event) content c l =
    run_listeners-IsLasting event _ (emitted-IsLasting c (c.emitted ++ ((event, content) ∷ [])) l)

with_key_lem : (j i key k : ℕ) → with_key j (some i) ≡ some (key, k) → i ≡ k
with_key_lem j i key k h = cc

under_lem :
    (c : Exchanges) (j key k : ℕ) (o : Option ℕ)
    → IsLasting c
    → JsMap.get c.queue j ≡ o
    → with_key j o ≡ some (key, k)
    → ltb k c.made ≡ true
under_lem c j key k none l e h = absurd (ground (arith, h))
under_lem c j key k (some i) l e h =
    get-AreMade c.made c.queue j k l.queued (e ∙ ap some (with_key_lem j i key k h))

found_lem :
    (o : Option ℕ) (c : Exchanges) (key k : ℕ)
    → IsLasting c
    → found o c ≡ some (key, k)
    → ltb k c.made ≡ true
found_lem none c key k l h = absurd (ground (arith, h))
found_lem (some j) c key k l h = under_lem c j key k (JsMap.get c.queue j) l refl h

dispatch_to-IsLasting :
    (o p : Option (ℕ × ℕ)) (a b : Option ℕ) (header : Bytes) (payload : Value) (fields : Entries)
    (c : Exchanges)
    → IsLasting c
    → found a c ≡ o
    → found b c ≡ p
    → IsLasting (dispatch_to o p header payload fields c)
unfolding dispatch_to emit
dispatch_to-IsLasting (some (key, k)) p a b header payload fields c l e f =
    taken-IsLasting c key k (resolved header payload) l (found_lem a c key k l e)
dispatch_to-IsLasting none (some (key, k)) a b header payload fields c l e f =
    taken-IsLasting c key k (resolved header payload) l (found_lem b c key k l f)
dispatch_to-IsLasting none none a b header payload fields c l e f =
    emit_event-IsLasting (field (b'_' ∷ b'i' ∷ []) fields) (field (b'_' ∷ b'c' ∷ []) fields) c l

-- What a caller, the peer, the socket or a timer does next. What the peer sends is a header and what
-- the decoder makes of the payload.
pub data Call : Type 0 where
  exchanges : ℕ → Write → Call
  receives : Bytes → Option Value → Call
  times_out : ℕ → Call
  socket_fails socket_closes : Call

-- A frame on which `#handle` throws emits an error.
abbrev pub after_handle : Option Exchanges → Exchanges → Exchanges
after_handle none c = reject_all socket_failed c
after_handle (some d) c = d

module _ (to_number : Value → Option ℤ) (is_response : Value → Bool) where
  unfoldable pub call : Exchanges → Call → Exchanges
  unfolding exchange handle on_timer reject_all
  call c (exchanges type write) = exchange type write c
  call c (receives header decoded) = after_handle (handle to_number is_response header decoded c) c
  call c (times_out k) = on_timer k c
  call c socket_fails = reject_all socket_failed c
  call c socket_closes = reject_all closed c

  unfoldable pub calls : Exchanges → List Call → Exchanges
  unfolding call
  calls c [] = c
  calls c (x ∷ xs) = calls (call c x) xs

  dispatch-IsLasting :
      (header : Bytes) (payload : Value) (o : Option Entries) (c : Exchanges)
      → IsLasting c
      → IsLasting (after_handle (dispatch to_number is_response header payload o c) c)
  unfolding dispatch
  dispatch-IsLasting header payload none c l = reject_all-IsLasting socket_failed c l
  dispatch-IsLasting header payload (some fields) c l =
      let answered = answered_key to_number is_response fields in
      dispatch_to-IsLasting (found answered c) (found (some pairing_key) c) answered
        (some pairing_key) header payload fields c l refl refl

  handle_decoded-IsLasting :
      (header : Bytes) (decoded : Option Value) (c : Exchanges)
      → IsLasting c
      → IsLasting (after_handle (handle_decoded to_number is_response header decoded c) c)
  handle_decoded-IsLasting header none c l = reject_all-IsLasting socket_failed c l
  handle_decoded-IsLasting header (some payload) c l =
      dispatch-IsLasting header payload (fields_of payload) c l

  handle_type-IsLasting :
      (type : Option ℕ) (header : Bytes) (decoded : Option Value) (c : Exchanges)
      → IsLasting c
      → IsLasting (after_handle (handle_type to_number is_response type header decoded c) c)
  handle_type-IsLasting none header decoded c l = reject_all-IsLasting socket_failed c l
  handle_type-IsLasting (some type) header decoded c l = elim (Bool-cases (is_opack type)) [
    | inl e ↦ rw e (handle_decoded-IsLasting header decoded c l)
    | inr e ↦ rw e l
  ]

  pub call-IsLasting : (c : Exchanges) (x : Call) → IsLasting c → IsLasting (call c x)
  unfolding call handle on_timer
  call-IsLasting c (exchanges type write) l = exchange-IsLasting type write c l
  call-IsLasting c (receives header decoded) l =
      handle_type-IsLasting (byte_at header 0) header decoded c l
  call-IsLasting c (times_out k) l = timer_ends-IsLasting k (JsMap.get c.timers k) c l refl
  call-IsLasting c socket_fails l = reject_all-IsLasting socket_failed c l
  call-IsLasting c socket_closes l = reject_all-IsLasting closed c l

  pub calls-IsLasting : (xs : List Call) (c : Exchanges) → IsLasting c → IsLasting (calls c xs)
  unfolding calls
  calls-IsLasting [] c l = l
  calls-IsLasting (x ∷ xs) c l = calls-IsLasting xs (call c x) (call-IsLasting c x l)

  pub start-IsLasting : (xid : ℕ) → IsLasting (start xid)
  unfolding start
  start-IsLasting xid = record { lasting = λ k. ground arith; queued = tt }

  timer_ends-settles :
      (k : ℕ) (o : Option ℕ) (c : Exchanges)
      → IsLasting c
      → ltb k c.made ≡ true
      → JsMap.get c.timers k ≡ o
      → JsMap.has (timer_ends k o c).settled k ≡ true
  timer_ends-settles k none c l h e = ground (arith, l.lasting k, not_there c.timers e)
    where
      not_there : (m : JsMap ℕ) → JsMap.get m k ≡ none → JsMap.has m k ≡ false
      not_there [] g = refl
      not_there ((j, i) ∷ m) g = ground (arith, not_there m)
  timer_ends-settles k (some key) c l h e =
      has-snoc c.settled k (rejected timed_out) k ∙ ground arith

  -- After any calls of a new stream, whatever the peer sends and however writes and timers go, no
  -- exchange waits for ever: one that was made is settled once the time of its timer is over, if not
  -- before.
  pub calls-Lasting :
      (xid : ℕ) (xs : List Call) (k : ℕ)
      → k < (calls (start xid) xs).made
      → JsMap.has (on_timer k (calls (start xid) xs)).settled k ≡ true
  unfolding on_timer
  calls-Lasting xid xs k h =
      let d = calls (start xid) xs in
      let l = calls-IsLasting xs (start xid) (start-IsLasting xid) in
      timer_ends-settles k (JsMap.get d.timers k) d l (lt→ltb k d.made h) refl
