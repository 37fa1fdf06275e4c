-- ===== src/CompanionLink/Exchanges.antt =====
-- packages/companion-link/src/stream.ts: requests that wait for a response, and what is done with a
-- frame. Exchanges are numbered here in the order they are made, to tell their promises apart.
use apple_protocols.Prelude.{
  ℕ, zero, suc, List, [], ◌∷◌, ◌++◌, Option, none, some, Bool, false, not, ◌||◌, ◌==◌,
  if◌then◌else◌, Bytes, byte_at, ℤ, pos, negsuc,
}
use apple_protocols.Prelude.JsMap
use apple_protocols.Prelude.JsMap.{JsMap}
use apple_protocols.Encoding.Opack.{
  Value, Entries, no_entries, entry_then, equal_bytes, text, integer, sized_integer, byte_array,
  array, object,
}

-- Why a promise is rejected.
pub data Failure : Type 0 where
  timed_out closed socket_failed not_connected not_sent : Failure

pub data Result : Type 0 where
  resolved : Bytes → Value → Result
  rejected : Failure → Result

-- What becomes of `sendOPack`: a connection that is not open emits an error, and the encoder or the
-- frame's header may throw.
pub data Write : Type 0 where
  written not_open threw : Write

-- `queue` holds the number of an exchange under its key, which stands one above the program's: 0 is
-- PAIRING_QUEUE_IDENTIFIER. `timers` holds the key of each exchange whose timer runs. `settled` has
-- every call that resolves or rejects a promise, in order, of which the first counts, `emitted` the
-- events with their contents.
pub record Exchanges : Type 0 where
  pub queue : JsMap ℕ
  pub xid : ℕ
  pub made : ℕ
  pub timers : JsMap ℕ
  pub settled : List (ℕ × Result)
  pub emitted : List (Value × Option Value)

abbrev pub pairing_key : ℕ
pairing_key = 0

-- `FrameType` and the lists of frame types.
abbrev pub is_pairing : ℕ → Bool
is_pairing type = type == 3 || type == 4 || type == 5 || type == 6

abbrev pub is_opack : ℕ → Bool
is_opack type = is_pairing type || type == 7 || type == 8 || type == 9

unfoldable pub start : ℕ → Exchanges
start xid = record { queue = []; xid = xid; made = 0; timers = []; settled = []; emitted = [] }

abbrev pub settle : ℕ → Result → Exchanges → Exchanges
settle k result c = record c { settled = c.settled ++ ((k, result) ∷ []) }

-- The resolve and reject closures of the queue: the timer is cleared.
abbrev pub finish : ℕ → Result → Exchanges → Exchanges
finish k result c = settle k result (record c { timers = JsMap.delete c.timers k })

-- The loop that rejects what is in the queue.
unfoldable pub reject_each : Failure → JsMap ℕ → Exchanges → Exchanges
reject_each failure [] c = c
reject_each failure ((key, k) ∷ rest) c = reject_each failure rest (finish k (rejected failure) c)

-- `onStreamError`, which every `error` event runs, and `#cleanup` but for its buffer.
unfoldable pub reject_all : Failure → Exchanges → Exchanges
unfolding reject_each
reject_all failure c =
    let rejected_all = reject_each failure c.queue c in record rejected_all { queue = [] }

-- The callback of a timer that runs for a key.
abbrev pub timer_ends : ℕ → Option ℕ → Exchanges → Exchanges
timer_ends k none c = c
timer_ends k (some key) c =
    finish k (rejected timed_out) (record c { queue = JsMap.delete c.queue key })

-- The timer of an exchange, if it runs.
unfoldable pub on_timer : ℕ → Exchanges → Exchanges
on_timer k c = timer_ends k (JsMap.get c.timers k) c

unfoldable pub after_send : ℕ → Write → Exchanges → Exchanges
unfolding reject_all
after_send k written c = c
after_send k not_open c = reject_all not_connected c
after_send k threw c = settle k (rejected not_sent) c

-- `exchange`: the timer starts and the queue is written before `sendOPack`, which takes the next `_x`
-- first. What throws there rejects the promise, but leaves its entry and its timer.
unfoldable pub exchange : ℕ → Write → Exchanges → Exchanges
unfolding after_send
exchange type write c =
    let key = if is_pairing type then pairing_key else suc c.xid in
    after_send c.made write (record c {
      queue = JsMap.set c.queue key c.made;
      timers = JsMap.set c.timers c.made key;
      made = suc c.made;
      xid = suc c.xid;
    })

abbrev pub field : Bytes → Entries → Option Value
field key no_entries = none
field key (entry_then name value fields) =
    if equal_bytes name key then some value else field key fields

-- What `in` and a property give on a decoded value: arrays, byte arrays and the objects that hold an
-- integer have none of the names; a value that is no object makes `in` throw.
abbrev pub fields_of : Value → Option Entries
fields_of (object fields) = some fields
fields_of (array _) = some no_entries
fields_of (byte_array _) = some no_entries
fields_of (integer _) = some no_entries
fields_of (sized_integer _ _) = some no_entries
fields_of _ = none

-- The key of a number, if the queue can have it.
abbrev pub key_of : Option ℤ → Option ℕ
key_of none = none
key_of (some (pos n)) = some (suc n)
key_of (some (negsuc zero)) = some pairing_key
key_of (some (negsuc (suc n))) = none

abbrev pub with_key : ℕ → Option ℕ → Option (ℕ × ℕ)
with_key key none = none
with_key key (some k) = some (key, k)

-- The exchange under a key, if there is one.
abbrev pub found : Option ℕ → Exchanges → Option (ℕ × ℕ)
found none c = none
found (some key) c = with_key key (JsMap.get c.queue key)

-- The stream's own listeners run for a message's event too: the names are not kept apart. (A `data`
-- event would go to the frames' buffer.)
abbrev pub run_named : Bytes → Exchanges → Exchanges
run_named name c =
    if equal_bytes name (b'e' ∷ b'r' ∷ b'r' ∷ b'o' ∷ b'r' ∷ [])
    then reject_all socket_failed c
    else if equal_bytes name (b'c' ∷ b'l' ∷ b'o' ∷ b's' ∷ b'e' ∷ [])
    then reject_all closed c
    else c

abbrev pub run_listeners : Value → Exchanges → Exchanges
run_listeners (text name) c = run_named name c
run_listeners _ c = c

abbrev pub emit_event : Option Value → Option Value → Exchanges → Exchanges
emit_event none content c = c
emit_event (some event) content c =
    run_listeners event (record c { emitted = c.emitted ++ ((event, content) ∷ []) })

unfoldable pub emit : Entries → Exchanges → Exchanges
emit fields c = emit_event (field (b'_' ∷ b'i' ∷ []) fields) (field (b'_' ∷ b'c' ∷ []) fields) c

-- `#handle` behind the decoder: the exchange of a response's `_x`, else the pairing exchange, else an
-- event.
unfoldable pub dispatch_to :
    Option (ℕ × ℕ) → Option (ℕ × ℕ) → Bytes → Value → Entries → Exchanges → Exchanges
unfolding emit
dispatch_to (some (key, k)) pairing header payload fields c =
    record (finish k (resolved header payload) c) { queue = JsMap.delete c.queue key }
dispatch_to none (some (key, k)) header payload fields c =
    record (finish k (resolved header payload) c) { queue = JsMap.delete c.queue key }
dispatch_to none none header payload fields c = emit fields c

-- `to_number` is the language's conversion of a value to a whole number, and `is_response` its
-- comparison of a value with `MessageType.Response`.
module _ (to_number : Value → Option ℤ) (is_response : Value → Bool) where
  abbrev is_answer : Option Value → Bool
  is_answer none = false
  is_answer (some v) = is_response v

  -- The key that a response is for.
  unfoldable pub answered_key : Entries → Option ℕ
  answered_key fields = elim (field (b'_' ∷ b'x' ∷ []) fields) [
    | none ↦ none
    | some x ↦ if is_answer (field (b'_' ∷ b't' ∷ []) fields) then key_of (to_number x) else none
  ]

  unfoldable pub dispatch : Bytes → Value → Option Entries → Exchanges → Option Exchanges
  unfolding dispatch_to answered_key
  dispatch header payload none c = none
  dispatch header payload (some fields) c = some (
      dispatch_to (found (answered_key fields) c) (found (some pairing_key) c) header payload fields
        c)

  -- `#handle`, given what the decoder makes of the payload; `none` is that it throws.
  abbrev pub handle_decoded : Bytes → Option Value → Exchanges → Option Exchanges
  handle_decoded header none c = none
  handle_decoded header (some payload) c = dispatch header payload (fields_of payload) c

  abbrev pub handle_type : Option ℕ → Bytes → Option Value → Exchanges → Option Exchanges
  handle_type none header decoded c = none
  handle_type (some type) header decoded c =
      if not (is_opack type) then some c else handle_decoded header decoded c

  unfoldable pub handle : Bytes → Option Value → Exchanges → Option Exchanges
  unfolding dispatch
  handle header decoded c = handle_type (byte_at header 0) header decoded c
