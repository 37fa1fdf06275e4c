-- ===== src/Rtsp/Client.antt =====
-- packages/rtsp/src/client.ts: requests in flight, and the bytes that come in for them. What a class
-- makes of the bytes on their way, a cipher or nothing, and its keys are parameters.
pub mod Receive
pub mod Exchange
pub mod Ledger
pub mod Refines
pub mod Calls
pub mod Contract
pub mod Ends
pub mod Chunks
pub mod Rejected
pub mod Keys
pub mod RequestResponse
pub mod Answered
pub mod Parts
use apple_protocols.Prelude.{
  ℕ, zero, suc, ◌+◌, ◌-◌, ◌*◌, List, [], ◌∷◌, ◌++◌, Option, none, some, Bool, true, false, not,
  ◌&&◌, ◌||◌, ltb, ◌==◌, if◌then◌else◌, drop, length, Bytes,
}
use apple_protocols.Prelude.JsMap
use apple_protocols.Prelude.JsMap.{JsMap}
use apple_protocols.Rtsp.Parsed.{Parsed, ok, thrown, Fault}
use apple_protocols.Rtsp.Text.{Text, is_digit, is_empty, take_while}
use apple_protocols.Rtsp.Decimal.{value}
use apple_protocols.Rtsp.Headers.{Headers, lookup, cseq_name}
use apple_protocols.Rtsp.Response.{Response, is_ok, parse_response}
use apple_protocols.Rtsp.Build.{Protocol, Body, format_request}

-- 2 MB
abbrev pub max_buffer_size : ℕ
max_buffer_size = 2 * 1024 * 1024

-- Why an exchange is rejected.
pub data Failure : Type 0 where
  timed_out closed connection_timed_out overflow not_connected not_encrypted write_threw : Failure
  socket_failed : Failure
  unreadable : Fault → Failure
  -- The status of a response that is not OK.
  refused : ℕ → Failure
  not_decrypted : Failure

pub data Result : Type 0 where
  resolved : Response → Result
  rejected : Failure → Result

-- A request in flight: what its closures know.
pub record Pending : Type 0 where
  pub allow_error : Bool

-- What `transformIncoming` gives: it may wait for more, and it may throw.
pub data Incoming : Type 0 where
  more_needed failed : Incoming
  plaintext : Bytes → Incoming

-- What becomes of the bytes that are written: a connection that is not open emits an error.
pub data Write : Type 0 where
  written not_open threw : Write

-- `timers` lists the exchanges whose timer runs; `settled` what promises came to, oldest first.
pub record Client (K : Type 0) : Type 0 where
  pub buffer : Bytes
  pub encrypted_buffer : Bytes
  pub cseq : ℕ
  pub requests : JsMap Pending
  pub timers : List ℕ
  pub settled : List (ℕ × Result)
  pub sent : List Bytes
  pub keys : K

pub record Request (O : Type 0) : Type 0 where
  pub method : Text
  pub path : Text
  pub protocol : Protocol
  pub headers : Headers
  pub content_type : Option Text
  pub body : Body O
  pub allow_error : Bool

abbrev pub remove : ℕ → List ℕ → List ℕ
remove k [] = []
remove k (j ∷ js) = if j == k then js else j ∷ remove k js

abbrev pub is_in : ℕ → List ℕ → Bool
is_in k [] = false
is_in k (j ∷ js) = if j == k then true else is_in k js

-- `parseInt` on trimmed text: `none` is no number, or one below 0.
unfoldable pub parse_int : Text → Option ℕ
parse_int text =
    let digits = take_while is_digit text in
    let behind_sign = take_while is_digit (drop 1 text) in
    elim text [
      | [] ↦ none
      | c ∷ cs ↦
          if c == b'-'
          then (if is_empty behind_sign || not (value behind_sign == 0) then none else some 0)
          else if c == b'+'
          then (if is_empty behind_sign then none else some (value behind_sign))
          else if is_empty digits
          then none
          else some (value digits)
    ]

abbrev number_of : Option Text → Option ℕ
number_of none = none
number_of (some text) = parse_int text

-- The CSeq of a response; `none` is a number that no request has.
unfoldable pub cseq_of : Response → Option ℕ
unfolding parse_int
cseq_of response = number_of (lookup response.headers cseq_name)

-- The `resolve` of a request.
abbrev pub answer_of : Pending → Response → Result
answer_of p response =
    if not p.allow_error && not (is_ok response)
    then rejected (refused response.status)
    else resolved response

module _ {K : Type 0} where
  unfoldable pub start : K → Client K
  start keys = record {
    buffer = [];
    encrypted_buffer = [];
    cseq = 0;
    requests = [];
    timers = [];
    settled = [];
    sent = [];
    keys = keys;
  }

  -- A request's `resolve` or `reject`: its timer is cleared and its promise settled.
  abbrev pub settle : ℕ → Result → Client K → Client K
  settle k result c = record c {
    timers = remove k c.timers;
    settled = c.settled ++ ((k, result) ∷ []);
  }

  abbrev pub forget : ℕ → Client K → Client K
  forget k c = record c { requests = JsMap.delete c.requests k }

  -- The loop over the requests that rejects each and deletes it.
  unfoldable pub reject_each : Failure → JsMap Pending → Client K → Client K
  reject_each failure [] c = c
  reject_each failure ((k, p) ∷ entries) c =
      reject_each failure entries (forget k (settle k (rejected failure) c))

  unfoldable pub reject_all : Failure → Client K → Client K
  unfolding reject_each
  reject_all failure c = reject_each failure c.requests c

  -- `onRtspError`, which every `error` event runs.
  unfoldable pub on_rtsp_error : Failure → Client K → Client K
  unfolding reject_all
  on_rtsp_error failure c = reject_all failure c

  unfoldable pub on_rtsp_timeout : Client K → Client K
  unfolding reject_all
  on_rtsp_timeout c = reject_all connection_timed_out c

  unfoldable pub on_rtsp_close : Client K → Client K
  unfolding reject_all
  on_rtsp_close c = reject_all closed (record c { buffer = []; encrypted_buffer = [] })

  -- The timer of an exchange, if it runs.
  unfoldable pub on_timer : ℕ → Client K → Client K
  on_timer k c = if is_in k c.timers then settle k (rejected timed_out) (forget k c) else c
