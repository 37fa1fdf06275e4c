-- ===== src/Tests/Exchanges.antt =====
-- Runs and instances for the exchanges of packages/companion-link/src/stream.ts.
use apple_protocols.Prelude.{
  not, ℕ, List, [], ◌∷◌, Option, none, some, Bytes, Bool, true, false, ℤ, pos, ◌==◌, ◌≡◌, refl,
  arith,
}
use apple_protocols.Prelude.JsMap
use apple_protocols.Prelude.JsMap.{IsDistinct}
use apple_protocols.Encoding.Opack.{Value, number, text, object, no_entries, entry_then}
use apple_protocols.CompanionLink.Exchanges.{
  timed_out, socket_failed, resolved, rejected, not_sent, threw, written, start, on_timer,
}
use apple_protocols.CompanionLink.Settled.{calls-Once}
use apple_protocols.CompanionLink.Calls.{Call, exchanges, receives, times_out, calls, calls-Lasting}

abbrev to_number : Value → Option ℤ
to_number (number n) = some n
to_number _ = none

abbrev is_response : Value → Bool
is_response (number (pos n)) = n == 3
is_response _ = false

abbrev response_header : Bytes
response_header = 8 ∷ 0 ∷ 0 ∷ 0 ∷ []

abbrev response : ℕ → Value
response x = object (
    entry_then (b'_' ∷ b't' ∷ []) (number (pos 3))
      (entry_then (b'_' ∷ b'x' ∷ []) (number (pos x)) no_entries))

-- Two requests that are answered in the other order, and a third that is not.
abbrev scenario : List Call
scenario =
    exchanges 8 written
    ∷ exchanges 8 written
    ∷ exchanges 8 written
    ∷ receives response_header (some (response 6))
    ∷ receives response_header (some (response 5))
    ∷ times_out 2
    ∷ []

scenario_settled :
    (calls to_number is_response (start 5) scenario).settled
    ≡ (1, resolved response_header (response 6))
      ∷ (0, resolved response_header (response 5))
      ∷ (2, rejected timed_out)
      ∷ []
unfolding calls start
scenario_settled = refl

-- Two pairing exchanges share a key. The first one's timer takes the second one out of the queue, so
-- that the response to the second is not taken for it.
abbrev two_pairings : List Call
two_pairings =
    exchanges 3 written
    ∷ exchanges 5 written
    ∷ times_out 0
    ∷ receives response_header (some (object no_entries))
    ∷ []

second_unanswered :
    (calls to_number is_response (start 5) two_pairings).settled ≡ (0, rejected timed_out) ∷ []
unfolding calls start
second_unanswered = refl

-- An event that the peer names `error` rejects what waits.
named_error :
    (calls to_number is_response (start 5) (
      exchanges 8 written
      ∷ receives response_header (
          some (
            object (
              entry_then
                (b'_' ∷ b'i' ∷ [])
                (text (b'e' ∷ b'r' ∷ b'r' ∷ b'o' ∷ b'r' ∷ []))
                no_entries)))
      ∷ [])).settled
    ≡ (0, rejected socket_failed) ∷ []
unfolding calls start
named_error = refl

calls-Lasting_example :
    JsMap.has (on_timer 1 (calls to_number is_response (start 5) two_pairings)).settled 1 ≡ true
unfolding calls start
calls-Lasting_example = calls-Lasting to_number is_response 5 two_pairings 1 (omega arith)

calls-Once_example :
    IsDistinct (calls to_number is_response (start 5) two_pairings).settled
    × (JsMap.has (calls to_number is_response (start 5) two_pairings).settled 1
        ≡ not (JsMap.has (calls to_number is_response (start 5) two_pairings).timers 1))
unfolding calls start
calls-Once_example = calls-Once to_number is_response 5 two_pairings 1 (tt, (tt, tt)) (omega arith)

-- A request that the encoder refuses is settled at once, and again when its timer runs out.
settled_twice :
    (calls to_number is_response (start 5) (exchanges 8 threw ∷ times_out 0 ∷ [])).settled
    ≡ (0, rejected not_sent) ∷ (0, rejected timed_out) ∷ []
unfolding calls start
settled_twice = refl
