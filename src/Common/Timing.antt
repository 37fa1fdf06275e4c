-- ===== src/Common/Timing.antt =====
-- `TimingServer` of packages/common/src/timing/ntp.ts: the replies to timing requests.
use apple_protocols.Prelude.{
  ℕ, ◌+◌, ◌/◌, ◌^◌, ◌<◌, bit_or, Option, some, Bytes, ◌>>=◌, >>=-eq_some, ◌≡◌, arith,
}
use apple_protocols.Encoding.Ntp
use apple_protocols.Encoding.Ntp.{PacketFields, Fits, now, parts, parts-now, decode-encode_packet}

-- The fields of the response to a request that is received at a time in milliseconds.
unfoldable pub response_fields : PacketFields → ℕ → PacketFields
response_fields request now_ms =
    let received = parts (now now_ms) in
    record {
      proto = request.proto;
      type = bit_or 0x53 0x80;
      seqno = request.seqno;
      padding = 0;
      reftime_sec = request.sendtime_sec;
      reftime_frac = request.sendtime_frac;
      recvtime_sec = received.0;
      recvtime_frac = received.1;
      sendtime_sec = received.0;
      sendtime_frac = received.1;
    }

-- `onMessage`: what is sent, with `none` where an error is caught and nothing is sent.
unfoldable pub on_message : (ℕ → ℕ) → Bytes → ℕ → Option Bytes
unfolding response_fields
on_message junk data_ now_ms =
    Ntp.decode data_ >>= λ request. Ntp.encode junk (response_fields request now_ms)

-- A request whose fields fit their widths, received before the seconds since 1900 leave 32 bits
-- (in February 2036), is answered, and the requester reads from the answer its own send time as the
-- reference time, its sequence number, and the server's time of receipt twice, whose seconds are
-- those since 1900.
pub on_message-Answers :
    (junk junk' : ℕ → ℕ) (request : PacketFields) (now_ms : ℕ)
    → Fits request
    → now_ms / 1000 + 2208988800 < 2 ^ 32
    → ((Ntp.encode junk request >>= λ packet. on_message junk' packet now_ms) >>= Ntp.decode)
      ≡ some (record {
        proto = request.proto;
        type = 0xD3;
        seqno = request.seqno;
        padding = 0;
        reftime_sec = request.sendtime_sec;
        reftime_frac = request.sendtime_frac;
        recvtime_sec = now_ms / 1000 + 2208988800;
        recvtime_frac = (parts (now now_ms)).1;
        sendtime_sec = now_ms / 1000 + 2208988800;
        sendtime_frac = (parts (now now_ms)).1;
      })
unfolding on_message response_fields
on_message-Answers junk junk' request now_ms fits early =
    let (seconds, small, _, _) = parts-now now_ms in
    let (packet, sent, received) =
      >>=-eq_some (Ntp.encode junk request) Ntp.decode (decode-encode_packet junk request fits) in
    let answer = response_fields request now_ms in
    let answer_fits : Fits answer = record {
      proto = fits.proto;
      type = omega arith;
      seqno = fits.seqno;
      padding = omega arith;
      reftime_sec = fits.sendtime_sec;
      reftime_frac = fits.sendtime_frac;
      recvtime_sec = omega (arith, seconds);
      recvtime_frac = small;
      sendtime_sec = omega (arith, seconds);
      sendtime_frac = small;
    } in
    rw (sent, received, decode-encode_packet junk' answer answer_fits) (rw seconds)
