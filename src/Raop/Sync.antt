-- ===== src/Raop/Sync.antt =====
-- The sync packets of packages/raop/src/controlClient.ts: when they are sent, and the time in them.
use apple_protocols.Prelude.{
  ℕ, ◌+◌, ◌-◌, ◌*◌, ◌/◌, ◌%◌, ◌^◌, ◌≤◌, ◌<◌, Option, none, some, Bool, true, false, Bytes, ltb, leb,
  if◌then◌else◌, bit_or, ◌≡◌, refl, arith, subst, lt_or_le, inl, inr, lt→ltb, bit_or_high,
}
use native.Mathlib.Nat.{mod-lt, div-add-mod}
use apple_protocols.Encoding.Ntp
use apple_protocols.Raop.Headers.{encode_sync}

-- The elapsed samples, with the wrap of the 32-bit timestamp.
abbrev elapsed : ℕ → ℕ → ℕ
elapsed rtp_timestamp anchor_rtp =
    if leb anchor_rtp rtp_timestamp
    then rtp_timestamp - anchor_rtp
    else (0x100000000 - anchor_rtp) + rtp_timestamp

unfoldable pub ntp_from_ts : ℕ → ℕ → ℕ → ℕ → ℕ
ntp_from_ts rtp_timestamp sample_rate anchor_rtp anchor_ntp =
    let elapsed_samples = elapsed rtp_timestamp anchor_rtp in
    let elapsed_seconds = elapsed_samples / sample_rate in
    let elapsed_fraction = elapsed_samples % sample_rate * 0xFFFFFFFF / sample_rate in
    anchor_ntp + bit_or (elapsed_seconds * 2 ^ 32) elapsed_fraction

-- The part of the stream context and of the control client that the packets are made from.
pub record SyncState : Type 0 where
  pub has_transport : Bool
  pub is_running : Bool
  pub head_ts : ℕ
  pub latency : ℕ
  pub sample_rate : ℕ
  pub anchor_rtp : ℕ
  pub anchor_ntp : ℕ
  pub first_packet : Bool

-- What a call does: it throws, it sends nothing, or it sends a packet.
pub data Sync : Type 0 where
  raised : Sync
  silent : SyncState → Sync
  sent : SyncState → Bytes → Sync

abbrev after : SyncState → Option Bytes → Sync
after s none = raised
after s (some packet) = sent (record s { first_packet = false }) packet

-- The arguments of `SyncPacket.encode`. `headTs - latency` below 0 is out of the range of the
-- buffer's write, which throws.
abbrev packet_of : (ℕ → ℕ) → SyncState → Option Bytes
packet_of junk s =
    let current = Ntp.parts (ntp_from_ts s.head_ts s.sample_rate s.anchor_rtp s.anchor_ntp) in
    if ltb s.head_ts s.latency
    then none
    else encode_sync junk (if s.first_packet then 0x90 else 0x80) 0xD4 0x0007
        (s.head_ts - s.latency) current.0 current.1 s.head_ts

unfoldable pub send_sync : (ℕ → ℕ) → SyncState → Sync
send_sync junk s = if s.has_transport then after s (packet_of junk s) else silent s

abbrev running : Sync → Sync
running raised = raised
running (silent s) = silent (record s { is_running = true })
running (sent s packet) = sent (record s { is_running = true }) packet

-- `start` with `#startSyncTask`; `none` is the Error of a task that runs already. The interval is
-- set after the first packet, so a first packet that throws leaves no task.
unfoldable pub start : (ℕ → ℕ) → ℕ → SyncState → Option Sync
unfolding send_sync
start junk now_ms s =
    let anchored : SyncState = record s {
      anchor_rtp = s.head_ts;
      anchor_ntp = Ntp.now now_ms;
      first_packet = true;
    } in
    if s.is_running then none else some (running (send_sync junk anchored))

unfoldable pub stop : SyncState → SyncState
stop s = record s { is_running = false }

unfoldable pub close : SyncState → SyncState
unfolding stop
close s = record (stop s) { has_transport = false }

-- So the first packets of a stream whose timestamps start below the latency throw.
pub send_sync-early :
    (junk : ℕ → ℕ) (s : SyncState)
    → s.has_transport ≡ true
    → s.head_ts < s.latency
    → send_sync junk s ≡ raised
unfolding send_sync
send_sync-early junk s t h = rw (t, lt→ltb s.head_ts s.latency h) refl

elapsed-wrapped :
    (anchor_rtp k : ℕ)
    → anchor_rtp < 2 ^ 32
    → k < 2 ^ 32
    → elapsed ((anchor_rtp + k) % 2 ^ 32) anchor_rtp ≡ k
elapsed-wrapped anchor_rtp k a h = ground arith

-- A fraction of less than a second, in units of 2⁻³² s, is below 2 ^ 32.
fraction_lt : (f e r n : ℕ) → n * f + e ≡ r * 0xFFFFFFFF → r < n → f < 2 ^ 32
fraction_lt f e r n h less = elim (lt_or_le f (2 ^ 32)) [
  | inl below ↦ below
  | inr above ↦
      (let g = f - 2 ^ 32 in
        let split : f ≡ 2 ^ 32 + g = omega arith in
        let big : n * (2 ^ 32 + g) + e ≡ r * 0xFFFFFFFF =
          subst (λ v. n * v + e ≡ r * 0xFFFFFFFF) split h in
        omega arith)
]

-- The seconds and the fraction of so many samples give back their number, up to rounding.
scaled :
    (q r f e n k : ℕ)
    → n * q + r ≡ k
    → n * f + e ≡ r * 0xFFFFFFFF
    → r < n
    → e < n
    → ((q * 2 ^ 32 + f) * n ≤ k * 2 ^ 32) × (k * 2 ^ 32 < (q * 2 ^ 32 + f) * n + 2 * n)
scaled q r f e n k whole part less rest = omega arith

-- The timestamp of less than 2 ^ 32 samples after the anchor, whether or not it has wrapped around,
-- gives a time that is not before the anchor's: at a positive sample rate it lies behind it by the
-- duration of the samples, rounded down by less than two units of 2⁻³² s.
pub ntp_from_ts-elapsed :
    (anchor_rtp anchor_ntp sample_rate k : ℕ)
    → anchor_rtp < 2 ^ 32
    → k < 2 ^ 32
    → 0 < sample_rate
    → let ntp = ntp_from_ts ((anchor_rtp + k) % 2 ^ 32) sample_rate anchor_rtp anchor_ntp in
      (anchor_ntp ≤ ntp)
      × ((ntp - anchor_ntp) * sample_rate ≤ k * 2 ^ 32)
      × (k * 2 ^ 32 < (ntp - anchor_ntp) * sample_rate + 2 * sample_rate)
unfolding ntp_from_ts
ntp_from_ts-elapsed anchor_rtp anchor_ntp sample_rate k a h p =
    let q = k / sample_rate in
    let r = k % sample_rate in
    let f = r * 0xFFFFFFFF / sample_rate in
    let less : r < sample_rate = mod-lt k p in
    let part = div-add-mod (r * 0xFFFFFFFF) sample_rate in
    let below = fraction_lt f (r * 0xFFFFFFFF % sample_rate) r sample_rate part less in
    let near =
      scaled q r f (r * 0xFFFFFFFF % sample_rate) sample_rate k (div-add-mod k sample_rate) part
        less (mod-lt (r * 0xFFFFFFFF) p) in
    let back : anchor_ntp + (q * 2 ^ 32 + f) - anchor_ntp ≡ q * 2 ^ 32 + f = omega arith in
    rw (elapsed-wrapped anchor_rtp k a h, bit_or_high 32 q f below)
      (omega arith, rw back near.0, rw back near.1)
