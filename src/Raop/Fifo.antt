-- ===== src/Raop/Fifo.antt =====
-- `PacketFifo` of packages/raop/src/packets.ts: a bounded store of the packets sent last.
pub mod Invariant
pub mod Recent
use apple_protocols.Prelude.{
  ℕ, ◌<◌, List, [], ◌∷◌, ◌++◌, Option, Bool, Bytes, length, ltb, if◌then◌else◌,
}
use apple_protocols.Prelude.JsMap
use apple_protocols.Prelude.JsMap.{JsMap}

pub record PacketFifo : Type 0 where
  pub max_size : ℕ
  pub packets : JsMap Bytes
  pub order : List ℕ

unfoldable pub create : ℕ → PacketFifo
create max_size = record { max_size = max_size; packets = []; order = [] }

unfoldable pub get : PacketFifo → ℕ → Option Bytes
get f seqno = JsMap.get f.packets seqno

unfoldable pub has : PacketFifo → ℕ → Bool
has f seqno = JsMap.has f.packets seqno

-- The loop of `set`: the oldest sequence numbers leave while there are too many.
unfoldable pub evict : ℕ → List ℕ → JsMap Bytes → List ℕ × JsMap Bytes
evict max_size [] packets = ([], packets)
evict max_size (oldest ∷ order) packets =
    let rest = evict max_size order (JsMap.delete packets oldest) in
    if ltb max_size (length (oldest ∷ order)) then rest else (oldest ∷ order, packets)

unfoldable pub set : PacketFifo → ℕ → Bytes → PacketFifo
unfolding evict
set f seqno packet =
    let kept = evict f.max_size (f.order ++ (seqno ∷ [])) (JsMap.set f.packets seqno packet) in
    if JsMap.has f.packets seqno then f else record f { packets = kept.1; order = kept.0 }

unfoldable pub clear : PacketFifo → PacketFifo
clear f = record f { packets = []; order = [] }
