-- ===== src/Raop.antt =====
-- packages/raop/src: the packets that were sent, kept for retransmission and sent again, the packet
-- headers, the control channel and the packets of a stream.
pub mod Fifo
pub mod Headers
pub mod Resend
pub mod Resent
pub mod Sync
pub mod Sender
