-- ===== src/CompanionLink.antt =====
-- packages/companion-link/src: the stream that OPack messages are framed on.
pub mod Stream
pub mod Exchanges
pub mod Lasting
pub mod Calls
pub mod Once
pub mod Settled
