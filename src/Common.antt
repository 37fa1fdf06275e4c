-- ===== src/Common.antt =====
-- packages/common/src: what the protocol packages share.
pub mod Recovery
pub mod Ptp
pub mod Timing
