-- ===== src/Common/Ptp.antt =====
-- packages/common/src/timing/ptp: the grandmaster that AirPlay 2 receivers synchronise to.
pub mod Timestamp
pub mod Header
pub mod Tlv
pub mod Messages
pub mod Master
