-- ===== src/Airplay.antt =====
-- packages/airplay/src: how the streams of AirPlay are encrypted.
pub mod Encryption
pub mod Sealed
pub mod Control
