-- ===== src/Encoding.antt =====
-- packages/encoding/src: the wire formats.
pub mod Tlv8
pub mod Ntp
pub mod Opack
