-- ===== src/Tests.antt =====
-- Runs of the definitions at concrete inputs, and the theorems applied at such inputs.
mod Encoding
mod Opack
mod CompanionLink
mod Exchanges
mod Raop
mod Rtsp
mod RtspClient
mod Common
mod Ptp
mod Airplay
