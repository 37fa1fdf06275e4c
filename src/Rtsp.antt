-- ===== src/Rtsp.antt =====
-- packages/rtsp/src: RTSP and HTTP messages, and the client that sends requests and waits for the
-- responses.
pub mod Parsed
pub mod Text
pub mod Decimal
pub mod Headers
pub mod Parse
pub mod Response
pub mod Build
pub mod Lines
pub mod Plain
pub mod ReadBack
pub mod StartLine
pub mod RoundTrip
pub mod Requests
pub mod Responses
pub mod Stable
pub mod Client
