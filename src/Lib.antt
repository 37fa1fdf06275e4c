-- ===== src/Lib.antt =====
-- Verification of the wire formats and state machines of apple-protocols, a TypeScript library that
-- talks to Apple TVs and HomePods.
--
-- The program is a set of packages. packages/encoding has the wire formats; packages/common has
-- what the protocols share, among it connection recovery and the clocks that audio is timed by;
-- packages/raop sends audio in RTP packets, over the NTP packets and timestamps of
-- packages/encoding; packages/companion-link frames OPack messages on an encrypted stream;
-- packages/rtsp exchanges the requests and responses that set a stream up;
-- packages/airplay pairs by TLV8 messages and runs the PTP grandmaster of packages/common.
--
-- Prelude: what all modules share. Prelude/Buffers is Buffer as a list of bytes, whose reads and
--   writes give `none` where the program throws a RangeError; Prelude/Ints has the signed ones,
--   Prelude/JsMap the language's Map as a list of entries in insertion order.
-- Encoding/Tlv8: packages/encoding/src/tlv8.ts (encode, decode, bail). An uninitialised buffer has
--   arbitrary contents, the parameter `junk`.
-- Encoding/Ntp: packages/encoding/src/ntp.ts (now, parts, encode, decode).
-- Encoding/Opack: packages/encoding/src/opack.ts. `pack` is _pack with its object list as state,
--   Encoding/Opack/Unpack is _unpackAt; an offset may be negative there.
-- Common/Recovery: ConnectionRecovery of packages/common/src/recovery.ts. A run is a list of method
--   calls, timers and ends of reconnections, in any order; `generation` is the program's.
-- Common/Ptp: packages/common/src/timing/ptp: the timestamp, header, TLVs and messages, and in
--   Common/Ptp/Master the class PtpMaster, whose runs are lists of packets, timers and callbacks.
-- Common/Timing: TimingServer of packages/common/src/timing/ntp.ts, its reply to a request.
-- CompanionLink/Stream: the framing of packages/companion-link/src/stream.ts.
-- CompanionLink/Exchanges: its requests that wait for a response, with their queue and timers, and
--   #handle, which dispatches a decoded message; CompanionLink/Calls has runs of these, and
--   CompanionLink/Settled runs in which the encoder does not throw.
-- Rtsp: packages/rtsp/src. Rtsp/Parse and Rtsp/Response are parseRequest and parseResponse of
--   encoding.ts, Rtsp/Build is buildResponse and the request of `exchange`; Rtsp/Client is
--   RtspClient of client.ts, whose state has the requests in flight, their timers, both buffers and
--   what promises were settled. Rtsp/Client/Ledger is the abstract machine that it implements.
-- Airplay/Encryption: packages/airplay/src/encryption.ts; Airplay/Control: how the control stream
--   of packages/airplay/src/controlStream.ts puts it under the RTSP client.
-- Raop/Fifo, Raop/Headers: packages/raop/src/packets.ts (PacketFifo and the packet headers);
--   Raop/Resend and Raop/Sync are the ControlClient of packages/raop/src/controlClient.ts, which
--   answers retransmission requests from the backlog and sends sync packets. Raop/Sender is the
--   packets and the loop of StreamClient in packages/raop/src/streamClient.ts.
-- Tests: runs at concrete inputs, and the theorems applied at such inputs.
--
-- Loops. TLV8 decoding takes as much fuel as the buffer is long, each round reading at least two
-- bytes; fragments of a value take one round more than the value has bytes. OPack decoding takes
-- fuel for the depth and the length of a value, since it has inputs on which it does not end. The
-- loop over RTSP responses takes as much fuel as the buffer is long, each response taking four
-- bytes, and that over encrypted frames as much as the data is long. Streaming takes a pass for
-- each read of the source and each frame of silence, and one.
--
-- Not modelled: the cryptography and the sockets, which are calls of the platform; generated
-- protocol buffers; user interfaces and tools. OPack strings are given by their UTF-8 bytes, and
-- Encoding/Opack/Utf8 is the platform's decoder of these; a double is given by its eight bytes. An
-- entry of an object is assigned like any other where its key is an array index, which the language
-- puts in front, or `__proto__`, which sets the prototype; the theorem on objects excludes both. Times are whole milliseconds. The
-- heads of RTSP messages are ASCII, and their names no array indices; property lists come from a
-- library, and what a subclass makes of the bytes is a parameter of the RTSP client.
pub mod Prelude
pub mod Encoding
pub mod Common
pub mod Rtsp
pub mod Raop
pub mod CompanionLink
pub mod Airplay
pub mod Tests
