-- ===== src/Lib.antt =====
-- The gateway between an H.248 (Megaco) line of a carrier and a SIP IP-PBX.
--
-- The program has these parts. internal/config reads and checks the settings. internal/h248 and
-- internal/sip read and print the messages of the two protocols, and each has a UDP server that
-- answers retransmissions from a cache. internal/bridge keeps the calls: it takes the messages of
-- both servers, sends requests and reports in return, and owns one media relay for each call.
--
-- The files and the code they model:
--   Config and its children: internal/config/config.go. Config.default_config is `Default`,
--     Config/Load has the lines of a file (`Load`, `apply`), Config/Validate has `Validate`.
--   H248/Message, H248/Syntax, H248/Parse, H248/ServiceChange: internal/h248/message.go.
--     H248/Interop: internal/h248/interop.go. H248/ReplyCache: the cache of
--     internal/h248/server.go. H248/Server/Listener: its `handle` and the fields of the server.
--     H248/Server/Registration and H248/Server/Loop: its registration, as the transitions from one
--     `select` to the next. H248/Server/Runs: datagrams and registration in any order. The other
--     children hold the proofs about these runs; H248/Server/Phase has the contract.
--   Sip/Message, Sip/Sdp: internal/sip/message.go, internal/sip/sdp.go. The children of Sip/Message
--     hold the proofs about messages that are printed and read back. Sip/ResponseCache and
--     Sip/Server: internal/sip/server.go. Sip/Digest and its children: internal/sip/digest.go.
--   Media/Packet, Media/Alaw, Media/Tone, Media/Relay: internal/bridge/media.go.
--   Bridge/State, Bridge/Ports, Bridge/Line, Bridge/Run: internal/bridge/bridge.go with the line
--     events of internal/bridge/h248.go. Bridge/Uri, Bridge/Response, Bridge/Teardown,
--     Bridge/Retained, Bridge/Invite, Bridge/Admission, Bridge/FromPbx, Bridge/Answer:
--     internal/bridge/sip.go. Bridge/Origination, Bridge/Carrier and Bridge/FromMgc with its
--     children: internal/bridge/h248.go.
--   Bridge/State/Keeps, Bridge/Report and Bridge/Invariant with its children hold the proofs about
--     whole runs: Bridge/Invariant says by which writes an invariant has to be kept, its children go
--     through all handlers once for any such invariant, and three invariants are given.
--     Bridge/Dialog is about the requests of one call, Bridge/FailedAdd about an Add that fails.
--   Net: addresses, and the resolver of names as a parameter. Prelude: shared types and lemmas.
--   Tests: the theorems at concrete data.
--
-- State and operations. A function of the code has the name that it has there, in lower case with
-- underscores: `handleSIPBye` is handle_sip_bye. A `*Call` is a reference into a store of calls, so
-- that the maps and the timers share one call. A handler is a function from a state to a result and a
-- state, written as do blocks over the parts between locking and unlocking. A write to a socket is
-- recorded with its success, which an environment decides from all that has been written before.
-- `time.AfterFunc` and goroutines leave timed tasks; a step of a run is a message, a timer that is
-- due, a packet of a relay, or the passing of time.
--
-- Bounds and fuel. Parsers that go through a text in rounds take the text's length as fuel, which is
-- enough, since each round shortens the text. Transaction counters wrap at 2 ^ 64 and context
-- numbers at 2 ^ 31, as in the code; a Go int is an integer without a bound.
--
-- Not modelled: sockets, logs and the end of the program; handlers that run at the same time; the
-- probes, which are no part of the gateway; the hash functions of digest authentication, which are
-- parameters; the length of the interval at which the H.248 server looks for a failure. Texts are
-- lists of bytes, and case and white space are those of ASCII. A map is a list with one entry for a
-- key, whose order stands for the order of a loop over it. Sines are a parameter, times are
-- nanoseconds.
pub mod Prelude
pub mod H248
pub mod Sip
pub mod Net
pub mod Config
pub mod Media
pub mod Bridge
pub mod Tests
