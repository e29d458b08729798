-- ===== src/H248.antt =====
-- Package internal/h248: the text protocol and its UDP server.
pub mod ReplyCache
pub mod Syntax
pub mod Interop
pub mod Message
pub mod Parse
pub mod ServiceChange
pub mod Server
