-- ===== src/Sip/Digest.antt =====
-- internal/sip/digest.go: the challenge of a server, and the authorization for it.
pub mod Unquote
pub mod Challenge
pub mod Authorization
pub mod Quoting
pub mod Splitting
pub mod Parameters
