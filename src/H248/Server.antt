-- ===== src/H248/Server.antt =====
-- internal/h248/server.go: the server's state and `handle`, the registration, and their runs.
pub mod Listener
pub mod Registration
pub mod Loop
pub mod Runs
pub mod Invariant
pub mod Steps
pub mod Filter
pub mod Phase
pub mod Progress
pub mod Silence
