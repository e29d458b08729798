-- ===== src/Tests.antt =====
-- Theorems at concrete data.
mod Ends
mod Printed
mod Data
mod Digest
mod Messages
mod Registration
mod Runs
mod Caches
mod Settings
mod Signals
