-- ===== src/Bridge.antt =====
-- internal/bridge: the calls, and what the gateway does on a message from the MGC or the PBX.
pub mod State
pub mod Ports
pub mod Uri
pub mod Line
pub mod Response
pub mod Teardown
pub mod Retained
pub mod Invite
pub mod Origination
pub mod Admission
pub mod FromPbx
pub mod Answer
pub mod Carrier
pub mod FailedAdd
pub mod FromMgc
pub mod Run
pub mod Report
pub mod Invariant
pub mod Dialog
