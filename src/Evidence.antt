-- ===== src/Evidence.antt =====
-- The evidence of the control plane, packages/control-plane/src/sayfirst_control_plane/domain:
-- the chain of entries and its verification.
pub mod Framing
pub mod Value
pub mod Body
pub mod Kinds
pub mod Records
pub mod Chain
pub mod Verify
pub mod Appending
pub mod Tampering
pub mod Writing
pub mod Verdicts
pub mod Grading
pub mod Documents
pub mod Reading
