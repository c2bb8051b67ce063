-- ===== src/Verification.antt =====
-- src/verification: the Verification Runtime.
pub mod Data
pub mod Checks
pub mod Handle
pub mod Ordering
pub mod Awareness
pub mod Sessions
pub mod Conformance
