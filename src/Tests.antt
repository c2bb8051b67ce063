-- ===== src/Tests.antt =====
-- Runs of the models on concrete inputs, and the theorems at those inputs.
pub mod Events
pub mod Sound
pub mod Talk
pub mod Merging
pub mod Keeping
pub mod Transport
pub mod Capture
pub mod Filing
pub mod Answering
pub mod Graphs
