-- ===== src/Memory.antt =====
-- src/phantom_runtime.py: the subject registry and the merging of its subjects.
pub mod Records
pub mod Names
pub mod Registry
pub mod Merge
pub mod Approval
pub mod Decisions
pub mod Questions
pub mod Links
pub mod Context
pub mod Lifecycle
pub mod Migration
pub mod Answers
pub mod Graph
pub mod Expansion
pub mod History
