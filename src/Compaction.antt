-- ===== src/Compaction.antt =====
-- services/compaction.py: the retrospectives of inactive projects.
pub mod Counts
pub mod Entry
pub mod Plan
pub mod Inactive
pub mod Service
