-- ===== src/Samples.antt =====
-- Small inputs, and the theorems at them.
pub mod Data
pub mod Memories
pub mod Compaction
pub mod Checkpoints
pub mod Nesting
pub mod Recall
pub mod Facts
pub mod Promotions
pub mod Resolutions
