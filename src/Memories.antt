-- ===== src/Memories.antt =====
-- storage/memories.py: the repository of behavior memories, one child for each of its operations.
pub mod Prepare
pub mod Compact
pub mod Insert
pub mod Sources
pub mod Namespaces
pub mod Rows
pub mod Lifecycle
pub mod Search
