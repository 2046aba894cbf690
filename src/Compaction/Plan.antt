-- ===== src/Compaction/Plan.antt =====
-- The choice of how many optional rows a retrospective holds: the binary search of
-- `_build_bounded_plan` in services/compaction.py, over the construction of a plan.
pub mod Search
pub mod Build
pub mod Laws
