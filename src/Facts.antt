-- ===== src/Facts.antt =====
-- `FactRepository` of storage/facts.py: observations of a project, of which a newer one makes those
-- of another content stale, and their search. `_utc_iso` writes all digits of an instant, so that
-- the order of the columns' texts is that of the instants.
pub mod Observe
pub mod Search
pub mod Rows
