-- ===== src/Common/Order.antt =====
-- Strict orders given by a Boolean test, as the keys of `sorted`, `min`, `max` and SQL's `order by`.
mod Defs
mod Keys
pub mod Sort
pub use Defs.*
pub use Keys.*
