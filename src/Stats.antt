-- ===== src/Stats.antt =====
-- app/bookmarks/stats: current statistics, their invalidation and their refresh.
pub mod Schemas
pub mod Snapshots
pub mod Publisher
pub mod Dirty
pub mod Current
pub mod Projection
pub mod Queries
pub mod Calculation
pub mod Processor
pub mod Baseline
pub mod Cycle
mod Examples
pub mod Refresher
