-- ===== src/Indexer.antt =====
-- quest-indexer/: the forward indexer, the backfill and the settler.
pub mod Sources
pub mod Range
pub mod Run
pub mod Backfill
pub mod Scheduler
pub mod Walk
pub mod SweepDown
pub mod SettlerPlan
pub mod Settler
pub mod BlockDay
mod Examples
