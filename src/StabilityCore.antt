-- ===== src/StabilityCore.antt =====
-- stabilitypool-common/src/stability_core.rs: the algorithms of the pool, as pure functions. A
-- panic of the source is a result; arithmetic wraps as in a release build.
pub mod Ratio
pub mod Feerate
pub mod Pnl
pub mod Payouts
pub mod Protection
pub mod Desired
pub mod Matching
pub mod Tests
mod Examples
pub mod DesiredExamples
