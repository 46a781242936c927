-- ===== src/Epoch.antt =====
-- stabilitypool-common/src/epoch.rs: the consensus on the end of an epoch, and the settlement.
pub mod Types
pub mod State
pub mod Settle
pub mod Process
pub mod Propose
