-- ===== src/Action.antt =====
-- stabilitypool-common/src/action.rs: the actions of seekers and providers.
pub mod Types
pub mod Staged
pub mod Proposed
pub mod Process
pub mod Encoding
