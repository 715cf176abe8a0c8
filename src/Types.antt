-- ===== src/Types.antt =====
-- Shared types of the network, crates/common/icn-types.
pub mod QuorumConfig
pub mod Validation
pub mod Dag
pub mod DagLaws
pub mod JobStatus
pub mod Reputation
pub mod Standing
mod Tests
