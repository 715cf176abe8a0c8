-- ===== src/Agoranet.antt =====
-- The community service, crates/services/icn-agoranet: the ledger of entity balances of
-- src/transfers.rs with its types of src/models.rs, and the tokens of src/auth.rs.
pub mod Types
pub mod Ledger
pub mod Balances
pub mod Batch
pub mod Query
pub mod Sorting
pub mod Answers
pub mod Minting
pub mod Stats
pub mod Auth
pub mod Forum
mod Tests
