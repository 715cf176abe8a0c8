-- ===== src/Agoranet/Forum.antt =====
-- The threads, proposals and votes of the community service, and the receipts, balances and
-- transactions that it shows: icn-agoranet/src/handlers.rs and its types of models.rs.
pub mod Types
pub mod Voting
pub mod Tally
pub mod Counting
pub mod Elections
pub mod Listing
pub mod Authorized
pub mod Scoped
pub mod Stats
pub mod Statistics
pub mod TokenSums
mod Tests
