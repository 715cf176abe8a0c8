-- ===== src/Identity.antt =====
-- Identity and trust, crates/common/icn-identity: the organisational scope of a DID, proofs that a
-- quorum has signed, and the trust bundles that rest on them.
pub mod Scope
mod Tests
pub mod Quorum
pub mod Signers
pub mod Weights
pub mod Verify
pub mod Addition
pub mod Trust
mod TrustTests
