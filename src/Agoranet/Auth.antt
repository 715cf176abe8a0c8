-- ===== src/Agoranet/Auth.antt =====
-- The tokens of the community service, icn-agoranet/src/auth.rs, auth/revocation.rs and
-- auth_handlers.rs: what a token grants, its issuance, its revocation and its check.
pub mod Types
pub mod Access
pub mod Permission
pub mod Revocation
pub mod Indices
pub mod Clearing
pub mod Histories
pub mod Forgetting
pub mod Requests
pub mod Issuance
pub mod Handlers
pub mod Laws
pub mod Refusals
pub mod Grants
pub mod Rotation
mod Tests
