-- ===== src/Resources.antt =====
-- Resource authorization of crates/common/icn-economics/src/lib.rs: scoped tokens, the policies, the
-- repository of recorded usage (a trait, with its in-memory implementation) and the enforcer that
-- decides by them. A reading of the system clock is an argument, `Result` of the seconds since the
-- epoch or the error text of `duration_since`.
pub mod Types
pub mod Repository
pub mod InMemory
pub mod Enforcer
pub mod Quota
pub mod Serving
mod Tests
