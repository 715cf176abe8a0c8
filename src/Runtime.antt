-- ===== src/Runtime.antt =====
-- The runtime that executes jobs, crates/runtime/icn-runtime.
pub mod Sections
pub mod HostCalls
pub mod Metering
mod Tests
mod HostTests
