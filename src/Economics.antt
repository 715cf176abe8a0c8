-- ===== src/Economics.antt =====
-- The token economy of crates/common/icn-economics (economics.rs, policy.rs) over the resource
-- types of crates/common/icn-types (resource.rs). The ledger counts usage: an account with usage
-- u has 100 - u tokens to spend. A DID and an organisation id are the texts that their newtypes
-- hold, which is what `to_string` gives. `debug!` lines are left out, and a call under the write
-- lock is a function from the map to the map and the returned code.
pub mod Key
pub mod Policy
pub mod Ledger
pub mod Transfer
pub mod Bounds
pub mod Reversal
pub mod Totals
mod Tests
