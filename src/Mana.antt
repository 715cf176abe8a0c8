-- ===== src/Mana.antt =====
-- Mana, crates/common/icn-economics/src/mana.rs: pools that regenerate over time, the manager of the
-- pools of all scopes, and the ledger of mana states with its regenerator. Each reading of the clock
-- is an argument. The metrics hook is the list of the balances reported to it, newest first.
pub mod Pool
pub mod Level
pub mod Manager
pub mod Safety
pub mod Transfer
pub mod State
pub mod Regenerator
pub mod Tick
pub mod Adapter
mod Tests
