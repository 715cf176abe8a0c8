-- ===== src/Ccl.antt =====
-- The code generator of the contract language, crates/ccl: the DSL of icn-ccl-dsl, and
-- icn-ccl-wasm-codegen, which lowers it to opcodes and those to a WebAssembly module.
pub mod Dsl
pub mod Opcodes
pub mod Generate
pub mod Brackets
pub mod Emit
pub mod Memory
pub mod Calls
pub mod Arguments
pub mod Compile
pub mod Typing
mod Tests
