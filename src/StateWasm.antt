-- ===== src/StateWasm.antt =====
-- crates/axonyx-state-wasm/src/lib.rs.
pub mod Value
pub mod Cursor
pub mod Frame
pub mod Operators
pub mod Machine
pub mod Each
pub mod Abi
mod Tests
