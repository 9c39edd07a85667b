-- ===== src/Session.antt =====
-- Sessions and the proofs that clients hold of them: crates/axonyx-runtime/src/session.rs, its child
-- csrf.rs, and `AxAuth` of crates/axonyx-runtime/src/server.rs.
pub mod Hex
pub mod Tokens
pub mod Time
pub mod Cookie
pub mod Store
pub mod Memory
pub mod Manager
mod Tests
