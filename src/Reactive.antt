-- ===== src/Reactive.antt =====
-- Reactive expressions: crates/axonyx-core/src/ax_parser_auto.rs (`compile_reactive_expression`) with
-- the syntax of crates/axonyx-core/src/ax_ast.rs.
pub mod Expr
pub mod Compiler
pub mod Meaning
mod Running
mod Collections
mod Dependencies
mod Literals
mod Operations
pub mod Correct
pub mod References
pub mod Inline
pub mod Plan
mod Tests
