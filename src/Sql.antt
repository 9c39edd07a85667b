-- ===== src/Sql.antt =====
-- Query plans and their compilation to parameterised SQL: crates/axonyx-core/src/ax_sql.rs over the
-- plan types of crates/axonyx-core/src/ax_backend_lowering.rs. A `String` is the list of its `char`s.
pub mod Plan
pub mod Lists
pub mod Clauses
pub mod Compile
mod Trimming
mod Splitting
mod Counting
mod Marks
mod Params
mod Bare
mod Placeholders
mod Independence
mod Values
mod Mutations
mod Tests
