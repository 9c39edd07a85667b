-- ===== src/Session/Time.antt =====
-- Unix times of crates/axonyx-runtime/src/session.rs: an `i64` is the number 2^63 above it, which keeps
-- the order.
use Prim.Native.Nat.{min}
use axonyx_runtime.Prelude.{ℕ, ◌+◌, ◌-◌, ◌^◌, ltb, if◌then◌else◌}

-- The `i64` 0.
abbrev pub zero_time : ℕ
zero_time = 2 ^ 63

abbrev pub max_time : ℕ
max_time = 2 ^ 64 - 1

abbrev pub saturating_add : ℕ → ℕ → ℕ
saturating_add a b = if ltb (a + b) zero_time then 0 else min (a + b - zero_time) max_time

abbrev pub saturating_sub : ℕ → ℕ → ℕ
saturating_sub a b = min (a + zero_time - b) max_time
