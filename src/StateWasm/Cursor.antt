-- ===== src/StateWasm/Cursor.antt =====
-- The cursor over a byte slice: `take`, `read_u32` and `push_u32` of
-- crates/axonyx-state-wasm/src/lib.rs. A `&mut usize` is passed in and returned.
pub mod Laws
use axonyx_runtime.Prelude.{
  ℕ, ◌+◌, ◌^◌, Option, none, some, List, ◌++◌, ltb, leb, guard, ◌>>=◌, ◌>>◌, length, take, drop,
  if◌then◌else◌,
}
use axonyx_runtime.Prelude.Bytes.{to_le_bytes, from_le_bytes}

-- `usize` has 32 bits on wasm32.
abbrev pub usize_size : ℕ
usize_size = 2 ^ 32

abbrev pub checked_add : ℕ → ℕ → Option ℕ
checked_add a b = if ltb (a + b) usize_size then some (a + b) else none

-- `take`: the next `length` bytes and the cursor behind them.
unfoldable pub take_bytes : List ℕ → ℕ → ℕ → Option (List ℕ × ℕ)
take_bytes bytes cursor count = do
  last ← checked_add cursor count
  guard (leb last (length bytes))
  some (take count (drop cursor bytes), last)

unfoldable pub read_u32 : List ℕ → ℕ → Option (ℕ × ℕ)
read_u32 bytes cursor = do
  (raw, cursor') ← take_bytes bytes cursor 4
  some (from_le_bytes raw, cursor')

unfoldable pub push_u32 : List ℕ → ℕ → Option (List ℕ)
push_u32 output value = do guard (ltb value (2 ^ 32)); some (output ++ to_le_bytes 4 value)
