-- ===== src/StateWasm/Value.antt =====
-- `ExprValue` of crates/axonyx-state-wasm/src/lib.rs.
use axonyx_runtime.Prelude.{ℕ, Bool, List}
use axonyx_runtime.Prelude.Int.{ℤ}

-- An `f64` is its bit pattern; a `String` is the list of its UTF-8 bytes.
mutual
  pub data ExprValue : Type 0 where
    null : ExprValue
    string : List ℕ → ExprValue
    bool : Bool → ExprValue
    float : ℕ → ExprValue
    int : ℤ → ExprValue
    bytes : List ℕ → ExprValue
    list : Values → ExprValue
    object : Fields → ExprValue

  -- `Vec<ExprValue>`
  pub data Values : Type 0 where
    nil : Values
    cons : ExprValue → Values → Values

  -- `Vec<(String, ExprValue)>`
  pub data Fields : Type 0 where
    end : Fields
    field : List ℕ → ExprValue → Fields → Fields
