-- ===== src/Reactive/Expr.antt =====
-- `AxExpr` of crates/axonyx-core/src/ax_ast.rs. A name or a text is the list of its UTF-8 bytes, a
-- float its bit pattern, and a `BTreeMap` the list of its entries in the order of the keys.
use axonyx_runtime.Prelude.{ℕ, Bool, List}
use axonyx_runtime.Prelude.Int.{ℤ}

pub data UnaryOp : Type 0 where
  not_op neg : UnaryOp

pub data BinaryOp : Type 0 where
  add sub mul div rem eq ne gt ge lt le is_in and_also or_else fallback : BinaryOp

mutual
  pub data Expr : Type 0 where
    string : List ℕ → Expr
    number : ℤ → Expr
    float : ℕ → Expr
    bool : Bool → Expr
    list : Exprs → Expr
    object : ExprFields → Expr
    identifier : List ℕ → Expr
    unary : UnaryOp → Expr → Expr
    binary : BinaryOp → Expr → Expr → Expr
    index : Expr → Expr → Expr
    member : Expr → List ℕ → Expr
    optional_member : Expr → List ℕ → Expr
    call : List (List ℕ) → Exprs → Expr

  pub data Exprs : Type 0 where
    nil : Exprs
    cons : Expr → Exprs → Exprs

  pub data ExprFields : Type 0 where
    end : ExprFields
    field : List ℕ → Expr → ExprFields → ExprFields
