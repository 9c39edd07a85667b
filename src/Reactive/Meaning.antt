-- ===== src/Reactive/Meaning.antt =====
-- What a reactive expression means, without a machine: its value in an environment of states, and
-- what the theorems ask of it.
use Prim.Native.Nat.{max}
use axonyx_runtime.Prelude.{
  ℕ, ◌+◌, ◌<◌, ◌^◌, ◌≡◌, true, false, not, Option, none, some, List, [], ◌∷◌, if◌then◌else◌, ◌>>=◌,
}
use axonyx_runtime.Prelude.Bytes.{bytes_eq, contains, is_utf8}
use axonyx_runtime.Prelude.Int.{in_i64}
use axonyx_runtime.StateWasm.Value.{ExprValue, Values, Fields}
use axonyx_runtime.StateWasm.Frame.{is_finite}
use axonyx_runtime.StateWasm.Operators.{Floats, Binary, evaluate_binary_opcode, expr_truthy}
use axonyx_runtime.StateWasm.Machine.{negate, get_member}
use axonyx_runtime.Reactive.Expr.{
  not_op, neg, BinaryOp, add, sub, mul, div, rem, eq, ne, gt, ge, lt, le, is_in, and_also, or_else,
  fallback, Expr, string, number, float, bool, list, object, identifier, unary, binary, index,
  member, optional_member, call, Exprs, nil, cons, ExprFields, end, field,
}
use axonyx_runtime.Reactive.Compiler.{null_name}

abbrev pub operator : BinaryOp → Binary
operator add = Binary.add
operator sub = Binary.sub
operator mul = Binary.mul
operator div = Binary.div
operator rem = Binary.rem
operator eq = Binary.eq
operator ne = Binary.ne
operator gt = Binary.gt
operator ge = Binary.ge
operator lt = Binary.lt
operator le = Binary.le
operator is_in = Binary.is_in
operator and_also = Binary.and_also
operator or_else = Binary.or_else
operator fallback = Binary.fallback

module _ (floats : Floats) (state : List ℕ → Option ExprValue) where
  unfoldable mutual
    pub evaluate : Expr → Option ExprValue
    evaluate (string value) = some (ExprValue.string value)
    evaluate (number value) = some (ExprValue.int value)
    evaluate (float value) = some (ExprValue.float value)
    evaluate (bool value) = some (ExprValue.bool value)
    evaluate (identifier name) = if bytes_eq name null_name then some ExprValue.null else state name
    evaluate (unary not_op e) = do v ← evaluate e; some (ExprValue.bool (not (expr_truthy v)))
    evaluate (unary neg e) = do v ← evaluate e; negate v
    evaluate (binary op l r) = do
      left ← evaluate l
      right ← evaluate r
      evaluate_binary_opcode floats (operator op) left right
    evaluate (index o i) = do
      left ← evaluate o
      right ← evaluate i
      evaluate_binary_opcode floats Binary.index left right
    evaluate (member o property) = do v ← evaluate o; get_member false property v
    evaluate (optional_member o property) = do v ← evaluate o; get_member true property v
    evaluate (call path args) = none
    evaluate (list items) = do values ← evaluate_items items; some (ExprValue.list values)
    evaluate (object fields) = do values ← evaluate_fields fields; some (ExprValue.object values)

    pub evaluate_items : Exprs → Option Values
    evaluate_items nil = some Values.nil
    evaluate_items (cons e es) = do v ← evaluate e; vs ← evaluate_items es; some (Values.cons v vs)

    pub evaluate_fields : ExprFields → Option Fields
    evaluate_fields end = some Fields.end
    evaluate_fields (field k e fs) = do
      v ← evaluate e
      vs ← evaluate_fields fs
      some (Fields.field k v vs)

-- What Rust's types promise of an expression; `keys` are the keys to the left of the entries.
abbrev mutual
  pub IsExpr : Expr → Type 0
  IsExpr (string value) = is_utf8 value ≡ true
  IsExpr (number value) = in_i64 value ≡ true
  IsExpr (float value) = (value < 2 ^ 64) × (is_finite value ≡ true)
  IsExpr (bool value) = Unit
  IsExpr (identifier name) = Unit
  IsExpr (unary op e) = IsExpr e
  IsExpr (binary op l r) = IsExpr l × IsExpr r
  IsExpr (index o i) = IsExpr o × IsExpr i
  IsExpr (member o property) = IsExpr o × (is_utf8 property ≡ true)
  IsExpr (optional_member o property) = IsExpr o × (is_utf8 property ≡ true)
  IsExpr (call path args) = Unit
  IsExpr (list items) = AreExprs items
  IsExpr (object fields) = AreEntries [] fields

  pub AreExprs : Exprs → Type 0
  AreExprs nil = Unit
  AreExprs (cons e es) = IsExpr e × AreExprs es

  pub AreEntries : List (List ℕ) → ExprFields → Type 0
  AreEntries keys end = Unit
  AreEntries keys (field k e fs) =
      (is_utf8 k ≡ true) × (contains keys k ≡ false) × IsExpr e × AreEntries (k ∷ keys) fs

-- The most values that the machine holds at once for the expression.
abbrev mutual
  pub height : Expr → ℕ
  height (unary op e) = height e
  height (binary op l r) = max (height l) (1 + height r)
  height (index o i) = max (height o) (1 + height i)
  height (member o property) = height o
  height (optional_member o property) = height o
  height (list items) = max 1 (height_items items)
  height (object fields) = max 1 (height_entries fields)
  height _ = 1

  pub height_items : Exprs → ℕ
  height_items nil = 0
  height_items (cons e es) = max (height e) (1 + height_items es)

  pub height_entries : ExprFields → ℕ
  height_entries end = 0
  height_entries (field k e fs) = max (height e) (1 + height_entries fs)
