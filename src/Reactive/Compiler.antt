-- ===== src/Reactive/Compiler.antt =====
-- `compile_reactive_expression_node` and its helpers, of
-- crates/axonyx-core/src/ax_parser_auto.rs. A `&mut Vec` is passed in and returned. The error texts are
-- the constructors of `CompileError`.
use axonyx_runtime.Prelude.{
  ℕ, suc, ◌^◌, Option, none, some, List, [], ◌∷◌, ◌++◌, ltb, leb, if◌then◌else◌, length,
}
use axonyx_runtime.Prelude.Bytes.{to_le_bytes, bytes_eq, contains, ascii}
use axonyx_runtime.Prelude.Int.{to_word}
use axonyx_runtime.Reactive.Expr.{
  UnaryOp, not_op, neg, BinaryOp, add, sub, mul, div, rem, eq, ne, gt, ge, lt, le, is_in, and_also,
  or_else, fallback, Expr, string, number, float, bool, list, object, identifier, unary, binary,
  index, member, optional_member, call, Exprs, nil, cons, ExprFields, end, field,
}

pub data CompileError : Type 0 where
  not_reactive_state : List ℕ → CompileError
  too_many_dependencies string_too_large list_too_long object_too_long : CompileError
  not_inlined : List (List ℕ) → CompileError

pub data Result {ℓ} (A : Type ℓ) : Type ℓ where
  ok : A → Result A
  err : CompileError → Result A

infixl 5 ◌>>=◌
abbrev pub ◌>>=◌ {ℓ κ} : {A : Type ℓ} {B : Type κ} → Result A → (A → Result B) → Result B
ok a >>= f = f a
err e >>= f = err e

abbrev pub collection_max_items : ℕ
collection_max_items = 1024

abbrev pub null_name : List ℕ
null_name = ascii "null"

-- The constants `AX_EXPR_ADD` to `AX_EXPR_FALLBACK`, `AX_EXPR_NOT` and `AX_EXPR_NEG`.
abbrev pub binary_opcode : BinaryOp → ℕ
binary_opcode add = 20
binary_opcode sub = 21
binary_opcode mul = 22
binary_opcode div = 23
binary_opcode rem = 24
binary_opcode eq = 25
binary_opcode ne = 26
binary_opcode gt = 27
binary_opcode ge = 28
binary_opcode lt = 29
binary_opcode le = 30
binary_opcode is_in = 31
binary_opcode and_also = 32
binary_opcode or_else = 33
binary_opcode fallback = 34

abbrev pub unary_opcode : UnaryOp → ℕ
unary_opcode not_op = 10
unary_opcode neg = 11

unfoldable pub push_program_string : List ℕ → List ℕ → Result (List ℕ)
push_program_string program value =
    if ltb (length value) (2 ^ 32)
    then ok (program ++ (to_le_bytes 4 (length value) ++ value))
    else err string_too_large

-- The count as a `u16`, which the limit makes sure of.
unfoldable pub reactive_collection_count : ℕ → CompileError → Result ℕ
reactive_collection_count count error =
    if leb count collection_max_items then ok count else err error

-- `dependencies.iter().position(…)`
unfoldable pub position : List ℕ → List (List ℕ) → Option ℕ
position name [] = none
position name (d ∷ ds) =
    if bytes_eq d name
    then some 0
    else elim (position name ds) [ none ↦ none | some i ↦ some (suc i) ]

-- The slot of a state, which is added behind the others where it is new.
unfoldable pub intern : List ℕ → List (List ℕ) → ℕ × List (List ℕ)
unfolding position
intern name dependencies = elim (position name dependencies) [
  | some i ↦ (i, dependencies)
  | none ↦ (length dependencies, dependencies ++ name ∷ [])
]

unfoldable pub push_dependency : List ℕ → List (List ℕ) → List ℕ → Result (List (List ℕ) × List ℕ)
push_dependency name dependencies program =
    let (slot, dependencies') = intern name dependencies in
    if ltb slot (2 ^ 16)
    then ok (dependencies', program ++ 0 ∷ to_le_bytes 2 slot)
    else err too_many_dependencies

abbrev pub length_exprs : Exprs → ℕ
length_exprs nil = 0
length_exprs (cons e es) = suc (length_exprs es)

abbrev pub length_entries : ExprFields → ℕ
length_entries end = 0
length_entries (field k e fs) = suc (length_entries fs)

-- The loop over `fields.keys()`.
unfoldable pub push_keys : ExprFields → List ℕ → Result (List ℕ)
push_keys end program = ok program
push_keys (field k e fs) program = do named ← push_program_string program k; push_keys fs named

module _ (states : List (List ℕ)) where
  abbrev pub compile_identifier : List ℕ → List (List ℕ) → List ℕ → Result (List (List ℕ) × List ℕ)
  compile_identifier name dependencies program =
      if bytes_eq name null_name
      then ok (dependencies, program ++ 1 ∷ [])
      else if contains states name
      then push_dependency name dependencies program
      else err (not_reactive_state name)

  unfoldable mutual
    pub compile_node : Expr → List (List ℕ) → List ℕ → Result (List (List ℕ) × List ℕ)
    compile_node (string value) dependencies program = do
      pushed ← push_program_string (program ++ 2 ∷ []) value
      ok (dependencies, pushed)
    compile_node (number value) dependencies program =
        ok (dependencies, program ++ 5 ∷ to_le_bytes 8 (to_word value))
    compile_node (float value) dependencies program =
        ok (dependencies, program ++ 4 ∷ to_le_bytes 8 value)
    compile_node (bool value) dependencies program =
        ok (dependencies, program ++ 3 ∷ (if value then 1 else 0) ∷ [])
    compile_node (identifier name) dependencies program =
        compile_identifier name dependencies program
    compile_node (unary op e) dependencies program = do
      (dependencies', code) ← compile_node e dependencies program
      ok (dependencies', code ++ unary_opcode op ∷ [])
    compile_node (binary op l r) dependencies program = do
      (dependencies₁, code₁) ← compile_node l dependencies program
      (dependencies₂, code₂) ← compile_node r dependencies₁ code₁
      ok (dependencies₂, code₂ ++ binary_opcode op ∷ [])
    compile_node (index o i) dependencies program = do
      (dependencies₁, code₁) ← compile_node o dependencies program
      (dependencies₂, code₂) ← compile_node i dependencies₁ code₁
      ok (dependencies₂, code₂ ++ 40 ∷ [])
    compile_node (member o property) dependencies program = do
      (dependencies', code) ← compile_node o dependencies program
      pushed ← push_program_string (code ++ 41 ∷ []) property
      ok (dependencies', pushed)
    compile_node (optional_member o property) dependencies program = do
      (dependencies', code) ← compile_node o dependencies program
      pushed ← push_program_string (code ++ 42 ∷ []) property
      ok (dependencies', pushed)
    compile_node (call path args) dependencies program = err (not_inlined path)
    compile_node (list items) dependencies program = do
      count ← reactive_collection_count (length_exprs items) list_too_long
      (dependencies', code) ← compile_items items dependencies program
      ok (dependencies', code ++ 50 ∷ to_le_bytes 2 count)
    compile_node (object fields) dependencies program = do
      count ← reactive_collection_count (length_entries fields) object_too_long
      (dependencies', code) ← compile_values fields dependencies program
      named ← push_keys fields (code ++ 51 ∷ to_le_bytes 2 count)
      ok (dependencies', named)

    pub compile_items : Exprs → List (List ℕ) → List ℕ → Result (List (List ℕ) × List ℕ)
    compile_items nil dependencies program = ok (dependencies, program)
    compile_items (cons e es) dependencies program = do
      (dependencies', code) ← compile_node e dependencies program
      compile_items es dependencies' code

    pub compile_values : ExprFields → List (List ℕ) → List ℕ → Result (List (List ℕ) × List ℕ)
    compile_values end dependencies program = ok (dependencies, program)
    compile_values (field k e fs) dependencies program = do
      (dependencies', code) ← compile_node e dependencies program
      compile_values fs dependencies' code

  -- The program and the states it depends on, as `compile_reactive_expression` builds them.
  unfoldable pub compile_program : Expr → Result (List (List ℕ) × List ℕ)
  unfolding compile_node push_program_string reactive_collection_count push_dependency intern
      position push_keys
  compile_program e = compile_node e [] (b'A' ∷ b'X' ∷ b'E' ∷ 1 ∷ [])
