-- ===== src/StateWasm/Machine.antt =====
-- The expression machine: `evaluate_expression_program` of crates/axonyx-state-wasm/src/lib.rs.
-- The `Vec` of the stack is a list with its top at the head.
pub mod Rounds
pub mod Opcodes
use axonyx_runtime.Prelude.{
  ℕ, zero, suc, ◌+◌, ◌-◌, ◌/◌, Bool, true, false, not, ◌&&◌, Option, none, some, List, [], ◌∷◌, ltb,
  leb, ◌==◌, if◌then◌else◌, ◌>>=◌, ◌>>◌, guard, length, get_elem?, drop,
}
use axonyx_runtime.Prelude.Bytes.{from_le_bytes, from_utf8, contains}
use axonyx_runtime.Prelude.Int.{from_word, checked_neg}
use axonyx_runtime.StateWasm.Value.{
  ExprValue, null, string, bool, float, int, bytes, list, object, Values, nil, cons, Fields, end,
  field,
}
use axonyx_runtime.StateWasm.Cursor.{take_bytes, read_u32, checked_add}
use axonyx_runtime.StateWasm.Frame.{is_finite, decode_expr_value}
use axonyx_runtime.StateWasm.Operators.{
  Floats, Binary, add, sub, mul, div, rem, eq, ne, gt, ge, lt, le, is_in, and_also, or_else,
  fallback, index, opcode_value, evaluate_binary_opcode, expr_truthy, finite_float, neg_float,
  get_field, or_null,
}

abbrev pub collection_max_items : ℕ
collection_max_items = 1024

abbrev pub stack_max_values : ℕ
stack_max_values = 4096

-- The arms of the `match` over the opcode.
pub data Opcode : Type 0 where
  push_dependency push_null push_string push_bool push_float push_int not_value neg_value : Opcode
  binary : Binary → Opcode
  member optional_member build_list build_object : Opcode

abbrev pub opcode_byte : Opcode → ℕ
opcode_byte push_dependency = 0
opcode_byte push_null = 1
opcode_byte push_string = 2
opcode_byte push_bool = 3
opcode_byte push_float = 4
opcode_byte push_int = 5
opcode_byte not_value = 10
opcode_byte neg_value = 11
opcode_byte (binary op) = opcode_value op
opcode_byte member = 41
opcode_byte optional_member = 42
opcode_byte build_list = 50
opcode_byte build_object = 51

abbrev opcodes : List Opcode
opcodes =
    push_dependency
    ∷ push_null
    ∷ push_string
    ∷ push_bool
    ∷ push_float
    ∷ push_int
    ∷ not_value
    ∷ neg_value
    ∷ binary add
    ∷ binary sub
    ∷ binary mul
    ∷ binary div
    ∷ binary rem
    ∷ binary eq
    ∷ binary ne
    ∷ binary gt
    ∷ binary ge
    ∷ binary lt
    ∷ binary le
    ∷ binary is_in
    ∷ binary and_also
    ∷ binary or_else
    ∷ binary fallback
    ∷ binary index
    ∷ member
    ∷ optional_member
    ∷ build_list
    ∷ build_object
    ∷ []

find_opcode : ℕ → List Opcode → Option Opcode
find_opcode byte [] = none
find_opcode byte (op ∷ ops) = if opcode_byte op == byte then some op else find_opcode byte ops

unfoldable pub opcode_of : ℕ → Option Opcode
unfolding find_opcode
opcode_of byte = find_opcode byte opcodes

-- `read_program_u16` and `read_program_string`
unfoldable pub read_program_u16 : List ℕ → ℕ → Option (ℕ × ℕ)
read_program_u16 program cursor = do
  (raw, cursor') ← take_bytes program cursor 2
  some (from_le_bytes raw, cursor')

unfoldable pub read_program_string : List ℕ → ℕ → Option (List ℕ × ℕ)
read_program_string program cursor = do
  (count, start) ← read_u32 program cursor
  (raw, cursor') ← take_bytes program start count
  text ← from_utf8 raw
  some (text, cursor')

-- `pop_expression_values`: the last `count` values in the order in which they were pushed.
unfoldable pub pop_values : ℕ → List ExprValue → Values → Option (Values × List ExprValue)
pop_values zero stack popped = some (popped, stack)
pop_values (suc count) [] popped = none
pop_values (suc count) (v ∷ stack) popped = pop_values count stack (cons v popped)

-- The loop over the keys of an object; `keys` are those read so far, last first.
unfoldable pub read_keys : ℕ → List ℕ → ℕ → List (List ℕ) → Option (List (List ℕ) × ℕ)
read_keys zero program cursor keys = some ([], cursor)
read_keys (suc count) program cursor keys = do
  (key, cursor') ← read_program_string program cursor
  guard (not (contains keys key))
  (more, last) ← read_keys count program cursor' (key ∷ keys)
  some (key ∷ more, last)

unfoldable pub zip_fields : List (List ℕ) → Values → Fields
zip_fields (k ∷ ks) (cons v vs) = field k v (zip_fields ks vs)
zip_fields _ _ = end

unfoldable pub negate : ExprValue → Option ExprValue
unfolding finite_float checked_neg
negate (int a) = do result ← checked_neg a; some (int result)
negate (float bits) = finite_float (neg_float bits)
negate _ = none

unfoldable pub get_member : Bool → List ℕ → ExprValue → Option ExprValue
unfolding get_field
get_member optional property (object fields) = some (or_null (get_field property fields))
get_member true property _ = some null
get_member false property _ = none

abbrev pub Machine : Type 0
Machine = ℕ × List ExprValue

-- `program[..4] == b"AXE\x01"`
abbrev pub has_magic : List ℕ → Bool
has_magic (a ∷ x ∷ e ∷ version ∷ _) = a == b'A' && (x == b'X' && (e == b'E' && version == 1))
has_magic _ = false

-- `(stack.len() == 1).then(|| stack.pop()).flatten()`
abbrev pub only_value : Machine → Option ExprValue
only_value (cursor, v ∷ []) = some v
only_value (cursor, _) = none

module _ (floats : Floats) (program : List ℕ) (dependencies : List ExprValue) where
  -- One arm of the `match`, with the cursor behind the opcode.
  unfoldable pub execute : Opcode → ℕ → List ExprValue → Option Machine
  execute push_dependency cursor stack = do
    (slot, cursor') ← read_program_u16 program cursor
    v ← get_elem? dependencies slot
    some (cursor', v ∷ stack)
  execute push_null cursor stack = some (cursor, null ∷ stack)
  execute push_string cursor stack = do
    (text, cursor') ← read_program_string program cursor
    some (cursor', string text ∷ stack)
  execute push_bool cursor stack = do
    (raw, cursor') ← take_bytes program cursor 1
    guard (leb (from_le_bytes raw) 1)
    some (cursor', bool (from_le_bytes raw == 1) ∷ stack)
  execute push_float cursor stack = do
    (raw, cursor') ← take_bytes program cursor 8
    guard (is_finite (from_le_bytes raw))
    some (cursor', float (from_le_bytes raw) ∷ stack)
  execute push_int cursor stack = do
    (raw, cursor') ← take_bytes program cursor 8
    some (cursor', int (from_word (from_le_bytes raw)) ∷ stack)
  execute not_value cursor (v ∷ stack) = some (cursor, bool (not (expr_truthy v)) ∷ stack)
  execute not_value cursor [] = none
  execute neg_value cursor (v ∷ stack) = do result ← negate v; some (cursor, result ∷ stack)
  execute neg_value cursor [] = none
  execute (binary op) cursor (right ∷ left ∷ stack) = do
    result ← evaluate_binary_opcode floats op left right
    some (cursor, result ∷ stack)
  execute (binary op) cursor (right ∷ []) = none
  execute (binary op) cursor [] = none
  execute member cursor stack = do
    (property, cursor') ← read_program_string program cursor
    elim stack [
      | [] ↦ none
      | object_value ∷ rest ↦ do
        result ← get_member false property object_value
        some (cursor', result ∷ rest)
    ]
  execute optional_member cursor stack = do
    (property, cursor') ← read_program_string program cursor
    elim stack [
      | [] ↦ none
      | object_value ∷ rest ↦ do
        result ← get_member true property object_value
        some (cursor', result ∷ rest)
    ]
  execute build_list cursor stack = do
    (count, cursor') ← read_program_u16 program cursor
    guard (leb count collection_max_items)
    (values, rest) ← pop_values count stack nil
    some (cursor', list values ∷ rest)
  execute build_object cursor stack = do
    (count, start) ← read_program_u16 program cursor
    guard (leb count collection_max_items)
    (keys, cursor') ← read_keys count program start []
    (values, rest) ← pop_values count stack nil
    some (cursor', object (zip_fields keys values) ∷ rest)

  -- One round of the loop.
  unfoldable pub step : ℕ → List ExprValue → Option Machine
  step cursor stack = do
    byte ← get_elem? program cursor
    op ← opcode_of byte
    (cursor', stack') ← execute op (cursor + 1) stack
    guard (leb (length stack') stack_max_values)
    some (cursor', stack')

  -- `while cursor < program.len()`; each round moves the cursor, so that a round for each byte that
  -- is left is enough.
  unfoldable pub run : ℕ → ℕ → List ExprValue → Option Machine
  run zero cursor stack = if ltb cursor (length program) then none else some (cursor, stack)
  run (suc rounds) cursor stack = elim (ltb cursor (length program)) [
    | false ↦ some (cursor, stack)
    | true ↦ do (cursor', stack') ← step cursor stack; run rounds cursor' stack'
  ]

  unfoldable pub evaluate_expression_program : Option ExprValue
  evaluate_expression_program = do
    guard (has_magic program)
    machine ← run (length program) 4 []
    only_value machine

-- The values that stand before the program's own: `evaluate_expression_request`.
unfoldable pub decode_dependencies : ℕ → List ℕ → ℕ → Option (List ExprValue × ℕ)
decode_dependencies zero request cursor = some ([], cursor)
decode_dependencies (suc count) request cursor = do
  (v, consumed) ← decode_expr_value (drop cursor request) 0
  cursor' ← checked_add cursor consumed
  (vs, last) ← decode_dependencies count request cursor'
  some (v ∷ vs, last)

unfoldable pub evaluate_expression_request : Floats → List ℕ → Option ExprValue
evaluate_expression_request floats request = do
  (program_len, start) ← read_u32 request 0
  (program, after) ← take_bytes request start program_len
  (count, first) ← read_u32 request after
  guard (leb count ((length request - first) / 4))
  (dependencies, last) ← decode_dependencies count request first
  guard (last == length request)
  evaluate_expression_program floats program dependencies

-- What a run of the machine computes with.
unfoldable pub machine_runs : Unit {0}
unfolding evaluate_expression_request evaluate_expression_program decode_dependencies
    decode_expr_value run step execute opcode_of read_program_u16 read_program_string read_u32
    take_bytes pop_values read_keys zip_fields negate get_member expr_truthy evaluate_binary_opcode
machine_runs = tt
