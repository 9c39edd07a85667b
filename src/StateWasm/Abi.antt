-- ===== src/StateWasm/Abi.antt =====
-- The functions that crates/axonyx-state-wasm/src/lib.rs exports. The shared buffers are lists of bytes;
-- a function that writes to the value buffer returns its result and the buffer.
pub mod Responses
use axonyx_runtime.Prelude.{
  ℕ, ◌+◌, ◌-◌, ◌*◌, ◌^◌, Bool, true, false, not, ◌&&◌, ◌||◌, Option, none, some, List, [], ◌∷◌,
  ◌++◌, ltb, leb, ◌==◌, if◌then◌else◌, ◌>>=◌, ◌>>◌, guard, length, take, drop,
}
use axonyx_runtime.Prelude.Bytes.{is_utf8}
use axonyx_runtime.StateWasm.Value.{ExprValue}
use axonyx_runtime.StateWasm.Frame.{decode_expr_value, encode_expr_value, validate_value_frame}
use axonyx_runtime.StateWasm.Operators.{Floats}
use axonyx_runtime.StateWasm.Machine.{evaluate_expression_request}
use axonyx_runtime.StateWasm.Each.{reconcile_key_request, render_each_request}

abbrev pub string_capacity : ℕ
string_capacity = 4096

abbrev pub value_capacity : ℕ
value_capacity = 64 * 1024

-- `u32::MAX`
abbrev pub state_error : ℕ
state_error = 2 ^ 32 - 1

-- The operations set, add, sub and toggle are 0 to 3, the types string, number, bool and value too.
unfoldable pub supports_operation : ℕ → ℕ → ℕ
supports_operation value_type operation =
    if (value_type == 0 && operation == 0)
      || (value_type == 1 && leb operation 2)
      || (value_type == 2 && (operation == 0 || operation == 3))
      || (value_type == 3 && operation == 0)
    then 1
    else 0

abbrev pub nan : ℕ
nan = 0x7ff8000000000000

unfoldable pub apply_number : Floats → ℕ → ℕ → ℕ → ℕ
apply_number floats operation current operand =
    if operation == 0
    then operand
    else if operation == 1
    then floats.add current operand
    else if operation == 2
    then floats.sub current operand
    else nan

unfoldable pub apply_bool : ℕ → ℕ → ℕ → ℕ
apply_bool operation current operand =
    if operation == 0
    then (if operand == 0 then 0 else 1)
    else if operation == 3
    then (if current == 0 then 1 else 0)
    else state_error

unfoldable pub apply_string : ℕ → ℕ → List ℕ → ℕ
apply_string operation operand_len buffer =
    if not (operation == 0) || ltb string_capacity operand_len
    then state_error
    else if is_utf8 (take operand_len buffer)
    then operand_len
    else state_error

unfoldable pub apply_value : ℕ → ℕ → List ℕ → ℕ
apply_value operation operand_len buffer =
    if not (operation == 0) || ltb value_capacity operand_len
    then state_error
    else elim (validate_value_frame (take operand_len buffer) 0) [
      | none ↦ state_error
      | some consumed ↦ if consumed == operand_len then operand_len else state_error
    ]

-- The answer in the buffer: `encode_expr_value` and `copy_nonoverlapping`.
unfoldable pub respond_encoded : Option (List ℕ) → List ℕ → ℕ × List ℕ
respond_encoded none buffer = (state_error, buffer)
respond_encoded (some encoded) buffer =
    if ltb value_capacity (length encoded)
    then (state_error, buffer)
    else (length encoded, encoded ++ drop (length encoded) buffer)

unfoldable pub respond : Option ExprValue → List ℕ → ℕ × List ℕ
unfolding respond_encoded
respond none buffer = (state_error, buffer)
respond (some answer) buffer = respond_encoded (encode_expr_value answer [] 0) buffer

-- A request that is a value and nothing more.
unfoldable pub decode_request : List ℕ → Option ExprValue
decode_request request = do
  (value, consumed) ← decode_expr_value request 0
  guard (consumed == length request)
  some value

-- What the three entry points have in common: `answer` is what they do with the request.
unfoldable pub serve : (List ℕ → Option ExprValue) → ℕ → List ℕ → ℕ × List ℕ
unfolding respond
serve answer request_len buffer =
    if ltb value_capacity request_len
    then (state_error, buffer)
    else respond (answer (take request_len buffer)) buffer

unfoldable pub evaluate_expression : Floats → ℕ → List ℕ → ℕ × List ℕ
unfolding serve
evaluate_expression floats request_len buffer =
    serve (evaluate_expression_request floats) request_len buffer

unfoldable pub reconcile_keys : ℕ → List ℕ → ℕ × List ℕ
unfolding serve decode_request
reconcile_keys request_len buffer =
    serve (λ request. decode_request request >>= reconcile_key_request) request_len buffer

unfoldable pub render_each : ℕ → List ℕ → ℕ × List ℕ
unfolding serve decode_request
render_each request_len buffer =
    serve (λ request. decode_request request >>= render_each_request) request_len buffer
