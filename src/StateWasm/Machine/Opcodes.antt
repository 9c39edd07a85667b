-- ===== src/StateWasm/Machine/Opcodes.antt =====
-- What one opcode of a program does, at a cursor behind which its bytes stand.
use axonyx_runtime.Prelude.{
  ℕ, zero, suc, ◌+◌, ◌≤◌, ◌<◌, ◌^◌, ◌≡◌, refl, ap, ◌∙◌, true, Option, none, some, List, [], ◌∷◌,
  ◌++◌, arith, leb, le→leb, ◌>>=◌, ◌>>◌, guard, length, get_elem?, drop,
}
use axonyx_runtime.Prelude.Bytes.{
  to_le_bytes, from_le_bytes-to_le_bytes, length-to_le_bytes, is_utf8,
}
use axonyx_runtime.StateWasm.Value.{ExprValue}
use axonyx_runtime.StateWasm.Cursor.{usize_size}
use axonyx_runtime.StateWasm.Cursor.Laws.{At, At-length, At-skip, take_bytes-At}
use axonyx_runtime.StateWasm.Frame.Layout.{counted}
use axonyx_runtime.StateWasm.Frame.Decoding.{read_counted, length-counted}
use axonyx_runtime.StateWasm.Operators.{Floats, add}
use axonyx_runtime.StateWasm.Machine.{
  Opcode, push_dependency, binary, opcode_byte, opcode_of, Machine, read_program_u16,
  read_program_string, execute, step, run, stack_max_values,
}
use axonyx_runtime.StateWasm.Machine.Rounds.{run-step}

opcode_of-opcode_byte : (op : Opcode) → opcode_of (opcode_byte op) ≡ some op
unfolding opcode_of
opcode_of-opcode_byte push_dependency = refl
opcode_of-opcode_byte (binary add) = refl
opcode_of-opcode_byte _ = refl

get_elem?-drop :
    (xs : List ℕ) (i x : ℕ) (rest : List ℕ) → drop i xs ≡ x ∷ rest → get_elem? xs i ≡ some x
get_elem?-drop [] zero x rest e = cc
get_elem?-drop [] (suc i) x rest e = cc
get_elem?-drop (y ∷ xs) zero x rest e = cc
get_elem?-drop (y ∷ xs) (suc i) x rest e = get_elem?-drop xs i x rest e

pub At-next :
    (data_ : List ℕ) (cursor x : ℕ) (rest : List ℕ)
    → At data_ cursor (x ∷ rest)
    → At data_ (cursor + 1) rest
At-next data_ cursor x rest p = At-skip data_ cursor (x ∷ []) rest p

pub read_program_u16-At :
    (program : List ℕ) (cursor value : ℕ) (rest : List ℕ)
    → length program < usize_size
    → value < 65536
    → At program cursor (to_le_bytes 2 value ++ rest)
    → (read_program_u16 program cursor ≡ some (value, cursor + 2)) × At program (cursor + 2) rest
unfolding read_program_u16
read_program_u16-At program cursor value rest small bound p =
    let e =
      rw (length-to_le_bytes 2 value) at
        (take_bytes-At program cursor (to_le_bytes 2 value) rest p small) in
    (
      rw (e, from_le_bytes-to_le_bytes 2 value bound),
      rw (length-to_le_bytes 2 value) at (At-skip program cursor (to_le_bytes 2 value) rest p),
    )

pub read_program_string-At :
    (program : List ℕ) (cursor : ℕ) (text rest : List ℕ)
    → length program < usize_size
    → length text < 2 ^ 32
    → is_utf8 text ≡ true
    → At program cursor (counted text ++ rest)
    → (read_program_string program cursor ≡ some (text, cursor + length (counted text)))
      × At program (cursor + length (counted text)) rest
unfolding read_program_string
read_program_string-At program cursor text rest small bound utf8 p =
    let (word, body, q) = read_counted program cursor text rest small p bound in
    let moved : cursor + 4 + length text ≡ cursor + length (counted text) =
      omega (arith, length-counted text) in
    (
      rw (word, body, utf8) (ap (λ n. some (text, n)) moved),
      At-skip program cursor (counted text) rest p,
    )

module _ (floats : Floats) (program : List ℕ) (dependencies : List ExprValue) where
  -- The check that follows every arm.
  abbrev limit : Machine → Option Machine
  limit m = guard (leb (length m.1) stack_max_values) >> some m

  step-At :
      (op : Opcode) (cursor : ℕ) (stack : List ExprValue) (rest : List ℕ)
      → At program cursor (opcode_byte op ∷ rest)
      → step floats program dependencies cursor stack
        ≡ (execute floats program dependencies op (cursor + 1) stack >>= limit)
  unfolding step
  step-At op cursor stack rest p =
      rw (get_elem?-drop program cursor (opcode_byte op) rest p.behind, opcode_of-opcode_byte op)

  pub run-execute :
      (op : Opcode) (cursor : ℕ) (stack : List ExprValue) (rest : List ℕ) (m : Machine)
      → At program cursor (opcode_byte op ∷ rest)
      → execute floats program dependencies op (cursor + 1) stack ≡ some m
      → length m.1 ≤ stack_max_values
      → run floats program dependencies (length program) cursor stack
        ≡ run floats program dependencies (length program) m.0 m.1
  run-execute op cursor stack rest m p e bound =
      let inside = At-length program cursor (opcode_byte op ∷ rest) p in
      run-step floats program dependencies cursor stack (omega (arith, inside))
      ∙ rw (step-At op cursor stack rest p, e, le→leb (length m.1) stack_max_values bound)

  pub run-execute_fails :
      (op : Opcode) (cursor : ℕ) (stack : List ExprValue) (rest : List ℕ)
      → At program cursor (opcode_byte op ∷ rest)
      → execute floats program dependencies op (cursor + 1) stack ≡ none
      → run floats program dependencies (length program) cursor stack ≡ none
  run-execute_fails op cursor stack rest p e =
      let inside = At-length program cursor (opcode_byte op ∷ rest) p in
      run-step floats program dependencies cursor stack (omega (arith, inside))
      ∙ rw (step-At op cursor stack rest p, e)
