-- ===== src/StateWasm/Machine/Rounds.antt =====
-- The loop of `evaluate_expression_program` of crates/axonyx-state-wasm/src/lib.rs, by its rounds.
use axonyx_runtime.Prelude.{
  Option-cases, ap, inl, inr, ℕ, zero, suc, ◌+◌, ◌≤◌, ◌<◌, ◌≡◌, refl, sym, ◌∙◌, Option, none, some,
  List, arith, ◌>>=◌, length, lt→ltb,
}
use native.Mathlib.Decide.{dec_lt}
use mathlib.Core.Path.{subst}
use axonyx_runtime.StateWasm.Value.{ExprValue}
use axonyx_runtime.StateWasm.Cursor.{take_bytes, read_u32}
use axonyx_runtime.StateWasm.Operators.{Floats}
use axonyx_runtime.StateWasm.Machine.{
  Opcode, push_dependency, push_null, push_string, push_bool, push_float, push_int, not_value,
  neg_value, binary, member, optional_member, build_list, build_object, Machine, read_program_u16,
  read_program_string, read_keys, execute, step, run, stack_max_values,
}

take_bytes-moves :
    (bytes : List ℕ) (cursor count : ℕ) (r : List ℕ × ℕ)
    → take_bytes bytes cursor count ≡ some r
    → cursor ≤ r.1
unfolding take_bytes
take_bytes-moves bytes cursor count r e = ground arith

read_u32-moves :
    (bytes : List ℕ) (cursor : ℕ) (r : ℕ × ℕ) → read_u32 bytes cursor ≡ some r → cursor ≤ r.1
unfolding read_u32
read_u32-moves bytes cursor r e = grind (arith, take_bytes-moves)

read_u16-moves :
    (program : List ℕ) (cursor : ℕ) (r : ℕ × ℕ)
    → read_program_u16 program cursor ≡ some r
    → cursor ≤ r.1
unfolding read_program_u16
read_u16-moves program cursor r e = grind (arith, take_bytes-moves)

read_string-moves :
    (program : List ℕ) (cursor : ℕ) (r : List ℕ × ℕ)
    → read_program_string program cursor ≡ some r
    → cursor ≤ r.1
unfolding read_program_string
read_string-moves program cursor r e = grind (arith, take_bytes-moves, read_u32-moves)

read_keys-moves :
    (count : ℕ) (program : List ℕ) (cursor : ℕ) (keys : List (List ℕ)) (r : List (List ℕ) × ℕ)
    → read_keys count program cursor keys ≡ some r
    → cursor ≤ r.1
unfolding read_keys
read_keys-moves zero program cursor keys r e = ground arith
read_keys-moves (suc count) program cursor keys r e =
    grind
      (arith, read_string-moves, λ (k : List (List ℕ)) (c : ℕ). read_keys-moves count program c k)

module _ (floats : Floats) (program : List ℕ) (dependencies : List ExprValue) where
  execute-moves :
      (op : Opcode) (cursor : ℕ) (stack : List ExprValue) (m : Machine)
      → execute floats program dependencies op cursor stack ≡ some m
      → cursor ≤ m.0
  unfolding execute
  execute-moves push_dependency cursor stack m e = grind (arith, read_u16-moves)
  execute-moves push_null cursor stack m e = ground arith
  execute-moves push_string cursor stack m e = grind (arith, read_string-moves)
  execute-moves push_bool cursor stack m e = grind (arith, take_bytes-moves)
  execute-moves push_float cursor stack m e = grind (arith, take_bytes-moves)
  execute-moves push_int cursor stack m e = grind (arith, take_bytes-moves)
  execute-moves not_value cursor stack m e = ground arith
  execute-moves neg_value cursor stack m e = ground arith
  execute-moves (binary op) cursor stack m e = ground arith
  execute-moves member cursor stack m e = grind (arith, read_string-moves)
  execute-moves optional_member cursor stack m e = grind (arith, read_string-moves)
  execute-moves build_list cursor stack m e = grind (arith, read_u16-moves)
  execute-moves build_object cursor stack m e = grind (arith, read_u16-moves, read_keys-moves)

  -- A round that succeeds moves the cursor forward, and leaves at most 4,096 values on the stack.
  pub step-moves :
      (cursor : ℕ) (stack : List ExprValue) (m : Machine)
      → step floats program dependencies cursor stack ≡ some m
      → (cursor < m.0) × (length m.1 ≤ stack_max_values)
  unfolding step
  step-moves cursor stack m e = grind (arith, execute-moves)

  -- One round and the rest.
  abbrev pub continue : ℕ → Machine → Option Machine
  continue rounds m = run floats program dependencies rounds m.0 m.1

  run-suc :
      (rounds cursor : ℕ) (stack : List ExprValue)
      → cursor < length program
      → run floats program dependencies (suc rounds) cursor stack
        ≡ (step floats program dependencies cursor stack >>= continue rounds)
  unfolding run
  run-suc rounds cursor stack h = rw (lt→ltb cursor (length program) h, run)

  pub run_end :
      (rounds cursor : ℕ) (stack : List ExprValue)
      → length program ≤ cursor
      → run floats program dependencies rounds cursor stack ≡ some (cursor, stack)
  unfolding run
  run_end zero cursor stack h = ground arith
  run_end (suc rounds) cursor stack h = ground arith

  bind_ext :
      (o : Option Machine) (f g : Machine → Option Machine)
      → ((m : Machine) → o ≡ some m → f m ≡ g m)
      → (o >>= f) ≡ (o >>= g)
  bind_ext none f g h = refl
  bind_ext (some m) f g h = h m refl

  run_stable :
      (n m cursor : ℕ) (stack : List ExprValue)
      → length program ≤ n + cursor
      → length program ≤ m + cursor
      → run floats program dependencies n cursor stack
        ≡ run floats program dependencies m cursor stack
  run_stable zero m cursor stack h k =
      run_end zero cursor stack (omega arith) ∙ sym (run_end m cursor stack (omega arith))
  run_stable (suc n) zero cursor stack h k =
      run_end (suc n) cursor stack (omega arith) ∙ sym (run_end zero cursor stack (omega arith))
  run_stable (suc n) (suc m) cursor stack h k = elim (dec_lt cursor (length program)) [
    | yes lt ↦
        run-suc n cursor stack lt
        ∙ bind_ext (step floats program dependencies cursor stack) (continue n) (continue m) (λ r e.
          let moved = (step-moves cursor stack r e).0 in
          run_stable n m r.0 r.1 (omega arith) (omega arith))
        ∙ sym (run-suc m cursor stack lt)
    | no ge ↦
        run_end (suc n) cursor stack (omega arith)
        ∙ sym (run_end (suc m) cursor stack (omega arith))
  ]

  -- More rounds than the program has bytes make no difference.
  run_enough :
      (rounds cursor : ℕ) (stack : List ExprValue)
      → length program ≤ rounds
      → run floats program dependencies rounds cursor stack
        ≡ run floats program dependencies (length program) cursor stack
  run_enough rounds cursor stack h =
      run_stable rounds (length program) cursor stack (omega arith) (omega arith)

  pub run-step :
      (cursor : ℕ) (stack : List ExprValue)
      → cursor < length program
      → run floats program dependencies (length program) cursor stack
        ≡ (step floats program dependencies cursor stack >>= continue (length program))
  run-step cursor stack h =
      sym (run_enough (suc (length program)) cursor stack (omega arith))
      ∙ run-suc (length program) cursor stack h

  -- The loop without a bound on its rounds, from a cursor and a stack to what it ends with: it is behind
  -- the program, a round fails, or a round leads to where the rest ends.
  pub data Ends : ℕ → List ExprValue → Option Machine → Type 0 where
    finished :
        (cursor : ℕ) (stack : List ExprValue)
        → length program ≤ cursor
        → Ends cursor stack (some (cursor, stack))
    failed :
        (cursor : ℕ) (stack : List ExprValue)
        → cursor < length program
        → step floats program dependencies cursor stack ≡ none
        → Ends cursor stack none
    continued :
        (cursor : ℕ) (stack : List ExprValue) (m : Machine) (o : Option Machine)
        → cursor < length program
        → step floats program dependencies cursor stack ≡ some m
        → Ends m.0 m.1 o
        → Ends cursor stack o

  run-Ends-by :
      (n cursor : ℕ) (stack : List ExprValue)
      → length program ≤ n + cursor
      → Ends cursor stack (run floats program dependencies n cursor stack)
  run-Ends-by zero cursor stack h =
      subst (Ends cursor stack) (sym (run_end zero cursor stack (omega arith)))
        (finished cursor stack (omega arith))
  run-Ends-by (suc n) cursor stack h = elim (dec_lt cursor (length program)) [
    | no ge ↦
        subst (Ends cursor stack) (sym (run_end (suc n) cursor stack (omega arith)))
          (finished cursor stack (omega arith))
    | yes lt ↦ elim (Option-cases (step floats program dependencies cursor stack)) [
      | inl none_left ↦
          subst (Ends cursor stack)
            (sym (run-suc n cursor stack lt ∙ ap (λ o. o >>= continue n) none_left))
            (failed cursor stack lt none_left)
      | inr (m, moves) ↦
          let moved = (step-moves cursor stack m moves).0 in
          subst (Ends cursor stack)
            (sym (run-suc n cursor stack lt ∙ ap (λ o. o >>= continue n) moves))
            (continued cursor stack m _ lt moves (run-Ends-by n m.0 m.1 (omega arith)))
    ]
  ]

  -- From every cursor and stack, the loop ends after finitely many rounds, and as many as the program
  -- has bytes are enough: `run` with that many gives what the loop without a bound ends with.
  pub run-Ends :
      (cursor : ℕ) (stack : List ExprValue)
      → Ends cursor stack (run floats program dependencies (length program) cursor stack)
  run-Ends cursor stack = run-Ends-by (length program) cursor stack (omega arith)

  -- From a stack of at most 4,096 values, a run that succeeds ends at or behind the end of the program
  -- and leaves at most 4,096 values.
  run-IsWithin :
      (rounds cursor : ℕ) (stack : List ExprValue) (m : Machine)
      → length stack ≤ stack_max_values
      → run floats program dependencies rounds cursor stack ≡ some m
      → (length program ≤ m.0) × (length m.1 ≤ stack_max_values)
  unfolding run
  run-IsWithin zero cursor stack m h e = ground arith
  run-IsWithin (suc rounds) cursor stack m h e =
      grind (arith, step-moves, λ (c : ℕ) (s : List ExprValue). run-IsWithin rounds c s m)
