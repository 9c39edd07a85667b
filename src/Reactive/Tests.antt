-- ===== src/Reactive/Tests.antt =====
-- A reactive expression of crates/axonyx-core/src/ax_parser_auto.rs, compiled and run.
use mathlib.Core.Option.{some-injective}
use axonyx_runtime.Prelude.{
  true, ℕ, zero, suc, ◌≡◌, refl, ap, Option, none, some, List, [], ◌∷◌, arith, if◌then◌else◌,
}
use axonyx_runtime.Prelude.Int.{pos, to_word}
use axonyx_runtime.Prelude.Bytes.{ascii, bytes_eq, to_le_bytes, is_utf8_from}
use axonyx_runtime.StateWasm.Value.{ExprValue}
use axonyx_runtime.StateWasm.Operators.{Floats}
use axonyx_runtime.StateWasm.Machine.{evaluate_expression_program}
use axonyx_runtime.Reactive.Expr.{
  Expr, identifier, list, binary, add, number, string, call, nil, cons,
}
use axonyx_runtime.Reactive.Compiler.{ok, compile_program}
use axonyx_runtime.Reactive.Meaning.{evaluate, IsExpr}
use axonyx_runtime.Reactive.Running.{Names, Binds}
use axonyx_runtime.Reactive.Inline.{
  Function, expanded, refused, recursive_parameter, expand_pure_reactive_expression, all_params,
  rounds,
}
use axonyx_runtime.Reactive.Inline.Finishes.{Finished, expand_pure_reactive_expression-Finished}
use axonyx_runtime.Reactive.Inline.Meaning.{is_scoped, is_hygienic, meaning}
use axonyx_runtime.Reactive.Inline.Capture.{first_of, expand_captures}
use axonyx_runtime.Reactive.Plan.{States, ExpressionPlan, planned, compile_reactive_expression}
use axonyx_runtime.Reactive.Plan.Correct.{state_of, compile_reactive_expression-meaning}
use axonyx_runtime.Reactive.Correct.{compile_program_correct}

abbrev still : Floats
still = record {
  add = λ a b. 0;
  sub = λ a b. 0;
  mul = λ a b. 0;
  div = λ a b. 0;
  rem = λ a b. 0;
  of_int = λ a. 0;
  to_string = λ a. [];
}

-- `[count + 1, "n"]`
abbrev sample : Expr
sample = list (
    cons (binary add (identifier (ascii "count")) (number (pos 1))) (cons (string (ascii "n")) nil))

abbrev states : Names
states = ascii "count" ∷ []

abbrev state : List ℕ → Option ExprValue
state name = if bytes_eq name (ascii "count") then some (ExprValue.int (pos 41)) else none

abbrev values : List ExprValue
values = ExprValue.int (pos 41) ∷ []

abbrev code : List ℕ
code =
    b'A' ∷ b'X' ∷ b'E' ∷ 1 ∷ 0 ∷ 0 ∷ 0 ∷ 5 ∷ 1 ∷ 0 ∷ 0 ∷ 0 ∷ 0 ∷ 0 ∷ 0 ∷ 0 ∷ 20 ∷ 2 ∷ 1 ∷ 0 ∷ 0 ∷ 0
    ∷ b'n' ∷ 50 ∷ 2 ∷ 0 ∷ []

sample_compiles : compile_program states sample ≡ ok (states, code)
unfolding compile_program to_le_bytes to_word
sample_compiles = refl

sample-IsExpr : IsExpr sample
unfolding is_utf8_from
sample-IsExpr = ((tt, refl), (refl, tt))

sample-Binds : Binds state states values
sample-Binds zero name e = ap state (some-injective _ _ e)
sample-Binds (suc i) name e = cc

compile_program_correct_example :
    evaluate_expression_program still code values ≡ evaluate still state sample
compile_program_correct_example =
    compile_program_correct still state states sample states code values sample-IsExpr (omega arith)
      sample_compiles (omega arith) sample-Binds

-- `inc(n, step = 1) = n + step`
abbrev inc : Function
inc = record {
  name = ascii "inc";
  params =
      record { name = ascii "n"; default = none }
      ∷ record { name = ascii "step"; default = some (number (pos 1)) }
      ∷ [];
  body = binary add (identifier (ascii "n")) (identifier (ascii "step"));
}

-- `loop() = loop()`
abbrev loop : Function
loop = record { name = ascii "loop"; params = []; body = call (ascii "loop" ∷ []) nil }

expand_pure_reactive_expression-Finished_example :
    Finished (expand_pure_reactive_expression (inc ∷ loop ∷ []) (call (ascii "loop" ∷ []) nil))
expand_pure_reactive_expression-Finished_example =
    expand_pure_reactive_expression-Finished (inc ∷ loop ∷ []) (call (ascii "loop" ∷ []) nil)

abbrev bindings : States
bindings =
    (
      ascii "count",
      record { signal_id = ascii "s1"; ty = ascii "i64"; literals = none; initial = ascii "41" },
    )
    ∷ []

abbrev signals : List ℕ → Option ExprValue
signals name = if bytes_eq name (ascii "s1") then some (ExprValue.int (pos 41)) else none

-- `inc(count)`
abbrev inc_count : Expr
inc_count = call (ascii "inc" ∷ []) (cons (identifier (ascii "count")) nil)

abbrev inc_plan : ExpressionPlan
inc_plan = record {
  expression = binary add (identifier (ascii "count")) (number (pos 1));
  program = b'A' ∷ b'X' ∷ b'E' ∷ 1 ∷ 0 ∷ 0 ∷ 0 ∷ 5 ∷ 1 ∷ 0 ∷ 0 ∷ 0 ∷ 0 ∷ 0 ∷ 0 ∷ 0 ∷ 20 ∷ [];
  signals = ascii "s1" ∷ [];
  types = ascii "i64" ∷ [];
  initials = ascii "41" ∷ [];
}

inc_planned : compile_reactive_expression bindings (inc ∷ []) inc_count ≡ planned inc_plan
unfolding compile_reactive_expression to_le_bytes to_word
inc_planned = refl

inc_scoped : is_scoped (all_params (inc ∷ [])) [] inc_count ≡ true
unfolding is_scoped
inc_scoped = refl

inc-is_hygienic : is_hygienic (inc ∷ []) ≡ true
unfolding is_scoped
inc-is_hygienic = refl

signals-Binds : Binds signals inc_plan.signals values
signals-Binds zero name e = ap signals (some-injective _ _ e)
signals-Binds (suc i) name e = cc

compile_reactive_expression-meaning_example :
    evaluate_expression_program still inc_plan.program values
    ≡ meaning still (state_of bindings signals) (inc ∷ []) (rounds (inc ∷ [])) [] inc_count
compile_reactive_expression-meaning_example =
    compile_reactive_expression-meaning still signals bindings (inc ∷ []) inc_count inc_plan values
      inc-is_hygienic inc_scoped inc_planned (tt, refl) (omega arith) (omega arith) signals-Binds

expand_captures_example :
    (expand_pure_reactive_expression
        (first_of (ascii "f") (ascii "a") (ascii "b") ∷ [])
        (call (ascii "f" ∷ []) (cons (identifier (ascii "b")) (cons (number (pos 7)) nil)))
      ≡ expanded (number (pos 7)))
    × (expand_pure_reactive_expression
          (first_of (ascii "f") (ascii "a") (ascii "b") ∷ [])
          (call (ascii "f" ∷ []) (cons (identifier (ascii "a")) (cons (number (pos 7)) nil)))
        ≡ refused (recursive_parameter (ascii "a")))
expand_captures_example = expand_captures (ascii "f") (ascii "a") (ascii "b") (pos 7) refl
