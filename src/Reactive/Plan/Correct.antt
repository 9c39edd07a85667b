-- ===== src/Reactive/Plan/Correct.antt =====
-- `compile_reactive_expression` of crates/axonyx-core/src/ax_parser_auto.rs against
-- `evaluate_expression_program` of crates/axonyx-state-wasm/src/lib.rs, calls of functions included.
use axonyx_runtime.Prelude.{
  ℕ, ◌≤◌, ◌<◌, ◌≡◌, refl, sym, ap, ◌∙◌, inl, inr, Bool, true, false, Option, none, some, List, [],
  ◌>>=◌, length, Bool-cases,
}
use mathlib.Core.Path.{subst}
use axonyx_runtime.StateWasm.Value.{ExprValue}
use axonyx_runtime.StateWasm.Cursor.{usize_size}
use axonyx_runtime.StateWasm.Operators.{Floats}
use axonyx_runtime.StateWasm.Machine.{stack_max_values, evaluate_expression_program}
use axonyx_runtime.Reactive.Expr.{Expr}
use axonyx_runtime.Reactive.Compiler.{Result, ok, err, compile_program}
use axonyx_runtime.Reactive.Meaning.{IsExpr, height}
use axonyx_runtime.Reactive.Running.{Binds}
use axonyx_runtime.Reactive.Correct.{compile_program_correct}
use axonyx_runtime.Reactive.References.{references_state}
use axonyx_runtime.Reactive.Inline.{
  Names, Function, find_local, Expanded, expanded, refused, unfinished, all_params, rounds,
  expand_pure_reactive_expression,
}
use axonyx_runtime.Reactive.Inline.Finishes.{is_finished, expand_pure_reactive_expression-Finished}
use axonyx_runtime.Reactive.Inline.Meaning.{meaning, is_scoped, is_hygienic}
use axonyx_runtime.Reactive.Inline.Preserves.{expand_pure_reactive_expression-meaning}
use axonyx_runtime.Reactive.Plan.{
  StateBinding, States, state_names, ExpressionPlan, Planned, planned, panicked, bindings_of, each,
  plan_of, compiled_plan, expanded_plan, compile_reactive_expression,
}
use axonyx_runtime.Reactive.Plan.Listed.{compile_node-Listed, bindings_of-Listed, bindings_of-elem}

abbrev pub is_panicked : Planned → Bool
is_panicked panicked = true
is_panicked _ = false

compiled-calm :
    (states : States) (e : Expr) (r : Result (Names × List ℕ))
    → compile_program (state_names states) e ≡ r
    → is_panicked (compiled_plan states e r) ≡ false
unfolding compile_program
compiled-calm states e (err error) c = refl
compiled-calm states e (ok (names, program)) c =
    let (bs, found) =
      bindings_of-Listed states names
        (compile_node-Listed (state_names states) e [] _ (names, program) tt c) in
    rw found refl

-- The code neither indexes the states with a name that is none of them, nor recurs without end.
compile_reactive_expression-calm :
    (states : States) (functions : List Function) (e : Expr)
    → is_panicked (compile_reactive_expression states functions e) ≡ false
unfolding compile_reactive_expression
compile_reactive_expression-calm states functions e =
    go (references_state (state_names states) e) (expand_pure_reactive_expression functions e)
      (expand_pure_reactive_expression-Finished functions e)
  where
    go :
        (directly : Bool) (r : Expanded Expr)
        → is_finished r ≡ true
        → is_panicked (expanded_plan states directly r) ≡ false
    go true (refused error) h = refl
    go false (refused error) h = refl
    go directly unfinished h = cc
    go directly (expanded x) h = elim (Bool-cases (references_state (state_names states) x)) [
      | inr still ↦ rw still refl
      | inl reactive ↦
          rw reactive (compiled-calm states x (compile_program (state_names states) x) refl)
    ]

-- The value of a state is that of its signal.
abbrev pub state_of : States → (List ℕ → Option ExprValue) → List ℕ → Option ExprValue
state_of states signals name = do b ← find_local name states; signals b.signal_id

Binds-states :
    (states : States) (signals : List ℕ → Option ExprValue) (names : Names) (bs : List StateBinding)
    (values : List ExprValue)
    → bindings_of states names ≡ some bs
    → Binds signals (each (λ (b : StateBinding). b.signal_id) bs) values
    → Binds (state_of states signals) names values
Binds-states states signals names bs values e binds i name g =
    let (b, found, at_i) =
      bindings_of-elem states names (λ (c : StateBinding). c.signal_id) i e g in
    binds i b.signal_id at_i ∙ sym (ap (λ o. o >>= λ (c : StateBinding). signals c.signal_id) found)

-- What a plan was made of.
record IsPlanned (states : States) (functions : List Function) (e : Expr) (plan : ExpressionPlan)
    : Type 0 where
  names : Names
  bindings : List StateBinding
  expands : expand_pure_reactive_expression functions e ≡ expanded plan.expression
  compiles : compile_program (state_names states) plan.expression ≡ ok (names, plan.program)
  bound : bindings_of states names ≡ some bindings
  signals_lem : plan.signals ≡ each (λ (b : StateBinding). b.signal_id) bindings

plan-IsPlanned :
    (states : States) (functions : List Function) (e : Expr) (plan : ExpressionPlan)
    → compile_reactive_expression states functions e ≡ planned plan
    → IsPlanned states functions e plan
unfolding compile_reactive_expression
plan-IsPlanned states functions e plan h =
    of_expanded (references_state (state_names states) e)
      (expand_pure_reactive_expression functions e) refl h
  where
    planned_inj : {p q : ExpressionPlan} → planned p ≡ planned q → p ≡ q
    planned_inj same = cc

    of_bindings :
        (x : Expr) (names : Names) (program : List ℕ) (o : Option (List StateBinding))
        → expand_pure_reactive_expression functions e ≡ expanded x
        → compile_program (state_names states) x ≡ ok (names, program)
        → bindings_of states names ≡ o
        → plan_of x program o ≡ planned plan
        → IsPlanned states functions e plan
    of_bindings x names program none expands compiles found h = cc
    of_bindings x names program (some bs) expands compiles found h =
        subst (IsPlanned states functions e) (planned_inj h) (record {
          names = names;
          bindings = bs;
          expands = expands;
          compiles = compiles;
          bound = found;
          signals_lem = refl;
        })

    of_compiled :
        (x : Expr) (r : Result (Names × List ℕ))
        → expand_pure_reactive_expression functions e ≡ expanded x
        → compile_program (state_names states) x ≡ r
        → compiled_plan states x r ≡ planned plan
        → IsPlanned states functions e plan
    of_compiled x (err error) expands compiles h = cc
    of_compiled x (ok (names, program)) expands compiles h =
        of_bindings x names program (bindings_of states names) expands compiles refl h

    of_expanded :
        (directly : Bool) (r : Expanded Expr)
        → expand_pure_reactive_expression functions e ≡ r
        → expanded_plan states directly r ≡ planned plan
        → IsPlanned states functions e plan
    of_expanded true (refused error) expands h = cc
    of_expanded false (refused error) expands h = cc
    of_expanded directly unfinished expands h = cc
    of_expanded directly (expanded x) expands h =
        elim (Bool-cases (references_state (state_names states) x)) [
          | inr still ↦ cc (rw still at h)
          | inl reactive ↦
              of_compiled x (compile_program (state_names states) x) expands refl (rw reactive at h)
        ]

-- The program of a plan, run on the values of the plan's signals, gives what the expression means with
-- its functions called by name, if no function and not the expression itself uses a name that is a
-- parameter of another function, the plan's expression is one as Rust's types and distinct keys allow,
-- with finite floats, and needs at most 4,096 values on the stack, and the program is shorter than the
-- address space.
pub compile_reactive_expression-meaning :
    (floats : Floats) (signals : List ℕ → Option ExprValue) (states : States)
    (functions : List Function) (e : Expr) (plan : ExpressionPlan) (values : List ExprValue)
    → is_hygienic functions ≡ true
    → is_scoped (all_params functions) [] e ≡ true
    → compile_reactive_expression states functions e ≡ planned plan
    → IsExpr plan.expression
    → height plan.expression ≤ stack_max_values
    → length plan.program < usize_size
    → Binds signals plan.signals values
    → evaluate_expression_program floats plan.program values
      ≡ meaning floats (state_of states signals) functions (rounds functions) [] e
compile_reactive_expression-meaning floats signals states functions e plan values hygienic scoped
      done is small fits binds =
    let p = plan-IsPlanned states functions e plan done in
    let (means, _) =
      expand_pure_reactive_expression-meaning floats (state_of states signals) functions e
        plan.expression hygienic scoped p.expands in
    compile_program_correct floats (state_of states signals) (state_names states) plan.expression
      p.names plan.program values is small p.compiles fits
      (Binds-states states signals p.names p.bindings values p.bound
        (subst (λ ns. Binds signals ns values) p.signals_lem binds))
    ∙ sym means
