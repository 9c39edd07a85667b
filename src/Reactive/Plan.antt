-- ===== src/Reactive/Plan.antt =====
-- `compile_reactive_expression` of crates/axonyx-core/src/ax_parser_auto.rs: from an expression with
-- calls to the plan that the page carries. The error has its reason; the source text that it shows
-- beside it is the expression.
mod Listed
pub mod Correct
use axonyx_runtime.Prelude.{
  ℕ, Bool, true, false, Option, none, some, List, [], ◌∷◌, if◌then◌else◌, ◌>>=◌,
}
use axonyx_runtime.Reactive.Expr.{Expr}
use axonyx_runtime.Reactive.Compiler.{CompileError, Result, ok, err, compile_node, compile_program}
use axonyx_runtime.Reactive.References.{references_state}
use axonyx_runtime.Reactive.Inline.{
  Names, Function, Bound, find_local, ExpandError, Expanded, expanded, refused, unfinished,
  expand_pure_reactive_expression, expand,
}

-- `StateBindingPlan`
pub record StateBinding : Type 0 where
  pub signal_id : List ℕ
  pub ty : List ℕ
  pub literals : Option Names
  pub initial : List ℕ

abbrev pub States : Type 0
States = Bound StateBinding

abbrev pub state_names : States → Names
state_names [] = []
state_names ((name, b) ∷ states) = name ∷ state_names states

-- `ReactiveExpressionPlan`
pub record ExpressionPlan : Type 0 where
  pub expression : Expr
  pub program : List ℕ
  pub signals : Names
  pub types : Names
  pub initials : Names

pub data Reason : Type 0 where
  not_expanded : ExpandError → Reason
  not_compiled : CompileError → Reason

-- `panicked` is the indexing of `bindings.states` with a name that is not there, or a recursion that
-- does not end.
pub data Planned : Type 0 where
  planned : ExpressionPlan → Planned
  not_reactive : Planned
  unsupported : Reason → Planned
  panicked : Planned

-- `bindings.states[name]` for each name.
unfoldable pub bindings_of : States → Names → Option (List StateBinding)
unfolding find_local
bindings_of states [] = some []
bindings_of states (name ∷ names) = do
  b ← find_local name states
  bs ← bindings_of states names
  some (b ∷ bs)

abbrev pub each : (StateBinding → List ℕ) → List StateBinding → Names
each f [] = []
each f (b ∷ bs) = f b ∷ each f bs

abbrev pub plan_of : Expr → List ℕ → Option (List StateBinding) → Planned
plan_of e program none = panicked
plan_of e program (some bs) = planned (record {
  expression = e;
  program = program;
  signals = each (λ (b : StateBinding). b.signal_id) bs;
  types = each (λ (b : StateBinding). b.ty) bs;
  initials = each (λ (b : StateBinding). b.initial) bs;
})

abbrev pub compiled_plan : States → Expr → Result (Names × List ℕ) → Planned
compiled_plan states e (err error) = unsupported (not_compiled error)
compiled_plan states e (ok (names, program)) = plan_of e program (bindings_of states names)

abbrev pub expanded_plan : States → Bool → Expanded Expr → Planned
expanded_plan states directly_reactive (refused error) =
    if directly_reactive then unsupported (not_expanded error) else not_reactive
expanded_plan states directly_reactive unfinished = panicked
expanded_plan states directly_reactive (expanded e) =
    if references_state (state_names states) e
    then compiled_plan states e (compile_program (state_names states) e)
    else not_reactive

unfoldable pub compile_reactive_expression : States → List Function → Expr → Planned
unfolding references_state expand_pure_reactive_expression compile_program bindings_of
compile_reactive_expression states functions e =
    expanded_plan states (references_state (state_names states) e)
      (expand_pure_reactive_expression functions e)
