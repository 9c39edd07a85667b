-- ===== src/Reactive/Inline/Finishes.antt =====
-- Why `expand_pure_reactive_expression` of crates/axonyx-core/src/ax_parser_auto.rs ends.
use axonyx_runtime.Prelude.{
  ℕ, zero, suc, ◌+◌, ◌≤◌, ◌<◌, ◌≡◌, refl, inl, inr, Option, none, some, List, [], ◌∷◌, ◌++◌, length,
  Bool-cases, arith,
}
use axonyx_runtime.Prelude.Bytes.{contains}
use axonyx_runtime.Reactive.Expr.{
  Expr, string, number, float, bool, list, object, identifier, unary, binary, index, member,
  optional_member, call, Exprs, nil, cons, ExprFields, end, field,
}
use axonyx_runtime.Reactive.Compiler.{length_exprs}
use axonyx_runtime.Reactive.Inline.{
  Names, Function, Expanded, ◌>>=◌, find_local, Locals, find_function, Jump, expand_local, callee,
  expand_node, expand_args, expand_items, expand_fields, expand, function_names, all_params,
  expand_pure_reactive_expression,
}
use axonyx_runtime.Reactive.Inline.Stacks.{fresh-lt, fresh-length, length-function_names}
pub use axonyx_runtime.Reactive.Inline.Enters.{is_finished, Finished}
use axonyx_runtime.Reactive.Inline.Enters.{
  Finished-bind, Finished-check, find_local-contains, Inside, weight, call-Finished,
}

module _ (functions : List Function) where
  -- With a jump that ends below some weight.
  module _ (jump : Jump) (bound : ℕ)
      (ends : (locals : Locals) (local_stack call_stack : Names) (e : Expr)
        → Inside functions locals
        → weight functions local_stack call_stack < bound
        → Finished (jump locals local_stack call_stack e)) where
    module _ (locals : Locals) (local_stack call_stack : Names) (inside : Inside functions locals)
        (w : weight functions local_stack call_stack ≤ bound) where
      local-Finished :
          (name : List ℕ) (o : Option Expr)
          → find_local name locals ≡ o
          → Finished (expand_local jump locals local_stack call_stack name o)
      local-Finished name none e = refl
      local-Finished name (some v) e = elim (Bool-cases (contains local_stack name)) [
        | inl old ↦ rw old refl
        | inr new ↦
            let param = find_local-contains (all_params functions) name locals v inside e in
            rw new (
              ends locals (local_stack ++ name ∷ []) call_stack v inside (
                unfold weight in
                omega (arith, fresh-lt (all_params functions) local_stack name param new, w)))
      ]

      callee-Finished :
          (path : Names) (count : ℕ) → Finished (callee functions call_stack path count)
      callee-Finished [] count = refl
      callee-Finished (name ∷ []) count =
          Finished-check call_stack name count (find_function name functions)
      callee-Finished (a ∷ b ∷ path) count = refl

      one {κ} :
          {A : Type 0} {B : Type κ} (m : Expanded A) (f : A → Expanded B)
          → Finished m
          → ((a : A) → Finished (f a))
          → Finished (m >>= f)
      one m f h k = Finished-bind m f h (λ a e. k a)

      mutual
        unfolding expand_node

        node-Finished :
            (e : Expr) → Finished (expand_node functions jump locals local_stack call_stack e)
        node-Finished (identifier name) = local-Finished name (find_local name locals) refl
        node-Finished (unary op e) = one _ _ (node-Finished e) (λ e'. refl)
        node-Finished (binary op l r) =
            one _ _ (node-Finished l) (λ l'. one _ _ (node-Finished r) (λ r'. refl))
        node-Finished (index o i) =
            one _ _ (node-Finished o) (λ o'. one _ _ (node-Finished i) (λ i'. refl))
        node-Finished (member o property) = one _ _ (node-Finished o) (λ o'. refl)
        node-Finished (optional_member o property) = one _ _ (node-Finished o) (λ o'. refl)
        node-Finished (call path args) =
            Finished-bind (callee functions call_stack path (length_exprs args)) _
              (callee-Finished path (length_exprs args))
              (λ f e. one _ _ (args-Finished args) (λ values.
                call-Finished functions jump bound ends local_stack call_stack path
                  (length_exprs args) f values w e))
        node-Finished (list items) = one _ _ (items-Finished items) (λ items'. refl)
        node-Finished (object fields) = one _ _ (fields-Finished fields) (λ fields'. refl)
        node-Finished (string value) = refl
        node-Finished (number value) = refl
        node-Finished (float value) = refl
        node-Finished (bool value) = refl

        args-Finished :
            (es : Exprs) → Finished (expand_args functions jump locals local_stack call_stack es)
        args-Finished nil = refl
        args-Finished (cons e es) =
            one _ _ (node-Finished e) (λ e'. one _ _ (args-Finished es) (λ es'. refl))

        items-Finished :
            (es : Exprs) → Finished (expand_items functions jump locals local_stack call_stack es)
        items-Finished nil = refl
        items-Finished (cons e es) =
            one _ _ (node-Finished e) (λ e'. one _ _ (items-Finished es) (λ es'. refl))

        fields-Finished :
            (es : ExprFields)
            → Finished (expand_fields functions jump locals local_stack call_stack es)
        fields-Finished end = refl
        fields-Finished (field k e es) =
            one _ _ (node-Finished e) (λ e'. one _ _ (fields-Finished es) (λ es'. refl))

  expand-Finished :
      (fuel : ℕ) (locals : Locals) (local_stack call_stack : Names) (e : Expr)
      → Inside functions locals
      → weight functions local_stack call_stack < fuel
      → Finished (expand functions fuel locals local_stack call_stack e)
  unfolding expand
  expand-Finished zero locals ls cs e inside w = absurd (omega arith)
  expand-Finished (suc fuel) locals ls cs e inside w =
      node-Finished (expand functions fuel) fuel
        (λ locals' ls' cs' e' inside' w'. expand-Finished fuel locals' ls' cs' e' inside' w') locals
        ls cs inside (omega arith) e

  -- The expansion of an expression always ends, with an expression or with an error: no list of
  -- functions, recursive ones included, takes it more rounds than there are functions and parameters.
  pub expand_pure_reactive_expression-Finished :
      (e : Expr) → Finished (expand_pure_reactive_expression functions e)
  unfolding expand_pure_reactive_expression weight
  expand_pure_reactive_expression-Finished e =
      expand-Finished (suc (length (all_params functions) + length functions)) [] [] [] e tt (
        omega (
          arith,
          fresh-length (all_params functions),
          fresh-length (function_names functions),
          length-function_names functions,
        ))
