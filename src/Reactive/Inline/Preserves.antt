-- ===== src/Reactive/Inline/Preserves.antt =====
-- The expansion of crates/axonyx-core/src/ax_parser_auto.rs against the meaning of its expression.
use axonyx_runtime.Prelude.{
  ℕ, zero, suc, ◌≡◌, refl, sym, ap, ◌∙◌, inl, inr, true, false, not, Option, none, some, List, [],
  ◌∷◌, ◌++◌, ◌>>=◌, Bool-cases, and-eq-true,
}
use mathlib.Core.Path.{subst, ap₂}
use axonyx_runtime.Prelude.Bytes.{contains}
use axonyx_runtime.StateWasm.Value.{ExprValue, Values, Fields}
use axonyx_runtime.StateWasm.Operators.{Floats, Binary, evaluate_binary_opcode, expr_truthy}
use axonyx_runtime.StateWasm.Machine.{negate, get_member}
use axonyx_runtime.Reactive.Expr.{
  not_op, neg, Expr, string, number, float, bool, list, object, identifier, unary, binary, index,
  member, optional_member, call, Exprs, nil, cons, ExprFields, end, field,
}
use axonyx_runtime.Reactive.Compiler.{length_exprs}
use axonyx_runtime.Reactive.Meaning.{operator, evaluate}
use axonyx_runtime.Reactive.Inline.{
  Names, Function, Expanded, expanded, find_local, Locals, Jump, expand_local, callee, expand_call,
  expand_node, expand_args, expand_items, expand_fields, expand, all_params,
  expand_pure_reactive_expression, rounds,
}
use axonyx_runtime.Reactive.Inline.Meaning.{
  Meanings, mean_name, mean, mean_args, mean_items, mean_fields, meaning, is_scoped, are_scoped,
  are_scoped_fields, is_hygienic,
}
use axonyx_runtime.Reactive.Inline.Clean.{is_clean, AreClean, find_local-clean, expand_node-clean}
use axonyx_runtime.Reactive.Inline.Calls.{
  Post, Post-bind, Post-map, keys_of, find_local-keys, values_of, value_of, find_local-values,
  IsMeant, AreMeant, call-IsMeant,
}
use axonyx_runtime.Reactive.Inline.Parts.{
  true-and, or-false-true, Post-self, Post-expanded, AreItems, AreFields, one_part, two_parts,
}

module _ (floats : Floats) (state : List ℕ → Option ExprValue) (functions : List Function) where
  abbrev params : Names
  params = all_params functions

  abbrev Meant : Option ExprValue → Expr → Type 0
  Meant = IsMeant floats state functions

  module _ (jump : Jump) (rec : Meanings → Expr → Option ExprValue)
      (meant : (locals : Locals) (local_stack call_stack : Names) (e : Expr)
        → AreClean params locals
        → is_scoped params (keys_of locals) e ≡ true
        → Post
            (Meant (rec (values_of floats state functions locals) e))
            (jump locals local_stack call_stack e))
      (kept : (locals : Locals) (local_stack call_stack : Names) (e : Expr)
        → AreClean params locals
        → is_clean params e ≡ true
        → Post (λ e'. e ≡ e') (jump locals local_stack call_stack e))
      (hygienic : is_hygienic functions ≡ true) (locals : Locals) (local_stack call_stack : Names)
      (clean : AreClean params locals) where
    abbrev bound : Meanings
    bound = values_of floats state functions locals

    abbrev keys : Names
    keys = keys_of locals

    -- What the expression means, and what becomes of it.
    abbrev means : Expr → Option ExprValue
    means = mean floats state functions rec bound

    abbrev node : Expr → Expanded Expr
    node = expand_node functions jump locals local_stack call_stack

    local-IsMeant :
        (name : List ℕ) (o : Option Expr)
        → find_local name locals ≡ o
        → is_scoped params keys (identifier name) ≡ true
        → Post
            (Meant (mean_name floats state functions name (find_local name bound)))
            (expand_local jump locals local_stack call_stack name o)
    unfolding is_scoped evaluate is_clean
    local-IsMeant name none e s = (
      ap (mean_name floats state functions name) (
          find_local-values floats state functions locals name
          ∙ ap (value_of floats state functions) e),
      or-false-true (contains keys name) _ (find_local-keys locals name e) s,
    )
    local-IsMeant name (some v) e s = elim (Bool-cases (contains local_stack name)) [
      | inl old ↦ rw old tt
      | inr new ↦
          let v_lem = find_local-clean params locals name clean e in
          rw new (
            Post-map (jump locals (local_stack ++ name ∷ []) call_stack v)
              (λ v' same. (
                ap (mean_name floats state functions name) (
                      find_local-values floats state functions locals name
                      ∙ ap (value_of floats state functions) e)
                    ∙ ap (evaluate floats state) same,
                subst (λ (x : Expr). is_clean params x ≡ true) same v_lem,
              ))
              (kept locals (local_stack ++ name ∷ []) call_stack v clean v_lem))
    ]

    mutual
      unfolding expand_node mean evaluate is_clean is_scoped

      node-IsMeant :
          (e : Expr)
          → is_scoped params keys e ≡ true
          → Post
              (Meant (mean floats state functions rec bound e))
              (expand_node functions jump locals local_stack call_stack e)
      node-IsMeant (identifier name) s = local-IsMeant name (find_local name locals) refl s
      node-IsMeant (unary not_op e) s =
          one_part floats state functions (node e) _ (unary not_op)
            (λ o. do v ← o; some (ExprValue.bool (not (expr_truthy v)))) (λ e'. (refl, refl))
            (node-IsMeant e s)
      node-IsMeant (unary neg e) s =
          one_part floats state functions (node e) _ (unary neg) (λ o. do v ← o; negate v)
            (λ e'. (refl, refl)) (node-IsMeant e s)
      node-IsMeant (binary op l r) s =
          let (p, q) = and-eq-true (is_scoped params keys l) (is_scoped params keys r) s in
          two_parts floats state functions (node l) (node r) _ _ (binary op)
            (λ a b. do left ← a; right ← b; evaluate_binary_opcode floats (operator op) left right)
            (λ l' r'. (refl, refl)) (node-IsMeant l p) (node-IsMeant r q)
      node-IsMeant (index o i) s =
          let (p, q) = and-eq-true (is_scoped params keys o) (is_scoped params keys i) s in
          two_parts floats state functions (node o) (node i) _ _ index
            (λ a b. do left ← a; right ← b; evaluate_binary_opcode floats Binary.index left right)
            (λ l' r'. (refl, refl)) (node-IsMeant o p) (node-IsMeant i q)
      node-IsMeant (member o property) s =
          one_part floats state functions (node o) _ (λ e. member e property)
            (λ a. do v ← a; get_member false property v) (λ e'. (refl, refl)) (node-IsMeant o s)
      node-IsMeant (optional_member o property) s =
          one_part floats state functions (node o) _ (λ e. optional_member e property)
            (λ a. do v ← a; get_member true property v) (λ e'. (refl, refl)) (node-IsMeant o s)
      node-IsMeant (call path args) s =
          Post-bind (λ f. callee functions call_stack path (length_exprs args) ≡ expanded f) _
            (callee functions call_stack path (length_exprs args)) _ (Post-self _)
            (λ f found.
              Post-bind
                (AreMeant floats state functions (mean_args floats state functions rec bound args))
                _ (expand_args functions jump locals local_stack call_stack args)
                (λ values. expand_call jump local_stack call_stack f values) (args-AreMeant args s)
                (λ values h.
                  call-IsMeant floats state functions jump rec meant kept hygienic local_stack
                    call_stack path (length_exprs args) f
                    (mean_args floats state functions rec bound args) values found h))
      node-IsMeant (list items) s =
          Post-bind
            (AreItems floats state functions (mean_items floats state functions rec bound items)) _
            (expand_items functions jump locals local_stack call_stack items) _
            (items-IsMeant items s)
            (λ es h. (ap (λ o. o >>= λ vs. some (ExprValue.list vs)) h.0, h.1))
      node-IsMeant (object fields) s =
          Post-bind
            (AreFields floats state functions (mean_fields floats state functions rec bound fields))
            _ (expand_fields functions jump locals local_stack call_stack fields) _
            (fields-IsMeant fields s)
            (λ es h. (ap (λ o. o >>= λ vs. some (ExprValue.object vs)) h.0, h.1))
      node-IsMeant (string value) s = (refl, refl)
      node-IsMeant (number value) s = (refl, refl)
      node-IsMeant (float value) s = (refl, refl)
      node-IsMeant (bool value) s = (refl, refl)

      args-AreMeant :
          (es : Exprs)
          → are_scoped params keys es ≡ true
          → Post
              (AreMeant floats state functions (mean_args floats state functions rec bound es))
              (expand_args functions jump locals local_stack call_stack es)
      args-AreMeant nil s = tt
      args-AreMeant (cons e es) s =
          let (p, q) = and-eq-true (is_scoped params keys e) (are_scoped params keys es) s in
          Post-bind (Meant (mean floats state functions rec bound e)) _
            (expand_node functions jump locals local_stack call_stack e) _ (node-IsMeant e p)
            (λ e' m.
              Post-bind
                (AreMeant floats state functions (mean_args floats state functions rec bound es)) _
                (expand_args functions jump locals local_stack call_stack es)
                (λ es'. expanded (e' ∷ es')) (args-AreMeant es q) (λ es' n. (m, n)))

      items-IsMeant :
          (es : Exprs)
          → are_scoped params keys es ≡ true
          → Post
              (AreItems floats state functions (mean_items floats state functions rec bound es))
              (expand_items functions jump locals local_stack call_stack es)
      items-IsMeant nil s = (refl, refl)
      items-IsMeant (cons e es) s =
          let (p, q) = and-eq-true (is_scoped params keys e) (are_scoped params keys es) s in
          Post-bind (Meant (mean floats state functions rec bound e)) _
            (expand_node functions jump locals local_stack call_stack e) _ (node-IsMeant e p)
            (λ e' m.
              Post-bind
                (AreItems floats state functions (mean_items floats state functions rec bound es)) _
                (expand_items functions jump locals local_stack call_stack es)
                (λ es'. expanded (cons e' es')) (items-IsMeant es q)
                (λ es' n. (
                  ap₂ (λ v vs. do a ← v; as' ← vs; some (Values.cons a as')) m.0 n.0,
                  true-and _ _ m.1 n.1,
                )))

      fields-IsMeant :
          (es : ExprFields)
          → are_scoped_fields params keys es ≡ true
          → Post
              (AreFields floats state functions (mean_fields floats state functions rec bound es))
              (expand_fields functions jump locals local_stack call_stack es)
      fields-IsMeant end s = (refl, refl)
      fields-IsMeant (field k e es) s =
          let (p, q) = and-eq-true (is_scoped params keys e) (are_scoped_fields params keys es) s in
          Post-bind (Meant (mean floats state functions rec bound e)) _
            (expand_node functions jump locals local_stack call_stack e) _ (node-IsMeant e p)
            (λ e' m.
              Post-bind
                (AreFields floats state functions (mean_fields floats state functions rec bound es))
                _ (expand_fields functions jump locals local_stack call_stack es)
                (λ es'. expanded (field k e' es')) (fields-IsMeant es q)
                (λ es' n. (
                  ap₂ (λ v vs. do a ← v; as' ← vs; some (Fields.field k a as')) m.0 n.0,
                  true-and _ _ m.1 n.1,
                )))

  kept_by :
      (fuel : ℕ) (locals : Locals) (local_stack call_stack : Names) (e : Expr)
      → AreClean params locals
      → is_clean params e ≡ true
      → Post (λ e'. e ≡ e') (expand functions fuel locals local_stack call_stack e)
  unfolding expand
  kept_by zero locals ls cs e c h = tt
  kept_by (suc fuel) locals ls cs e c h =
      subst (Post (λ e'. e ≡ e'))
        (sym (expand_node-clean functions (expand functions fuel) locals ls cs params c e h)) refl

  expand-IsMeant :
      (fuel : ℕ) (locals : Locals) (local_stack call_stack : Names) (e : Expr)
      → is_hygienic functions ≡ true
      → AreClean params locals
      → is_scoped params (keys_of locals) e ≡ true
      → Post
          (Meant (meaning floats state functions fuel (values_of floats state functions locals) e))
          (expand functions fuel locals local_stack call_stack e)
  unfolding expand meaning
  expand-IsMeant zero locals ls cs e hygienic c s = tt
  expand-IsMeant (suc fuel) locals ls cs e hygienic c s =
      node-IsMeant (expand functions fuel) (meaning floats state functions fuel)
        (λ locals' ls' cs' e' c' s'. expand-IsMeant fuel locals' ls' cs' e' hygienic c' s')
        (λ locals' ls' cs' e' c' s'. kept_by fuel locals' ls' cs' e' c' s') hygienic locals ls cs c
        e s

  -- If no function and not the expression itself uses a name that is a parameter of another function, an
  -- expansion that succeeds holds no call and no parameter, and has the value that the expression
  -- means with its functions called by name.
  pub expand_pure_reactive_expression-meaning :
      (e e' : Expr)
      → is_hygienic functions ≡ true
      → is_scoped params [] e ≡ true
      → expand_pure_reactive_expression functions e ≡ expanded e'
      → (meaning floats state functions (rounds functions) [] e ≡ evaluate floats state e')
        × (is_clean params e' ≡ true)
  unfolding expand_pure_reactive_expression
  expand_pure_reactive_expression-meaning e e' hygienic s done =
      Post-expanded (Meant (meaning floats state functions (rounds functions) [] e))
        (expand functions (rounds functions) [] [] [] e)
        (expand-IsMeant (rounds functions) [] [] [] e hygienic tt s) done
