-- ===== src/Reactive/Correct.antt =====
-- `compile_reactive_expression` of crates/axonyx-core/src/ax_parser_auto.rs against
-- `evaluate_expression_program` of crates/axonyx-state-wasm/src/lib.rs.
use axonyx_runtime.Prelude.{
  ℕ, ◌+◌, ◌≤◌, ◌<◌, ◌≡◌, refl, sym, ◌∙◌, inl, inr, true, not, Option, some, List, [], ◌∷◌, ◌++◌,
  arith, append_assoc, append-nil, length, length-append, Option-cases,
}
use axonyx_runtime.Prelude.Bytes.{to_le_bytes}
use axonyx_runtime.StateWasm.Value.{ExprValue, Values, Fields}
use axonyx_runtime.StateWasm.Cursor.{usize_size}
use axonyx_runtime.StateWasm.Cursor.Laws.{At, At-length}
use axonyx_runtime.StateWasm.Operators.{Floats, Binary, expr_truthy}
use axonyx_runtime.StateWasm.Machine.{
  has_magic, Opcode, stack_max_values, negate, evaluate_expression_program,
}
use axonyx_runtime.StateWasm.Machine.Rounds.{run_end}
use axonyx_runtime.Reactive.Expr.{
  not_op, neg, Expr, string, number, float, bool, list, object, identifier, unary, binary, index,
  member, optional_member, call, Exprs, nil, cons, ExprFields, end, field,
}
use axonyx_runtime.Reactive.Compiler.{
  list_too_long, object_too_long, ok, binary_opcode, push_program_string, reactive_collection_count,
  length_exprs, length_entries, push_keys, compile_node, compile_items, compile_values,
  compile_program,
}
use axonyx_runtime.Reactive.Meaning.{
  operator, evaluate, evaluate_items, evaluate_fields, IsExpr, AreExprs, AreEntries, height,
  height_items, height_entries,
}
use axonyx_runtime.Reactive.Running.{Names, Stack, Binds, Compiled, Compiled-seq, Compiled-done}
use axonyx_runtime.Reactive.Collections.{
  bind-eq-ok, push_string-eq-ok, count-eq-ok, binary_opcode_lem, push_all, push_fields, keys_code,
  push_keys-eq-ok,
}
use axonyx_runtime.Reactive.Literals.{
  height-pos, reached, Compiled-string, Compiled-bool, Compiled-float, Compiled-number,
}
use axonyx_runtime.Reactive.Operations.{
  execute-not_value, execute-neg_value, Compiled-unary, Compiled-binary, Compiled-identifier,
  Compiled-text, Compiled-member, Compiled-optional_member, Compiled-list, Compiled-object,
}

has_magic-program :
    (program code : List ℕ) → program ≡ b'A' ∷ b'X' ∷ b'E' ∷ 1 ∷ code → has_magic program ≡ true
has_magic-program program code e = rw e

starts :
    (program code : List ℕ) → program ≡ b'A' ∷ b'X' ∷ b'E' ∷ 1 ∷ code → At program 4 (code ++ [])
starts program code e = record {
  within = rw e (omega arith);
  behind = rw e (sym (append-nil code));
}

module _ (floats : Floats) (state : List ℕ → Option ExprValue) (states : List (List ℕ)) where
  -- What a part of the compiler's work has to be.
  abbrev Compiles :
      {A : Type 0} → Names → List ℕ → Names × List ℕ → Option A → (A → Stack → Stack) → ℕ → Type 0
  Compiles names program r value push need =
      Compiled floats state names program r.0 r.1 value push need

  mutual
    unfolding compile_node evaluate

    compiled :
        (e : Expr) (names : Names) (program : List ℕ) (r : Names × List ℕ)
        → IsExpr e
        → compile_node states e names program ≡ ok r
        → Compiles names program r (evaluate floats state e) ◌∷◌ (height e)
    compiled (string value) names program r utf8 e =
        let (pushed, p, q) = bind-eq-ok (push_program_string (program ++ 2 ∷ []) value) _ e in
        let (small, pushed_lem) = push_string-eq-ok (program ++ 2 ∷ []) value p in
        reached floats state _ r q (
          Compiled-text 2 value pushed program pushed_lem
            (Compiled-string floats state names program value small utf8))
    compiled (number value) names program r word e =
        reached floats state _ r e (Compiled-number floats state names program value word)
    compiled (float value) names program r (word, finite) e =
        reached floats state _ r e (Compiled-float floats state names program value word finite)
    compiled (bool value) names program r _ e =
        reached floats state _ r e (Compiled-bool floats state names program value)
    compiled (identifier name) names program r _ e =
        Compiled-identifier floats state states name names program r e
    compiled (unary not_op x) names program r is e =
        let (q, p, e') = bind-eq-ok (compile_node states x names program) _ e in
        reached floats state _ r e' (
          Compiled-unary floats state Opcode.not_value
            (λ v. some (ExprValue.bool (not (expr_truthy v)))) (height-pos x)
            (execute-not_value floats) (compiled x names program q is p))
    compiled (unary neg x) names program r is e =
        let (q, p, e') = bind-eq-ok (compile_node states x names program) _ e in
        reached floats state _ r e' (
          Compiled-unary floats state Opcode.neg_value negate (height-pos x)
            (execute-neg_value floats) (compiled x names program q is p))
    compiled (binary op x y) names program r (is, js) e =
        let (q, p, e₁) = bind-eq-ok (compile_node states x names program) _ e in
        let (q', p', e₂) = bind-eq-ok (compile_node states y q.0 q.1) _ e₁ in
        reached floats state _ r e₂ (
          Compiled-binary floats state (operator op) (binary_opcode op) (binary_opcode_lem op)
            (height-pos x) (compiled x names program q is p) (compiled y q.0 q.1 q' js p'))
    compiled (index x y) names program r (is, js) e =
        let (q, p, e₁) = bind-eq-ok (compile_node states x names program) _ e in
        let (q', p', e₂) = bind-eq-ok (compile_node states y q.0 q.1) _ e₁ in
        reached floats state _ r e₂ (
          Compiled-binary floats state Binary.index 40 refl (height-pos x)
            (compiled x names program q is p) (compiled y q.0 q.1 q' js p'))
    compiled (member x property) names program r (is, utf8) e =
        let (q, p, e₁) = bind-eq-ok (compile_node states x names program) _ e in
        let (pushed, p', e₂) = bind-eq-ok (push_program_string (q.1 ++ 41 ∷ []) property) _ e₁ in
        let (small, pushed_lem) = push_string-eq-ok (q.1 ++ 41 ∷ []) property p' in
        reached floats state _ r e₂ (
          Compiled-text 41 property pushed q.1 pushed_lem
            (Compiled-member property (height-pos x) small utf8 (compiled x names program q is p)))
    compiled (optional_member x property) names program r (is, utf8) e =
        let (q, p, e₁) = bind-eq-ok (compile_node states x names program) _ e in
        let (pushed, p', e₂) = bind-eq-ok (push_program_string (q.1 ++ 42 ∷ []) property) _ e₁ in
        let (small, pushed_lem) = push_string-eq-ok (q.1 ++ 42 ∷ []) property p' in
        reached floats state _ r e₂ (
          Compiled-text 42 property pushed q.1 pushed_lem (
            Compiled-optional_member property (height-pos x) small utf8
              (compiled x names program q is p)))
    compiled (call path args) names program r is e = cc
    compiled (list items) names program r is e =
        let (count, few, e₁) =
          bind-eq-ok (reactive_collection_count (length_exprs items) list_too_long) _ e in
        let (bound, count_lem) = count-eq-ok (length_exprs items) list_too_long few in
        let (q, p, e₂) = bind-eq-ok (compile_items states items names program) _ e₁ in
        reached floats state _ r (rw count_lem at e₂)
          (Compiled-list items bound (compiled_items items names program q is p))
    compiled (object fields) names program r is e =
        let (count, few, e₁) =
          bind-eq-ok (reactive_collection_count (length_entries fields) object_too_long) _ e in
        let (bound, count_lem) = count-eq-ok (length_entries fields) object_too_long few in
        let (q, p, e₂) = bind-eq-ok (compile_values states fields names program) _ e₁ in
        let (named, p', e₃) =
          bind-eq-ok (push_keys fields (q.1 ++ 51 ∷ to_le_bytes 2 count)) _ e₂ in
        let (short, named_lem) = push_keys-eq-ok fields (q.1 ++ 51 ∷ to_le_bytes 2 count) p' in
        let code_lem =
          rw count_lem at named_lem
          ∙ append_assoc q.1 (51 ∷ to_le_bytes 2 (length_entries fields)) (keys_code fields) in
        reached floats state _ r (rw code_lem at e₃)
          (Compiled-object fields bound is short (compiled_values fields [] names program q is p))

    compiled_items :
        (es : Exprs) (names : Names) (program : List ℕ) (r : Names × List ℕ)
        → AreExprs es
        → compile_items states es names program ≡ ok r
        → Compiles names program r (evaluate_items floats state es) push_all (height_items es)
    compiled_items nil names program r is e =
        reached floats state _ r e (Compiled-done names program Values.nil push_all (λ stack. refl))
    compiled_items (cons x es) names program r (is, js) e =
        let (q, p, e₁) = bind-eq-ok (compile_node states x names program) _ e in
        Compiled-seq Values.cons push_all (λ a b stack. refl) (compiled x names program q is p)
          (compiled_items es q.0 q.1 r js e₁)

    compiled_values :
        (es : ExprFields) (keys : List (List ℕ)) (names : Names) (program : List ℕ)
        (r : Names × List ℕ)
        → AreEntries keys es
        → compile_values states es names program ≡ ok r
        → Compiles names program r (evaluate_fields floats state es) push_fields (height_entries es)
    compiled_values end keys names program r is e =
        reached floats state _ r e
          (Compiled-done names program Fields.end push_fields (λ stack. refl))
    compiled_values (field k x es) keys names program r (_, _, is, js) e =
        let (q, p, e₁) = bind-eq-ok (compile_node states x names program) _ e in
        Compiled-seq (Fields.field k) push_fields (λ a b stack. refl)
          (compiled x names program q is p) (compiled_values es (k ∷ keys) q.0 q.1 r js e₁)

  -- For an expression as Rust's types and distinct keys allow, with finite floats: a program that
  -- `compile_program` made of it, run on the values of the states that the program depends on,
  -- gives what `evaluate` gives for the expression and fails where `evaluate` does, if the program
  -- is shorter than the address space and the expression needs at most 4,096 values on the stack.
  pub compile_program_correct :
      (e : Expr) (names : Names) (program : List ℕ) (values : List ExprValue)
      → IsExpr e
      → height e ≤ stack_max_values
      → compile_program states e ≡ ok (names, program)
      → length program < usize_size
      → Binds state names values
      → evaluate_expression_program floats program values ≡ evaluate floats state e
  unfolding evaluate_expression_program compile_program
  compile_program_correct e names program values is small compiles fits binds =
      let c = compiled e [] (b'A' ∷ b'X' ∷ b'E' ∷ 1 ∷ []) (names, program) is compiles in
      let p = starts program c.code c.code_lem in
      let runs = c.runs program values 4 [] [] fits binds p (omega (arith, small)) in
      let ends = At-length program 4 (c.code ++ []) p in
      let size = length-append c.code [] in
      let over = λ (stack : Stack).
        run_end floats program values (length program) (4 + length c.code) stack
          (omega (arith, ends, size)) in
      rw (has_magic-program program c.code c.code_lem, runs)
        (elim (Option-cases (evaluate floats state e)) [
          | inl missing ↦ rw missing
          | inr (v, found) ↦ rw (found, over (v ∷ [])) refl
        ])
