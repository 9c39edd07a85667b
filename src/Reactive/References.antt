-- ===== src/Reactive/References.antt =====
-- `expression_references_state` of crates/axonyx-core/src/ax_parser_auto.rs, which decides whether an
-- expression is compiled at all.
use axonyx_runtime.Prelude.{
  ℕ, ◌≡◌, refl, ap, ◌∙◌, sym, inl, inr, Bool, true, false, ◌||◌, List, [], ◌∷◌, ◌++◌, Bool-cases,
}
use axonyx_runtime.Prelude.Bytes.{to_le_bytes, bytes_eq, contains}
use axonyx_runtime.Reactive.Expr.{
  Expr, string, number, float, bool, list, object, identifier, unary, binary, index, member,
  optional_member, call, Exprs, nil, cons, ExprFields, end, field,
}
use axonyx_runtime.Reactive.Compiler.{
  list_too_long, object_too_long, ok, null_name, push_program_string, reactive_collection_count,
  push_keys, length_exprs, length_entries, compile_node, compile_items, compile_values,
  compile_program,
}
use axonyx_runtime.Reactive.Running.{Names}
use axonyx_runtime.Reactive.Collections.{bind-eq-ok, ok_inj}

module _ (states : Names) where
  unfoldable mutual
    pub references_state : Expr → Bool
    references_state (identifier name) = contains states name
    references_state (unary op e) = references_state e
    references_state (binary op l r) = references_state l || references_state r
    references_state (index o i) = references_state o || references_state i
    references_state (member o property) = references_state o
    references_state (optional_member o property) = references_state o
    references_state (call path args) = any_references args
    references_state (list items) = any_references items
    references_state (object fields) = any_value_references fields
    references_state _ = false

    pub any_references : Exprs → Bool
    any_references nil = false
    any_references (cons e es) = references_state e || any_references es

    pub any_value_references : ExprFields → Bool
    any_value_references end = false
    any_value_references (field k e fs) = references_state e || any_value_references fs

or-false : (a b : Bool) → (a || b) ≡ false → (a ≡ false) × (b ≡ false)
or-false true b e = cc
or-false false b e = (refl, e)

-- The table that a result holds.
table : (r q : Names × List ℕ) → ok q ≡ ok r → q.0 ≡ r.0
table r q e = ap (λ t. t.0) (ok_inj e)

module _ (states : Names) where
  mutual
    unfolding compile_node references_state

    compile-table :
        (e : Expr) (names : Names) (program : List ℕ) (r : Names × List ℕ)
        → references_state states e ≡ false
        → compile_node states e names program ≡ ok r
        → names ≡ r.0
    compile-table (string value) names program r f e =
        let (pushed, _, q) = bind-eq-ok (push_program_string (program ++ 2 ∷ []) value) _ e in
        table r _ q
    compile-table (number value) names program r f e = table r _ e
    compile-table (float value) names program r f e = table r _ e
    compile-table (bool value) names program r f e = table r _ e
    compile-table (identifier name) names program r f e =
        elim (Bool-cases (bytes_eq name null_name)) [
          | inl null ↦ table r _ (rw null at e)
          | inr named ↦ cc (rw (named, f) at e)
        ]
    compile-table (unary op x) names program r f e =
        let (q, p, e₁) = bind-eq-ok (compile_node states x names program) _ e in
        compile-table x names program q f p ∙ table r _ e₁
    compile-table (binary op x y) names program r f e =
        let (f₁, f₂) = or-false _ _ f in
        let (q, p, e₁) = bind-eq-ok (compile_node states x names program) _ e in
        let (q', p', e₂) = bind-eq-ok (compile_node states y q.0 q.1) _ e₁ in
        compile-table x names program q f₁ p ∙ compile-table y q.0 q.1 q' f₂ p' ∙ table r _ e₂
    compile-table (index x y) names program r f e =
        let (f₁, f₂) = or-false _ _ f in
        let (q, p, e₁) = bind-eq-ok (compile_node states x names program) _ e in
        let (q', p', e₂) = bind-eq-ok (compile_node states y q.0 q.1) _ e₁ in
        compile-table x names program q f₁ p ∙ compile-table y q.0 q.1 q' f₂ p' ∙ table r _ e₂
    compile-table (member x property) names program r f e =
        let (q, p, e₁) = bind-eq-ok (compile_node states x names program) _ e in
        let (pushed, _, e₂) = bind-eq-ok (push_program_string (q.1 ++ 41 ∷ []) property) _ e₁ in
        compile-table x names program q f p ∙ table r _ e₂
    compile-table (optional_member x property) names program r f e =
        let (q, p, e₁) = bind-eq-ok (compile_node states x names program) _ e in
        let (pushed, _, e₂) = bind-eq-ok (push_program_string (q.1 ++ 42 ∷ []) property) _ e₁ in
        compile-table x names program q f p ∙ table r _ e₂
    compile-table (call path args) names program r f e = cc
    compile-table (list items) names program r f e =
        let (count, _, e₁) =
          bind-eq-ok (reactive_collection_count (length_exprs items) list_too_long) _ e in
        let (q, p, e₂) = bind-eq-ok (compile_items states items names program) _ e₁ in
        compile_items-table items names program q f p ∙ table r _ e₂
    compile-table (object fields) names program r f e =
        let (count, _, e₁) =
          bind-eq-ok (reactive_collection_count (length_entries fields) object_too_long) _ e in
        let (q, p, e₂) = bind-eq-ok (compile_values states fields names program) _ e₁ in
        let (named, _, e₃) = bind-eq-ok (push_keys fields (q.1 ++ 51 ∷ to_le_bytes 2 count)) _ e₂ in
        compile_values-table fields names program q f p ∙ table r _ e₃

    compile_items-table :
        (es : Exprs) (names : Names) (program : List ℕ) (r : Names × List ℕ)
        → any_references states es ≡ false
        → compile_items states es names program ≡ ok r
        → names ≡ r.0
    compile_items-table nil names program r f e = table r _ e
    compile_items-table (cons x es) names program r f e =
        let (f₁, f₂) = or-false _ _ f in
        let (q, p, e₁) = bind-eq-ok (compile_node states x names program) _ e in
        compile-table x names program q f₁ p ∙ compile_items-table es q.0 q.1 r f₂ e₁

    compile_values-table :
        (es : ExprFields) (names : Names) (program : List ℕ) (r : Names × List ℕ)
        → any_value_references states es ≡ false
        → compile_values states es names program ≡ ok r
        → names ≡ r.0
    compile_values-table end names program r f e = table r _ e
    compile_values-table (field k x es) names program r f e =
        let (f₁, f₂) = or-false _ _ f in
        let (q, p, e₁) = bind-eq-ok (compile_node states x names program) _ e in
        compile-table x names program q f₁ p ∙ compile_values-table es q.0 q.1 r f₂ e₁

  -- An expression for which the check finds no reference to a state compiles, if it compiles, to a program
  -- that depends on no state.
  compile_program-table :
      (e : Expr) (names : Names) (program : List ℕ)
      → references_state states e ≡ false
      → compile_program states e ≡ ok (names, program)
      → names ≡ []
  unfolding compile_program
  compile_program-table e names program f compiles =
      sym (compile-table e [] (b'A' ∷ b'X' ∷ b'E' ∷ 1 ∷ []) (names, program) f compiles)
