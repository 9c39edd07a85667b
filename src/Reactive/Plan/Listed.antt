-- ===== src/Reactive/Plan/Listed.antt =====
-- The dependencies of a program that `compile_reactive_expression_node` of
-- crates/axonyx-core/src/ax_parser_auto.rs makes are states.
use axonyx_runtime.Prelude.{
  ℕ, zero, suc, ◌^◌, ◌≡◌, refl, sym, ap, ◌∙◌, inl, inr, true, some, List, [], ◌∷◌, ◌++◌, ltb, All,
  All-append, Bool-cases, Option-cases, get_elem?, >>=-eq-some,
}
use mathlib.Core.Path.{subst}
use mathlib.Core.Option.{some-injective}
use axonyx_runtime.Prelude.Bytes.{to_le_bytes, bytes_eq, contains}
use axonyx_runtime.Reactive.Expr.{
  Expr, string, number, float, bool, list, object, identifier, unary, binary, index, member,
  optional_member, call, Exprs, nil, cons, ExprFields, end, field,
}
use axonyx_runtime.Reactive.Compiler.{
  list_too_long, object_too_long, ok, null_name, push_program_string, reactive_collection_count,
  intern, position, push_keys, length_exprs, length_entries, push_dependency, compile_identifier,
  compile_node, compile_items, compile_values,
}
use axonyx_runtime.Reactive.Collections.{bind-eq-ok, ok_inj}
use axonyx_runtime.Reactive.Inline.{Names, find_local}
use axonyx_runtime.Reactive.Plan.{StateBinding, States, state_names, bindings_of, each}

module _ (states : Names) where
  abbrev pub Listed : Names → Type 0
  Listed = All (λ name. contains states name ≡ true)

  intern-Listed :
      (name : List ℕ) (names : Names)
      → contains states name ≡ true
      → Listed names
      → Listed (intern name names).1
  unfolding intern
  intern-Listed name names h l = elim (Option-cases (position name names)) [
    | inl missing ↦ rw (missing, intern) (All-append _ names (name ∷ []) l (h, tt))
    | inr (i, found) ↦ rw (found, intern) l
  ]

  -- The table of a result.
  kept :
      (names : Names) (program : List ℕ) (r : Names × List ℕ)
      → Listed names
      → ok (names, program) ≡ ok r
      → Listed r.0
  kept names program r l e = subst Listed (ap (λ (t : Names × List ℕ). t.0) (ok_inj e)) l

  dependency-Listed :
      (name : List ℕ) (names : Names) (program : List ℕ) (r : Names × List ℕ)
      → contains states name ≡ true
      → Listed names
      → push_dependency name names program ≡ ok r
      → Listed r.0
  unfolding push_dependency
  dependency-Listed name names program r h l e =
      elim (Bool-cases (ltb (intern name names).0 (2 ^ 16))) [
        | inl few ↦ kept (intern name names).1 _ r (intern-Listed name names h l) (rw few at e)
        | inr many ↦ cc (rw many at e)
      ]

  identifier-Listed :
      (name : List ℕ) (names : Names) (program : List ℕ) (r : Names × List ℕ)
      → Listed names
      → compile_identifier states name names program ≡ ok r
      → Listed r.0
  identifier-Listed name names program r l e = elim (Bool-cases (bytes_eq name null_name)) [
    | inl null ↦ kept names _ r l (rw null at e)
    | inr named ↦ elim (Bool-cases (contains states name)) [
      | inl known ↦ dependency-Listed name names program r known l (rw (named, known) at e)
      | inr other ↦ cc (rw (named, other) at e)
    ]
  ]

  mutual
    unfolding compile_node

    pub compile_node-Listed :
        (e : Expr) (names : Names) (program : List ℕ) (r : Names × List ℕ)
        → Listed names
        → compile_node states e names program ≡ ok r
        → Listed r.0
    compile_node-Listed (string value) names program r l e =
        let (pushed, _, q) = bind-eq-ok (push_program_string (program ++ 2 ∷ []) value) _ e in
        kept names _ r l q
    compile_node-Listed (number value) names program r l e = kept names _ r l e
    compile_node-Listed (float value) names program r l e = kept names _ r l e
    compile_node-Listed (bool value) names program r l e = kept names _ r l e
    compile_node-Listed (identifier name) names program r l e =
        identifier-Listed name names program r l e
    compile_node-Listed (unary op x) names program r l e =
        let (q, p, e₁) = bind-eq-ok (compile_node states x names program) _ e in
        kept q.0 _ r (compile_node-Listed x names program q l p) e₁
    compile_node-Listed (binary op x y) names program r l e =
        let (q, p, e₁) = bind-eq-ok (compile_node states x names program) _ e in
        let (q', p', e₂) = bind-eq-ok (compile_node states y q.0 q.1) _ e₁ in
        kept q'.0 _ r
          (compile_node-Listed y q.0 q.1 q' (compile_node-Listed x names program q l p) p') e₂
    compile_node-Listed (index x y) names program r l e =
        let (q, p, e₁) = bind-eq-ok (compile_node states x names program) _ e in
        let (q', p', e₂) = bind-eq-ok (compile_node states y q.0 q.1) _ e₁ in
        kept q'.0 _ r
          (compile_node-Listed y q.0 q.1 q' (compile_node-Listed x names program q l p) p') e₂
    compile_node-Listed (member x property) names program r l e =
        let (q, p, e₁) = bind-eq-ok (compile_node states x names program) _ e in
        let (pushed, _, e₂) = bind-eq-ok (push_program_string (q.1 ++ 41 ∷ []) property) _ e₁ in
        kept q.0 _ r (compile_node-Listed x names program q l p) e₂
    compile_node-Listed (optional_member x property) names program r l e =
        let (q, p, e₁) = bind-eq-ok (compile_node states x names program) _ e in
        let (pushed, _, e₂) = bind-eq-ok (push_program_string (q.1 ++ 42 ∷ []) property) _ e₁ in
        kept q.0 _ r (compile_node-Listed x names program q l p) e₂
    compile_node-Listed (call path args) names program r l e = cc
    compile_node-Listed (list items) names program r l e =
        let (count, _, e₁) =
          bind-eq-ok (reactive_collection_count (length_exprs items) list_too_long) _ e in
        let (q, p, e₂) = bind-eq-ok (compile_items states items names program) _ e₁ in
        kept q.0 _ r (items-Listed items names program q l p) e₂
    compile_node-Listed (object fields) names program r l e =
        let (count, _, e₁) =
          bind-eq-ok (reactive_collection_count (length_entries fields) object_too_long) _ e in
        let (q, p, e₂) = bind-eq-ok (compile_values states fields names program) _ e₁ in
        let (named, _, e₃) = bind-eq-ok (push_keys fields (q.1 ++ 51 ∷ to_le_bytes 2 count)) _ e₂ in
        kept q.0 _ r (values-Listed fields names program q l p) e₃

    items-Listed :
        (es : Exprs) (names : Names) (program : List ℕ) (r : Names × List ℕ)
        → Listed names
        → compile_items states es names program ≡ ok r
        → Listed r.0
    items-Listed nil names program r l e = kept names _ r l e
    items-Listed (cons x es) names program r l e =
        let (q, p, e₁) = bind-eq-ok (compile_node states x names program) _ e in
        items-Listed es q.0 q.1 r (compile_node-Listed x names program q l p) e₁

    values-Listed :
        (es : ExprFields) (names : Names) (program : List ℕ) (r : Names × List ℕ)
        → Listed names
        → compile_values states es names program ≡ ok r
        → Listed r.0
    values-Listed end names program r l e = kept names _ r l e
    values-Listed (field k x es) names program r l e =
        let (q, p, e₁) = bind-eq-ok (compile_node states x names program) _ e in
        values-Listed es q.0 q.1 r (compile_node-Listed x names program q l p) e₁

find_local-listed :
    (states : States) (name : List ℕ)
    → contains (state_names states) name ≡ true
    → (b : StateBinding) × (find_local name states ≡ some b)
unfolding find_local
find_local-listed [] name h = cc
find_local-listed ((k, b) ∷ states) name h = elim (Bool-cases (bytes_eq k name)) [
  | inl same ↦ (b, rw same refl)
  | inr other ↦
      let (b', found) = find_local-listed states name (rw other at h) in (b', rw other found)
]

-- Every name of the table has its binding.
pub bindings_of-Listed :
    (states : States) (names : Names)
    → Listed (state_names states) names
    → (bs : List StateBinding) × (bindings_of states names ≡ some bs)
unfolding bindings_of
bindings_of-Listed states [] l = ([], refl)
bindings_of-Listed states (name ∷ names) (h, l) =
    let (b, found) = find_local-listed states name h in
    let (bs, rest) = bindings_of-Listed states names l in (b ∷ bs, rw (found, rest) refl)

pub bindings_of-elem :
    (states : States) (names : Names) (f : StateBinding → List ℕ) (i : ℕ) {bs : List StateBinding}
    {name : List ℕ}
    → bindings_of states names ≡ some bs
    → get_elem? names i ≡ some name
    → (b : StateBinding) × (find_local name states ≡ some b)
      × (get_elem? (each f bs) i ≡ some (f b))
unfolding bindings_of
bindings_of-elem states [] f i e g = cc
bindings_of-elem states (n ∷ names) f zero e g =
    let (b, found, e₁) = >>=-eq-some (find_local n states) _ e in
    let (bs', rest, e₂) = >>=-eq-some (bindings_of states names) _ e₁ in
    (
      b,
      ap (λ k. find_local k states) (sym (some-injective _ _ g)) ∙ found,
      ap (λ xs. get_elem? (each f xs) 0) (sym (some-injective _ _ e₂)),
    )
bindings_of-elem states (n ∷ names) f (suc i) e g =
    let (b, found, e₁) = >>=-eq-some (find_local n states) _ e in
    let (bs', rest, e₂) = >>=-eq-some (bindings_of states names) _ e₁ in
    let (b', found', at_i) = bindings_of-elem states names f i rest g in
    (b', found', ap (λ xs. get_elem? (each f xs) (suc i)) (sym (some-injective _ _ e₂)) ∙ at_i)
