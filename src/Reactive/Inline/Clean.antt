-- ===== src/Reactive/Inline/Clean.antt =====
-- What `expand_pure_reactive_expression` of crates/axonyx-core/src/ax_parser_auto.rs leaves alone.
use axonyx_runtime.Prelude.{
  ℕ, ◌≡◌, refl, ap, inl, inr, Bool, true, false, not, ◌&&◌, Option, none, some, List, [], ◌∷◌, All,
  Bool-cases, and-eq-true,
}
use mathlib.Core.Path.{subst}
use axonyx_runtime.Prelude.Bytes.{bytes_eq, bytes_eq→eq, contains}
use axonyx_runtime.Reactive.Expr.{
  Expr, string, number, float, bool, list, object, identifier, unary, binary, index, member,
  optional_member, call, Exprs, nil, cons, ExprFields, end, field,
}
use axonyx_runtime.Reactive.Inline.{
  Names, Function, expanded, find_local, Locals, Jump, expand_node, expand_items, expand_fields,
}

-- Neither a call nor a parameter's name.
unfoldable mutual
  pub is_clean : Names → Expr → Bool
  is_clean params (identifier name) = not (contains params name)
  is_clean params (unary op e) = is_clean params e
  is_clean params (binary op l r) = is_clean params l && is_clean params r
  is_clean params (index o i) = is_clean params o && is_clean params i
  is_clean params (member o property) = is_clean params o
  is_clean params (optional_member o property) = is_clean params o
  is_clean params (call path args) = false
  is_clean params (list items) = are_clean params items
  is_clean params (object fields) = are_clean_fields params fields
  is_clean params _ = true

  pub are_clean : Names → Exprs → Bool
  are_clean params nil = true
  are_clean params (cons e es) = is_clean params e && are_clean params es

  pub are_clean_fields : Names → ExprFields → Bool
  are_clean_fields params end = true
  are_clean_fields params (field k e fs) = is_clean params e && are_clean_fields params fs

-- The locals are parameters with clean values.
abbrev pub AreClean : Names → Locals → Type 0
AreClean params =
    All (λ (l : List ℕ × Expr). (contains params l.0 ≡ true) × (is_clean params l.1 ≡ true))

pub find_local-none :
    (params : Names) (m : Locals) (name : List ℕ)
    → AreClean params m
    → contains params name ≡ false
    → find_local name m ≡ none
unfolding find_local
find_local-none params [] name h n = refl
find_local-none params ((k, v) ∷ m) name ((p, _), h) n = elim (Bool-cases (bytes_eq k name)) [
  | inl same ↦ cc (p, n, ap (contains params) (bytes_eq→eq k name same))
  | inr other ↦ rw other (find_local-none params m name h n)
]

pub find_local-clean :
    (params : Names) (m : Locals) (name : List ℕ) {v : Expr}
    → AreClean params m
    → find_local name m ≡ some v
    → is_clean params v ≡ true
unfolding find_local
find_local-clean params [] name h e = cc
find_local-clean params ((k, v) ∷ m) name ((_, c), h) e = elim (Bool-cases (bytes_eq k name)) [
  | inl same ↦
      subst (λ (x : Expr). is_clean params x ≡ true) (some_inj (rw (same, find_local) at e)) c
  | inr other ↦ find_local-clean params m name h (rw (other, find_local) at e)
]
  where
    some_inj : {x y : Expr} → ◌≡◌ {A = Option Expr} (some x) (some y) → x ≡ y
    some_inj e = cc

not-true : (b : Bool) → not b ≡ true → b ≡ false
not-true true h = cc
not-true false h = refl

module _ (functions : List Function) (jump : Jump) (locals : Locals)
    (local_stack call_stack : Names) (params : Names) (h : AreClean params locals) where
  mutual
    unfolding expand_node is_clean

    -- A clean expression expands to itself.
    pub expand_node-clean :
        (e : Expr)
        → is_clean params e ≡ true
        → expand_node functions jump locals local_stack call_stack e ≡ expanded e
    expand_node-clean (identifier name) c =
        rw (find_local-none params locals name h (not-true (contains params name) c)) refl
    expand_node-clean (unary op e) c = rw (expand_node-clean e c) refl
    expand_node-clean (binary op l r) c =
        let (p, q) = and-eq-true (is_clean params l) (is_clean params r) c in
        rw (expand_node-clean l p, expand_node-clean r q) refl
    expand_node-clean (index o i) c =
        let (p, q) = and-eq-true (is_clean params o) (is_clean params i) c in
        rw (expand_node-clean o p, expand_node-clean i q) refl
    expand_node-clean (member o property) c = rw (expand_node-clean o c) refl
    expand_node-clean (optional_member o property) c = rw (expand_node-clean o c) refl
    expand_node-clean (call path args) c = cc
    expand_node-clean (list items) c = rw (expand_items-clean items c) refl
    expand_node-clean (object fields) c = rw (expand_fields-clean fields c) refl
    expand_node-clean (string value) c = refl
    expand_node-clean (number value) c = refl
    expand_node-clean (float value) c = refl
    expand_node-clean (bool value) c = refl

    expand_items-clean :
        (es : Exprs)
        → are_clean params es ≡ true
        → expand_items functions jump locals local_stack call_stack es ≡ expanded es
    expand_items-clean nil c = refl
    expand_items-clean (cons e es) c =
        let (p, q) = and-eq-true (is_clean params e) (are_clean params es) c in
        rw (expand_node-clean e p, expand_items-clean es q) refl

    expand_fields-clean :
        (es : ExprFields)
        → are_clean_fields params es ≡ true
        → expand_fields functions jump locals local_stack call_stack es ≡ expanded es
    expand_fields-clean end c = refl
    expand_fields-clean (field k e es) c =
        let (p, q) = and-eq-true (is_clean params e) (are_clean_fields params es) c in
        rw (expand_node-clean e p, expand_fields-clean es q) refl
