-- ===== src/Reactive/Inline/Parts.antt =====
-- An expression and its parts, for `expand_pure_reactive_expression` of
-- crates/axonyx-core/src/ax_parser_auto.rs.
use axonyx_runtime.Prelude.{ℕ, ◌≡◌, refl, sym, ap, ◌∙◌, Bool, true, false, ◌&&◌, ◌||◌, Option, List}
use mathlib.Core.Path.{subst, ap₂}
use axonyx_runtime.StateWasm.Value.{ExprValue, Values, Fields}
use axonyx_runtime.StateWasm.Operators.{Floats}
use axonyx_runtime.Reactive.Expr.{Expr, Exprs, ExprFields}
use axonyx_runtime.Reactive.Meaning.{evaluate, evaluate_items, evaluate_fields}
use axonyx_runtime.Reactive.Inline.{
  Names, Param, Function, Expanded, expanded, refused, unfinished, find_local, Locals,
  find_function, Jump, expand_local, check_function, callee, default_value, bind_params,
  expand_call, expand_node, expand_args, expand_items, expand_fields, expand, param_names,
  all_params, expand_pure_reactive_expression, rounds,
}
use axonyx_runtime.Reactive.Inline
use axonyx_runtime.Reactive.Inline.Clean.{is_clean, are_clean, are_clean_fields}
use axonyx_runtime.Reactive.Inline.Calls.{Post, Post-bind, IsMeant}

pub true-and : (a b : Bool) → a ≡ true → b ≡ true → (a && b) ≡ true
true-and a b p q = rw (p, q) refl

pub or-false-true : (a b : Bool) → a ≡ false → (a || b) ≡ true → b ≡ true
or-false-true true b h k = cc
or-false-true false b h k = k

pub Post-self {ℓ} : {A : Type ℓ} (m : Expanded A) → Post (λ a. m ≡ expanded a) m
Post-self (expanded a) = refl
Post-self (refused e) = tt
Post-self unfinished = tt

pub Post-expanded {ℓ κ} :
    {A : Type ℓ} (P : A → Type κ) (m : Expanded A) {a : A} → Post P m → m ≡ expanded a → P a
Post-expanded P m h e = subst (Post P) e h

module _ (floats : Floats) (state : List ℕ → Option ExprValue) (functions : List Function) where
  abbrev params : Names
  params = all_params functions

  abbrev Meant : Option ExprValue → Expr → Type 0
  Meant = IsMeant floats state functions

  -- One part that is expanded, and what is made of its value.
  pub one_part :
      (m : Expanded Expr) (v : Option ExprValue) (make : Expr → Expr)
      (value : Option ExprValue → Option ExprValue)
      → ((e' : Expr)
          → (evaluate floats state (make e') ≡ value (evaluate floats state e'))
            × (is_clean params (make e') ≡ is_clean params e'))
      → Post (Meant v) m
      → Post (Meant (value v)) (Inline.◌>>=◌ m (λ e'. expanded (make e')))
  one_part m v make value same h =
      Post-bind (Meant v) (Meant (value v)) m (λ e'. expanded (make e')) h
        (λ e' p. (ap value p.0 ∙ sym (same e').0, (same e').1 ∙ p.1))

  pub two_parts :
      (m n : Expanded Expr) (v w : Option ExprValue) (make : Expr → Expr → Expr)
      (value : Option ExprValue → Option ExprValue → Option ExprValue)
      → ((l' r' : Expr)
          → (evaluate floats state (make l' r')
              ≡ value (evaluate floats state l') (evaluate floats state r'))
            × (is_clean params (make l' r') ≡ (is_clean params l' && is_clean params r')))
      → Post (Meant v) m
      → Post (Meant w) n
      → Post
          (Meant (value v w))
          (Inline.◌>>=◌ m (λ l'. Inline.◌>>=◌ n (λ r'. expanded (make l' r'))))
  two_parts m n v w make value same h k = Post-bind (Meant v) (Meant (value v w)) m _ h (λ l' p.
      Post-bind (Meant w) (Meant (value v w)) n _ k
        (λ r' q. (ap₂ value p.0 q.0 ∙ sym (same l' r').0, (same l' r').1 ∙ true-and _ _ p.1 q.1)))

  abbrev pub AreItems : Option Values → Exprs → Type 0
  AreItems v es = (v ≡ evaluate_items floats state es) × (are_clean params es ≡ true)

  abbrev pub AreFields : Option Fields → ExprFields → Type 0
  AreFields v es = (v ≡ evaluate_fields floats state es) × (are_clean_fields params es ≡ true)
