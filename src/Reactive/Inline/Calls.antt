-- ===== src/Reactive/Inline/Calls.antt =====
-- A call that `expand_pure_reactive_expression` of crates/axonyx-core/src/ax_parser_auto.rs expands,
-- against its meaning.
use axonyx_runtime.Prelude.{
  ℕ, ◌≤◌, ◌≡◌, arith, refl, sym, ap, ◌∙◌, inl, inr, Bool, true, false, ◌&&◌, Option, none, some,
  List, [], ◌∷◌, ◌++◌, ◌>>=◌, length, Bool-cases, Option-cases, and-eq-true,
}
use mathlib.Core.Path.{subst}
use mathlib.Core.Option.{some-injective}
use axonyx_runtime.Prelude.Bytes.{bytes_eq, contains}
use axonyx_runtime.StateWasm.Value.{ExprValue}
use axonyx_runtime.StateWasm.Operators.{Floats}
use axonyx_runtime.Reactive.Expr.{Expr}
use axonyx_runtime.Reactive.Meaning.{evaluate}
use axonyx_runtime.Reactive.Inline.{
  Names, Param, Function, Expanded, expanded, refused, unfinished, find_local, Locals,
  find_function, Jump, expand_local, check_function, callee, default_value, bind_params,
  expand_call, expand_node, expand_args, expand_items, expand_fields, expand, param_names,
  all_params, expand_pure_reactive_expression,
}
use axonyx_runtime.Reactive.Inline
use axonyx_runtime.Reactive.Inline.Stacks.{or-right, own, find_function-IsFound}
use axonyx_runtime.Reactive.Inline.Enters.{check_function-inv}
use axonyx_runtime.Reactive.Inline.Meaning.{
  Meanings, fits_call, called, default_meaning, bind_values, enter, is_scoped, is_scoped_default,
  is_scoped_function, are_scoped_functions, is_hygienic,
}
use axonyx_runtime.Reactive.Inline.Clean.{is_clean, AreClean}

-- What holds of an expansion's result, if there is one.
abbrev pub Post {ℓ κ} : {A : Type ℓ} → (A → Type κ) → Expanded A → Type κ
Post P (expanded a) = P a
Post P (refused e) = Unit
Post P unfinished = Unit

pub Post-bind {ℓ κ μ ν} :
    {A : Type ℓ} {B : Type κ} (P : A → Type μ) (Q : B → Type ν) (m : Expanded A)
    (f : A → Expanded B)
    → Post P m
    → ((a : A) → P a → Post Q (f a))
    → Post Q (Inline.◌>>=◌ m f)
Post-bind P Q (expanded a) f h k = k a h
Post-bind P Q (refused e) f h k = tt
Post-bind P Q unfinished f h k = tt

pub Post-map {ℓ κ μ} :
    {A : Type ℓ} {P : A → Type κ} {Q : A → Type μ} (m : Expanded A)
    → ((a : A) → P a → Q a)
    → Post P m
    → Post Q m
Post-map (expanded a) f h = f a h
Post-map (refused e) f h = tt
Post-map unfinished f h = tt

abbrev pub keys_of : Locals → Names
keys_of [] = []
keys_of ((k, v) ∷ m) = k ∷ keys_of m

pub find_local-keys :
    (m : Locals) (name : List ℕ) → find_local name m ≡ none → contains (keys_of m) name ≡ false
unfolding find_local
find_local-keys [] name e = refl
find_local-keys ((k, v) ∷ m) name e = elim (Bool-cases (bytes_eq k name)) [
  | inl same ↦ cc (rw (same, find_local) at e)
  | inr other ↦ rw other (find_local-keys m name (rw (other, find_local) at e))
]

true-and : (a b : Bool) → a ≡ true → b ≡ true → (a && b) ≡ true
true-and a b p q = rw (p, q) refl

scoped_function :
    (params : Names) (fs : List Function) (name : List ℕ) (f : Function)
    → are_scoped_functions params fs ≡ true
    → find_function name fs ≡ some f
    → is_scoped_function params [] f.params f.body ≡ true
unfolding find_function
scoped_function params [] name f h e = cc
scoped_function params (g ∷ fs) name f h e =
    let (p, q) = and-eq-true (is_scoped_function params [] g.params g.body) _ h in
    elim (Option-cases (find_function name fs)) [
      | inr (k, found) ↦ scoped_function params fs name f q (found ∙ rw (found, find_function) at e)
      | inl missing ↦ elim (Bool-cases (bytes_eq g.name name)) [
        | inl same ↦
            subst (λ (x : Function). is_scoped_function params [] x.params x.body ≡ true)
              (some-injective _ _ (rw (missing, same, find_function) at e)) p
        | inr other ↦ cc (rw (missing, other, find_function) at e)
      ]
    ]

fits_call_lem : (count : ℕ) (f : Function) → count ≤ length f.params → fits_call count f ≡ some f
fits_call_lem count f h = ground arith

module _ (floats : Floats) (state : List ℕ → Option ExprValue) (functions : List Function) where
  abbrev pub P : Names
  P = all_params functions

  abbrev pub values_of : Locals → Meanings
  values_of [] = []
  values_of ((k, v) ∷ m) = (k, evaluate floats state v) ∷ values_of m

  abbrev pub value_of : Option Expr → Option (Option ExprValue)
  value_of none = none
  value_of (some v) = some (evaluate floats state v)

  pub find_local-values :
      (m : Locals) (name : List ℕ) → find_local name (values_of m) ≡ value_of (find_local name m)
  unfolding find_local
  find_local-values [] name = refl
  find_local-values ((k, v) ∷ m) name = elim (Bool-cases (bytes_eq k name)) [
    | inl same ↦ rw same refl
    | inr other ↦ rw other (find_local-values m name)
  ]

  -- The expression means the value, and can be a local's value.
  abbrev pub IsMeant : Option ExprValue → Expr → Type 0
  IsMeant v e = (v ≡ evaluate floats state e) × (is_clean P e ≡ true)

  abbrev pub AreMeant : List (Option ExprValue) → List Expr → Type 0
  AreMeant [] [] = Unit
  AreMeant (v ∷ vs) (e ∷ es) = IsMeant v e × AreMeant vs es
  AreMeant _ _ = ⊥

  module _ (jump : Jump) (rec : Meanings → Expr → Option ExprValue)
      (meant : (locals : Locals) (local_stack call_stack : Names) (e : Expr)
        → AreClean P locals
        → is_scoped P (keys_of locals) e ≡ true
        → Post (IsMeant (rec (values_of locals) e)) (jump locals local_stack call_stack e))
      (kept : (locals : Locals) (local_stack call_stack : Names) (e : Expr)
        → AreClean P locals
        → is_clean P e ≡ true
        → Post (λ e'. e ≡ e') (jump locals local_stack call_stack e)) where
    default-IsMeant :
        (local_stack call_stack : Names) (name param : List ℕ) (locals : Locals) (o : Option Expr)
        → AreClean P locals
        → is_scoped_default P (keys_of locals) o ≡ true
        → Post
            (λ v.
              (default_meaning rec (values_of locals) o ≡ some (evaluate floats state v))
              × (is_clean P v ≡ true))
            (default_value jump local_stack call_stack name param locals o)
    default-IsMeant ls cs name param locals none c s = tt
    default-IsMeant ls cs name param locals (some d) c s =
        Post-map (jump locals ls cs d) (λ v h. (ap some h.0, h.1)) (meant locals ls cs d c s)

    -- The parameters' values, and that the body can be entered.
    abbrev IsBound : Expr → Option Meanings → Locals → Type 0
    IsBound body bound r =
        (bound ≡ some (values_of r)) × AreClean P r × (is_scoped P (keys_of r) body ≡ true)

    bind_params-IsBound :
        (local_stack call_stack : Names) (name : List ℕ) (body : Expr) (ps : List Param)
        (vs : List (Option ExprValue)) (es : List Expr) (locals : Locals)
        → ((p : List ℕ) → contains (param_names ps) p ≡ true → contains P p ≡ true)
        → AreClean P locals
        → is_scoped_function P (keys_of locals) ps body ≡ true
        → AreMeant vs es
        → Post
            (IsBound body (bind_values rec ps vs (values_of locals)))
            (bind_params jump local_stack call_stack name ps es locals)
    unfolding bind_params bind_values
    bind_params-IsBound ls cs name body [] vs es locals known c s m = (refl, c, s)
    bind_params-IsBound ls cs name body (p ∷ ps) (v ∷ vs) (e ∷ es) locals known c s ((q, d), m) =
        subst
          (λ o.
            Post (IsBound body (bind_values rec ps vs ((p.name, o) ∷ values_of locals)))
              (bind_params jump ls cs name ps es ((p.name, e) ∷ locals)))
          (sym q)
          (bind_params-IsBound ls cs name body ps vs es ((p.name, e) ∷ locals)
            (λ n h. known n (or-right (bytes_eq p.name n) _ h)) ((known p.name (own p ps), d), c)
            (and-eq-true _ _ s).1 m)
    bind_params-IsBound ls cs name body (p ∷ ps) [] [] locals known c s m =
        let (s₁, s₂) = and-eq-true (is_scoped_default P (keys_of locals) p.default) _ s in
        Post-bind _ _ (default_value jump ls cs name p.name locals p.default)
          (λ v. bind_params jump ls cs name ps [] ((p.name, v) ∷ locals))
          (default-IsMeant ls cs name p.name locals p.default c s₁)
          (λ v h.
            subst
              (λ o.
                Post
                  (IsBound body (o >>= λ w. bind_values rec ps [] ((p.name, w) ∷ values_of locals)))
                  (bind_params jump ls cs name ps [] ((p.name, v) ∷ locals)))
              (sym h.0)
              (bind_params-IsBound ls cs name body ps [] [] ((p.name, v) ∷ locals)
                (λ n k. known n (or-right (bytes_eq p.name n) _ k))
                ((known p.name (own p ps), h.1), c) s₂ m))
    bind_params-IsBound ls cs name body (p ∷ ps) [] (e ∷ es) locals known c s m = absurd m
    bind_params-IsBound ls cs name body (p ∷ ps) (v ∷ vs) [] locals known c s m = absurd m

    module _ (hygienic : is_hygienic functions ≡ true) where
      pub call-IsMeant :
          (local_stack call_stack path : Names) (count : ℕ) (f : Function)
          (vs : List (Option ExprValue)) (es : List Expr)
          → callee functions call_stack path count ≡ expanded f
          → AreMeant vs es
          → Post
              (IsMeant (called functions path count >>= enter rec vs))
              (expand_call jump local_stack call_stack f es)
      call-IsMeant ls cs [] count f vs es e m = cc
      call-IsMeant ls cs (a ∷ b ∷ path) count f vs es e m = cc
      call-IsMeant ls cs (name ∷ []) count f vs es e m =
          let (found, _, few) = check_function-inv cs name count (find_function name functions) e in
          let i = find_function-IsFound name functions f found in
          let entered : (called functions (name ∷ []) count >>= enter rec vs) ≡ enter rec vs f =
            rw (found, fits_call_lem count f few) refl in
          subst (λ o. Post (IsMeant o) (expand_call jump ls cs f es)) (sym entered)
            (Post-bind (IsBound f.body (bind_values rec f.params vs [])) _
              (bind_params jump ls (cs ++ f.name ∷ []) f.name f.params es [])
              (λ r. jump r ls (cs ++ f.name ∷ []) f.body)
              (bind_params-IsBound ls (cs ++ f.name ∷ []) f.name f.body f.params vs es [] i.known tt
                (scoped_function P functions name f hygienic found) m)
              (λ r h.
                subst
                  (λ o.
                    Post (IsMeant (o >>= λ b. rec b f.body)) (jump r ls (cs ++ f.name ∷ []) f.body))
                  (sym h.0) (meant r ls (cs ++ f.name ∷ []) f.body h.1 h.2)))
