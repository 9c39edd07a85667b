-- ===== src/Reactive/Inline/Meaning.antt =====
-- What an expression with calls of pure functions means, without expanding it: a call is by name, so
-- an argument that fails does so where it is used. And which names do not clash.
use axonyx_runtime.Prelude.{
  ℕ, zero, suc, Bool, true, false, not, ◌&&◌, ◌||◌, Option, none, some, List, [], ◌∷◌, ltb,
  if◌then◌else◌, ◌>>=◌, length,
}
use axonyx_runtime.Prelude.Bytes.{bytes_eq, contains}
use axonyx_runtime.StateWasm.Value.{ExprValue, Values, Fields}
use axonyx_runtime.StateWasm.Operators.{Floats, Binary, evaluate_binary_opcode, expr_truthy}
use axonyx_runtime.StateWasm.Machine.{negate, get_member}
use axonyx_runtime.Reactive.Expr.{
  not_op, neg, Expr, string, number, float, bool, list, object, identifier, unary, binary, index,
  member, optional_member, call, Exprs, nil, cons, ExprFields, end, field,
}
use axonyx_runtime.Reactive.Compiler.{null_name, length_exprs}
use axonyx_runtime.Reactive.Meaning.{operator}
use axonyx_runtime.Reactive.Inline.{
  Names, Param, Function, Bound, find_local, find_function, all_params,
}

-- The values of names; `none` is a value that fails.
abbrev pub Meanings : Type 0
Meanings = Bound (Option ExprValue)

abbrev pub fits_call : ℕ → Function → Option Function
fits_call count f = if ltb (length f.params) count then none else some f

abbrev pub called : List Function → Names → ℕ → Option Function
called functions (name ∷ []) count = do f ← find_function name functions; fits_call count f
called functions _ count = none

abbrev pub default_meaning :
    (Meanings → Expr → Option ExprValue) → Meanings → Option Expr → Option (Option ExprValue)
default_meaning rec bound none = none
default_meaning rec bound (some d) = some (rec bound d)

unfoldable pub bind_values :
    (Meanings → Expr → Option ExprValue)
    → List Param
    → List (Option ExprValue)
    → Meanings
    → Option Meanings
bind_values rec [] values bound = some bound
bind_values rec (p ∷ ps) (v ∷ vs) bound = bind_values rec ps vs ((p.name, v) ∷ bound)
bind_values rec (p ∷ ps) [] bound = do
  v ← default_meaning rec bound p.default
  bind_values rec ps [] ((p.name, v) ∷ bound)

abbrev pub enter :
    (Meanings → Expr → Option ExprValue) → List (Option ExprValue) → Function → Option ExprValue
enter rec values f = do bound ← bind_values rec f.params values []; rec bound f.body

module _ (floats : Floats) (state : List ℕ → Option ExprValue) (functions : List Function) where
  -- A parameter, or else `null` or a state.
  abbrev pub mean_name : List ℕ → Option (Option ExprValue) → Option ExprValue
  mean_name name (some v) = v
  mean_name name none = if bytes_eq name null_name then some ExprValue.null else state name

  module _ (rec : Meanings → Expr → Option ExprValue) (bound : Meanings) where
    unfoldable mutual
      pub mean : Expr → Option ExprValue
      mean (string value) = some (ExprValue.string value)
      mean (number value) = some (ExprValue.int value)
      mean (float value) = some (ExprValue.float value)
      mean (bool value) = some (ExprValue.bool value)
      mean (identifier name) = mean_name name (find_local name bound)
      mean (unary not_op e) = do v ← mean e; some (ExprValue.bool (not (expr_truthy v)))
      mean (unary neg e) = do v ← mean e; negate v
      mean (binary op l r) = do
        left ← mean l
        right ← mean r
        evaluate_binary_opcode floats (operator op) left right
      mean (index o i) = do
        left ← mean o
        right ← mean i
        evaluate_binary_opcode floats Binary.index left right
      mean (member o property) = do v ← mean o; get_member false property v
      mean (optional_member o property) = do v ← mean o; get_member true property v
      mean (call path args) = do
        f ← called functions path (length_exprs args)
        enter rec (mean_args args) f
      mean (list items) = do values ← mean_items items; some (ExprValue.list values)
      mean (object fields) = do values ← mean_fields fields; some (ExprValue.object values)

      pub mean_args : Exprs → List (Option ExprValue)
      mean_args nil = []
      mean_args (cons e es) = mean e ∷ mean_args es

      pub mean_items : Exprs → Option Values
      mean_items nil = some Values.nil
      mean_items (cons e es) = do v ← mean e; vs ← mean_items es; some (Values.cons v vs)

      pub mean_fields : ExprFields → Option Fields
      mean_fields end = some Fields.end
      mean_fields (field k e fs) = do v ← mean e; vs ← mean_fields fs; some (Fields.field k v vs)

  -- With a number of levels of calls.
  unfoldable pub meaning : ℕ → Meanings → Expr → Option ExprValue
  unfolding mean bind_values find_local find_function
  meaning zero bound e = none
  meaning (suc levels) bound e = mean (meaning levels) bound e

module _ (params : Names) where
  -- No name in the expression is a parameter of any function, but for the given ones.
  unfoldable mutual
    pub is_scoped : Names → Expr → Bool
    is_scoped keys (identifier name) = contains keys name || not (contains params name)
    is_scoped keys (unary op e) = is_scoped keys e
    is_scoped keys (binary op l r) = is_scoped keys l && is_scoped keys r
    is_scoped keys (index o i) = is_scoped keys o && is_scoped keys i
    is_scoped keys (member o property) = is_scoped keys o
    is_scoped keys (optional_member o property) = is_scoped keys o
    is_scoped keys (call path args) = are_scoped keys args
    is_scoped keys (list items) = are_scoped keys items
    is_scoped keys (object fields) = are_scoped_fields keys fields
    is_scoped keys _ = true

    pub are_scoped : Names → Exprs → Bool
    are_scoped keys nil = true
    are_scoped keys (cons e es) = is_scoped keys e && are_scoped keys es

    pub are_scoped_fields : Names → ExprFields → Bool
    are_scoped_fields keys end = true
    are_scoped_fields keys (field k e fs) = is_scoped keys e && are_scoped_fields keys fs

  abbrev pub is_scoped_default : Names → Option Expr → Bool
  is_scoped_default keys none = true
  is_scoped_default keys (some d) = is_scoped keys d

  -- A default sees the parameters before it, the body all of them.
  abbrev pub is_scoped_function : Names → List Param → Expr → Bool
  is_scoped_function keys [] body = is_scoped keys body
  is_scoped_function keys (p ∷ ps) body =
      is_scoped_default keys p.default && is_scoped_function (p.name ∷ keys) ps body

  abbrev pub are_scoped_functions : List Function → Bool
  are_scoped_functions [] = true
  are_scoped_functions (f ∷ fs) = is_scoped_function [] f.params f.body && are_scoped_functions fs

-- No function uses a name that is a parameter of another one.
abbrev pub is_hygienic : List Function → Bool
is_hygienic functions = are_scoped_functions (all_params functions) functions
