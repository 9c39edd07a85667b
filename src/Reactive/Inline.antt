-- ===== src/Reactive/Inline.antt =====
-- `expand_pure_reactive_expression` of crates/axonyx-core/src/ax_parser_auto.rs, which puts the bodies
-- of pure functions in place of their calls. The two stacks are restored wherever the code goes on, so
-- they are passed in; a map of locals is the list of what was inserted, the latest first. The code's
-- recursion into a local's value, a default or a body takes fuel, `jump` is the call with one less.
mod Stacks
mod Enters
pub mod Finishes
pub mod Meaning
mod Clean
mod Calls
mod Parts
pub mod Preserves
pub mod Capture
use axonyx_runtime.Prelude.{
  ℕ, zero, suc, ◌+◌, Bool, true, false, Option, none, some, List, [], ◌∷◌, ◌++◌, ltb, if◌then◌else◌,
  length,
}
use axonyx_runtime.Prelude.Bytes.{bytes_eq, contains}
use axonyx_runtime.Reactive.Expr.{
  Expr, string, number, float, bool, list, object, identifier, unary, binary, index, member,
  optional_member, call, Exprs, nil, cons, ExprFields, end, field,
}
use axonyx_runtime.Reactive.Compiler.{length_exprs}

abbrev pub Names : Type 0
Names = List (List ℕ)

-- `AxComponentParamDef`, less its type, which is not read here, and `AxFunctionDef`.
pub record Param : Type 0 where
  pub name : List ℕ
  pub default : Option Expr

pub record Function : Type 0 where
  pub name : List ℕ
  pub params : List Param
  pub body : Expr

pub data ExpandError : Type 0 where
  recursive_parameter : List ℕ → ExpandError
  not_pure_function : Names → ExpandError
  recursive_call : Names → ExpandError
  too_many_arguments : List ℕ → ℕ → ℕ → ExpandError
  missing_argument : List ℕ → List ℕ → ExpandError

-- `unfinished` means that the fuel ran out.
pub data Expanded {ℓ} (A : Type ℓ) : Type ℓ where
  expanded : A → Expanded A
  refused : ExpandError → Expanded A
  unfinished : Expanded A

infixl 5 ◌>>=◌
abbrev pub ◌>>=◌ {ℓ κ} : {A : Type ℓ} {B : Type κ} → Expanded A → (A → Expanded B) → Expanded B
expanded a >>= f = f a
refused e >>= f = refused e
unfinished >>= f = unfinished

abbrev pub Bound : Type 0 → Type 0
Bound A = List (List ℕ × A)

unfoldable pub find_local : {A : Type 0} → List ℕ → Bound A → Option A
find_local name [] = none
find_local name ((k, a) ∷ m) = if bytes_eq k name then some a else find_local name m

abbrev pub Locals : Type 0
Locals = Bound Expr

-- `functions.iter().rev().find(…)`
unfoldable pub find_function : List ℕ → List Function → Option Function
find_function name [] = none
find_function name (f ∷ fs) = elim (find_function name fs) [
  | some g ↦ some g
  | none ↦ if bytes_eq f.name name then some f else none
]

abbrev pub Jump : Type 0
Jump = Locals → Names → Names → Expr → Expanded Expr

abbrev pub expand_local : Jump → Locals → Names → Names → List ℕ → Option Expr → Expanded Expr
expand_local jump locals local_stack call_stack name none = expanded (identifier name)
expand_local jump locals local_stack call_stack name (some value) =
    if contains local_stack name
    then refused (recursive_parameter name)
    else jump locals (local_stack ++ name ∷ []) call_stack value

-- The checks on a function that is found; `count` is the number of arguments.
abbrev pub check_function : Names → List ℕ → ℕ → Option Function → Expanded Function
check_function call_stack name count none = refused (not_pure_function (name ∷ []))
check_function call_stack name count (some f) =
    if contains call_stack name
    then refused (recursive_call (call_stack ++ name ∷ []))
    else if ltb (length f.params) count
    then refused (too_many_arguments name (length f.params) count)
    else expanded f

abbrev pub callee : List Function → Names → Names → ℕ → Expanded Function
callee functions call_stack (name ∷ []) count =
    check_function call_stack name count (find_function name functions)
callee functions call_stack path count = refused (not_pure_function path)

-- The default of a parameter that no argument is given for.
abbrev pub default_value :
    Jump → Names → Names → List ℕ → List ℕ → Locals → Option Expr → Expanded Expr
default_value jump local_stack call_stack name param locals none =
    refused (missing_argument name param)
default_value jump local_stack call_stack name param locals (some d) =
    jump locals local_stack call_stack d

-- The loop over the parameters.
unfoldable pub bind_params :
    Jump → Names → Names → List ℕ → List Param → List Expr → Locals → Expanded Locals
bind_params jump local_stack call_stack name [] values locals = expanded locals
bind_params jump local_stack call_stack name (p ∷ ps) (v ∷ vs) locals =
    bind_params jump local_stack call_stack name ps vs ((p.name, v) ∷ locals)
bind_params jump local_stack call_stack name (p ∷ ps) [] locals = do
  v ← default_value jump local_stack call_stack name p.name locals p.default
  bind_params jump local_stack call_stack name ps [] ((p.name, v) ∷ locals)

-- The call of a function, with its arguments expanded.
abbrev pub expand_call : Jump → Names → Names → Function → List Expr → Expanded Expr
expand_call jump local_stack call_stack f values = do
  locals ← bind_params jump local_stack (call_stack ++ f.name ∷ []) f.name f.params values []
  jump locals local_stack (call_stack ++ f.name ∷ []) f.body

module _ (functions : List Function) (jump : Jump) (locals : Locals)
    (local_stack call_stack : Names) where
  unfoldable mutual
    pub expand_node : Expr → Expanded Expr
    expand_node (identifier name) =
        expand_local jump locals local_stack call_stack name (find_local name locals)
    expand_node (unary op e) = do e' ← expand_node e; expanded (unary op e')
    expand_node (binary op l r) = do
      l' ← expand_node l
      r' ← expand_node r
      expanded (binary op l' r')
    expand_node (index o i) = do o' ← expand_node o; i' ← expand_node i; expanded (index o' i')
    expand_node (member o property) = do o' ← expand_node o; expanded (member o' property)
    expand_node (optional_member o property) = do
      o' ← expand_node o
      expanded (optional_member o' property)
    expand_node (call path args) = do
      f ← callee functions call_stack path (length_exprs args)
      values ← expand_args args
      expand_call jump local_stack call_stack f values
    expand_node (list items) = do items' ← expand_items items; expanded (list items')
    expand_node (object fields) = do fields' ← expand_fields fields; expanded (object fields')
    expand_node (string value) = expanded (string value)
    expand_node (number value) = expanded (number value)
    expand_node (float value) = expanded (float value)
    expand_node (bool value) = expanded (bool value)

    pub expand_args : Exprs → Expanded (List Expr)
    expand_args nil = expanded []
    expand_args (cons e es) = do e' ← expand_node e; es' ← expand_args es; expanded (e' ∷ es')

    pub expand_items : Exprs → Expanded Exprs
    expand_items nil = expanded nil
    expand_items (cons e es) = do e' ← expand_node e; es' ← expand_items es; expanded (cons e' es')

    pub expand_fields : ExprFields → Expanded ExprFields
    expand_fields end = expanded end
    expand_fields (field k e fs) = do
      e' ← expand_node e
      fs' ← expand_fields fs
      expanded (field k e' fs')

unfoldable pub expand : List Function → ℕ → Jump
unfolding expand_node find_local find_function bind_params
expand functions zero locals local_stack call_stack e = unfinished
expand functions (suc fuel) locals local_stack call_stack e =
    expand_node functions (expand functions fuel) locals local_stack call_stack e

abbrev pub param_names : List Param → Names
param_names [] = []
param_names (p ∷ ps) = p.name ∷ param_names ps

abbrev pub function_names : List Function → Names
function_names [] = []
function_names (f ∷ fs) = f.name ∷ function_names fs

-- The parameters of all functions.
abbrev pub all_params : List Function → Names
all_params [] = []
all_params (f ∷ fs) = param_names f.params ++ all_params fs

-- Every local and every function is entered once at most.
abbrev pub rounds : List Function → ℕ
rounds functions = suc (length (all_params functions) + length functions)

-- As `compile_reactive_expression` calls it.
unfoldable pub expand_pure_reactive_expression : List Function → Expr → Expanded Expr
unfolding expand
expand_pure_reactive_expression functions e = expand functions (rounds functions) [] [] [] e
