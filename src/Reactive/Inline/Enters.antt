-- ===== src/Reactive/Inline/Enters.antt =====
-- The calls that `expand_pure_reactive_expression` of crates/axonyx-core/src/ax_parser_auto.rs enters,
-- with a measure of how much deeper it can still go.
use axonyx_runtime.Prelude.{
  ℕ, ◌+◌, ◌≤◌, ◌<◌, ◌≡◌, refl, sym, ap, inl, inr, Bool, true, false, Option, none, some, List, [],
  ◌∷◌, ◌++◌, ltb, length, All, Bool-cases, arith,
}
use mathlib.Core.Path.{subst}
use axonyx_runtime.Prelude.Bytes.{bytes_eq, bytes_eq→eq, contains}
use axonyx_runtime.Reactive.Expr.{Expr}
use axonyx_runtime.Reactive.Inline.{
  Names, Param, Function, Expanded, expanded, refused, unfinished, ◌>>=◌, find_local, Locals,
  find_function, Jump, check_function, callee, default_value, bind_params, expand_call, param_names,
  function_names, all_params,
}
use axonyx_runtime.Reactive.Inline.Stacks.{fresh, fresh-lt, or-right, own, find_function-IsFound}

abbrev pub is_finished {ℓ} : {A : Type ℓ} → Expanded A → Bool
is_finished unfinished = false
is_finished _ = true

-- The fuel was enough.
abbrev pub Finished {ℓ} : {A : Type ℓ} → Expanded A → Type 0
Finished r = is_finished r ≡ true

pub Finished-bind {ℓ κ} :
    {A : Type ℓ} {B : Type κ} (m : Expanded A) (f : A → Expanded B)
    → Finished m
    → ((a : A) → m ≡ expanded a → Finished (f a))
    → Finished (m >>= f)
Finished-bind (expanded a) f h k = k a refl
Finished-bind (refused e) f h k = refl
Finished-bind unfinished f h k = cc

pub Finished-check :
    (stack : Names) (name : List ℕ) (count : ℕ) (o : Option Function)
    → Finished (check_function stack name count o)
Finished-check stack name count none = refl
Finished-check stack name count (some f) = ground arith

pub find_local-contains :
    (xs : Names) (name : List ℕ) (m : Locals) (v : Expr)
    → All (λ (l : List ℕ × Expr). contains xs l.0 ≡ true) m
    → find_local name m ≡ some v
    → contains xs name ≡ true
unfolding find_local
find_local-contains xs name [] v h e = cc
find_local-contains xs name ((k, a) ∷ m) v (p, h) e = elim (Bool-cases (bytes_eq k name)) [
  | inl same ↦ subst (λ n. contains xs n ≡ true) (bytes_eq→eq k name same) p
  | inr other ↦ find_local-contains xs name m v h (rw (other, find_local) at e)
]

expanded_inj {ℓ} : {A : Type ℓ} {a b : A} → expanded a ≡ expanded b → a ≡ b
expanded_inj e = cc

bind-eq-expanded {ℓ κ} :
    {A : Type ℓ} {B : Type κ} (m : Expanded A) (f : A → Expanded B) {b : B}
    → (m >>= f) ≡ expanded b
    → (a : A) × (m ≡ expanded a) × (f a ≡ expanded b)
bind-eq-expanded (expanded a) f h = (a, refl, h)
bind-eq-expanded (refused e) f h = cc
bind-eq-expanded unfinished f h = cc

-- What a call is made of.
pub check_function-inv :
    (stack : Names) (name : List ℕ) (count : ℕ) (o : Option Function) {f : Function}
    → check_function stack name count o ≡ expanded f
    → (o ≡ some f) × (contains stack name ≡ false) × (count ≤ length f.params)
check_function-inv stack name count none e = cc
check_function-inv stack name count (some g) e = elim (Bool-cases (contains stack name)) [
  | inl old ↦ cc (rw old at e)
  | inr new ↦ elim (Bool-cases (ltb (length g.params) count)) [
    | inl many ↦ cc (rw (new, many) at e)
    | inr few ↦
        let same : g ≡ _ = expanded_inj (rw (new, few) at e) in
        (
          ap (λ (h : Function). some h) same,
          new,
          subst (λ (h : Function). count ≤ length h.params) same (ground arith),
        )
  ]
]

module _ (functions : List Function) where
  abbrev pub Inside : Locals → Type 0
  Inside = All (λ (l : List ℕ × Expr). contains (all_params functions) l.0 ≡ true)

  -- How often the expansion can still go deeper.
  unfoldable pub weight : Names → Names → ℕ
  weight local_stack call_stack =
      fresh (all_params functions) local_stack + fresh (function_names functions) call_stack

  -- With a jump that ends below some weight.
  module _ (jump : Jump) (bound : ℕ)
      (ends : (locals : Locals) (local_stack call_stack : Names) (e : Expr)
        → Inside locals
        → weight local_stack call_stack < bound
        → Finished (jump locals local_stack call_stack e)) where
    default-Finished :
        (local_stack call_stack : Names) (name param : List ℕ) (locals : Locals) (o : Option Expr)
        → Inside locals
        → weight local_stack call_stack < bound
        → Finished (default_value jump local_stack call_stack name param locals o)
    default-Finished ls cs name param locals none inside w = refl
    default-Finished ls cs name param locals (some d) inside w = ends locals ls cs d inside w

    bind_params-Finished :
        (local_stack call_stack : Names) (name : List ℕ) (ps : List Param) (values : List Expr)
        (locals : Locals)
        → ((p : List ℕ)
            → contains (param_names ps) p ≡ true
            → contains (all_params functions) p ≡ true)
        → Inside locals
        → weight local_stack call_stack < bound
        → Finished (bind_params jump local_stack call_stack name ps values locals)
    unfolding bind_params
    bind_params-Finished ls cs name [] values locals known inside w = refl
    bind_params-Finished ls cs name (p ∷ ps) (v ∷ vs) locals known inside w =
        bind_params-Finished ls cs name ps vs ((p.name, v) ∷ locals)
          (λ q h. known q (or-right (bytes_eq p.name q) _ h)) (known p.name (own p ps), inside) w
    bind_params-Finished ls cs name (p ∷ ps) [] locals known inside w =
        Finished-bind (default_value jump ls cs name p.name locals p.default) _
          (default-Finished ls cs name p.name locals p.default inside w)
          (λ v e.
            bind_params-Finished ls cs name ps [] ((p.name, v) ∷ locals)
              (λ q h. known q (or-right (bytes_eq p.name q) _ h)) (known p.name (own p ps), inside)
              w)

    bind_params-Inside :
        (local_stack call_stack : Names) (name : List ℕ) (ps : List Param) (values : List Expr)
        (locals r : Locals)
        → ((p : List ℕ)
            → contains (param_names ps) p ≡ true
            → contains (all_params functions) p ≡ true)
        → Inside locals
        → bind_params jump local_stack call_stack name ps values locals ≡ expanded r
        → Inside r
    unfolding bind_params
    bind_params-Inside ls cs name [] values locals r known inside e =
        subst Inside (expanded_inj e) inside
    bind_params-Inside ls cs name (p ∷ ps) (v ∷ vs) locals r known inside e =
        bind_params-Inside ls cs name ps vs ((p.name, v) ∷ locals) r
          (λ q h. known q (or-right (bytes_eq p.name q) _ h)) (known p.name (own p ps), inside) e
    bind_params-Inside ls cs name (p ∷ ps) [] locals r known inside e =
        let (v, _, rest) =
          bind-eq-expanded (default_value jump ls cs name p.name locals p.default) _ e in
        bind_params-Inside ls cs name ps [] ((p.name, v) ∷ locals) r
          (λ q h. known q (or-right (bytes_eq p.name q) _ h)) (known p.name (own p ps), inside) rest

    pub call-Finished :
        (local_stack call_stack : Names) (path : Names) (count : ℕ) (f : Function)
        (values : List Expr)
        → weight local_stack call_stack ≤ bound
        → callee functions call_stack path count ≡ expanded f
        → Finished (expand_call jump local_stack call_stack f values)
    call-Finished ls cs [] count f values w e = cc
    call-Finished ls cs (a ∷ b ∷ path) count f values w e = cc
    call-Finished ls cs (name ∷ []) count f values w e =
        let (found, new, few) = check_function-inv cs name count (find_function name functions) e in
        let i = find_function-IsFound name functions f found in
        let entered = subst (λ n. contains cs n ≡ false) (sym i.named) new in
        let less : weight ls (cs ++ f.name ∷ []) < bound =
          unfold weight in
          omega (arith, fresh-lt (function_names functions) cs f.name i.listed entered, w) in
        Finished-bind (bind_params jump ls (cs ++ f.name ∷ []) f.name f.params values []) _
          (bind_params-Finished ls (cs ++ f.name ∷ []) f.name f.params values [] i.known tt less)
          (λ locals e.
            ends locals ls (cs ++ f.name ∷ []) f.body
              (bind_params-Inside ls (cs ++ f.name ∷ []) f.name f.params values [] locals i.known tt
                e)
              less)
