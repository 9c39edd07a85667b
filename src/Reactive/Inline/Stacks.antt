-- ===== src/Reactive/Inline/Stacks.antt =====
-- The two stacks of `expand_pure_reactive_expression` in crates/axonyx-core/src/ax_parser_auto.rs, of
-- parameters and of functions, and the functions that it finds.
use axonyx_runtime.Prelude.{
  ℕ, suc, ◌+◌, ◌≤◌, ◌<◌, ◌≡◌, refl, ap, ◌∙◌, inl, inr, Bool, true, false, ◌||◌, none, some, List,
  [], ◌∷◌, ◌++◌, if◌then◌else◌, length, Bool-cases, Option-cases, arith,
}
use mathlib.Core.Option.{some-injective}
use mathlib.Core.Path.{subst}
use axonyx_runtime.Prelude.Bytes.{bytes_eq, bytes_eq→eq, bytes_eq_refl, contains}
use axonyx_runtime.Reactive.Inline.{
  Names, Param, Function, find_function, param_names, function_names, all_params,
}

-- How many of the names are not on the stack.
unfoldable pub fresh : Names → Names → ℕ
fresh [] stack = 0
fresh (x ∷ xs) stack = (if contains stack x then 0 else 1) + fresh xs stack

pub contains-append :
    (xs ys : Names) (name : List ℕ)
    → contains (xs ++ ys) name ≡ (contains xs name || contains ys name)
contains-append [] ys name = refl
contains-append (x ∷ xs) ys name = ground (arith, contains-append xs ys name)

pub fresh-le : (xs stack : Names) (name : List ℕ) → fresh xs (stack ++ name ∷ []) ≤ fresh xs stack
unfolding fresh
fresh-le [] stack name = omega arith
fresh-le (x ∷ xs) stack name =
    ground (arith, contains-append stack (name ∷ []) x, fresh-le xs stack name)

pub fresh-lt :
    (xs stack : Names) (name : List ℕ)
    → contains xs name ≡ true
    → contains stack name ≡ false
    → fresh xs (stack ++ name ∷ []) < fresh xs stack
unfolding fresh
fresh-lt [] stack name h k = cc
fresh-lt (x ∷ xs) stack name h k = elim (Bool-cases (bytes_eq x name)) [
  | inl same ↦
      let x_lem = bytes_eq→eq x name same in
      ground (
        arith,
        ap (contains stack) x_lem,
        contains-append stack (name ∷ []) x,
        fresh-le xs stack name,
      )
  | inr other ↦ ground (arith, contains-append stack (name ∷ []) x, fresh-lt xs stack name)
]

pub fresh-length : (xs : Names) → fresh xs [] ≡ length xs
unfolding fresh
fresh-length [] = refl
fresh-length (x ∷ xs) = omega (arith, fresh-length xs)

pub length-function_names : (fs : List Function) → length (function_names fs) ≡ length fs
length-function_names [] = refl
length-function_names (f ∷ fs) = ap suc (length-function_names fs)

-- What `find_function` knows of a function.
pub record IsFound (functions : List Function) (name : List ℕ) (f : Function) : Type 0 where
  pub named : f.name ≡ name
  pub listed : contains (function_names functions) f.name ≡ true
  pub known :
      (p : List ℕ)
      → contains (param_names f.params) p ≡ true
      → contains (all_params functions) p ≡ true

pub or-right : (a b : Bool) → b ≡ true → (a || b) ≡ true
or-right true b h = refl
or-right false b h = h

pub find_function-IsFound :
    (name : List ℕ) (fs : List Function) (f : Function)
    → find_function name fs ≡ some f
    → IsFound fs name f
unfolding find_function
find_function-IsFound name [] f e = cc
find_function-IsFound name (g ∷ fs) f e = elim (Option-cases (find_function name fs)) [
  | inr (h, found) ↦
      let same = some-injective _ _ (rw (found, find_function) at e) in
      let i = find_function-IsFound name fs f (found ∙ ap (λ (k : Function). some k) same) in
      record {
        named = i.named;
        listed = or-right (bytes_eq g.name f.name) _ i.listed;
        known = λ p h.
            contains-append (param_names g.params) (all_params fs) p
            ∙ or-right (contains (param_names g.params) p) _ (i.known p h);
      }
  | inl missing ↦ here g fs f (rw (missing, find_function) at e)
]
  where
    here :
        (g : Function) (fs : List Function) (f : Function)
        → (if bytes_eq g.name name then some g else none) ≡ some f
        → IsFound (g ∷ fs) name f
    here g fs f e = elim (Bool-cases (bytes_eq g.name name)) [
      | inr other ↦ cc (rw other at e)
      | inl same ↦
          let g_lem = some-injective _ _ (rw same at e) in
          subst (IsFound (g ∷ fs) name) g_lem (record {
            named = bytes_eq→eq g.name name same;
            listed = ap (λ b. b || contains (function_names fs) g.name) (bytes_eq_refl g.name);
            known = λ p h.
                contains-append (param_names g.params) (all_params fs) p
                ∙ ap (λ b. b || contains (all_params fs) p) h;
          })
    ]

pub own : (p : Param) (ps : List Param) → contains (param_names (p ∷ ps)) p.name ≡ true
own p ps = ap (λ b. b || contains (param_names ps) p.name) (bytes_eq_refl p.name)
