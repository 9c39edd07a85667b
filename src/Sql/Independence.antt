-- ===== src/Sql/Independence.antt =====
-- The text of a statement of crates/axonyx-core/src/ax_sql.rs against the values in its plan.
use axonyx_runtime.Prelude.{
  ℕ, ◌+◌, ◌≡◌, refl, ap, Option, none, some, List, [], ◌∷◌, ◌++◌, length, length-append, arith,
}
use mathlib.Core.Path.{ap₂}
use axonyx_runtime.Prelude.Bytes.{ascii}
use axonyx_runtime.Sql.Plan.{
  Text, Dialect, RustExpr, Assignment, Filter, FilterOp, eq, ne, in_list, not_in, is_null,
  is_not_null, Param, Context, Result, ok, err, Error, ◌>>=◌, placeholder, join,
}
use axonyx_runtime.Sql.Clauses.{
  comma_space, push_sql_param, push_values, operator, list_clause, clause_of, equality_clause,
}
use axonyx_runtime.Sql.Lists.{filter_list_values}

-- Two results that are the same error, or two values in the relation.
pub data Same {ℓ κ} {A : Type ℓ} (R : A → A → Type κ) : Result A → Result A → Type (ℓ ⊔ κ) where
  values : {a b : A} → R a b → Same R (ok a) (ok b)
  errors : {e : Error} → Same R (err e) (err e)

pub Same-bind {ℓ κ ℓ' κ'} :
    {A : Type ℓ} {B : Type ℓ'} {R : A → A → Type κ} {S : B → B → Type κ'} {m n : Result A}
    {f g : A → Result B}
    → Same R m n
    → ((a b : A) → R a b → Same S (f a) (g b))
    → Same S (m >>= f) (n >>= g)
Same-bind (values h) k = k _ _ h
Same-bind errors k = errors

pub Same-refl {ℓ} : {A : Type ℓ} (m : Result A) → Same ◌≡◌ m m
Same-refl (ok a) = values refl
Same-refl (err e) = errors

-- The same steps before, whatever they give.
pub Same-after {ℓ ℓ' κ} :
    {A : Type ℓ} {B : Type ℓ'} {S : B → B → Type κ} (m : Result A) {f g : A → Result B}
    → ((a : A) → Same S (f a) (g a))
    → Same S (m >>= f) (m >>= g)
Same-after (ok a) k = k a
Same-after (err e) k = errors

pub list_length : Option (List RustExpr) → Option ℕ
list_length none = none
list_length (some vs) = some (length vs)

-- What the text may depend on: how many values a list filter has, and nothing of other values.
unfoldable pub value_count : FilterOp → RustExpr → Option ℕ
unfolding list_length filter_list_values
value_count in_list value = list_length (filter_list_values value)
value_count not_in value = list_length (filter_list_values value)
value_count _ value = none

-- The same fields and operators, and lists of the same lengths.
abbrev pub Alike : List Filter → List Filter → Type 0
Alike [] [] = Unit
Alike (f ∷ fs) (g ∷ gs) =
    ((f.field ≡ g.field) × (f.op ≡ g.op) × (value_count f.op f.value ≡ value_count f.op g.value))
    × Alike fs gs
Alike _ _ = ⊥

abbrev pub SameNames : List Assignment → List Assignment → Type 0
SameNames [] [] = Unit
SameNames (f ∷ fs) (g ∷ gs) = (f.name ≡ g.name) × SameNames fs gs
SameNames _ _ = ⊥

-- The same text, and as many parameters.
abbrev pub Parallel {ℓ} : {A : Type ℓ} → A × List Param → A × List Param → Type ℓ
Parallel r s = (r.0 ≡ s.0) × (length r.1 ≡ length s.1)

pub push-Parallel :
    (d : Dialect) (ps qs : List Param) (v w : RustExpr)
    → length ps ≡ length qs
    → Parallel (push_sql_param ps v d) (push_sql_param qs w d)
unfolding push_sql_param
push-Parallel d ps qs v w h =
    let p : Param = record { index = length ps + 1; value = v } in
    let q : Param = record { index = length qs + 1; value = w } in
    (
      ap (λ (n : ℕ). placeholder d (n + 1)) h,
      omega (arith, h, length-append ps (p ∷ []), length-append qs (q ∷ [])),
    )

push_values-Parallel :
    (d : Dialect) (ps qs : List Param) (vs ws : List RustExpr)
    → length ps ≡ length qs
    → length vs ≡ length ws
    → Parallel (push_values ps vs d) (push_values qs ws d)
unfolding push_values
push_values-Parallel d ps qs [] [] h e = (refl, h)
push_values-Parallel d ps qs [] (w ∷ ws) h e = absurd (omega arith)
push_values-Parallel d ps qs (v ∷ vs) [] h e = absurd (omega arith)
push_values-Parallel d ps qs (v ∷ vs) (w ∷ ws) h e =
    let (marks, lengths) = push-Parallel d ps qs v w h in
    let (rest, lengths') =
      push_values-Parallel d (push_sql_param ps v d).1 (push_sql_param qs w d).1 vs ws lengths
        (omega arith) in
    (ap₂ ◌∷◌ marks rest, lengths')

list-Same :
    (d : Dialect) (op : FilterOp) (a b : Option (List RustExpr)) (field : Text) (ps qs : List Param)
    (context : Context)
    → length ps ≡ length qs
    → list_length a ≡ list_length b
    → Same Parallel (list_clause op a field d ps context) (list_clause op b field d qs context)
unfolding list_length
list-Same d op none none field ps qs context h e = errors
list-Same d op none (some ws) field ps qs context h e = cc
list-Same d op (some vs) none field ps qs context h e = cc
list-Same d op (some []) (some []) field ps qs context h e = values (refl, h)
list-Same d op (some []) (some (w ∷ ws)) field ps qs context h e = absurd (ground arith)
list-Same d op (some (v ∷ vs)) (some []) field ps qs context h e = absurd (ground arith)
list-Same d op (some (v ∷ vs)) (some (w ∷ ws)) field ps qs context h e =
    let (marks, lengths) = push_values-Parallel d ps qs (v ∷ vs) (w ∷ ws) h (ground arith) in
    values (
      ap
          (λ ts.
            field ++ (b' ' ∷ (operator op ++ (ascii " (" ++ (join comma_space ts ++ ascii ")")))))
          marks,
      lengths,
    )

equality-Parallel :
    (d : Dialect) (op : FilterOp) (v w : RustExpr) (field : Text) (ps qs : List Param)
    → length ps ≡ length qs
    → Parallel (equality_clause op v field d ps) (equality_clause op w field d qs)
equality-Parallel d op v w field ps qs h =
    let (marks, lengths) = push-Parallel d ps qs v w h in
    (ap (λ t. field ++ (b' ' ∷ (operator op ++ b' ' ∷ t))) marks, lengths)

pub clause-Same :
    (d : Dialect) (op : FilterOp) (v w : RustExpr) (field : Text) (ps qs : List Param)
    (context : Context)
    → length ps ≡ length qs
    → value_count op v ≡ value_count op w
    → Same Parallel (clause_of op v field d ps context) (clause_of op w field d qs context)
unfolding value_count
clause-Same d eq v w field ps qs context h e = values (equality-Parallel d eq v w field ps qs h)
clause-Same d ne v w field ps qs context h e = values (equality-Parallel d ne v w field ps qs h)
clause-Same d in_list v w field ps qs context h e =
    list-Same d in_list (filter_list_values v) (filter_list_values w) field ps qs context h e
clause-Same d not_in v w field ps qs context h e =
    list-Same d not_in (filter_list_values v) (filter_list_values w) field ps qs context h e
clause-Same d is_null v w field ps qs context h e = values (refl, h)
clause-Same d is_not_null v w field ps qs context h e = values (refl, h)
