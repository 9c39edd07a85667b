-- ===== src/Sql/Params.antt =====
-- The parameters that the clauses of crates/axonyx-core/src/ax_sql.rs push, against their placeholders.
use axonyx_runtime.Prelude.{
  ℕ, suc, ◌+◌, ◌≡◌, refl, ◌∙◌, Option, none, some, List, [], ◌∷◌, ◌++◌, length, length-append,
  arith,
}
use axonyx_runtime.Sql.Plan.{
  Text, Dialect, RustExpr, Filter, FilterOp, eq, ne, in_list, not_in, is_null, is_not_null, Param,
  Context, Result, join, Ensures, holds, failed, Ensures-bind,
}
use axonyx_runtime.Sql.Clauses.{
  comma_space, push_sql_param, push_values, operator, list_clause, clause_of, equality_clause,
  compile_filter_clause_with_field, compile_filters,
}
use axonyx_runtime.Sql.Lists.{filter_list_values}
use axonyx_runtime.Sql.Counting.{count, count_all, mark_of, count-placeholder}
use axonyx_runtime.Sql.Marks.{
  marks, IsBare, marks-equality, marks-list, marks-is_null, marks-is_not_null, marks-operator,
  marks-empty_list, marks-comma,
}

-- The indices count up from `k`.
abbrev pub NumberedFrom : ℕ → List Param → Type 0
NumberedFrom k [] = Unit
NumberedFrom k (p ∷ ps) = (p.index ≡ k) × NumberedFrom (suc k) ps

pub numbered-append :
    (k : ℕ) (ps : List Param) (p : Param)
    → NumberedFrom k ps
    → p.index ≡ length ps + k
    → NumberedFrom k (ps ++ p ∷ [])
numbered-append k [] p h e = (omega (arith, e), tt)
numbered-append k (q ∷ ps) p (here, h) e = (here, numbered-append (suc k) ps p h (omega (arith, e)))

-- From `before` to `after` there are `n` more parameters, numbered on.
pub record Adds (n : ℕ) (before after : List Param) : Type 0 where
  pub counted : n + length before ≡ length after
  pub numbered : NumberedFrom 1 before → NumberedFrom 1 after

pub Adds-none : {n : ℕ} (ps : List Param) → n ≡ 0 → Adds n ps ps
Adds-none ps e = record { counted = omega (arith, e); numbered = λ h. h }

pub Adds-both :
    {n m k : ℕ} {before between after : List Param}
    → Adds n before between
    → Adds m between after
    → k ≡ n + m
    → Adds k before after
Adds-both a b e = record {
  counted = omega (arith, a.counted, b.counted, e);
  numbered = λ h. b.numbered (a.numbered h);
}

pub Adds-eq :
    {n m : ℕ} {before after : List Param} → Adds n before after → m ≡ n → Adds m before after
Adds-eq a e = record { counted = omega (arith, a.counted, e); numbered = a.numbered }

pub push-Adds :
    (d : Dialect) (ps : List Param) (v : RustExpr)
    → Adds (count (mark_of d) (push_sql_param ps v d).0) ps (push_sql_param ps v d).1
unfolding push_sql_param
push-Adds d ps v =
    let p : Param = record { index = length ps + 1; value = v } in
    record {
      counted = omega (arith, count-placeholder d (length ps + 1), length-append ps (p ∷ []));
      numbered = λ h. numbered-append 1 ps p h refl;
    }

push_values-Adds :
    (d : Dialect) (ps : List Param) (vs : List RustExpr)
    → Adds (count_all (mark_of d) (push_values ps vs d).0) ps (push_values ps vs d).1
unfolding push_values count_all
push_values-Adds d ps [] = Adds-none ps refl
push_values-Adds d ps (v ∷ vs) =
    Adds-both (push-Adds d ps v) (push_values-Adds d (push_sql_param ps v d).1 vs) refl

abbrev AddsText : Dialect → List Param → Text × List Param → Type 0
AddsText d ps r = Adds (count (mark_of d) r.0) ps r.1

list-Adds :
    (d : Dialect) (op : FilterOp) (vs : Option (List RustExpr)) (field : Text) (ps : List Param)
    (context : Context)
    → marks d field ≡ 0
    → Ensures (AddsText d ps) (list_clause op vs field d ps context)
list-Adds d op none field ps context f = failed
list-Adds d op (some []) field ps context f = holds (Adds-none ps (marks-empty_list d op context))
list-Adds d op (some (v ∷ vs)) field ps context f =
    let listed = (push_values ps (v ∷ vs) d).0 in
    holds (
      Adds-eq (push_values-Adds d ps (v ∷ vs)) (
        omega (
          arith,
          marks-list d field (operator op) (join comma_space listed),
          marks-comma d listed,
          marks-operator d op,
          f,
        )))

equality-Adds :
    (d : Dialect) (op : FilterOp) (v : RustExpr) (field : Text) (ps : List Param)
    → marks d field ≡ 0
    → AddsText d ps (equality_clause op v field d ps)
equality-Adds d op v field ps f = Adds-eq (push-Adds d ps v) (
    omega (
      arith,
      marks-equality d field (operator op) (push_sql_param ps v d).0,
      marks-operator d op,
      f,
    ))

clause-Adds :
    (d : Dialect) (op : FilterOp) (v : RustExpr) (field : Text) (ps : List Param)
    (context : Context)
    → marks d field ≡ 0
    → Ensures (AddsText d ps) (clause_of op v field d ps context)
clause-Adds d eq v field ps context f = holds (equality-Adds d eq v field ps f)
clause-Adds d ne v field ps context f = holds (equality-Adds d ne v field ps f)
clause-Adds d in_list v field ps context f =
    list-Adds d in_list (filter_list_values v) field ps context f
clause-Adds d not_in v field ps context f =
    list-Adds d not_in (filter_list_values v) field ps context f
clause-Adds d is_null v field ps context f = holds (Adds-none ps (marks-is_null d field ∙ f))
clause-Adds d is_not_null v field ps context f =
    holds (Adds-none ps (marks-is_not_null d field ∙ f))

abbrev pub AddsTexts : Dialect → List Param → List Text × List Param → Type 0
AddsTexts d ps r = Adds (count_all (mark_of d) r.0) ps r.1

pub filters-Adds :
    (field_of : Text → Result Text) (d : Dialect) (context : Context) (fs : List Filter)
    (ps : List Param)
    → ((field : Text) → Ensures (IsBare d) (field_of field))
    → Ensures (AddsTexts d ps) (compile_filters field_of d context fs ps)
unfolding compile_filters count_all compile_filter_clause_with_field
filters-Adds field_of d context [] ps bare = holds (Adds-none ps refl)
filters-Adds field_of d context (f ∷ fs) ps bare = Ensures-bind (bare f.field) λ field e.
    Ensures-bind (clause-Adds d f.op f.value field ps context e) λ r a.
      Ensures-bind (filters-Adds field_of d context fs r.1 bare) λ r' b. holds (Adds-both a b refl)
