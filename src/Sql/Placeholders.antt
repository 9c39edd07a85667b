-- ===== src/Sql/Placeholders.antt =====
-- The placeholders of the statements of crates/axonyx-core/src/ax_sql.rs against their parameters.
use axonyx_runtime.Prelude.{ℕ, ◌≡◌, refl, not, List, [], ◌∷◌, length, arith}
use axonyx_runtime.Sql.Plan.{
  Text, Dialect, Assignment, Filter, Query, Param, Statement, query, mutation, Result, ok, err,
  quote_ident, join, Ensures, holds, failed, Ensures-bind, Ensures-ok, Ensures-require,
  empty_mutation_fields, empty_delete_filters,
}
use axonyx_runtime.Sql.Clauses.{comma_space, push_sql_param, mutation_field, compile_query_field}
use axonyx_runtime.Sql.Compile.{
  collection_of, compile_query_plan_to_sql, where_text, query_text, insert_fields, update_fields,
  compile_insert_plan_to_sql, compile_update_plan_to_sql, compile_delete_plan_to_sql, join_texts,
  and_word, select_text, is_empty,
}
use axonyx_runtime.Sql.Counting.{count-append, count_all, mark_of}
use axonyx_runtime.Sql.Marks.{
  marks, IsBare, marks-assignment, marks-comma, marks-and, marks-insert, marks-update, marks-delete,
  marks-where_text, marks-order_text, marks-limit, marks-offset,
}
use axonyx_runtime.Sql.Params.{
  NumberedFrom, Adds, Adds-none, Adds-both, push-Adds, AddsTexts, filters-Adds,
}
use axonyx_runtime.Sql.Bare.{
  quote-IsBare, mutation_field-IsBare, query_field-IsBare, orders-IsBare, joins-IsBare,
  select_text-IsBare,
}

-- As many placeholders as parameters, whose indices count up from 1.
pub record IsBound (d : Dialect) (s : Statement) : Type 0 where
  pub counted : marks d s.sql ≡ length s.params
  pub numbered : NumberedFrom 1 s.params

Adds-IsBound :
    {d : Dialect} {s : Statement} {n : ℕ} → Adds n [] s.params → marks d s.sql ≡ n → IsBound d s
Adds-IsBound a e = record { counted = omega (arith, a.counted, e); numbered = a.numbered tt }

insert_fields-Adds :
    (d : Dialect) (fields : List Assignment) (ps : List Param)
    → Ensures
        (λ r. (count_all (mark_of d) r.0 ≡ 0) × Adds (count_all (mark_of d) r.1.0) ps r.1.1)
        (insert_fields d fields ps)
unfolding insert_fields count_all
insert_fields-Adds d [] ps = holds (refl, Adds-none ps refl)
insert_fields-Adds d (f ∷ fs) ps = Ensures-bind (quote-IsBare d f.name) λ _ p.
    Ensures-bind (insert_fields-Adds d fs (push_sql_param ps f.value d).1)
      λ r (cols, a). holds (omega (arith, p, cols), Adds-both (push-Adds d ps f.value) a refl)

update_fields-Adds :
    (d : Dialect) (fields : List Assignment) (ps : List Param)
    → Ensures (AddsTexts d ps) (update_fields d fields ps)
unfolding update_fields count_all
update_fields-Adds d [] ps = holds (Adds-none ps refl)
update_fields-Adds d (f ∷ fs) ps =
    let (mark, ps1) = push_sql_param ps f.value d in
    Ensures-bind (quote-IsBare d f.name) λ _ p. Ensures-bind (update_fields-Adds d fs ps1) λ r a.
      holds (
        Adds-both (push-Adds d ps f.value) a
          (omega (arith, marks-assignment d (quote_ident d f.name) mark, p)))

insert-IsBound :
    (d : Dialect) (collection : Text) (fields : List Assignment)
    → Ensures (IsBound d) (compile_insert_plan_to_sql collection fields d)
unfolding compile_insert_plan_to_sql
insert-IsBound d collection fields = Ensures-bind (quote-IsBare d collection) λ _ p.
    Ensures-bind (Ensures-require (not (is_empty fields)) empty_mutation_fields) λ _ _.
      Ensures-bind (insert_fields-Adds d fields []) λ r (cols, a). holds (
        Adds-IsBound a (
          omega (
            arith,
            marks-insert d (quote_ident d collection) (join comma_space r.0)
                (join comma_space r.1.0),
            marks-comma d r.0,
            marks-comma d r.1.0,
            p,
            cols,
          )))

update-IsBound :
    (d : Dialect) (collection : Text) (fields : List Assignment) (filters : List Filter)
    → Ensures (IsBound d) (compile_update_plan_to_sql collection fields filters d)
unfolding compile_update_plan_to_sql
update-IsBound d collection fields filters = Ensures-bind (quote-IsBare d collection) λ _ p.
    Ensures-bind (Ensures-require (not (is_empty fields)) empty_mutation_fields) λ _ _.
      Ensures-bind (update_fields-Adds d fields []) λ r a.
        Ensures-bind
          (filters-Adds (mutation_field d) d mutation filters r.1 (mutation_field-IsBare d))
          λ r' b. holds (
            Adds-IsBound (Adds-both a b refl) (
              omega (
                arith,
                marks-update d (quote_ident d collection) (join comma_space r.0) (where_text r'.0),
                marks-comma d r.0,
                marks-where_text d r'.0,
                p,
              )))

delete-IsBound :
    (d : Dialect) (collection : Text) (filters : List Filter)
    → Ensures (IsBound d) (compile_delete_plan_to_sql collection filters d)
unfolding compile_delete_plan_to_sql
delete-IsBound d collection filters = Ensures-bind (quote-IsBare d collection) λ _ p.
    Ensures-bind (Ensures-require (not (is_empty filters)) empty_delete_filters) λ _ _.
      Ensures-bind (filters-Adds (mutation_field d) d mutation filters [] (mutation_field-IsBare d))
        λ r a. holds (
          Adds-IsBound a (
            omega (
              arith,
              marks-delete d (quote_ident d collection) (join and_word r.0),
              marks-and d r.0,
              p,
            )))

marks-query_text :
    (d : Dialect) (collection : Text) (plan : Query) (clauses orders : List Text)
    → IsBare d (select_text d collection plan.joins)
    → IsBare d (join_texts d collection plan.joins)
    → count_all (mark_of d) orders ≡ 0
    → marks d (query_text d collection plan clauses orders) ≡ count_all (mark_of d) clauses
unfolding query_text
marks-query_text d collection plan clauses orders p q r = simp count-append (
    omega (
      arith,
      p,
      q,
      r,
      marks-where_text d clauses,
      marks-order_text d orders,
      marks-limit d plan.limit,
      marks-offset d plan.offset,
    ))

query-IsBound :
    (d : Dialect) (plan : Query) → Ensures (IsBound d) (compile_query_plan_to_sql plan d)
unfolding compile_query_plan_to_sql
query-IsBound d plan = Ensures-bind (any_collection (collection_of plan.source)) λ collection _.
    Ensures-bind (quote-IsBare d collection) λ _ p.
      Ensures-bind (joins-IsBare d collection (collection ∷ []) plan.joins p) λ qualifiers q.
        let qualify = not (is_empty plan.joins) in
        let field_of = compile_query_field collection qualifiers qualify d in
        let bare = λ (field : Text). query_field-IsBare collection qualifiers qualify d field p in
        Ensures-bind (filters-Adds field_of d query plan.filters [] bare) λ r a.
          Ensures-bind (orders-IsBare field_of d plan.orders bare) λ orders o. holds (
            Adds-IsBound a (
              marks-query_text d collection plan r.0 orders
                (select_text-IsBare d collection plan.joins p) q o))
  where
    any_collection : (r : Result Text) → Ensures (λ _. Unit {0}) r
    any_collection (ok t) = holds tt
    any_collection (err e) = failed

-- A query that compiles, in any dialect, has in its text as many placeholders as parameters, and the
-- parameters' indices are 1, 2, 3 and so on.
pub query-placeholders :
    (d : Dialect) (plan : Query) {s : Statement}
    → compile_query_plan_to_sql plan d ≡ ok s
    → IsBound d s
query-placeholders d plan e = Ensures-ok (query-IsBound d plan) e

-- An insert, an update or a delete that compiles, in any dialect, has in its text as many
-- placeholders as parameters, and the parameters' indices are 1, 2, 3 and so on.
pub mutation-placeholders :
    (d : Dialect) (collection : Text) (fields : List Assignment) (filters : List Filter)
    → Ensures (IsBound d) (compile_insert_plan_to_sql collection fields d)
      × Ensures (IsBound d) (compile_update_plan_to_sql collection fields filters d)
      × Ensures (IsBound d) (compile_delete_plan_to_sql collection filters d)
mutation-placeholders d collection fields filters = (
  insert-IsBound d collection fields,
  update-IsBound d collection fields filters,
  delete-IsBound d collection filters,
)
