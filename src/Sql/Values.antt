-- ===== src/Sql/Values.antt =====
-- The statements of crates/axonyx-core/src/ax_sql.rs for plans that differ in their values alone.
use axonyx_runtime.Prelude.{◌≡◌, refl, ap, not, List, [], ◌∷◌, ◌++◌, length}
use mathlib.Core.Path.{ap₂, subst}
use axonyx_runtime.Prelude.Bytes.{ascii}
use axonyx_runtime.Sql.Plan.{
  Text, Dialect, RustExpr, Assignment, Filter, FilterOp, Query, Param, Statement, Context, query,
  mutation, Result, ok, ◌>>=◌, require, validate_ident, quote_ident, join, empty_mutation_fields,
  empty_delete_filters,
}
use axonyx_runtime.Sql.Clauses.{
  comma_space, push_sql_param, clause_of, compile_filter_clause_with_field, mutation_field,
  compile_query_field, compile_filters,
}
use axonyx_runtime.Sql.Compile.{
  and_word, is_empty, compile_orders, check_joins, collection_of, compile_query_plan_to_sql,
  query_text, where_text, insert_fields, update_fields, compile_insert_plan_to_sql,
  compile_update_plan_to_sql, compile_delete_plan_to_sql,
}
use axonyx_runtime.Sql.Independence.{
  Same, values, Same-bind, Same-after, Alike, SameNames, Parallel, push-Parallel, clause-Same,
}

-- One round of the loop over the filters, on a filter's fields.
abbrev round :
    (Text → Result Text)
    → Dialect
    → Context
    → Text
    → FilterOp
    → RustExpr
    → List Filter
    → List Param
    → Result (List Text × List Param)
round field_of d context field op value fs ps = field_of field >>= λ name.
    clause_of op value name d ps context >>= λ c.
    compile_filters field_of d context fs c.1 >>= λ r. ok (c.0 ∷ r.0, r.1)

filters-Same :
    (field_of : Text → Result Text) (d : Dialect) (context : Context) (fs gs : List Filter)
    (ps qs : List Param)
    → length ps ≡ length qs
    → Alike fs gs
    → Same Parallel
        (compile_filters field_of d context fs ps)
        (compile_filters field_of d context gs qs)
unfolding compile_filters compile_filter_clause_with_field
filters-Same field_of d context [] [] ps qs h a = values (refl, h)
filters-Same field_of d context [] (g ∷ gs) ps qs h a = absurd a
filters-Same field_of d context (f ∷ fs) [] ps qs h a = absurd a
filters-Same field_of d context (f ∷ fs) (g ∷ gs) ps qs h ((field, op, count), a) =
    let first = round field_of d context f.field f.op f.value fs ps in
    subst (λ t. Same Parallel first (round field_of d context t g.op g.value gs qs)) field
      (subst (λ o. Same Parallel first (round field_of d context f.field o g.value gs qs)) op
        (Same-after (field_of f.field) λ name.
          Same-bind (clause-Same d f.op f.value g.value name ps qs context h count) λ c c' e.
            Same-bind (filters-Same field_of d context fs gs c.1 c'.1 e.1 a)
              λ r r' e'. values (ap₂ ◌∷◌ e.0 e'.0, e'.1)))

-- The same text, and as many parameters.
abbrev pub SameText : Statement → Statement → Type 0
SameText s t = (s.sql ≡ t.sql) × (length s.params ≡ length t.params)

-- Two queries that differ in the values of their filters, and in no list's length, give the same
-- error, or the same text with as many parameters.
pub query-Same :
    (d : Dialect) (plan : Query) (filters : List Filter)
    → Alike plan.filters filters
    → Same SameText
        (compile_query_plan_to_sql plan d)
        (compile_query_plan_to_sql (record plan { filters = filters }) d)
unfolding compile_query_plan_to_sql
query-Same d plan filters a = Same-after (collection_of plan.source) λ collection.
    Same-after (validate_ident collection) λ _.
      Same-after (check_joins (collection ∷ []) plan.joins) λ qualifiers.
        let field_of = compile_query_field collection qualifiers (not (is_empty plan.joins)) d in
        Same-bind (filters-Same field_of d query plan.filters filters [] [] refl a) λ r r' e.
          Same-after (compile_orders field_of plan.orders)
            λ orders. values (ap (λ ts. query_text d collection plan ts orders) e.0, e.1)

insert_fields-Same :
    (d : Dialect) (fs gs : List Assignment) (ps qs : List Param)
    → length ps ≡ length qs
    → SameNames fs gs
    → Same (λ r s. (r.0 ≡ s.0) × Parallel r.1 s.1) (insert_fields d fs ps) (insert_fields d gs qs)
unfolding insert_fields
insert_fields-Same d [] [] ps qs h a = values (refl, (refl, h))
insert_fields-Same d [] (g ∷ gs) ps qs h a = absurd a
insert_fields-Same d (f ∷ fs) [] ps qs h a = absurd a
insert_fields-Same d (f ∷ fs) (g ∷ gs) ps qs h (name, a) =
    let (mark, lengths) = push-Parallel d ps qs f.value g.value h in
    let after = (push_sql_param qs g.value d).1 in
    subst
      (λ t.
        Same (λ r s. (r.0 ≡ s.0) × Parallel r.1 s.1) (insert_fields d (f ∷ fs) ps)
          (validate_ident t >>= λ _. insert_fields d gs after >>= λ r.
            ok (quote_ident d t ∷ r.0, ((push_sql_param qs g.value d).0 ∷ r.1.0, r.1.1))))
      name
      (Same-after (validate_ident f.name) λ _.
        Same-bind (insert_fields-Same d fs gs (push_sql_param ps f.value d).1 after lengths a)
          λ r r' (columns, rest).
            values (ap (◌∷◌ (quote_ident d f.name)) columns, (ap₂ ◌∷◌ mark rest.0, rest.1)))

update_fields-Same :
    (d : Dialect) (fs gs : List Assignment) (ps qs : List Param)
    → length ps ≡ length qs
    → SameNames fs gs
    → Same Parallel (update_fields d fs ps) (update_fields d gs qs)
unfolding update_fields
update_fields-Same d [] [] ps qs h a = values (refl, h)
update_fields-Same d [] (g ∷ gs) ps qs h a = absurd a
update_fields-Same d (f ∷ fs) [] ps qs h a = absurd a
update_fields-Same d (f ∷ fs) (g ∷ gs) ps qs h (name, a) =
    let (mark, lengths) = push-Parallel d ps qs f.value g.value h in
    let after = (push_sql_param qs g.value d).1 in
    subst
      (λ t. Same Parallel (update_fields d (f ∷ fs) ps) (
        validate_ident t >>= λ _. update_fields d gs after >>= λ r.
        ok ((quote_ident d t ++ (ascii " = " ++ (push_sql_param qs g.value d).0)) ∷ r.0, r.1)))
      name
      (Same-after (validate_ident f.name) λ _.
        Same-bind (update_fields-Same d fs gs (push_sql_param ps f.value d).1 after lengths a)
          λ r r' e.
            values (ap₂ (λ m ts. (quote_ident d f.name ++ (ascii " = " ++ m)) ∷ ts) mark e.0, e.1))

is_empty-SameNames : (fs gs : List Assignment) → SameNames fs gs → is_empty fs ≡ is_empty gs
is_empty-SameNames [] [] a = refl
is_empty-SameNames [] (g ∷ gs) a = absurd a
is_empty-SameNames (f ∷ fs) [] a = absurd a
is_empty-SameNames (f ∷ fs) (g ∷ gs) a = refl

is_empty-Alike : (fs gs : List Filter) → Alike fs gs → is_empty fs ≡ is_empty gs
is_empty-Alike [] [] a = refl
is_empty-Alike [] (g ∷ gs) a = absurd a
is_empty-Alike (f ∷ fs) [] a = absurd a
is_empty-Alike (f ∷ fs) (g ∷ gs) a = refl

insert-Same :
    (d : Dialect) (collection : Text) (fs gs : List Assignment)
    → SameNames fs gs
    → Same SameText
        (compile_insert_plan_to_sql collection fs d)
        (compile_insert_plan_to_sql collection gs d)
unfolding compile_insert_plan_to_sql
insert-Same d collection fs gs a = rw (← is_empty-SameNames fs gs a) (
    Same-after (validate_ident collection) λ _.
      Same-after (require (not (is_empty fs)) empty_mutation_fields) λ _.
        Same-bind (insert_fields-Same d fs gs [] [] refl a) λ r r' (columns, rest). values (
          ap₂
              (λ cs ms.
                ascii "insert into "
                ++ (quote_ident d collection
                    ++ (ascii " ("
                        ++ (join comma_space cs
                            ++ (ascii ") values (" ++ (join comma_space ms ++ ascii ")"))))))
              columns rest.0,
          rest.1,
        ))

update-Same :
    (d : Dialect) (collection : Text) (fs gs : List Assignment) (filters filters' : List Filter)
    → SameNames fs gs
    → Alike filters filters'
    → Same SameText
        (compile_update_plan_to_sql collection fs filters d)
        (compile_update_plan_to_sql collection gs filters' d)
unfolding compile_update_plan_to_sql
update-Same d collection fs gs filters filters' a b = rw (← is_empty-SameNames fs gs a) (
    Same-after (validate_ident collection) λ _.
      Same-after (require (not (is_empty fs)) empty_mutation_fields) λ _.
        Same-bind (update_fields-Same d fs gs [] [] refl a) λ r r' e.
          Same-bind (filters-Same (mutation_field d) d mutation filters filters' r.1 r'.1 e.1 b)
            λ c c' e'. values (
              ap₂
                  (λ ts cs.
                    ascii "update "
                    ++ (quote_ident d collection
                        ++ (ascii " set " ++ (join comma_space ts ++ where_text cs))))
                  e.0 e'.0,
              e'.1,
            ))

delete-Same :
    (d : Dialect) (collection : Text) (filters filters' : List Filter)
    → Alike filters filters'
    → Same SameText
        (compile_delete_plan_to_sql collection filters d)
        (compile_delete_plan_to_sql collection filters' d)
unfolding compile_delete_plan_to_sql
delete-Same d collection filters filters' a = rw (← is_empty-Alike filters filters' a) (
    Same-after (validate_ident collection) λ _.
      Same-after (require (not (is_empty filters)) empty_delete_filters) λ _.
        Same-bind (filters-Same (mutation_field d) d mutation filters filters' [] [] refl a)
          λ c c' e. values (
            ap
                (λ cs.
                  ascii "delete from "
                  ++ (quote_ident d collection ++ (ascii " where " ++ join and_word cs)))
                e.0,
            e.1,
          ))

-- Two inserts, two updates or two deletes that differ in their values, and in no list's length, give
-- the same error, or the same text with as many parameters.
pub mutation-Same :
    (d : Dialect) (collection : Text) (fs gs : List Assignment) (filters filters' : List Filter)
    → SameNames fs gs
    → Alike filters filters'
    → Same SameText
        (compile_insert_plan_to_sql collection fs d)
        (compile_insert_plan_to_sql collection gs d)
      × Same SameText
          (compile_update_plan_to_sql collection fs filters d)
          (compile_update_plan_to_sql collection gs filters' d)
      × Same SameText
          (compile_delete_plan_to_sql collection filters d)
          (compile_delete_plan_to_sql collection filters' d)
mutation-Same d collection fs gs filters filters' a b = (
  insert-Same d collection fs gs a,
  update-Same d collection fs gs filters filters' a b,
  delete-Same d collection filters filters' b,
)
