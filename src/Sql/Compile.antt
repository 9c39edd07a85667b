-- ===== src/Sql/Compile.antt =====
-- `compile_query_plan_to_sql`, `compile_insert_plan_to_sql`, `compile_update_plan_to_sql` and
-- `compile_delete_plan_to_sql` of crates/axonyx-core/src/ax_sql.rs.
use axonyx_runtime.Prelude.{
  ℕ, Bool, true, false, not, ◌||◌, Option, none, some, List, [], ◌∷◌, ◌++◌, map,
}
use axonyx_runtime.Prelude.Bytes.{ascii, contains}
use axonyx_runtime.StateWasm.Operators.{decimal}
use axonyx_runtime.Sql.Plan.{
  Text, Dialect, Assignment, Filter, Order, JoinColumn, Join, Source, stream, content_collection,
  raw_sql, Query, Param, Statement, query, mutation, Result, ok, err, raw_sql_runtime_only,
  ambiguous_join_collection, empty_join_columns, duplicate_join_columns, empty_mutation_fields,
  empty_delete_filters, ◌>>=◌, ◌>>◌, require, validate_ident, quote_ident, order_direction_name,
  join,
}
use axonyx_runtime.Sql.Clauses.{
  comma_space, push_sql_param, mutation_field, qualified, compile_query_field, compile_filters,
}

abbrev pub and_word : Text
and_word = ascii " and "

abbrev pub is_empty {ℓ} : {A : Type ℓ} → List A → Bool
is_empty [] = true
is_empty (_ ∷ _) = false

abbrev pub collection_of : Source → Result Text
collection_of (stream collection) = ok collection
collection_of (content_collection collection) = ok collection
collection_of (raw_sql sql params) = err raw_sql_runtime_only

-- A `BTreeSet` is the list of what was inserted.
unfoldable pub check_columns : Text → List Text → List Text → List JoinColumn → Result (Unit {0})
unfolding validate_ident
check_columns collection sources targets [] = ok tt
check_columns collection sources targets (column ∷ columns) = do
  validate_ident column.source
  validate_ident column.target
  require (not (contains sources column.source || contains targets column.target))
      (duplicate_join_columns collection)
  check_columns collection (column.source ∷ sources) (column.target ∷ targets) columns

-- The qualifiers with the collections of the joins.
unfoldable pub check_joins : List Text → List Join → Result (List Text)
unfolding validate_ident check_columns
check_joins qualifiers [] = ok qualifiers
check_joins qualifiers (j ∷ joins) = do
  validate_ident j.collection
  require (not (contains qualifiers j.collection)) (ambiguous_join_collection j.collection)
  require (not (is_empty j.columns)) (empty_join_columns j.collection)
  check_columns j.collection [] [] j.columns
  check_joins (j.collection ∷ qualifiers) joins

abbrev pub join_clause : Dialect → Text → Text → JoinColumn → Text
join_clause dialect collection other column =
    qualified dialect collection column.source
    ++ (ascii " = " ++ qualified dialect other column.target)

abbrev pub join_text : Dialect → Text → Join → Text
join_text dialect collection j =
    ascii " inner join "
    ++ (quote_ident dialect j.collection
        ++ (ascii " on "
            ++ join and_word (map (join_clause dialect collection j.collection) j.columns)))

unfoldable pub join_texts : Dialect → Text → List Join → Text
unfolding quote_ident join
join_texts dialect collection [] = []
join_texts dialect collection (j ∷ joins) =
    join_text dialect collection j ++ join_texts dialect collection joins

unfoldable pub select_text : Dialect → Text → List Join → Text
unfolding quote_ident
select_text dialect collection [] = ascii "select * from " ++ quote_ident dialect collection
select_text dialect collection (_ ∷ _) =
    ascii "select "
    ++ (quote_ident dialect collection ++ (ascii ".* from " ++ quote_ident dialect collection))

unfoldable pub where_text : List Text → Text
unfolding join
where_text [] = []
where_text (clause ∷ clauses) = ascii " where " ++ join and_word (clause ∷ clauses)

unfoldable pub compile_orders : (Text → Result Text) → List Order → Result (List Text)
unfolding order_direction_name
compile_orders field_of [] = ok []
compile_orders field_of (order ∷ orders) = do
  field ← field_of order.field
  clauses ← compile_orders field_of orders
  ok ((field ++ b' ' ∷ order_direction_name order.direction) ∷ clauses)

unfoldable pub order_text : List Text → Text
unfolding join
order_text [] = []
order_text (clause ∷ clauses) = ascii " order by " ++ join comma_space (clause ∷ clauses)

-- A `u32` has at most ten digits.
unfoldable pub bound_text : Text → Option ℕ → Text
unfolding decimal
bound_text keyword none = []
bound_text keyword (some n) = keyword ++ decimal 10 n []

unfoldable pub query_text : Dialect → Text → Query → List Text → List Text → Text
unfolding select_text join_texts where_text order_text bound_text
query_text dialect collection plan clauses orders =
    select_text dialect collection plan.joins
    ++ (join_texts dialect collection plan.joins
        ++ (where_text clauses
            ++ (order_text orders
                ++ (bound_text (ascii " limit ") plan.limit
                    ++ bound_text (ascii " offset ") plan.offset))))

unfoldable pub compile_query_plan_to_sql : Query → Dialect → Result Statement
unfolding validate_ident check_joins compile_filters compile_query_field compile_orders query_text
compile_query_plan_to_sql plan dialect = do
  collection ← collection_of plan.source
  validate_ident collection
  qualifiers ← check_joins (collection ∷ []) plan.joins
  let field_of = compile_query_field collection qualifiers (not (is_empty plan.joins)) dialect
  (clauses, params) ← compile_filters field_of dialect query plan.filters []
  orders ← compile_orders field_of plan.orders
  ok record { sql = query_text dialect collection plan clauses orders; params = params }

-- The loop of an insert: the columns, the placeholders and the parameters.
unfoldable pub insert_fields :
    Dialect → List Assignment → List Param → Result (List Text × (List Text × List Param))
unfolding validate_ident quote_ident push_sql_param
insert_fields dialect [] params = ok ([], ([], params))
insert_fields dialect (field ∷ fields) params = do
  validate_ident field.name
  let (mark, params1) = push_sql_param params field.value dialect
  (columns, (marks, params2)) ← insert_fields dialect fields params1
  ok (quote_ident dialect field.name ∷ columns, (mark ∷ marks, params2))

unfoldable pub compile_insert_plan_to_sql : Text → List Assignment → Dialect → Result Statement
unfolding validate_ident quote_ident insert_fields join
compile_insert_plan_to_sql collection fields dialect = do
  validate_ident collection
  require (not (is_empty fields)) empty_mutation_fields
  (columns, (marks, params)) ← insert_fields dialect fields []
  ok record {
    sql =
        ascii "insert into "
        ++ (quote_ident dialect collection
            ++ (ascii " ("
                ++ (join comma_space columns
                    ++ (ascii ") values (" ++ (join comma_space marks ++ ascii ")")))));
    params = params;
  }

unfoldable pub update_fields :
    Dialect → List Assignment → List Param → Result (List Text × List Param)
unfolding validate_ident quote_ident push_sql_param
update_fields dialect [] params = ok ([], params)
update_fields dialect (field ∷ fields) params = do
  validate_ident field.name
  let (mark, params1) = push_sql_param params field.value dialect
  (assignments, params2) ← update_fields dialect fields params1
  ok ((quote_ident dialect field.name ++ (ascii " = " ++ mark)) ∷ assignments, params2)

unfoldable pub compile_update_plan_to_sql :
    Text → List Assignment → List Filter → Dialect → Result Statement
unfolding validate_ident quote_ident update_fields compile_filters mutation_field where_text join
compile_update_plan_to_sql collection fields filters dialect = do
  validate_ident collection
  require (not (is_empty fields)) empty_mutation_fields
  (assignments, params1) ← update_fields dialect fields []
  (clauses, params) ← compile_filters (mutation_field dialect) dialect mutation filters params1
  ok record {
    sql =
        ascii "update "
        ++ (quote_ident dialect collection
            ++ (ascii " set " ++ (join comma_space assignments ++ where_text clauses)));
    params = params;
  }

unfoldable pub compile_delete_plan_to_sql : Text → List Filter → Dialect → Result Statement
unfolding validate_ident quote_ident compile_filters mutation_field join
compile_delete_plan_to_sql collection filters dialect = do
  validate_ident collection
  require (not (is_empty filters)) empty_delete_filters
  (clauses, params) ← compile_filters (mutation_field dialect) dialect mutation filters []
  ok record {
    sql =
        ascii "delete from "
        ++ (quote_ident dialect collection ++ (ascii " where " ++ join and_word clauses));
    params = params;
  }
