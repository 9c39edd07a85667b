-- ===== src/Sql/Clauses.antt =====
-- The clauses of a `where`: `compile_filter_clause`, `compile_filter_clause_with_field`,
-- `compile_query_field` and `push_sql_param` of crates/axonyx-core/src/ax_sql.rs. The parameters are
-- passed along and returned.
use axonyx_runtime.Prelude.{
  ◌+◌, Bool, Option, none, some, List, [], ◌∷◌, ◌++◌, if◌then◌else◌, length,
}
use axonyx_runtime.Prelude.Bytes.{ascii, contains}
use axonyx_runtime.Validation.{split_once}
use axonyx_runtime.Sql.Plan.{
  Text, Dialect, RustExpr, Filter, FilterOp, eq, ne, in_list, not_in, is_null, is_not_null, Param,
  Context, query, Result, ok, err, non_literal_list_filter, unknown_query_qualifier, ◌>>=◌, ◌>>◌,
  require, validate_ident, quote_ident, placeholder, join,
}
use axonyx_runtime.Sql.Lists.{filter_list_values}

abbrev pub comma_space : Text
comma_space = ascii ", "

unfoldable pub push_sql_param : List Param → RustExpr → Dialect → Text × List Param
unfolding placeholder
push_sql_param params value dialect = (
  placeholder dialect (length params + 1),
  params ++ record { index = length params + 1; value = value } ∷ [],
)

-- `values.into_iter().map(|value| push_sql_param(params, value, dialect))`
unfoldable pub push_values : List Param → List RustExpr → Dialect → List Text × List Param
unfolding push_sql_param
push_values params [] dialect = ([], params)
push_values params (value ∷ values) dialect =
    let (mark, params1) = push_sql_param params value dialect in
    let (marks, params2) = push_values params1 values dialect in (mark ∷ marks, params2)

abbrev pub operator : FilterOp → Text
operator ne = ascii "!="
operator in_list = ascii "in"
operator not_in = ascii "not in"
operator _ = ascii "="

abbrev pub never : Text
never = ascii "1 = 0"

-- A list filter with no values.
abbrev pub empty_list_clause : FilterOp → Context → Text
empty_list_clause not_in query = ascii "1 = 1"
empty_list_clause _ _ = never

abbrev pub equality_clause : FilterOp → RustExpr → Text → Dialect → List Param → Text × List Param
equality_clause op value field dialect params =
    let (mark, params') = push_sql_param params value dialect in
    (field ++ (b' ' ∷ (operator op ++ b' ' ∷ mark)), params')

abbrev pub list_clause :
    FilterOp
    → Option (List RustExpr)
    → Text
    → Dialect
    → List Param
    → Context
    → Result (Text × List Param)
list_clause op none field dialect params context = err non_literal_list_filter
list_clause op (some []) field dialect params context = ok (empty_list_clause op context, params)
list_clause op (some (value ∷ values)) field dialect params context =
    let (marks, params') = push_values params (value ∷ values) dialect in
    ok (
      field ++ (b' ' ∷ (operator op ++ (ascii " (" ++ (join comma_space marks ++ ascii ")")))),
      params',
    )

abbrev pub clause_of :
    FilterOp → RustExpr → Text → Dialect → List Param → Context → Result (Text × List Param)
clause_of eq value field dialect params context = ok (equality_clause eq value field dialect params)
clause_of ne value field dialect params context = ok (equality_clause ne value field dialect params)
clause_of in_list value field dialect params context =
    list_clause in_list (filter_list_values value) field dialect params context
clause_of not_in value field dialect params context =
    list_clause not_in (filter_list_values value) field dialect params context
clause_of is_null value field dialect params context = ok (field ++ ascii " is null", params)
clause_of is_not_null value field dialect params context =
    ok (field ++ ascii " is not null", params)

unfoldable pub compile_filter_clause_with_field :
    Filter → Text → Dialect → List Param → Context → Result (Text × List Param)
unfolding push_sql_param push_values filter_list_values join
compile_filter_clause_with_field filter field dialect params context =
    clause_of filter.op filter.value field dialect params context

-- The field of `compile_filter_clause`.
unfoldable pub mutation_field : Dialect → Text → Result Text
unfolding validate_ident quote_ident
mutation_field dialect field = do validate_ident field; ok (quote_ident dialect field)

abbrev pub qualified : Dialect → Text → Text → Text
qualified dialect collection column =
    quote_ident dialect collection ++ (b'.' ∷ quote_ident dialect column)

abbrev pub split_field :
    Text → Text → List Text → Bool → Dialect → Option (Text × Text) → Result Text
split_field field source qualifiers qualify_source dialect (some (qualifier, column)) = do
  validate_ident qualifier
  validate_ident column
  require (contains qualifiers qualifier) (unknown_query_qualifier field qualifier)
  ok (qualified dialect qualifier column)
split_field field source qualifiers qualify_source dialect none = do
  validate_ident field
  ok (if qualify_source then qualified dialect source field else quote_ident dialect field)

unfoldable pub compile_query_field : Text → List Text → Bool → Dialect → Text → Result Text
unfolding validate_ident quote_ident split_once
compile_query_field source qualifiers qualify_source dialect field =
    split_field field source qualifiers qualify_source dialect (split_once b'.' field)

-- The loop over the filters, with the function that compiles their fields.
unfoldable pub compile_filters :
    (Text → Result Text)
    → Dialect
    → Context
    → List Filter
    → List Param
    → Result (List Text × List Param)
unfolding compile_filter_clause_with_field
compile_filters field_of dialect context [] params = ok ([], params)
compile_filters field_of dialect context (filter ∷ filters) params = do
  field ← field_of filter.field
  (clause, params1) ← compile_filter_clause_with_field filter field dialect params context
  (clauses, params2) ← compile_filters field_of dialect context filters params1
  ok (clause ∷ clauses, params2)
