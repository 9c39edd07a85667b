-- ===== src/Sql/Tests.antt =====
-- The statements of crates/axonyx-core/src/ax_sql.rs at the plans of the module's own tests.
use axonyx_runtime.Prelude.{ℕ, ◌≡◌, refl, true, none, some, List, [], ◌∷◌, ◌++◌, map, All}
use axonyx_runtime.Prelude.Bytes.{ascii}
use axonyx_runtime.Sql.Plan.{
  Text, postgres, my_sql, sqlite, Assignment, Filter, FilterOp, ne, in_list, not_in, is_null, desc,
  asc, JoinColumn, stream, Query, Param, Statement, ok, err, duplicate_join_columns,
  empty_mutation_fields, ◌>>◌, require, validate_ident, Ensures,
}
use axonyx_runtime.Sql.Compile.{
  compile_query_plan_to_sql, compile_insert_plan_to_sql, compile_update_plan_to_sql,
  compile_delete_plan_to_sql,
}
use axonyx_runtime.Sql.Lists.{filter_list_values}
use axonyx_runtime.Sql.Placeholders.{IsBound, query-placeholders, mutation-placeholders}
use axonyx_runtime.Sql.Independence.{Same, Alike, value_count}
use axonyx_runtime.Sql.Values.{SameText, query-Same, mutation-Same}
use axonyx_runtime.Sql.Mutations.{validate_names, insert_statement, insert_lem}
use axonyx_runtime.Sql.Splitting.{
  Literal, double, single, word, plain, escape, is_literal, joined, expr, filter_list_values-join,
}

abbrev posts : Text
posts = ascii "posts"

abbrev filter : Text → FilterOp → Text → Filter
filter field op code = record { field = field; op = op; value = record { code = code } }

-- `SELECT` over one collection, with a list of values whose first one holds an escaped quote.
abbrev recent : Query
recent = record {
  source = stream posts;
  joins = [];
  filters =
      filter (ascii "archived") ne (ascii "true")
      ∷ filter (ascii "slug") in_list (ascii "[\"a\\\"b\", \"c\"]")
      ∷ filter (ascii "deleted_at") is_null (ascii "true")
      ∷ [];
  orders = record { field = ascii "created_at"; direction = desc } ∷ [];
  limit = some 20;
  offset = some 40;
}

abbrev recent_sql : Text
recent_sql =
    ascii "select * from \"posts\" where \"archived\" != $1 and \"slug\" in ($2, $3)"
    ++ (ascii " and \"deleted_at\" is null order by \"created_at\" desc"
        ++ ascii " limit 20 offset 40")

abbrev param : ℕ → Text → Param
param index code = record { index = index; value = record { code = code } }

abbrev recent_statement : Statement
recent_statement = record {
  sql = recent_sql;
  params = param 1 (ascii "true") ∷ param 2 (ascii "\"a\\\"b\"") ∷ param 3 (ascii "\"c\"") ∷ [];
}

compile_recent : compile_query_plan_to_sql recent postgres ≡ ok recent_statement
unfolding compile_query_plan_to_sql
compile_recent = refl

abbrev column : Text → Text → JoinColumn
column source target = record { source = source; target = target }

abbrev with_authors : List JoinColumn → Query
with_authors columns = record {
  source = stream posts;
  joins = record { collection = ascii "authors"; columns = columns } ∷ [];
  filters = filter (ascii "status") ne (ascii "true") ∷ [];
  orders = record { field = ascii "authors.name"; direction = asc } ∷ [];
  limit = none;
  offset = none;
}

compile_joined :
    compile_query_plan_to_sql (with_authors (column (ascii "author_id") (ascii "id") ∷ [])) sqlite
    ≡ ok record {
      sql =
          ascii
            "select \"posts\".* from \"posts\" inner join \"authors\" on \"posts\".\"author_id\""
          ++ ascii
              " = \"authors\".\"id\" where \"posts\".\"status\" != ? order by \"authors\".\"name\" asc";
      params = param 1 (ascii "true") ∷ [];
    }
unfolding compile_query_plan_to_sql
compile_joined = refl

compile_joined_twice :
    compile_query_plan_to_sql
      (with_authors (
        column (ascii "author_id") (ascii "id")
        ∷ column (ascii "author_id") (ascii "tenant_id")
        ∷ []))
      postgres
    ≡ err (duplicate_join_columns (ascii "authors"))
unfolding compile_query_plan_to_sql
compile_joined_twice = refl

compile_delete_none :
    compile_delete_plan_to_sql posts (filter (ascii "status") not_in (ascii "[]") ∷ []) postgres
    ≡ ok record { sql = ascii "delete from \"posts\" where 1 = 0"; params = [] }
unfolding compile_delete_plan_to_sql
compile_delete_none = refl

query-placeholders_example : IsBound postgres recent_statement
query-placeholders_example = query-placeholders postgres recent compile_recent

abbrev title : Text → Assignment
title code = record { name = ascii "title"; value = record { code = code } }

abbrev slugs : Text → List Filter
slugs code = filter (ascii "slug") in_list code ∷ []

mutation-placeholders_example :
    Ensures (IsBound sqlite) (compile_insert_plan_to_sql posts (title (ascii "first") ∷ []) sqlite)
    × Ensures (IsBound sqlite) (
        compile_update_plan_to_sql posts
          (title (ascii "first") ∷ [])
          (slugs (ascii "[1, 2]"))
          sqlite)
    × Ensures (IsBound sqlite) (compile_delete_plan_to_sql posts (slugs (ascii "[1, 2]")) sqlite)
mutation-placeholders_example =
    mutation-placeholders sqlite posts (title (ascii "first") ∷ []) (slugs (ascii "[1, 2]"))

abbrev other_filters : List Filter
other_filters =
    filter (ascii "archived") ne (ascii "false; drop table posts")
    ∷ filter (ascii "slug") in_list (ascii "vec![\"]\", 'it, too']")
    ∷ filter (ascii "deleted_at") is_null (ascii "1")
    ∷ []

recent-Alike : Alike recent.filters other_filters
unfolding value_count
recent-Alike = ((refl, refl, refl), ((refl, refl, refl), ((refl, refl, refl), tt)))

query-Same_example :
    Same SameText
      (compile_query_plan_to_sql recent postgres)
      (compile_query_plan_to_sql (record recent { filters = other_filters }) postgres)
query-Same_example = query-Same postgres recent other_filters recent-Alike

slugs-Alike : Alike (slugs (ascii "[1, 2]")) (slugs (ascii "[3, \"x, y\"]"))
unfolding value_count
slugs-Alike = ((refl, refl, refl), tt)

mutation-Same_example :
    Same SameText
      (compile_insert_plan_to_sql posts (title (ascii "first") ∷ []) my_sql)
      (compile_insert_plan_to_sql posts (title (ascii "\"); --") ∷ []) my_sql)
    × Same SameText
        (compile_update_plan_to_sql posts
          (title (ascii "first") ∷ [])
          (slugs (ascii "[1, 2]"))
          my_sql)
        (compile_update_plan_to_sql posts
          (title (ascii "\"); --") ∷ [])
          (slugs (ascii "[3, \"x, y\"]"))
          my_sql)
    × Same SameText
        (compile_delete_plan_to_sql posts (slugs (ascii "[1, 2]")) my_sql)
        (compile_delete_plan_to_sql posts (slugs (ascii "[3, \"x, y\"]")) my_sql)
mutation-Same_example =
    mutation-Same my_sql posts (title (ascii "first") ∷ []) (title (ascii "\"); --") ∷ [])
      (slugs (ascii "[1, 2]")) (slugs (ascii "[3, \"x, y\"]")) (refl, tt) slugs-Alike

insert_lem_example : compile_insert_plan_to_sql posts (title (ascii "first") ∷ []) postgres ≡ (
    validate_ident posts
    >> (require true empty_mutation_fields
        >> (validate_names (title (ascii "first") ∷ [])
            >> ok (insert_statement postgres posts (title (ascii "first") ∷ [])))))
insert_lem_example = insert_lem postgres posts (title (ascii "first") ∷ [])

-- "a, ]\"", 'b' and 42
abbrev some_literals : List Literal
some_literals =
    double (plain b'a' ∷ plain b',' ∷ plain b']' ∷ escape b'"' ∷ [])
    ∷ single (plain b'b' ∷ [])
    ∷ word b'4' (ascii "2")
    ∷ []

some_literals_lem : All (λ l. is_literal l ≡ true) some_literals
unfolding is_literal
some_literals_lem = (refl, (refl, (refl, tt)))

filter_list_values-join_example :
    (filter_list_values (record { code = b'[' ∷ (joined some_literals ++ b']' ∷ []) })
      ≡ some (map expr some_literals))
    × (filter_list_values (record { code = ascii "vec![" ++ (joined some_literals ++ b']' ∷ []) })
        ≡ some (map expr some_literals))
filter_list_values-join_example = filter_list_values-join some_literals some_literals_lem
