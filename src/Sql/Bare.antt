-- ===== src/Sql/Bare.antt =====
-- The texts of crates/axonyx-core/src/ax_sql.rs that hold no placeholder: identifiers, fields, orders, joins.
use axonyx_runtime.Prelude.{
  ◌≡◌, refl, ◌∙◌, Bool, not, Option, none, some, List, [], ◌∷◌, map, arith, All, if_elim,
}
use axonyx_runtime.Prelude.Bytes.{contains}
use axonyx_runtime.Validation.{split_once}
use axonyx_runtime.Sql.Plan.{
  Text, Dialect, Order, JoinColumn, Join, Result, validate_ident, quote_ident, join, Ensures, holds,
  Ensures-map, Ensures-bind, Ensures-require, unknown_query_qualifier, duplicate_join_columns,
  ambiguous_join_collection, empty_join_columns,
}
use axonyx_runtime.Sql.Clauses.{mutation_field, qualified, split_field, compile_query_field}
use axonyx_runtime.Sql.Compile.{
  compile_orders, check_columns, check_joins, join_clause, join_text, join_texts, and_word,
  select_text, is_empty,
}
use axonyx_runtime.Sql.Counting.{count, count-append, count_all, mark_of, count-validate_ident}
use axonyx_runtime.Sql.Marks.{
  IsBare, marks-quote_ident, marks-dot, marks-assignment, marks-inner_join, marks-and,
  marks-direction, marks-select, marks-select_all,
}

pub quote-IsBare :
    (d : Dialect) (ident : Text)
    → Ensures (λ _. IsBare d (quote_ident d ident)) (validate_ident ident)
quote-IsBare d ident =
    Ensures-map (λ _ e. marks-quote_ident d ident ∙ e) (count-validate_ident d ident)

pub mutation_field-IsBare :
    (d : Dialect) (field : Text) → Ensures (IsBare d) (mutation_field d field)
unfolding mutation_field
mutation_field-IsBare d field = Ensures-bind (quote-IsBare d field) λ _ e. holds e

pub qualified-IsBare :
    (d : Dialect) (a b : Text)
    → IsBare d (quote_ident d a)
    → IsBare d (quote_ident d b)
    → IsBare d (qualified d a b)
qualified-IsBare d a b p q = marks-dot d (quote_ident d a) (quote_ident d b) ∙ omega (arith, p, q)

split_field-IsBare :
    (field source : Text) (qualifiers : List Text) (qualify : Bool) (d : Dialect)
    (parts : Option (Text × Text))
    → IsBare d (quote_ident d source)
    → Ensures (IsBare d) (split_field field source qualifiers qualify d parts)
split_field-IsBare field source qualifiers qualify d (some (qualifier, column)) s =
    Ensures-bind (quote-IsBare d qualifier) λ _ p. Ensures-bind (quote-IsBare d column) λ _ q.
      Ensures-bind
        (Ensures-require (contains qualifiers qualifier) (unknown_query_qualifier field qualifier))
        λ _ _. holds (qualified-IsBare d qualifier column p q)
split_field-IsBare field source qualifiers qualify d none s =
    Ensures-bind (quote-IsBare d field)
      λ _ p. holds (if_elim (IsBare d) qualify _ _ (qualified-IsBare d source field s p) p)

pub query_field-IsBare :
    (source : Text) (qualifiers : List Text) (qualify : Bool) (d : Dialect) (field : Text)
    → IsBare d (quote_ident d source)
    → Ensures (IsBare d) (compile_query_field source qualifiers qualify d field)
unfolding compile_query_field
query_field-IsBare source qualifiers qualify d field s =
    split_field-IsBare field source qualifiers qualify d (split_once b'.' field) s

pub orders-IsBare :
    (field_of : Text → Result Text) (d : Dialect) (orders : List Order)
    → ((field : Text) → Ensures (IsBare d) (field_of field))
    → Ensures (λ ts. count_all (mark_of d) ts ≡ 0) (compile_orders field_of orders)
unfolding compile_orders count_all
orders-IsBare field_of d [] bare = holds refl
orders-IsBare field_of d (order ∷ orders) bare = Ensures-bind (bare order.field) λ field e.
    Ensures-bind (orders-IsBare field_of d orders bare)
      λ ts e'. holds (omega (arith, marks-direction d field order.direction, e, e'))

abbrev AreBare : Dialect → List Text → Type 0
AreBare d = All (λ t. IsBare d (quote_ident d t))

-- The columns of a join that passed the checks.
pub columns-IsBare :
    (d : Dialect) (collection : Text) (sources targets : List Text) (columns : List JoinColumn)
    → Ensures
        (λ _.
          All
            (λ (c : JoinColumn).
              IsBare d (quote_ident d c.source) × IsBare d (quote_ident d c.target))
            columns)
        (check_columns collection sources targets columns)
unfolding check_columns
columns-IsBare d collection sources targets [] = holds tt
columns-IsBare d collection sources targets (c ∷ cs) = Ensures-bind (quote-IsBare d c.source) λ _ p.
    Ensures-bind (quote-IsBare d c.target) λ _ q.
      Ensures-bind (Ensures-require _ (duplicate_join_columns collection)) λ _ _.
        Ensures-map (λ _ h. ((p, q), h))
          (columns-IsBare d collection (c.source ∷ sources) (c.target ∷ targets) cs)

join_clauses-IsBare :
    (d : Dialect) (collection other : Text) (columns : List JoinColumn)
    → IsBare d (quote_ident d collection)
    → IsBare d (quote_ident d other)
    → All
        (λ (c : JoinColumn). IsBare d (quote_ident d c.source) × IsBare d (quote_ident d c.target))
        columns
    → count_all (mark_of d) (map (join_clause d collection other) columns) ≡ 0
unfolding count_all
join_clauses-IsBare d collection other [] p q h = refl
join_clauses-IsBare d collection other (c ∷ cs) p q ((s, t), h) = omega (
  arith,
  marks-assignment d (qualified d collection c.source) (qualified d other c.target),
  qualified-IsBare d collection c.source p s,
  qualified-IsBare d other c.target q t,
  join_clauses-IsBare d collection other cs p q h,
)

-- Where the joins pass the checks, their text is bare.
pub joins-IsBare :
    (d : Dialect) (collection : Text) (qualifiers : List Text) (joins : List Join)
    → IsBare d (quote_ident d collection)
    → Ensures (λ _. IsBare d (join_texts d collection joins)) (check_joins qualifiers joins)
unfolding check_joins join_texts
joins-IsBare d collection qualifiers [] p = holds (unfold count in refl)
joins-IsBare d collection qualifiers (j ∷ joins) p =
    Ensures-bind (quote-IsBare d j.collection) λ _ q.
      Ensures-bind
        (Ensures-require (not (contains qualifiers j.collection))
          (ambiguous_join_collection j.collection))
        λ _ _.
          Ensures-bind
            (Ensures-require (not (is_empty j.columns)) (empty_join_columns j.collection))
            λ _ _. Ensures-bind (columns-IsBare d j.collection [] [] j.columns) λ _ h.
              Ensures-map
                (λ _ rest.
                  let clauses = map (join_clause d collection j.collection) j.columns in
                  omega (
                    arith,
                    rest,
                    q,
                    count-append (mark_of d) (join_text d collection j)
                        (join_texts d collection joins),
                    marks-inner_join d (quote_ident d j.collection) (join and_word clauses),
                    marks-and d clauses,
                    join_clauses-IsBare d collection j.collection j.columns p q h,
                  ))
                (joins-IsBare d collection (j.collection ∷ qualifiers) joins p)

pub select_text-IsBare :
    (d : Dialect) (collection : Text) (joins : List Join)
    → IsBare d (quote_ident d collection)
    → IsBare d (select_text d collection joins)
unfolding select_text
select_text-IsBare d collection [] p = marks-select_all d (quote_ident d collection) ∙ p
select_text-IsBare d collection (_ ∷ _) p =
    marks-select d (quote_ident d collection) (quote_ident d collection) ∙ omega (arith, p)
