-- ===== src/Sql/Mutations.antt =====
-- `compile_insert_plan_to_sql` of crates/axonyx-core/src/ax_sql.rs against a description that looks at
-- the columns, the placeholders and the parameters one after another.
use axonyx_runtime.Prelude.{
  ℕ, ◌+◌, ◌≡◌, refl, ap, ◌∙◌, not, List, [], ◌∷◌, ◌++◌, map, length, length-append, append_assoc,
  append-nil, arith,
}
use axonyx_runtime.Prelude.Bytes.{ascii}
use axonyx_runtime.Sql.Plan.{
  Text, Dialect, Assignment, Param, Statement, Result, ok, err, ◌>>=◌, ◌>>◌, require,
  validate_ident, quote_ident, placeholder, join, empty_mutation_fields,
}
use axonyx_runtime.Sql.Clauses.{comma_space, push_sql_param}
use axonyx_runtime.Sql.Compile.{is_empty, insert_fields, compile_insert_plan_to_sql}

-- The error of the first name that is no identifier.
unfoldable pub validate_names : List Assignment → Result (Unit {0})
unfolding validate_ident
validate_names [] = ok tt
validate_names (f ∷ fs) = validate_ident f.name >> validate_names fs

-- The placeholders from number `k` on.
unfoldable pub placeholders_from : Dialect → ℕ → List Assignment → List Text
unfolding placeholder
placeholders_from d k [] = []
placeholders_from d k (f ∷ fs) = placeholder d k ∷ placeholders_from d (k + 1) fs

unfoldable pub params_from : ℕ → List Assignment → List Param
params_from k [] = []
params_from k (f ∷ fs) = record { index = k; value = f.value } ∷ params_from (k + 1) fs

abbrev pub insert_statement : Dialect → Text → List Assignment → Statement
insert_statement d collection fields = record {
  sql =
      ascii "insert into "
      ++ (quote_ident d collection
          ++ (ascii " ("
              ++ (join comma_space (map (λ (f : Assignment). quote_ident d f.name) fields)
                  ++ (ascii ") values ("
                      ++ (join comma_space (placeholders_from d 1 fields) ++ ascii ")")))));
  params = params_from 1 fields;
}

bind_ok {ℓ κ} :
    {A : Type ℓ} {B : Type κ} (n : Result (Unit {0})) (f : A → Result B) (a : A)
    → ((n >> ok a) >>= f) ≡ (n >> f a)
bind_ok (ok _) f a = refl
bind_ok (err e) f a = refl

then_assoc {ℓ} :
    {A : Type ℓ} (m n : Result (Unit {0})) (r : Result A) → (m >> (n >> r)) ≡ ((m >> n) >> r)
then_assoc (ok _) n r = refl
then_assoc (err e) n r = refl

insert_fields_lem :
    (d : Dialect) (fs : List Assignment) (ps : List Param) (k : ℕ)
    → length ps + 1 ≡ k
    → insert_fields d fs ps ≡ (
        validate_names fs
        >> ok (
          map (λ (f : Assignment). quote_ident d f.name) fs,
          (placeholders_from d k fs, ps ++ params_from k fs),
        ))
unfolding insert_fields validate_names placeholders_from params_from push_sql_param
insert_fields_lem d [] ps k h = rw (append-nil ps) refl
insert_fields_lem d (f ∷ fs) ps k h =
    let p : Param = record { index = length ps + 1; value = f.value } in
    let numbered : Param = record { index = k; value = f.value } in
    let columns = map (λ (f : Assignment). quote_ident d f.name) fs in
    let found : List Text × (List Text × List Param) = (
      columns,
      (placeholders_from d (k + 1) fs, (ps ++ numbered ∷ []) ++ params_from (k + 1) fs),
    ) in
    let next =
      insert_fields_lem d fs (ps ++ p ∷ []) (k + 1) (omega (arith, h, length-append ps (p ∷ []))) in
    rw (next, h)
      (ap (λ r. validate_ident f.name >> r) (bind_ok (validate_names fs) _ found)
        ∙ then_assoc (validate_ident f.name) (validate_names fs) _
        ∙ ap
            (λ (ps' : List Param).
              (validate_ident f.name >> validate_names fs)
              >> ok (quote_ident d f.name ∷ columns, (placeholder d k ∷ found.1.0, ps')))
            (append_assoc ps (numbered ∷ []) (params_from (k + 1) fs)))

-- An insert gives the error of the collection's name, or the error that there is no field, or the
-- error of the first bad field's name, in this order; and otherwise the statement with the quoted
-- names of the fields, the placeholders 1, 2, 3 and so on, and their values under the same numbers.
pub insert_lem :
    (d : Dialect) (collection : Text) (fields : List Assignment)
    → compile_insert_plan_to_sql collection fields d ≡ (
        validate_ident collection
        >> (require (not (is_empty fields)) empty_mutation_fields
            >> (validate_names fields >> ok (insert_statement d collection fields))))
unfolding compile_insert_plan_to_sql
insert_lem d collection fields = rw (insert_fields_lem d fields [] 1 (omega arith)) (
    ap
      (λ r.
        validate_ident collection >> (require (not (is_empty fields)) empty_mutation_fields >> r))
      (bind_ok (validate_names fields) _ _))
