-- ===== src/Reactive/Dependencies.antt =====
-- The table of the states that a compiled expression depends on: `push_dependency` of
-- crates/axonyx-core/src/ax_parser_auto.rs and the opcode that reads a slot of it.
use mathlib.Core.Path.{subst}
use mathlib.Core.Option.{some-injective}
use axonyx_runtime.Prelude.{
  ℕ, ◌+◌, ◌<◌, ◌≡◌, refl, sym, ap, ◌∙◌, inl, inr, Option, some, List, [], ◌∷◌, ◌++◌, arith,
  append-nil, ltb, ltb→lt, length, get_elem?, Option-cases, Bool-cases,
}
use axonyx_runtime.Prelude.Bytes.{to_le_bytes, length-to_le_bytes, bytes_eq, bytes_eq→eq}
use axonyx_runtime.StateWasm.Value.{ExprValue}
use axonyx_runtime.StateWasm.Operators.{Floats}
use axonyx_runtime.StateWasm.Machine.{Opcode, execute, run}
use axonyx_runtime.StateWasm.Machine.Opcodes.{
  At-next, read_program_u16-At, run-execute, run-execute_fails,
}
use axonyx_runtime.Reactive.Compiler.{ok, position, intern, push_dependency}
use axonyx_runtime.Reactive.Running.{Names, Runs, Compiled}
use axonyx_runtime.Reactive.Collections.{ok_inj}

position-eq-some :
    (name : List ℕ) (names : Names) (i : ℕ)
    → position name names ≡ some i
    → get_elem? names i ≡ some name
unfolding position
position-eq-some name [] i e = cc
position-eq-some name (d ∷ ds) i e = elim (Bool-cases (bytes_eq d name)) [
  | inl same ↦
      let i_lem = some-injective _ _ (rw same at e) in rw (← i_lem, bytes_eq→eq d name same) refl
  | inr other ↦ elim (Option-cases (position name ds)) [
    | inl missing ↦ cc (rw (other, missing) at e)
    | inr (j, found) ↦
        let i_lem = some-injective _ _ (rw (other, found) at e) in
        rw (← i_lem) (position-eq-some name ds j found)
  ]
]

get_elem?-length :
    (names : Names) (name : List ℕ) → get_elem? (names ++ name ∷ []) (length names) ≡ some name
get_elem?-length [] name = refl
get_elem?-length (n ∷ names) name = get_elem?-length names name

intern_lem :
    (name : List ℕ) (names : Names)
    → (get_elem? (intern name names).1 (intern name names).0 ≡ some name)
      × (more : Names) × ((intern name names).1 ≡ names ++ more)
unfolding intern
intern_lem name names = elim (Option-cases (position name names)) [
  | inl missing ↦ rw (intern, missing) (get_elem?-length names name, name ∷ [], refl)
  | inr (i, found) ↦
      rw (intern, found) (position-eq-some name names i found, [], sym (append-nil names))
]

module _ (floats : Floats) (state : List ℕ → Option ExprValue) where
  Runs-dependency :
      (names : Names) (name : List ℕ) (slot : ℕ)
      → get_elem? names slot ≡ some name
      → slot < 65536
      → Runs floats state names (0 ∷ to_le_bytes 2 slot) (state name) ◌∷◌ 1
  unfolding execute
  Runs-dependency names name slot e small whole values cursor stack rest fits b p h =
      let q = At-next whole cursor 0 (to_le_bytes 2 slot ++ rest) p in
      let (word, _) = read_program_u16-At whole (cursor + 1) slot rest fits small q in
      let value = b slot name e in
      let moved : cursor + 1 + 2 ≡ cursor + length (0 ∷ to_le_bytes 2 slot) =
        omega (arith, length-to_le_bytes 2 slot) in
      elim (Option-cases (state name)) [
        | inl missing ↦
            run-execute_fails floats whole values Opcode.push_dependency cursor stack
              (to_le_bytes 2 slot ++ rest) p (rw (word, value, missing) refl)
            ∙ rw missing
        | inr (v, found) ↦
            run-execute floats whole values Opcode.push_dependency cursor stack
              (to_le_bytes 2 slot ++ rest) (cursor + 1 + 2, v ∷ stack) p
              (rw (word, value, found) refl) (omega (arith, h))
            ∙ rw found (ap (λ n. run floats whole values (length whole) n (v ∷ stack)) moved)
      ]

  pub Compiled-dependency :
      (name : List ℕ) (names : Names) (program : List ℕ) (r : Names × List ℕ)
      → push_dependency name names program ≡ ok r
      → Compiled floats state names program r.0 r.1 (state name) ◌∷◌ 1
  unfolding push_dependency
  Compiled-dependency name names program r e = elim (Bool-cases (ltb (intern name names).0 65536)) [
    | inl small ↦
        let (found, more, more_lem) = intern_lem name names in
        subst (λ t. Compiled floats state names program t.0 t.1 (state name) ◌∷◌ 1)
          (ok_inj (rw small at e))
          (record {
            code = 0 ∷ to_le_bytes 2 (intern name names).0;
            code_lem = refl;
            more = more;
            more_lem = more_lem;
            runs =
                Runs-dependency (intern name names).1 name (intern name names).0 found
                  (ltb→lt _ 65536 small);
          })
    | inr large ↦ cc (rw large at e)
  ]
