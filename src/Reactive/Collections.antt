-- ===== src/Reactive/Collections.antt =====
-- Inversion of the compiler's steps, and the code of lists and objects.
use mathlib.Core.Option.{some-injective}
use axonyx_runtime.StateWasm.Frame.Decoding.{At-eq}
use axonyx_runtime.Prelude.{
  ℕ, suc, ◌+◌, ◌≤◌, ◌<◌, ◌^◌, ◌≡◌, refl, sym, ap, ◌∙◌, Option, some, List, [], ◌∷◌, ◌++◌, arith,
  append_assoc, append-nil, le→leb, length, length-append, >>=-eq-some,
}
use axonyx_runtime.Prelude.Bytes.{to_le_bytes}
use axonyx_runtime.StateWasm.Value.{ExprValue, Values, Fields}
use axonyx_runtime.StateWasm.Cursor.{usize_size}
use axonyx_runtime.StateWasm.Cursor.Laws.{At}
use axonyx_runtime.StateWasm.Frame.Layout.{counted}
use axonyx_runtime.StateWasm.Operators.{Floats, opcode_value}
use axonyx_runtime.StateWasm.Machine.{Opcode, execute, pop_values, read_keys, zip_fields}
use axonyx_runtime.StateWasm.Machine.Opcodes.{read_program_u16-At, read_program_string-At}
use axonyx_runtime.Reactive.Expr.{BinaryOp, add, Exprs, nil, cons, ExprFields, end, field}
use axonyx_runtime.Reactive.Compiler.{
  CompileError, Result, ok, err, ◌>>=◌ as bind_result, binary_opcode, push_program_string,
  reactive_collection_count, length_exprs, length_entries, push_keys,
}
use axonyx_runtime.Reactive.Meaning.{
  operator, evaluate, evaluate_items, evaluate_fields, AreEntries,
}
use axonyx_runtime.Reactive.Running.{Stack}

pub bind-eq-ok :
    {A B : Type 0} (m : Result A) (f : A → Result B) {b : B}
    → bind_result m f ≡ ok b
    → (a : A) × (m ≡ ok a) × (f a ≡ ok b)
bind-eq-ok (ok a) f h = (a, refl, h)
bind-eq-ok (err e) f h = cc

pub ok_inj : {A : Type 0} {a b : A} → ok a ≡ ok b → a ≡ b
ok_inj {a} h = ap (λ r. get_ok r a) h
  where
    get_ok : {A : Type 0} → Result A → A → A
    get_ok (ok x) y = x
    get_ok (err e) y = y

pub push_string-eq-ok :
    (program text : List ℕ) {pushed : List ℕ}
    → push_program_string program text ≡ ok pushed
    → (length text < 2 ^ 32) × (pushed ≡ program ++ counted text)
unfolding push_program_string
push_string-eq-ok program text e = (ground arith, ground arith)

pub count-eq-ok :
    (n : ℕ) (error : CompileError) {count : ℕ}
    → reactive_collection_count n error ≡ ok count
    → (n ≤ 1024) × (count ≡ n)
unfolding reactive_collection_count
count-eq-ok n error e = (ground arith, ground arith)

pub binary_opcode_lem : (op : BinaryOp) → binary_opcode op ≡ opcode_value (operator op)
binary_opcode_lem add = refl
binary_opcode_lem _ = refl

-- Popping what was pushed.
abbrev pub push_all : Values → Stack → Stack
push_all Values.nil stack = stack
push_all (Values.cons v vs) stack = push_all vs (v ∷ stack)

abbrev pub length_values : Values → ℕ
length_values Values.nil = 0
length_values (Values.cons v vs) = suc (length_values vs)

abbrev append_values : Values → Values → Values
append_values Values.nil ws = ws
append_values (Values.cons v vs) ws = Values.cons v (append_values vs ws)

append_values-nil : (vs : Values) → append_values vs Values.nil ≡ vs
append_values-nil Values.nil = refl
append_values-nil (Values.cons v vs) = ap (Values.cons v) (append_values-nil vs)

pop_values-push_all :
    (vs : Values) (k n : ℕ) (stack : Stack) (popped : Values)
    → n ≡ length_values vs + k
    → pop_values n (push_all vs stack) popped ≡ pop_values k stack (append_values vs popped)
pop_values-push_all Values.nil k n stack popped e =
    ap (λ i. pop_values i stack popped) (omega (arith, e))
pop_values-push_all (Values.cons v vs) k n stack popped e =
    pop_values-push_all vs (suc k) n (v ∷ stack) popped (omega (arith, e))
    ∙ unfold pop_values in refl

-- The values of an object's fields, and its keys.
abbrev field_values : Fields → Values
field_values Fields.end = Values.nil
field_values (Fields.field k v fs) = Values.cons v (field_values fs)

abbrev field_keys : Fields → List (List ℕ)
field_keys Fields.end = []
field_keys (Fields.field k v fs) = k ∷ field_keys fs

abbrev entry_keys : ExprFields → List (List ℕ)
entry_keys end = []
entry_keys (field k e fs) = k ∷ entry_keys fs

abbrev pub push_fields : Fields → Stack → Stack
push_fields Fields.end stack = stack
push_fields (Fields.field k v fs) stack = push_fields fs (v ∷ stack)

push_fields-eq-push_all :
    (fs : Fields) (stack : Stack) → push_fields fs stack ≡ push_all (field_values fs) stack
push_fields-eq-push_all Fields.end stack = refl
push_fields-eq-push_all (Fields.field k v fs) stack = push_fields-eq-push_all fs (v ∷ stack)

zip_fields-keys-values : (fs : Fields) → zip_fields (field_keys fs) (field_values fs) ≡ fs
unfolding zip_fields
zip_fields-keys-values Fields.end = refl
zip_fields-keys-values (Fields.field k v fs) = ap (Fields.field k v) (zip_fields-keys-values fs)

-- The code of an object's keys.
abbrev pub keys_code : ExprFields → List ℕ
keys_code end = []
keys_code (field k e fs) = counted k ++ keys_code fs

abbrev pub AreShort : ExprFields → Type 0
AreShort end = Unit
AreShort (field k e fs) = (length k < 2 ^ 32) × AreShort fs

pub push_keys-eq-ok :
    (fs : ExprFields) (program : List ℕ) {named : List ℕ}
    → push_keys fs program ≡ ok named
    → AreShort fs × (named ≡ program ++ keys_code fs)
unfolding push_keys
push_keys-eq-ok end program e = (tt, ok_inj (sym e) ∙ sym (append-nil program))
push_keys-eq-ok (field k v fs) program e =
    let (pushed, p, q) = bind-eq-ok (push_program_string program k) _ e in
    let (bound, pushed_lem) = push_string-eq-ok program k p in
    let (short, named_lem) = push_keys-eq-ok fs pushed q in
    ((bound, short), named_lem ∙ ap (λ t. t ++ keys_code fs) pushed_lem ∙ append_assoc program _ _)

read_keys-At :
    (fs : ExprFields) (program : List ℕ) (cursor : ℕ) (keys : List (List ℕ)) (rest : List ℕ)
    → length program < usize_size
    → AreEntries keys fs
    → AreShort fs
    → At program cursor (keys_code fs ++ rest)
    → read_keys (length_entries fs) program cursor keys
      ≡ some (entry_keys fs, cursor + length (keys_code fs))
unfolding read_keys
read_keys-At end program cursor keys rest small is short p = ap (λ n. some ([], n)) (omega arith)
read_keys-At (field k e fs) program cursor keys rest small (utf8, fresh, _, is) (bound, short) p =
    let p' = At-eq p (append_assoc (counted k) (keys_code fs) rest) in
    let (here, q) =
      read_program_string-At program cursor k (keys_code fs ++ rest) small bound utf8 p' in
    let more =
      read_keys-At fs program (cursor + length (counted k)) (k ∷ keys) rest small is short q in
    rw (here, fresh, more)
      (ap (λ n. some (k ∷ entry_keys fs, n))
        (omega (arith, length-append (counted k) (keys_code fs))))

module _ (floats : Floats) (state : List ℕ → Option ExprValue) where
  evaluate_items-length :
      (es : Exprs) (vs : Values)
      → evaluate_items floats state es ≡ some vs
      → length_values vs ≡ length_exprs es
  unfolding evaluate
  evaluate_items-length nil vs e = ap length_values (sym (some-injective _ _ e))
  evaluate_items-length (cons x es) vs e =
      let (v, p, e₁) = >>=-eq-some (evaluate floats state x) _ e in
      let (ws, q, e₂) = >>=-eq-some (evaluate_items floats state es) _ e₁ in
      ap length_values (sym (some-injective _ _ e₂)) ∙ ap suc (evaluate_items-length es ws q)

  evaluate_fields-keys :
      (es : ExprFields) (fs : Fields)
      → evaluate_fields floats state es ≡ some fs
      → (field_keys fs ≡ entry_keys es) × (length_values (field_values fs) ≡ length_entries es)
  unfolding evaluate
  evaluate_fields-keys end fs e =
      let same = sym (some-injective _ _ e) in
      (ap field_keys same, ap (λ t. length_values (field_values t)) same)
  evaluate_fields-keys (field k x es) fs e =
      let (v, p, e₁) = >>=-eq-some (evaluate floats state x) _ e in
      let (gs, q, e₂) = >>=-eq-some (evaluate_fields floats state es) _ e₁ in
      let same = sym (some-injective _ _ e₂) in
      let (keys, count) = evaluate_fields-keys es gs q in
      (
        ap field_keys same ∙ ap (◌∷◌ k) keys,
        ap (λ t. length_values (field_values t)) same ∙ ap suc count,
      )

  pub execute-build_list :
      (es : Exprs) (whole : List ℕ) (values : List ExprValue) (cursor : ℕ) (stack : Stack)
      (rest : List ℕ) (vs : Values)
      → length_exprs es ≤ 1024
      → evaluate_items floats state es ≡ some vs
      → length whole < usize_size
      → At whole cursor (to_le_bytes 2 (length_exprs es) ++ rest)
      → execute floats whole values Opcode.build_list cursor (push_all vs stack)
        ≡ some (cursor + 2, ExprValue.list vs ∷ stack)
  unfolding execute
  execute-build_list es whole values cursor stack rest vs few e small p =
      let (word, _) =
        read_program_u16-At whole cursor (length_exprs es) rest small (omega arith) p in
      let n = evaluate_items-length es vs e in
      let popped = pop_values-push_all vs 0 (length_exprs es) stack Values.nil (omega (arith, n)) in
      rw (word, le→leb (length_exprs es) 1024 few, popped, append_values-nil vs)
        (unfold pop_values in refl)

  pub execute-build_object :
      (es : ExprFields) (whole : List ℕ) (values : List ExprValue) (cursor : ℕ) (stack : Stack)
      (rest : List ℕ) (fs : Fields)
      → length_entries es ≤ 1024
      → AreEntries [] es
      → AreShort es
      → evaluate_fields floats state es ≡ some fs
      → length whole < usize_size
      → At whole cursor ((to_le_bytes 2 (length_entries es) ++ keys_code es) ++ rest)
      → execute floats whole values Opcode.build_object cursor (push_fields fs stack)
        ≡ some (cursor + 2 + length (keys_code es), ExprValue.object fs ∷ stack)
  unfolding execute
  execute-build_object es whole values cursor stack rest fs few is short e small p =
      let p' = At-eq p (append_assoc (to_le_bytes 2 (length_entries es)) (keys_code es) rest) in
      let (word, q) =
        read_program_u16-At whole cursor (length_entries es) (keys_code es ++ rest) small
          (omega arith) p' in
      let keys = read_keys-At es whole (cursor + 2) [] rest small is short q in
      let (same_keys, n) = evaluate_fields-keys es fs e in
      let popped =
        pop_values-push_all (field_values fs) 0 (length_entries es) stack Values.nil
          (omega (arith, n)) in
      rw
        (
          word,
          le→leb (length_entries es) 1024 few,
          keys,
          push_fields-eq-push_all fs stack,
          popped,
          append_values-nil (field_values fs),
          ← same_keys,
        )
        (unfold pop_values in
          ap (λ o. some (cursor + 2 + length (keys_code es), ExprValue.object o ∷ stack))
            (zip_fields-keys-values fs))
