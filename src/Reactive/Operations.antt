-- ===== src/Reactive/Operations.antt =====
-- The code that `compile_reactive_expression` emits for names and operators.
use Prim.Native.Nat.{max}
use mathlib.Core.Path.{subst}
use axonyx_runtime.Prelude.{
  ℕ, ◌+◌, ◌≤◌, ◌<◌, ◌^◌, ◌≡◌, refl, sym, ap, ◌∙◌, inl, inr, true, false, not, Option, none, some,
  List, [], ◌∷◌, ◌++◌, arith, append_assoc, if◌then◌else◌, ◌>>=◌, length, length-append, Bool-cases,
}
use axonyx_runtime.Prelude.Bytes.{to_le_bytes, length-to_le_bytes, is_utf8, contains, bytes_eq}
use axonyx_runtime.StateWasm.Value.{ExprValue}
use axonyx_runtime.StateWasm.Frame.Layout.{counted}
use axonyx_runtime.StateWasm.Operators.{
  Floats, Binary, opcode_value, evaluate_binary_opcode, expr_truthy,
}
use axonyx_runtime.StateWasm.Machine.{Opcode, opcode_byte, execute, negate, get_member}
use axonyx_runtime.StateWasm.Machine.Opcodes.{read_program_string-At}
use axonyx_runtime.Reactive.Expr.{Exprs, ExprFields}
use axonyx_runtime.Reactive.Compiler.{
  ok, null_name, length_exprs, length_entries, compile_identifier,
}
use axonyx_runtime.Reactive.Meaning.{evaluate_items, evaluate_fields, AreEntries}
use axonyx_runtime.Reactive.Running.{
  Names, Stack, Compiled, Compiled-seq, Compiled-push, Compiled-op,
}
use axonyx_runtime.Reactive.Collections.{
  push_all, push_fields, keys_code, AreShort, execute-build_list, execute-build_object,
}
use axonyx_runtime.Reactive.Dependencies.{Compiled-dependency}
use axonyx_runtime.Reactive.Literals.{add-zero, reached, valued, roomier}

pair_bind :
    (l r : Option ExprValue) (f : ExprValue → ExprValue → Option ExprValue)
    → let both : Option (ExprValue × ExprValue) = l >>= λ a. r >>= λ b. some (a, b) in
      (both >>= λ p. f p.0 p.1) ≡ (l >>= λ a. r >>= λ b. f a b)
pair_bind none r f = refl
pair_bind (some a) none f = refl
pair_bind (some a) (some b) f = refl

module _ (floats : Floats) where
  pub execute-not_value :
      (whole : List ℕ) (values : List ExprValue) (cursor : ℕ) (stack : Stack) (v : ExprValue)
      → execute floats whole values Opcode.not_value cursor (v ∷ stack)
        ≡ (some (ExprValue.bool (not (expr_truthy v))) >>= λ w. some (cursor, w ∷ stack))
  unfolding execute
  execute-not_value whole values cursor stack v = refl

  pub execute-neg_value :
      (whole : List ℕ) (values : List ExprValue) (cursor : ℕ) (stack : Stack) (v : ExprValue)
      → execute floats whole values Opcode.neg_value cursor (v ∷ stack)
        ≡ (negate v >>= λ w. some (cursor, w ∷ stack))
  unfolding execute
  execute-neg_value whole values cursor stack v = refl

module _ (floats : Floats) (state : List ℕ → Option ExprValue) where
  pub Compiled-unary :
      {names : Names} {program : List ℕ} {names' : Names} {program' : List ℕ}
      {value : Option ExprValue} {need : ℕ} (op : Opcode) (f : ExprValue → Option ExprValue)
      → 1 ≤ need
      → ((whole : List ℕ) (values : List ExprValue) (cursor : ℕ) (stack : Stack) (v : ExprValue)
          → execute floats whole values op cursor (v ∷ stack)
            ≡ (f v >>= λ w. some (cursor, w ∷ stack)))
      → Compiled floats state names program names' program' value ◌∷◌ need
      → Compiled floats state names program names'
          (program' ++ opcode_byte op ∷ [])
          (value >>= f)
          ◌∷◌
          need
  Compiled-unary op f room executes c =
      Compiled-op op [] f room c λ whole values cursor stack rest v _ fits p.
        executes whole values cursor stack v
        ∙ ap (λ n. f v >>= λ w. some (n, w ∷ stack)) (add-zero cursor)

  -- Two operands and an opcode for them.
  pub Compiled-binary :
      {names : Names} {program : List ℕ} {names₁ : Names} {program₁ : List ℕ} {names₂ : Names}
      {program₂ : List ℕ} {left right : Option ExprValue} {need need' : ℕ} (op : Binary) (byte : ℕ)
      → byte ≡ opcode_value op
      → 1 ≤ need
      → Compiled floats state names program names₁ program₁ left ◌∷◌ need
      → Compiled floats state names₁ program₁ names₂ program₂ right ◌∷◌ need'
      → Compiled floats state names program names₂
          (program₂ ++ byte ∷ [])
          (left >>= λ a. right >>= λ b. evaluate_binary_opcode floats op a b)
          ◌∷◌
          (max need (1 + need'))
  unfolding execute
  Compiled-binary {names} {program} {names₂} {program₂} {left} {right} op byte e room c d =
      let both =
        Compiled-seq {C = ExprValue × ExprValue} (λ a b. (a, b)) (λ p stack. p.1 ∷ p.0 ∷ stack)
          (λ a b stack. refl) c d in
      let operated =
        Compiled-op (Opcode.binary op) [] (λ p. evaluate_binary_opcode floats op p.0 p.1)
          (omega (arith, room)) both
          (λ whole values cursor stack rest p _ fits at_.
            ap (λ n. evaluate_binary_opcode floats op p.0 p.1 >>= λ w. some (n, w ∷ stack))
              (add-zero cursor)) in
      rw e
        (valued floats state _ _ (pair_bind left right (evaluate_binary_opcode floats op)) operated)

  pub Compiled-identifier :
      (states : Names) (name : List ℕ) (names : Names) (program : List ℕ) (r : Names × List ℕ)
      → compile_identifier states name names program ≡ ok r
      → Compiled floats state names program r.0 r.1
          (if bytes_eq name null_name then some ExprValue.null else state name)
          ◌∷◌
          1
  unfolding execute
  Compiled-identifier states name names program r e = elim (Bool-cases (bytes_eq name null_name)) [
    | inl null ↦ reached floats state _ r (rw null at e) (
        valued floats state (some ExprValue.null) _ (sym (rw null)) (
          Compiled-push names program Opcode.push_null [] ExprValue.null
            (λ whole values cursor stack rest fits p.
              ap (λ n. some (n, ExprValue.null ∷ stack)) (add-zero cursor))))
    | inr named ↦
        valued floats state (state name) _ (sym (rw named))
          (elim (Bool-cases (contains states name)) [
            | inl reactive ↦
                Compiled-dependency floats state name names program r (rw (named, reactive) at e)
            | inr other ↦ cc (rw (named, other) at e)
          ])
  ]

module _ {floats : Floats} {state : List ℕ → Option ExprValue} where
  -- A string operand behind an opcode.
  pub Compiled-text :
      {A : Type 0} {names : Names} {program : List ℕ} {names' : Names} {value : Option A}
      {push : A → Stack → Stack} {need : ℕ} (byte : ℕ) (text pushed before : List ℕ)
      → pushed ≡ (before ++ byte ∷ []) ++ counted text
      → Compiled floats state names program names' (before ++ byte ∷ counted text) value push need
      → Compiled floats state names program names' pushed value push need
  Compiled-text {names} {program} {names'} {value} {push} {need} byte text pushed before e c =
      subst (λ t. Compiled floats state names program names' t value push need)
        (sym (e ∙ append_assoc before (byte ∷ []) (counted text))) c

  pub Compiled-member :
      {names : Names} {program : List ℕ} {names' : Names} {program' : List ℕ}
      {value : Option ExprValue} {need : ℕ} (property : List ℕ)
      → 1 ≤ need
      → length property < 2 ^ 32
      → is_utf8 property ≡ true
      → Compiled floats state names program names' program' value ◌∷◌ need
      → Compiled floats state names program names'
          (program' ++ 41 ∷ counted property)
          (value >>= get_member false property)
          ◌∷◌
          need
  unfolding execute
  Compiled-member property room small utf8 c =
      Compiled-op Opcode.member (counted property) (get_member false property) room c
        λ whole values cursor stack rest v _ fits p.
          let (text, _) = read_program_string-At whole cursor property rest fits small utf8 p in
          rw text refl

  pub Compiled-optional_member :
      {names : Names} {program : List ℕ} {names' : Names} {program' : List ℕ}
      {value : Option ExprValue} {need : ℕ} (property : List ℕ)
      → 1 ≤ need
      → length property < 2 ^ 32
      → is_utf8 property ≡ true
      → Compiled floats state names program names' program' value ◌∷◌ need
      → Compiled floats state names program names'
          (program' ++ 42 ∷ counted property)
          (value >>= get_member true property)
          ◌∷◌
          need
  unfolding execute
  Compiled-optional_member property room small utf8 c =
      Compiled-op Opcode.optional_member (counted property) (get_member true property) room c
        λ whole values cursor stack rest v _ fits p.
          let (text, _) = read_program_string-At whole cursor property rest fits small utf8 p in
          rw text refl

  pub Compiled-list :
      {names : Names} {program : List ℕ} {names' : Names} {program' : List ℕ} {need : ℕ}
      (es : Exprs)
      → length_exprs es ≤ 1024
      → Compiled floats state names program names' program'
          (evaluate_items floats state es)
          push_all
          need
      → Compiled floats state names program names'
          (program' ++ 50 ∷ to_le_bytes 2 (length_exprs es))
          (evaluate_items floats state es >>= λ vs. some (ExprValue.list vs))
          ◌∷◌
          (max 1 need)
  Compiled-list {need} es few c =
      let operand = to_le_bytes 2 (length_exprs es) in
      let two = length-to_le_bytes 2 (length_exprs es) in
      Compiled-op Opcode.build_list operand (λ vs. some (ExprValue.list vs)) (omega arith)
        (roomier floats state (max 1 need) (omega arith) c)
        λ whole values cursor stack rest vs e fits p.
          execute-build_list floats state es whole values cursor stack rest vs few e fits p
          ∙ ap (λ n. some (n, ExprValue.list vs ∷ stack)) (omega (arith, two))

  pub Compiled-object :
      {names : Names} {program : List ℕ} {names' : Names} {program' : List ℕ} {need : ℕ}
      (es : ExprFields)
      → length_entries es ≤ 1024
      → AreEntries [] es
      → AreShort es
      → Compiled floats state names program names' program'
          (evaluate_fields floats state es)
          push_fields
          need
      → Compiled floats state names program names'
          (program' ++ 51 ∷ (to_le_bytes 2 (length_entries es) ++ keys_code es))
          (evaluate_fields floats state es >>= λ fs. some (ExprValue.object fs))
          ◌∷◌
          (max 1 need)
  Compiled-object {need} es few is short c =
      let operand = to_le_bytes 2 (length_entries es) ++ keys_code es in
      let size = length-append (to_le_bytes 2 (length_entries es)) (keys_code es) in
      let two = length-to_le_bytes 2 (length_entries es) in
      Compiled-op Opcode.build_object operand (λ fs. some (ExprValue.object fs)) (omega arith)
        (roomier floats state (max 1 need) (omega arith) c)
        λ whole values cursor stack rest fs e fits p.
          execute-build_object floats state es whole values cursor stack rest fs few is short e fits
            p
          ∙ ap (λ n. some (n, ExprValue.object fs ∷ stack)) (omega (arith, two, size))
