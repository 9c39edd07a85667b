-- ===== src/Reactive/Literals.antt =====
-- The code that `compile_reactive_expression` emits for literals.
use mathlib.Core.Path.{subst}
use axonyx_runtime.Prelude.{
  ℕ, ◌+◌, ◌≤◌, ◌<◌, ◌^◌, ◌≡◌, refl, Bool, true, false, Option, some, List, [], ◌∷◌, ◌++◌, arith,
  if◌then◌else◌, length,
}
use axonyx_runtime.Prelude.Bytes.{
  to_le_bytes, from_le_bytes, from_le_bytes-to_le_bytes, length-to_le_bytes, is_utf8,
}
use axonyx_runtime.Prelude.Int.{ℤ, in_i64, to_word, to_word-lt, from_word-to_word}
use axonyx_runtime.StateWasm.Value.{ExprValue}
use axonyx_runtime.StateWasm.Cursor.Laws.{take_bytes-At}
use axonyx_runtime.StateWasm.Frame.{is_finite}
use axonyx_runtime.StateWasm.Frame.Layout.{counted}
use axonyx_runtime.StateWasm.Operators.{Floats}
use axonyx_runtime.StateWasm.Machine.{Opcode, execute}
use axonyx_runtime.StateWasm.Machine.Opcodes.{read_program_string-At}
use axonyx_runtime.Reactive.Expr.{Expr, list, object, unary, binary, index, member, optional_member}
use axonyx_runtime.Reactive.Compiler.{ok}
use axonyx_runtime.Reactive.Meaning.{height}
use axonyx_runtime.Reactive.Running.{Names, Stack, Compiled, Compiled-push}
use axonyx_runtime.Reactive.Collections.{ok_inj}

pub height-pos : (e : Expr) → 1 ≤ height e
height-pos (unary op e) = height-pos e
height-pos (binary op l r) = let h = height-pos l in omega arith
height-pos (index o i) = let h = height-pos o in omega arith
height-pos (member o property) = height-pos o
height-pos (optional_member o property) = height-pos o
height-pos (list items) = omega arith
height-pos (object fields) = omega arith
height-pos _ = omega arith

pub add-zero : (n : ℕ) → n ≡ n + 0
add-zero n = omega arith

module _ (floats : Floats) (state : List ℕ → Option ExprValue) where
  -- A result of the compiler that is known.
  pub reached :
      {A : Type 0} {names : Names} {program : List ℕ} {value : Option A} {push : A → Stack → Stack}
      {need : ℕ} (q r : Names × List ℕ)
      → ok q ≡ ok r
      → Compiled floats state names program q.0 q.1 value push need
      → Compiled floats state names program r.0 r.1 value push need
  reached {names} {program} {value} {push} {need} q r e c =
      subst (λ t. Compiled floats state names program t.0 t.1 value push need) (ok_inj e) c

  pub valued :
      {A : Type 0} {names : Names} {program : List ℕ} {names' : Names} {program' : List ℕ}
      {push : A → Stack → Stack} {need : ℕ} (v w : Option A)
      → v ≡ w
      → Compiled floats state names program names' program' v push need
      → Compiled floats state names program names' program' w push need
  valued {names} {program} {names'} {program'} {push} {need} v w e c =
      subst (λ t. Compiled floats state names program names' program' t push need) e c

  pub roomier :
      {A : Type 0} {names : Names} {program : List ℕ} {names' : Names} {program' : List ℕ}
      {value : Option A} {push : A → Stack → Stack} {need : ℕ} (need' : ℕ)
      → need ≤ need'
      → Compiled floats state names program names' program' value push need
      → Compiled floats state names program names' program' value push need'
  roomier need' le c = record {
    code = c.code;
    code_lem = c.code_lem;
    more = c.more;
    more_lem = c.more_lem;
    runs = λ whole values cursor stack rest fits b p h.
        c.runs whole values cursor stack rest fits b p (omega (arith, h, le));
  }

  pub Compiled-string :
      (names : Names) (program value : List ℕ)
      → length value < 2 ^ 32
      → is_utf8 value ≡ true
      → Compiled floats state names program names
          (program ++ 2 ∷ counted value)
          (some (ExprValue.string value))
          ◌∷◌
          1
  unfolding execute
  Compiled-string names program value small utf8 =
      Compiled-push names program Opcode.push_string (counted value) (ExprValue.string value)
        λ whole values cursor stack rest fits p.
          let (text, _) = read_program_string-At whole cursor value rest fits small utf8 p in
          rw text refl

  pub Compiled-bool :
      (names : Names) (program : List ℕ) (value : Bool)
      → Compiled floats state names program names
          (program ++ 3 ∷ (if value then 1 else 0) ∷ [])
          (some (ExprValue.bool value))
          ◌∷◌
          1
  unfolding execute from_le_bytes
  Compiled-bool names program true =
      Compiled-push names program Opcode.push_bool (1 ∷ []) (ExprValue.bool true)
        λ whole values cursor stack rest fits p.
          rw (take_bytes-At whole cursor (1 ∷ []) rest p fits) refl
  Compiled-bool names program false =
      Compiled-push names program Opcode.push_bool (0 ∷ []) (ExprValue.bool false)
        λ whole values cursor stack rest fits p.
          rw (take_bytes-At whole cursor (0 ∷ []) rest p fits) refl

  pub Compiled-float :
      (names : Names) (program : List ℕ) (value : ℕ)
      → value < 2 ^ 64
      → is_finite value ≡ true
      → Compiled floats state names program names
          (program ++ 4 ∷ to_le_bytes 8 value)
          (some (ExprValue.float value))
          ◌∷◌
          1
  unfolding execute to_le_bytes
  Compiled-float names program value word finite =
      Compiled-push names program Opcode.push_float (to_le_bytes 8 value) (ExprValue.float value)
        λ whole values cursor stack rest fits p.
          let raw =
            rw (length-to_le_bytes 8 value) at
              (take_bytes-At whole cursor (to_le_bytes 8 value) rest p fits) in
          rw (raw, from_le_bytes-to_le_bytes 8 value word, finite) refl

  pub Compiled-number :
      (names : Names) (program : List ℕ) (value : ℤ)
      → in_i64 value ≡ true
      → Compiled floats state names program names
          (program ++ 5 ∷ to_le_bytes 8 (to_word value))
          (some (ExprValue.int value))
          ◌∷◌
          1
  unfolding execute to_le_bytes
  Compiled-number names program value word =
      Compiled-push names program Opcode.push_int (to_le_bytes 8 (to_word value))
        (ExprValue.int value)
        λ whole values cursor stack rest fits p.
          let raw =
            rw (length-to_le_bytes 8 (to_word value)) at
              (take_bytes-At whole cursor (to_le_bytes 8 (to_word value)) rest p fits) in
          rw
            (
              raw,
              from_le_bytes-to_le_bytes 8 (to_word value) (to_word-lt value word),
              from_word-to_word value word,
            )
            refl
