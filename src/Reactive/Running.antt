-- ===== src/Reactive/Running.antt =====
-- Compiled code as a step of the machine: combinators from which the correctness of the compiler is
-- assembled.
use Prim.Native.Nat.{max}
use axonyx_runtime.Prelude.{
  ℕ, zero, suc, ◌+◌, ◌≤◌, ◌<◌, ◌≡◌, refl, sym, ap, ◌∙◌, inl, inr, Option, none, some, List, [], ◌∷◌,
  ◌++◌, arith, append_assoc, append-nil, ◌>>=◌, length, length-append, get_elem?, Option-cases,
}
use axonyx_runtime.StateWasm.Value.{ExprValue}
use axonyx_runtime.StateWasm.Cursor.{usize_size}
use axonyx_runtime.StateWasm.Cursor.Laws.{At, At-skip}
use axonyx_runtime.StateWasm.Frame.Decoding.{At-eq}
use axonyx_runtime.StateWasm.Operators.{Floats}
use axonyx_runtime.StateWasm.Machine.{Opcode, opcode_byte, execute, run, stack_max_values}
use axonyx_runtime.StateWasm.Machine.Opcodes.{At-next, run-execute, run-execute_fails}

abbrev pub Names : Type 0
Names = List (List ℕ)

abbrev pub Stack : Type 0
Stack = List ExprValue

-- The values handed to the machine are those of the states in the dependency table.
abbrev pub Binds : (List ℕ → Option ExprValue) → Names → List ExprValue → Type 0
Binds state names values =
    (i : ℕ) (name : List ℕ) → get_elem? names i ≡ some name → get_elem? values i ≡ state name

get_elem?-append_left :
    (xs ys : Names) (i : ℕ) (x : List ℕ) → get_elem? xs i ≡ some x → get_elem? (xs ++ ys) i ≡ some x
get_elem?-append_left [] ys i x e = cc
get_elem?-append_left (y ∷ xs) ys zero x e = e
get_elem?-append_left (y ∷ xs) ys (suc i) x e = get_elem?-append_left xs ys i x e

module _ (floats : Floats) (state : List ℕ → Option ExprValue) where
  -- From any cursor with `code` behind it, the machine comes to the cursor behind the code with
  -- `value` pushed, and fails where `value` is `none`.
  abbrev pub Runs : {A : Type 0} → Names → List ℕ → Option A → (A → Stack → Stack) → ℕ → Type 0
  Runs names code value push need =
      (program : List ℕ) (values : List ExprValue) (cursor : ℕ) (stack : Stack) (rest : List ℕ)
      → length program < usize_size
      → Binds state names values
      → At program cursor (code ++ rest)
      → length stack + need ≤ stack_max_values
      → run floats program values (length program) cursor stack ≡ (
          value >>= λ a.
          run floats program values (length program) (cursor + length code) (push a stack))

  -- The code that a compiled part appends to the program, and the names that it appends to the table.
  pub record Compiled {A : Type 0} (names : Names) (program : List ℕ) (names' : Names)
      (program' : List ℕ) (value : Option A) (push : A → Stack → Stack) (need : ℕ) : Type 0 where
    pub code : List ℕ
    pub code_lem : program' ≡ program ++ code
    pub more : Names
    pub more_lem : names' ≡ names ++ more
    pub runs : Runs names' code value push need

bind_ext :
    {A B : Type 0} (o : Option A) (f g : A → Option B)
    → ((a : A) → o ≡ some a → f a ≡ g a)
    → (o >>= f) ≡ (o >>= g)
bind_ext none f g h = refl
bind_ext (some a) f g h = h a refl

bind_assoc :
    {A B C : Type 0} (o : Option A) (f : A → Option B) (g : B → Option C)
    → (o >>= λ a. f a >>= g) ≡ ((o >>= f) >>= g)
bind_assoc none f g = refl
bind_assoc (some a) f g = refl

Binds-append_left :
    {state : List ℕ → Option ExprValue} (names more : Names) (values : List ExprValue)
    → Binds state (names ++ more) values
    → Binds state names values
Binds-append_left names more values b i name e =
    b i name (get_elem?-append_left names more i name e)

module _ {floats : Floats} {state : List ℕ → Option ExprValue} where
  -- A compiled part, and code that turns what it pushes into something else.
  pub Compiled-then :
      {A B : Type 0} {names : Names} {program : List ℕ} {names' : Names} {program' : List ℕ}
      {value : Option A} {push : A → Stack → Stack} {need : ℕ} (tail : List ℕ) (f : A → Option B)
      (push' : B → Stack → Stack)
      → Compiled floats state names program names' program' value push need
      → ((whole : List ℕ) (values : List ExprValue) (cursor : ℕ) (stack : Stack) (rest : List ℕ)
            (a : A)
          → value ≡ some a
          → length whole < usize_size
          → At whole cursor (tail ++ rest)
          → length stack + need ≤ stack_max_values
          → run floats whole values (length whole) cursor (push a stack) ≡ (
              f a >>= λ b.
              run floats whole values (length whole) (cursor + length tail) (push' b stack)))
      → Compiled floats state names program names' (program' ++ tail) (value >>= f) push' need
  Compiled-then {program} {value} {push} tail f push' c runs_tail = record {
    code = c.code ++ tail;
    code_lem = ap (λ t. t ++ tail) c.code_lem ∙ append_assoc program c.code tail;
    more = c.more;
    more_lem = c.more_lem;
    runs = λ whole values cursor stack rest small b p h.
        let p' = At-eq p (append_assoc c.code tail rest) in
        let q = At-skip whole cursor c.code (tail ++ rest) p' in
        let moved : cursor + length c.code + length tail ≡ cursor + length (c.code ++ tail) =
          omega (arith, length-append c.code tail) in
        c.runs whole values cursor stack (tail ++ rest) small b p' h
        ∙ bind_ext value _ _
            (λ a e. runs_tail whole values (cursor + length c.code) stack rest a e small q h)
        ∙ bind_assoc value f _
        ∙ ap (λ n. (value >>= f) >>= λ b. run floats whole values (length whole) n (push' b stack))
            moved;
  }

  -- A compiled value and another part behind it.
  pub Compiled-seq :
      {B C : Type 0} {names : Names} {program : List ℕ} {names₁ : Names} {program₁ : List ℕ}
      {names₂ : Names} {program₂ : List ℕ} {value : Option ExprValue} {value' : Option B}
      {push : B → Stack → Stack} {need need' : ℕ} (join : ExprValue → B → C)
      (push' : C → Stack → Stack)
      → ((a : ExprValue) (b : B) (stack : Stack) → push' (join a b) stack ≡ push b (a ∷ stack))
      → Compiled floats state names program names₁ program₁ value ◌∷◌ need
      → Compiled floats state names₁ program₁ names₂ program₂ value' push need'
      → Compiled floats state names program names₂ program₂
          (value >>= λ a. value' >>= λ b. some (join a b))
          push'
          (max need (1 + need'))
  Compiled-seq {names} {program} {names₁} {program₁} {value} {value'} {push} {need} {need'} join
        push' pushes c d =
      record {
        code = c.code ++ d.code;
        code_lem =
            d.code_lem ∙ ap (λ t. t ++ d.code) c.code_lem ∙ append_assoc program c.code d.code;
        more = c.more ++ d.more;
        more_lem = d.more_lem ∙ ap (λ t. t ++ d.more) c.more_lem ∙ append_assoc names c.more d.more;
        runs = λ whole values cursor stack rest small b p h.
            let p' = At-eq p (append_assoc c.code d.code rest) in
            let q = At-skip whole cursor c.code (d.code ++ rest) p' in
            let moved : cursor + length c.code + length d.code
                ≡ cursor + length (c.code ++ d.code) =
              omega (arith, length-append c.code d.code) in
            let b₁ = Binds-append_left names₁ d.more values (rw (← d.more_lem) b) in
            c.runs whole values cursor stack (d.code ++ rest) small b₁ p' (omega (arith, h))
            ∙ bind_ext value _ _ (λ a _.
              d.runs whole values (cursor + length c.code) (a ∷ stack) rest small b q
                (omega (arith, h))
              ∙ bind_ext value' _ _ (λ e _.
                ap (λ n. run floats whole values (length whole) n (push e (a ∷ stack))) moved
                ∙ ap (run floats whole values (length whole) (cursor + length (c.code ++ d.code)))
                    (sym (pushes a e stack)))
              ∙ bind_assoc value' (λ e. some (join a e)) _)
            ∙ bind_assoc value (λ a. value' >>= λ e. some (join a e)) _;
      }

  -- Nothing is compiled to nothing.
  pub Compiled-done :
      {A : Type 0} (names : Names) (program : List ℕ) (a : A) (push : A → Stack → Stack)
      → ((stack : Stack) → push a stack ≡ stack)
      → Compiled floats state names program names program (some a) push 0
  Compiled-done names program a push same = record {
    code = [];
    code_lem = sym (append-nil program);
    more = [];
    more_lem = sym (append-nil names);
    runs = λ whole values cursor stack rest small b p h.
        let stays : cursor ≡ cursor + 0 = omega arith in
        ap (λ n. run floats whole values (length whole) n stack) stays
        ∙ ap (run floats whole values (length whole) (cursor + 0)) (sym (same stack));
  }

  -- A literal: an opcode and its operand, which push a known value.
  pub Compiled-push :
      (names : Names) (program : List ℕ) (op : Opcode) (operand : List ℕ) (v : ExprValue)
      → ((whole : List ℕ) (values : List ExprValue) (cursor : ℕ) (stack : Stack) (rest : List ℕ)
          → length whole < usize_size
          → At whole cursor (operand ++ rest)
          → execute floats whole values op cursor stack ≡ some (cursor + length operand, v ∷ stack))
      → Compiled floats state names program names
          (program ++ opcode_byte op ∷ operand)
          (some v)
          ◌∷◌
          1
  Compiled-push names program op operand v executes = record {
    code = opcode_byte op ∷ operand;
    code_lem = refl;
    more = [];
    more_lem = sym (append-nil names);
    runs = λ whole values cursor stack rest small b p h.
        let q = At-next whole cursor (opcode_byte op) (operand ++ rest) p in
        let moved : cursor + 1 + length operand ≡ cursor + suc (length operand) = omega arith in
        run-execute floats whole values op cursor stack (operand ++ rest) _ p
          (executes whole values (cursor + 1) stack rest small q) (omega (arith, h))
        ∙ ap (λ n. run floats whole values (length whole) n (v ∷ stack)) moved;
  }

  -- A compiled part and an opcode that works on what it pushes.
  pub Compiled-op :
      {A : Type 0} {names : Names} {program : List ℕ} {names' : Names} {program' : List ℕ}
      {value : Option A} {push : A → Stack → Stack} {need : ℕ} (op : Opcode) (operand : List ℕ)
      (f : A → Option ExprValue)
      → 1 ≤ need
      → Compiled floats state names program names' program' value push need
      → ((whole : List ℕ) (values : List ExprValue) (cursor : ℕ) (stack : Stack) (rest : List ℕ)
            (a : A)
          → value ≡ some a
          → length whole < usize_size
          → At whole cursor (operand ++ rest)
          → execute floats whole values op cursor (push a stack)
            ≡ (f a >>= λ v. some (cursor + length operand, v ∷ stack)))
      → Compiled floats state names program names'
          (program' ++ opcode_byte op ∷ operand)
          (value >>= f)
          ◌∷◌
          need
  Compiled-op {push} {need} op operand f room c executes =
      Compiled-then (opcode_byte op ∷ operand) f ◌∷◌ c
        λ whole values cursor stack rest a is small p h.
          let q = At-next whole cursor (opcode_byte op) (operand ++ rest) p in
          let e = executes whole values (cursor + 1) stack rest a is small q in
          let moved : cursor + 1 + length operand ≡ cursor + suc (length operand) = omega arith in
          elim (Option-cases (f a)) [
            | inl missing ↦
                run-execute_fails floats whole values op cursor (push a stack) (operand ++ rest) p
                  (e ∙ rw missing)
                ∙ rw missing
            | inr (v, found) ↦
                run-execute floats whole values op cursor (push a stack) (operand ++ rest)
                  (cursor + 1 + length operand, v ∷ stack) p (e ∙ rw found refl)
                  (omega (arith, h, room))
                ∙ rw found (ap (λ n. run floats whole values (length whole) n (v ∷ stack)) moved)
          ]
