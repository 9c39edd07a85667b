-- ===== src/Reactive/Inline/Capture.antt =====
-- What `expand_pure_reactive_expression` of crates/axonyx-core/src/ax_parser_auto.rs does where a state
-- is named like a parameter.
use axonyx_runtime.Prelude.{ℕ, ◌≡◌, refl, ap, inl, inr, false, none, List, [], ◌∷◌, Bool-cases}
use axonyx_runtime.Prelude.Bytes.{bytes_eq, bytes_eq→eq, bytes_eq_refl}
use axonyx_runtime.Prelude.Int.{ℤ}
use axonyx_runtime.Reactive.Expr.{number, identifier, call, nil, cons}
use axonyx_runtime.Reactive.Inline.{
  Param, Function, expanded, refused, recursive_parameter, expand_pure_reactive_expression,
}

abbrev pub plain : List ℕ → Param
plain name = record { name = name; default = none }

-- `fn name(a, b) = a`
abbrev pub first_of : List ℕ → List ℕ → List ℕ → Function
first_of name a b = record { name = name; params = plain a ∷ plain b ∷ []; body = identifier a }

bytes_eq-false_sym : (a b : List ℕ) → bytes_eq a b ≡ false → bytes_eq b a ≡ false
bytes_eq-false_sym a b h = elim (Bool-cases (bytes_eq b a)) [
  | inl same ↦ cc (h, bytes_eq_refl a, ap (bytes_eq a) (bytes_eq→eq b a same))
  | inr other ↦ other
]

-- Where the only function has two parameters of different names, neither with a default, and its body is
-- the first of them: its call with an identifier of the second parameter's name and a number expands
-- to that number, though the body is the first parameter; and its call with an identifier of the first
-- parameter's name and a number is refused as recursive, though no function calls another.
pub expand_captures :
    (name a b : List ℕ) (n : ℤ)
    → bytes_eq a b ≡ false
    → (expand_pure_reactive_expression
          (first_of name a b ∷ [])
          (call (name ∷ []) (cons (identifier b) (cons (number n) nil)))
        ≡ expanded (number n))
      × (expand_pure_reactive_expression
            (first_of name a b ∷ [])
            (call (name ∷ []) (cons (identifier a) (cons (number n) nil)))
          ≡ refused (recursive_parameter a))
unfolding expand_pure_reactive_expression
expand_captures name a b n h =
    let k = bytes_eq-false_sym a b h in
    (
      rw (bytes_eq_refl name, bytes_eq_refl a, k, bytes_eq_refl b, h) refl,
      rw (bytes_eq_refl name, bytes_eq_refl a, k)
          (rw (k, bytes_eq_refl a) (rw (bytes_eq_refl a) refl)),
    )
