-- ===== src/Http/Decimal.antt =====
-- Numbers as crates/axonyx-runtime/src/server.rs and csrf_http.rs write them in decimal.
use axonyx_runtime.Prelude.{
  ℕ, zero, suc, ◌+◌, ◌-◌, ◌*◌, ◌/◌, ◌%◌, ◌^◌, ◌≤◌, ◌<◌, ◌≡◌, ◌⊎◌, refl, sym, ap, ◌∙◌, inl, inr,
  true, false, some, [], ◌∷◌, ◌==◌, arith, le→leb,
}
use native.Mathlib.Nat.{pow-suc}
use axonyx_runtime.StateWasm.Operators.{decimal}
use axonyx_runtime.Http.Text.{Text, is_digit, parse_digits, parse_unsigned}
use axonyx_runtime.Http.Splits.{Avoids}

abbrev last : ℕ → ℕ
last n = b'0' + n % 10

zero-cases : (n : ℕ) → (n ≡ 0) ⊎ ((m : ℕ) × (n ≡ suc m))
zero-cases zero = inl refl
zero-cases (suc m) = inr (m, refl)

decimal_done : (fuel n : ℕ) (s : Text) → n / 10 ≡ 0 → decimal (suc fuel) n s ≡ last n ∷ s
unfolding decimal
decimal_done fuel n s e = rw (e, decimal) refl

decimal_more :
    (fuel n m : ℕ) (s : Text)
    → n / 10 ≡ suc m
    → decimal (suc fuel) n s ≡ decimal fuel (suc m) (last n ∷ s)
unfolding decimal
decimal_more fuel n m s e = rw (e, decimal) refl

-- A mark that is no digit.
pub decimal-Avoids :
    (mark fuel n : ℕ) (s : Text)
    → ((k : ℕ) → (b'0' + k % 10 == mark) ≡ false)
    → Avoids mark s
    → Avoids mark (decimal fuel n s)
decimal-Avoids mark zero n s h t = unfold decimal in t
decimal-Avoids mark (suc fuel) n s h t = elim (zero-cases (n / 10)) [
  | inl e ↦ rw (decimal_done fuel n s e) (h n, t)
  | inr (m, e) ↦
      rw (decimal_more fuel n m s e) (decimal-Avoids mark fuel (suc m) (last n ∷ s) h (h n, t))
]

digit : (n : ℕ) → is_digit (last n) ≡ true
digit n = ground arith

parse_digit :
    (max a n k : ℕ) (s : Text)
    → a * 10 + n % 10 ≡ k
    → k ≤ max
    → parse_digits max a (last n ∷ s) ≡ parse_digits max k s
unfolding parse_digits
parse_digit max a n k s whole h =
    let e : a * 10 + (last n - b'0') ≡ k = omega (arith, whole) in
    rw (e, digit n, le→leb k max h) refl

-- The digits of a number are read back, before whatever follows them.
parse_digits-decimal :
    (max fuel n : ℕ) (s : Text)
    → n ≤ max
    → n < 10 ^ suc fuel
    → parse_digits max 0 (decimal (suc fuel) n s) ≡ parse_digits max n s
parse_digits-decimal max zero n s h small =
    rw (decimal_done zero n s (omega arith)) (parse_digit max 0 n n s (omega arith) h)
parse_digits-decimal max (suc fuel) n s h small = elim (zero-cases (n / 10)) [
  | inl e ↦ rw (decimal_done (suc fuel) n s e) (parse_digit max 0 n n s (omega arith) h)
  | inr (m, e) ↦ rw (decimal_more (suc fuel) n m s e) (
      parse_digits-decimal max fuel (suc m) (last n ∷ s) (omega arith)
        (omega (arith, pow-suc 10 (suc fuel)))
      ∙ parse_digit max (suc m) n n s (omega arith) h)
]

decimal-head :
    (fuel n : ℕ) (s : Text)
    → (b : ℕ) × (t : Text) × (decimal (suc fuel) n s ≡ b ∷ t) × (is_digit b ≡ true)
decimal-head zero n s = elim (zero-cases (n / 10)) [
  | inl e ↦ (last n, s, decimal_done zero n s e, digit n)
  | inr (m, e) ↦ (last n, s, decimal_more zero n m s e ∙ unfold decimal in refl, digit n)
]
decimal-head (suc fuel) n s = elim (zero-cases (n / 10)) [
  | inl e ↦ (last n, s, decimal_done (suc fuel) n s e, digit n)
  | inr (m, e) ↦
      let (b, t, found, d) = decimal-head fuel (suc m) (last n ∷ s) in
      (b, t, decimal_more (suc fuel) n m s e ∙ found, d)
]

no_plus : (b : ℕ) → is_digit b ≡ true → (b == b'+') ≡ false
no_plus b h = ground arith

-- A number of at most twenty digits that is written is read back.
pub parse_unsigned-decimal :
    (max n : ℕ) → n ≤ max → n < 10 ^ 20 → parse_unsigned max (decimal 20 n []) ≡ some n
unfolding parse_unsigned
parse_unsigned-decimal max n h small =
    let (b, t, e, d) = decimal-head 19 n [] in
    let read = parse_digits-decimal max 19 n [] h small in
    rw (e, no_plus b d) (ap (parse_digits max 0) (sym e) ∙ read ∙ unfold parse_digits in refl)
