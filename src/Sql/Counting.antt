-- ===== src/Sql/Counting.antt =====
-- How often the character that starts a placeholder stands in the texts of crates/axonyx-core/src/ax_sql.rs.
use axonyx_runtime.Prelude.{
  ℕ, zero, suc, ◌+◌, ◌≡◌, refl, sym, ap, ◌∙◌, true, false, List, [], ◌∷◌, ◌++◌, ◌==◌, if◌then◌else◌,
  all, arith, Bool-cases, and-eq-true, ◌/◌, ◌%◌, ◌⊎◌, inl, inr,
}
use axonyx_runtime.StateWasm.Operators.{decimal}
use axonyx_runtime.Sql.Plan.{
  Text, Dialect, postgres, my_sql, sqlite, trim, trim_start, trim_end, is_whitespace, is_ident_char,
  check_ident, validate_ident, placeholder, join, Ensures, holds, failed, Ensures-map,
}

zero-cases : (n : ℕ) → (n ≡ 0) ⊎ ((m : ℕ) × (n ≡ suc m))
zero-cases zero = inl refl
zero-cases (suc m) = inr (m, refl)

-- How often a character stands in a text.
unfoldable pub count : ℕ → Text → ℕ
count mark [] = 0
count mark (c ∷ cs) = (if c == mark then 1 else 0) + count mark cs

pub count-append : (mark : ℕ) (xs ys : Text) → count mark (xs ++ ys) ≡ count mark xs + count mark ys
unfolding count
count-append mark [] ys = omega arith
count-append mark (x ∷ xs) ys = omega (arith, count-append mark xs ys)

unfoldable pub count_all : ℕ → List Text → ℕ
count_all mark [] = 0
count_all mark (t ∷ ts) = count mark t + count_all mark ts

-- What starts a placeholder.
abbrev pub mark_of : Dialect → ℕ
mark_of postgres = b'$'
mark_of _ = b'?'

pub count-join :
    (mark : ℕ) (separator : Text) (parts : List Text)
    → count mark separator ≡ 0
    → count mark (join separator parts) ≡ count_all mark parts
unfolding count_all join
count-join mark separator [] h = unfold count in refl
count-join mark separator (p ∷ []) h = omega arith
count-join mark separator (p ∷ q ∷ parts) h = omega (
  arith,
  count-append mark p (separator ++ join separator (q ∷ parts)),
  count-append mark separator (join separator (q ∷ parts)),
  count-join mark separator (q ∷ parts) h,
)

digit-count : (d : Dialect) (n : ℕ) → (b'0' + n % 10 == mark_of d) ≡ false
digit-count postgres n = ground arith
digit-count my_sql n = ground arith
digit-count sqlite n = ground arith

pub count-decimal :
    (d : Dialect) (fuel n : ℕ) (digits : Text)
    → count (mark_of d) (decimal fuel n digits) ≡ count (mark_of d) digits
unfolding decimal count
count-decimal d zero n digits = refl
count-decimal d (suc fuel) n digits = elim (zero-cases (n / 10)) [
  | inl done ↦ rw (done, decimal, digit-count d n) (omega arith)
  | inr (more, e) ↦
      rw (e, decimal)
        (count-decimal d fuel (suc more) ((b'0' + n % 10) ∷ digits)
          ∙ rw (digit-count d n) (omega arith))
]

pub count-placeholder : (d : Dialect) (index : ℕ) → count (mark_of d) (placeholder d index) ≡ 1
unfolding placeholder count
count-placeholder postgres index = omega (arith, count-decimal postgres 20 index [])
count-placeholder my_sql index = refl
count-placeholder sqlite index = refl

space-mark : (d : Dialect) (c : ℕ) → is_whitespace c ≡ true → (c == mark_of d) ≡ false
space-mark postgres c h = ground arith
space-mark my_sql c h = ground arith
space-mark sqlite c h = ground arith

ident-mark : (d : Dialect) (c : ℕ) → is_ident_char c ≡ true → (c == mark_of d) ≡ false
ident-mark postgres c h = ground arith
ident-mark my_sql c h = ground arith
ident-mark sqlite c h = ground arith

count-trim_start :
    (d : Dialect) (cs : Text) → count (mark_of d) (trim_start cs) ≡ count (mark_of d) cs
unfolding trim_start count
count-trim_start d [] = refl
count-trim_start d (c ∷ cs) = elim (Bool-cases (is_whitespace c)) [
  | inl space ↦ rw (space, space-mark d c space) (omega (arith, count-trim_start d cs))
  | inr other ↦ rw other
]

-- `trim_end` by what it gives on the rest.
put_back : ℕ → Text → Text
put_back c [] = if is_whitespace c then [] else c ∷ []
put_back c (e ∷ es) = c ∷ e ∷ es

trim_end_cons : (c : ℕ) (cs : Text) → trim_end (c ∷ cs) ≡ put_back c (trim_end cs)
unfolding trim_end put_back
trim_end_cons c cs =
    elim (trim_end cs)
      as (λ r.
        elim r [ [] ↦ if is_whitespace c then [] else c ∷ [] | e ∷ es ↦ c ∷ e ∷ es ]
        ≡ put_back c r) [ [] ↦ refl | e ∷ es ↦ refl ]

count-put_back :
    (d : Dialect) (c : ℕ) (r : Text) → count (mark_of d) (put_back c r) ≡ count (mark_of d) (c ∷ r)
unfolding put_back count
count-put_back d c [] = elim (Bool-cases (is_whitespace c)) [
  | inl space ↦ rw (space, space-mark d c space) (omega arith)
  | inr other ↦ rw other
]
count-put_back d c (e ∷ es) = refl

count-trim_end : (d : Dialect) (cs : Text) → count (mark_of d) (trim_end cs) ≡ count (mark_of d) cs
unfolding count
count-trim_end d [] = unfold trim_end in refl
count-trim_end d (c ∷ cs) = rw (trim_end_cons c cs) (
    count-put_back d c (trim_end cs)
    ∙ ap (λ (n : ℕ). (if c == mark_of d then 1 else 0) + n) (count-trim_end d cs))

count-all : (d : Dialect) (cs : Text) → all is_ident_char cs ≡ true → count (mark_of d) cs ≡ 0
unfolding count
count-all d [] h = refl
count-all d (c ∷ cs) h =
    let (p, q) = and-eq-true (is_ident_char c) (all is_ident_char cs) h in
    rw (ident-mark d c p) (omega (arith, count-all d cs q))

count-check_ident :
    (d : Dialect) (ident cs : Text) → Ensures (λ _. count (mark_of d) cs ≡ 0) (check_ident ident cs)
count-check_ident d ident [] = failed
count-check_ident d ident (c ∷ cs) = elim (Bool-cases (all is_ident_char (c ∷ cs))) [
  | inl fine ↦ rw fine (holds (count-all d (c ∷ cs) fine))
  | inr bad ↦ rw bad failed
]

-- An identifier that `validate_ident` accepts has no mark, not even in the white space round it.
pub count-validate_ident :
    (d : Dialect) (ident : Text) → Ensures (λ _. count (mark_of d) ident ≡ 0) (validate_ident ident)
unfolding validate_ident
count-validate_ident d ident =
    Ensures-map (λ _ e. sym (count-trim_end d (trim_start ident) ∙ count-trim_start d ident) ∙ e)
      (count-check_ident d ident (trim ident))
