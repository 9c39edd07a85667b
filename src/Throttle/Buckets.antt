-- ===== src/Throttle/Buckets.antt =====
-- The operations on the buckets of the login throttle of crates/axonyx-runtime/src/login_throttle.rs,
-- by what they let a key find.
use Prim.Native.Nat.{min}
use mathlib.Core.Option.{some-injective}
use native.Mathlib.Decide.{dec_le}
use axonyx_runtime.Prelude.{
  ℕ, suc, ◌≤◌, ◌<◌, ◌≡◌, refl, ap, ◌∙◌, sym, inl, inr, false, Option, none, some, List, [], ◌∷◌,
  arith, if◌then◌else◌, length, Bool-cases, Option-cases,
}
use axonyx_runtime.Prelude.Bytes.{bytes_eq, bytes_eq→eq, bytes_eq_refl}
use axonyx_runtime.Throttle.{Bucket, Buckets, is_live, retain, find, count, bump, earliest, wait}

bytes_eq_swap : (xs ys : List ℕ) → bytes_eq xs ys ≡ false → bytes_eq ys xs ≡ false
bytes_eq_swap xs ys e = elim (Bool-cases (bytes_eq ys xs)) [
  | inl same ↦ cc (sym e ∙ ap (bytes_eq xs) (bytes_eq→eq ys xs same) ∙ bytes_eq_refl xs)
  | inr other ↦ other
]

bytes_eq_differs :
    (k key : List ℕ) (bs : Buckets) (b : Bucket)
    → find k bs ≡ none
    → find key bs ≡ some b
    → bytes_eq k key ≡ false
bytes_eq_differs k key bs b fresh found = elim (Bool-cases (bytes_eq k key)) [
  | inl same ↦ cc (sym fresh ∙ ap (λ x. find x bs) (bytes_eq→eq k key same) ∙ found)
  | inr other ↦ other
]

-- No key has two buckets.
abbrev pub IsDistinct : Buckets → Type 0
IsDistinct [] = Unit
IsDistinct ((k, b) ∷ bs) = (find k bs ≡ none) × IsDistinct bs

abbrev pub keep : ℕ → ℕ → Option Bucket → Option Bucket
keep window now none = none
keep window now (some b) = if is_live window now b then some b else none

pub find-retain-none :
    (window now : ℕ) (key : List ℕ) (bs : Buckets)
    → find key bs ≡ none
    → find key (retain window now bs) ≡ none
unfolding find retain
find-retain-none window now key [] e = refl
find-retain-none window now key ((k, b) ∷ bs) e = elim (Bool-cases (bytes_eq k key)) [
  | inl same ↦ cc (rw same at e)
  | inr other ↦
      let more = find-retain-none window now key bs (rw other at e) in
      elim (Bool-cases (is_live window now b)) [
        | inl live ↦ rw (retain, live, find, other) more
        | inr dead ↦ rw (retain, dead) more
      ]
]

pub find-retain :
    (window now : ℕ) (key : List ℕ) (bs : Buckets)
    → IsDistinct bs
    → find key (retain window now bs) ≡ keep window now (find key bs)
unfolding find retain
find-retain window now key [] d = refl
find-retain window now key ((k, b) ∷ bs) (fresh, d) = elim (Bool-cases (bytes_eq k key)) [
  | inl same ↦
      let gone = find-retain-none window now key bs (rw (bytes_eq→eq k key same) at fresh) in
      elim (Bool-cases (is_live window now b)) [
        | inl live ↦ rw (live, same, live)
        | inr dead ↦ rw (dead, same, dead) gone
      ]
  | inr other ↦
      let more = find-retain window now key bs d in
      elim (Bool-cases (is_live window now b)) [
        | inl live ↦ rw (live, other) more
        | inr dead ↦ rw (dead, other) more
      ]
]

pub IsDistinct-retain :
    (window now : ℕ) (bs : Buckets) → IsDistinct bs → IsDistinct (retain window now bs)
unfolding retain
IsDistinct-retain window now [] d = tt
IsDistinct-retain window now ((k, b) ∷ bs) (fresh, d) = elim (Bool-cases (is_live window now b)) [
  | inl live ↦ rw live (find-retain-none window now k bs fresh, IsDistinct-retain window now bs d)
  | inr dead ↦ rw dead (IsDistinct-retain window now bs d)
]

pub length-retain : (window now : ℕ) (bs : Buckets) → length (retain window now bs) ≤ length bs
unfolding retain
length-retain window now [] = omega arith
length-retain window now ((k, b) ∷ bs) =
    let more = length-retain window now bs in
    elim (Bool-cases (is_live window now b)) [
      | inl live ↦ rw live (omega arith)
      | inr dead ↦ rw dead (omega arith)
    ]

pub find-bump_same :
    (key : List ℕ) (bs : Buckets) (b : Bucket)
    → find key bs ≡ some b
    → find key (bump key bs) ≡ some (count b)
unfolding find bump
find-bump_same key [] b e = cc
find-bump_same key ((k, c) ∷ bs) b e = elim (Bool-cases (bytes_eq k key)) [
  | inl same ↦ rw (same, same) (ap (λ o. some (count o)) (some-injective _ _ (rw same at e)))
  | inr other ↦ rw (other, other) (find-bump_same key bs b (rw other at e))
]

pub find-bump_other :
    (key key' : List ℕ) (bs : Buckets)
    → bytes_eq key key' ≡ false
    → find key' (bump key bs) ≡ find key' bs
unfolding find bump
find-bump_other key key' [] e = refl
find-bump_other key key' ((k, c) ∷ bs) e = elim (Bool-cases (bytes_eq k key)) [
  | inl same ↦
      let other : bytes_eq k key' ≡ false =
        ap (λ x. bytes_eq x key') (bytes_eq→eq k key same) ∙ e in
      rw (same, other) refl
  | inr other ↦
      rw other (ap (λ o. if bytes_eq k key' then some c else o) (find-bump_other key key' bs e))
]

pub IsDistinct-bump : (key : List ℕ) (bs : Buckets) → IsDistinct bs → IsDistinct (bump key bs)
unfolding bump
IsDistinct-bump key [] d = tt
IsDistinct-bump key ((k, c) ∷ bs) (fresh, d) = elim (Bool-cases (bytes_eq k key)) [
  | inl same ↦ rw same (fresh, d)
  | inr other ↦
      rw other
        (find-bump_other key k bs (bytes_eq_swap k key other) ∙ fresh, IsDistinct-bump key bs d)
]

pub length-bump : (key : List ℕ) (bs : Buckets) → length (bump key bs) ≡ length bs
unfolding bump
length-bump key [] = refl
length-bump key ((k, c) ∷ bs) = elim (Bool-cases (bytes_eq k key)) [
  | inl same ↦ rw same refl
  | inr other ↦ rw other (ap (λ n. suc n) (length-bump key bs))
]

-- A bucket that is dropped leaves room.
pub length-retain_dead :
    (window now : ℕ) (key : List ℕ) (bs : Buckets) (b : Bucket)
    → find key bs ≡ some b
    → is_live window now b ≡ false
    → length (retain window now bs) < length bs
unfolding find retain
length-retain_dead window now key [] b e dead = cc
length-retain_dead window now key ((k, c) ∷ bs) b e dead = elim (Bool-cases (bytes_eq k key)) [
  | inl same ↦
      let c_lem = some-injective _ _ (rw same at e) in
      let dead' : is_live window now c ≡ false = ap (is_live window now) c_lem ∙ dead in
      let more = length-retain window now bs in rw dead' (omega arith)
  | inr other ↦
      let more = length-retain_dead window now key bs b (rw other at e) dead in
      elim (Bool-cases (is_live window now c)) [
        | inl live ↦ rw live (omega arith)
        | inr gone ↦ rw gone (omega arith)
      ]
]

-- The wait that is the earliest is one of a bucket's.
pub earliest-eq-some :
    (window now : ℕ) (bs : Buckets) (w : ℕ)
    → IsDistinct bs
    → earliest window now bs ≡ some w
    → (key : List ℕ) × (b : Bucket) × (find key bs ≡ some b) × (wait window now b ≡ w)
unfolding find earliest
earliest-eq-some window now [] w d e = cc
earliest-eq-some window now ((k, b) ∷ bs) w (fresh, d) e =
    elim (Option-cases (earliest window now bs)) [
      | inl last ↦ (k, b, rw (bytes_eq_refl k) refl, some-injective _ _ (rw last at e))
      | inr (v, more) ↦
          let w_lem : min (wait window now b) v ≡ w = some-injective _ _ (rw more at e) in
          elim (dec_le (wait window now b) v) [
            | yes le ↦ (k, b, rw (bytes_eq_refl k) refl, omega (arith, w_lem, le))
            | no gt ↦
                let (key, c, found, c_lem) = earliest-eq-some window now bs v d more in
                (
                  key,
                  c,
                  rw (bytes_eq_differs k key bs c fresh found) found,
                  omega (arith, w_lem, c_lem, gt),
                )
          ]
    ]
