-- ===== src/Throttle/Invariant.antt =====
-- What `acquire_at` of crates/axonyx-runtime/src/login_throttle.rs keeps of the buckets.
use axonyx_runtime.Prelude.{
  ℕ, ◌≤◌, ◌<◌, ◌≡◌, refl, ap, ◌∙◌, sym, inl, inr, Option, none, some, List, ◌∷◌, arith, leb, length,
  Bool-cases, if_elim, leb→gt,
}
use mathlib.Core.Option.{some-injective}
use axonyx_runtime.Prelude.Bytes.{bytes_eq, bytes_eq→eq}
use axonyx_runtime.Throttle.{
  Bucket, Buckets, Throttle, Outcome, retain, find, bump, with_buckets, decide, acquire_at,
}
use axonyx_runtime.Throttle.Buckets.{
  IsDistinct, keep, find-retain, IsDistinct-retain, length-retain, find-bump_same, find-bump_other,
  IsDistinct-bump, length-bump,
}

-- The configuration is one that `new` accepts; no key has two buckets, there are at most `max_keys`,
-- and each counts at least one attempt and at most `attempts`.
pub record IsThrottle (t : Throttle) : Type 0 where
  pub some_attempts : 0 < t.attempts
  pub some_window : 0 < t.window
  pub some_keys : 0 < t.max_keys
  pub distinct : IsDistinct t.buckets
  pub room : length t.buckets ≤ t.max_keys
  pub bounded :
      (key : List ℕ) (b : Bucket)
      → find key t.buckets ≡ some b
      → (0 < b.attempts) × (b.attempts ≤ t.attempts)

pub keep-eq-some :
    (window now : ℕ) (o : Option Bucket) (b : Bucket) → keep window now o ≡ some b → o ≡ some b
keep-eq-some window now none b e = cc
keep-eq-some window now (some c) b e = ground arith

module _ (t : Throttle) (is : IsThrottle t) where
  pub with_buckets-IsThrottle :
      (bs : Buckets)
      → IsDistinct bs
      → length bs ≤ t.max_keys
      → ((key : List ℕ) (b : Bucket)
          → find key bs ≡ some b
          → (0 < b.attempts) × (b.attempts ≤ t.attempts))
      → IsThrottle (with_buckets t bs)
  with_buckets-IsThrottle bs distinct room bounded = record {
    some_attempts = is.some_attempts;
    some_window = is.some_window;
    some_keys = is.some_keys;
    distinct = distinct;
    room = room;
    bounded = bounded;
  }

  pub retain-IsThrottle : (now : ℕ) → IsThrottle (with_buckets t (retain t.window now t.buckets))
  retain-IsThrottle now =
      let room = is.room in
      with_buckets-IsThrottle _ (IsDistinct-retain t.window now t.buckets is.distinct)
        (omega (arith, length-retain t.window now t.buckets, room))
        (λ key b e. is.bounded key b (
          keep-eq-some t.window now _ b
            (sym (find-retain t.window now key t.buckets is.distinct) ∙ e)))

  bumped :
      (key : List ℕ) (b : Bucket)
      → find key t.buckets ≡ some b
      → b.attempts < t.attempts
      → (other : List ℕ) (c : Bucket) → find other (bump key t.buckets) ≡ some c
      → (0 < c.attempts) × (c.attempts ≤ t.attempts)
  bumped key b e below other c found = elim (Bool-cases (bytes_eq key other)) [
    | inl same ↦
        let here = ap (λ k. find k (bump key t.buckets)) (bytes_eq→eq key other same) in
        let c_lem =
          ap (λ d. d.attempts)
            (some-injective _ _ (sym (find-bump_same key t.buckets b e) ∙ here ∙ found)) in
        (omega (arith, c_lem), omega (arith, c_lem, below))
    | inr differs ↦ is.bounded other c (sym (find-bump_other key other t.buckets differs) ∙ found)
  ]

  inserted :
      (key : List ℕ) (now : ℕ) (other : List ℕ) (c : Bucket)
      → find other ((key, record { start = now; attempts = 1 }) ∷ t.buckets) ≡ some c
      → (0 < c.attempts) × (c.attempts ≤ t.attempts)
  unfolding find
  inserted key now other c found = elim (Bool-cases (bytes_eq key other)) [
    | inl same ↦
        let c_lem = ap (λ d. d.attempts) (some-injective _ _ (rw same at found)) in
        let some_attempts = is.some_attempts in
        (omega (arith, c_lem), omega (arith, c_lem, some_attempts))
    | inr differs ↦ is.bounded other c (rw differs at found)
  ]

decide-IsThrottle :
    (t : Throttle) (key : List ℕ) (now : ℕ) (o : Option Bucket)
    → IsThrottle t
    → find key t.buckets ≡ o
    → IsThrottle (decide t key now t.buckets o).1
unfolding decide
decide-IsThrottle t key now (some b) is e = elim (Bool-cases (leb t.attempts b.attempts)) [
  | inl full ↦ rw full is
  | inr below ↦
      let room = is.room in
      rw below (
        with_buckets-IsThrottle t is (bump key t.buckets)
          (IsDistinct-bump key t.buckets is.distinct)
          (omega (arith, length-bump key t.buckets, room))
          λ other c found. bumped t is key b e (leb→gt t.attempts b.attempts below) other c found)
]
decide-IsThrottle t key now none is e = elim (Bool-cases (leb t.max_keys (length t.buckets))) [
  | inl full ↦ rw full is
  | inr below ↦ rw below (
      with_buckets-IsThrottle t is ((key, record { start = now; attempts = 1 }) ∷ t.buckets)
        (e, is.distinct) (omega (arith, leb→gt t.max_keys (length t.buckets) below))
        λ other c found. inserted t is key now other c found)
]

pub acquire_at-bounded :
    (digest : List ℕ → List ℕ) (t : Throttle) (key : List ℕ) (now : ℕ)
    → IsThrottle t
    → IsThrottle (acquire_at digest t key now).1
unfolding acquire_at
acquire_at-bounded digest t key now is =
    if_elim (λ (r : Outcome × Throttle). IsThrottle r.1) _ _ _ is
      (if_elim (λ (r : Outcome × Throttle). IsThrottle r.1) t.poisoned _ _ is
        (decide-IsThrottle (with_buckets t (retain t.window now t.buckets)) (digest key) now _
          (retain-IsThrottle t is now) refl))

-- The numbers that `new` is given.
abbrev pub SameConfiguration : Throttle → Throttle → Type 0
SameConfiguration t t' =
    (t'.attempts ≡ t.attempts) × (t'.window ≡ t.window) × (t'.max_keys ≡ t.max_keys)

decide-SameConfiguration :
    (t : Throttle) (key : List ℕ) (now : ℕ) (bs : Buckets) (o : Option Bucket)
    → SameConfiguration t (decide t key now bs o).1
unfolding decide
decide-SameConfiguration t key now bs (some b) =
    if_elim (λ (r : Outcome × Throttle). SameConfiguration t r.1) (leb t.attempts b.attempts) _ _
      (refl, refl, refl) (refl, refl, refl)
decide-SameConfiguration t key now bs none =
    if_elim (λ (r : Outcome × Throttle). SameConfiguration t r.1) (leb t.max_keys (length bs)) _ _
      (refl, refl, refl) (refl, refl, refl)

acquire_at-SameConfiguration :
    (digest : List ℕ → List ℕ) (t : Throttle) (key : List ℕ) (now : ℕ)
    → SameConfiguration t (acquire_at digest t key now).1
unfolding acquire_at
acquire_at-SameConfiguration digest t key now =
    if_elim (λ (r : Outcome × Throttle). SameConfiguration t r.1) _ _ _ (refl, refl, refl)
      (if_elim (λ (r : Outcome × Throttle). SameConfiguration t r.1) t.poisoned _ _
        (refl, refl, refl)
        (decide-SameConfiguration t (digest key) now (retain t.window now t.buckets) _))

-- Every attempt, whatever its outcome, leaves a throttle as it should be, with the numbers of attempts
-- and keys and the window that it had before: no key has two buckets, there are at most `max_keys`
-- buckets, each with between one and `attempts` attempts.
pub acquire_at-IsThrottle :
    (digest : List ℕ → List ℕ) (t : Throttle) (key : List ℕ) (now : ℕ)
    → IsThrottle t
    → IsThrottle (acquire_at digest t key now).1
      × SameConfiguration t (acquire_at digest t key now).1
acquire_at-IsThrottle digest t key now is =
    (acquire_at-bounded digest t key now is, acquire_at-SameConfiguration digest t key now)
