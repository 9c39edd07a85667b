-- ===== src/Throttle/Tests.antt =====
-- The login throttle of crates/axonyx-runtime/src/login_throttle.rs at concrete attempts.
use axonyx_runtime.Prelude.{
  ℕ, ◌+◌, ◌*◌, ◌≤◌, ◌<◌, ◌≡◌, refl, ap, false, none, some, List, [], ◌∷◌, arith, sym, inl, inr,
  Bool-cases,
}
use mathlib.Core.Option.{some-injective}
use axonyx_runtime.Prelude.Bytes.{ascii, bytes_eq}
use axonyx_runtime.Throttle.{Bucket, Throttle, admitted, limited, find, acquire_at, new}
use axonyx_runtime.Throttle.Invariant.{SameConfiguration, IsThrottle, acquire_at-IsThrottle}
use axonyx_runtime.Throttle.Retry.{Started, acquire_at-retry}
use axonyx_runtime.Throttle.Limit.{Request, Within, admissions, admissions-bound}

-- Keys stand for themselves.
abbrev plain : List ℕ → List ℕ
plain key = key

abbrev alice : List ℕ
alice = ascii "alice"

-- One attempt in 10 for each of at most two keys, of which alice's was made at 3.
abbrev busy : Throttle
busy = record {
  attempts = 1;
  window = 10;
  max_keys = 2;
  poisoned = false;
  buckets = (alice, record { start = 3; attempts = 1 }) ∷ [];
}

found_alice :
    (key : List ℕ) (b : Bucket) → find key busy.buckets ≡ some b → (b.start ≡ 3) × (b.attempts ≡ 1)
unfolding find
found_alice key b e = elim (Bool-cases (bytes_eq alice key)) [
  | inl same ↦
      let b_lem' = sym (some-injective _ _ (rw same at e)) in
      (ap (λ c. c.start) b_lem', ap (λ c. c.attempts) b_lem')
  | inr other ↦ cc (rw other at e)
]

busy-IsThrottle : IsThrottle busy
unfolding find
busy-IsThrottle = record {
  some_attempts = omega arith;
  some_window = omega arith;
  some_keys = omega arith;
  distinct = (refl, tt);
  room = omega arith;
  bounded =
      λ key b e. let (_, one) = found_alice key b e in (omega (arith, one), omega (arith, one));
}

busy-Started : Started busy.buckets 5
busy-Started key b e = let (three, _) = found_alice key b e in omega (arith, three)

new_busy :
    new 1 10 2
    ≡ some (record { attempts = 1; window = 10; max_keys = 2; poisoned = false; buckets = [] })
unfolding new
new_busy = refl

busy_refuses : acquire_at plain busy alice 5 ≡ (limited 8, busy)
unfolding acquire_at
busy_refuses = refl

acquire_at-IsThrottle_example :
    IsThrottle (acquire_at plain busy (ascii "bob") 5).1
    × SameConfiguration busy (acquire_at plain busy (ascii "bob") 5).1
acquire_at-IsThrottle_example = acquire_at-IsThrottle plain busy (ascii "bob") 5 busy-IsThrottle

acquire_at-retry_example : (0 < 8) × ((acquire_at plain busy alice (5 + 8)).0 ≡ admitted)
acquire_at-retry_example =
    acquire_at-retry plain busy alice 5 8 busy busy-IsThrottle busy-Started busy_refuses

abbrev requests : List Request
requests = (alice, 12) ∷ (ascii "bob", 13) ∷ (alice, 14) ∷ (alice, 21) ∷ []

within : Within 12 10 requests
within = (
  (omega arith, omega arith),
  ((omega arith, omega arith), ((omega arith, omega arith), ((omega arith, omega arith), tt))),
)

admissions-bound_example :
    (find alice busy.buckets ≡ none → admissions plain alice busy requests ≤ 1)
    × (admissions plain alice busy requests ≤ 2 * 1)
admissions-bound_example = admissions-bound plain alice 12 busy requests busy-IsThrottle within
