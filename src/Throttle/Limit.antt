-- ===== src/Throttle/Limit.antt =====
-- How many attempts `acquire_at` of crates/axonyx-runtime/src/login_throttle.rs admits for a key.
use axonyx_runtime.Prelude.{
  ℕ, ◌+◌, ◌-◌, ◌*◌, ◌≤◌, ◌<◌, ◌≡◌, refl, ap, ◌∙◌, sym, inl, inr, Option, none, some, List, [], ◌∷◌,
  arith, leb, if◌then◌else◌, length, All, Bool-cases, if_elim, leb→gt,
}
use axonyx_runtime.Prelude.Bytes.{bytes_eq, bytes_eq→eq}
use axonyx_runtime.Throttle.{
  Bucket, Throttle, Outcome, admitted, invalid_key, unavailable, is_invalid, retain, find, bump,
  with_buckets, decide, admit, acquire_at,
}
use axonyx_runtime.Throttle.Buckets.{keep, find-retain, find-bump_same, find-bump_other}
use axonyx_runtime.Throttle.Invariant.{IsThrottle, retain-IsThrottle, acquire_at-IsThrottle}

-- A call of `acquire_at`: its key and its time.
abbrev pub Request : Type 0
Request = List ℕ × ℕ

abbrev pub admits : Outcome → ℕ
admits admitted = 1
admits _ = 0

abbrev pub counts : List ℕ → List ℕ → Outcome → ℕ
counts slot key o = if bytes_eq slot key then admits o else 0

-- How many of the requests, one after the other, are admitted on the slot `key`.
unfoldable pub admissions : (List ℕ → List ℕ) → List ℕ → Throttle → List Request → ℕ
admissions digest key t [] = 0
admissions digest key t ((k, now) ∷ rs) =
    counts (digest k) key (acquire_at digest t k now).0
    + admissions digest key (acquire_at digest t k now).1 rs

abbrev pub Within : ℕ → ℕ → List Request → Type 0
Within from window = All (λ r. (from ≤ r.1) × (r.1 < from + window))

-- What may still be admitted, by the bucket of the slot.
abbrev allowance : ℕ → ℕ → Option Bucket → ℕ
allowance from attempts none = attempts
allowance from attempts (some b) =
    if leb from b.start then attempts - b.attempts else attempts + (attempts - b.attempts)

record Spends (from : ℕ) (key slot : List ℕ) (t : Throttle) (r : Outcome × Throttle) : Type 0 where
  pub spends :
      counts slot key r.0 + allowance from r.1.attempts (find key r.1.buckets)
      ≤ allowance from t.attempts (find key t.buckets)
  pub attempts_lem : r.1.attempts ≡ t.attempts
  pub window_lem : r.1.window ≡ t.window

allowance-keep :
    (from window now attempts : ℕ) (o : Option Bucket)
    → from ≤ now
    → now < from + window
    → allowance from attempts (keep window now o) ≤ allowance from attempts o
allowance-keep from window now attempts none h k = omega arith
allowance-keep from window now attempts (some b) h k = ground arith

allowance-twice : (from attempts : ℕ) (o : Option Bucket) → allowance from attempts o ≤ 2 * attempts
allowance-twice from attempts none = omega arith
allowance-twice from attempts (some b) = ground arith

module _ (from : ℕ) (key slot : List ℕ) (t : Throttle) (is : IsThrottle t) (now : ℕ)
    (late : from ≤ now) where
  Spends-none : (o : Outcome) → admits o ≡ 0 → Spends from key slot t (o, t)
  Spends-none o e = record {
    spends =
        if_elim
          (λ n.
            n + allowance from t.attempts (find key t.buckets)
            ≤ allowance from t.attempts (find key t.buckets))
          (bytes_eq slot key) (admits o) 0 (omega (arith, e)) (omega arith);
    attempts_lem = refl;
    window_lem = refl;
  }

  Spends-bump :
      (b : Bucket)
      → find slot t.buckets ≡ some b
      → b.attempts < t.attempts
      → Spends from key slot t (admitted, with_buckets t (bump slot t.buckets))
  Spends-bump b found below = record {
    spends = elim (Bool-cases (bytes_eq slot key)) [
      | inl same ↦
          let here = ap (λ k. find k t.buckets) (sym (bytes_eq→eq slot key same)) ∙ found in
          let there =
            ap (λ k. find k (bump slot t.buckets)) (sym (bytes_eq→eq slot key same))
            ∙ find-bump_same slot t.buckets b found in
          rw (same, here, there) (ground arith)
      | inr other ↦ rw (other, find-bump_other slot key t.buckets other) (omega arith)
    ];
    attempts_lem = refl;
    window_lem = refl;
  }

  Spends-insert :
      find slot t.buckets ≡ none
      → Spends from key slot t
          (admitted, with_buckets t ((slot, record { start = now; attempts = 1 }) ∷ t.buckets))
  unfolding find
  Spends-insert missing = record {
    spends = elim (Bool-cases (bytes_eq slot key)) [
      | inl same ↦
          let here = ap (λ k. find k t.buckets) (sym (bytes_eq→eq slot key same)) ∙ missing in
          let some_attempts = is.some_attempts in rw (same, here) (ground arith)
      | inr other ↦ rw other (omega arith)
    ];
    attempts_lem = refl;
    window_lem = refl;
  }

Spends-decide :
    (from : ℕ) (key slot : List ℕ) (t : Throttle) (now : ℕ) (o : Option Bucket)
    → IsThrottle t
    → from ≤ now
    → find slot t.buckets ≡ o
    → Spends from key slot t (decide t slot now t.buckets o)
unfolding decide
Spends-decide from key slot t now (some b) is late found =
    elim (Bool-cases (leb t.attempts b.attempts)) [
      | inl full ↦ rw full (Spends-none from key slot t is now late _ refl)
      | inr below ↦
          rw below
            (Spends-bump from key slot t is now late b found (leb→gt t.attempts b.attempts below))
    ]
Spends-decide from key slot t now none is late missing =
    elim (Bool-cases (leb t.max_keys (length t.buckets))) [
      | inl full ↦ rw full (Spends-none from key slot t is now late _ refl)
      | inr room ↦ rw room (Spends-insert from key slot t is now late missing)
    ]

Spends-acquire_at :
    (digest : List ℕ → List ℕ) (from : ℕ) (key : List ℕ) (t : Throttle) (k : List ℕ) (now : ℕ)
    → IsThrottle t
    → from ≤ now
    → now < from + t.window
    → Spends from key (digest k) t (acquire_at digest t k now)
unfolding acquire_at
Spends-acquire_at digest from key t k now is late early =
    let P : Outcome × Throttle → Type 0 = Spends from key (digest k) t in
    let u = with_buckets t (retain t.window now t.buckets) in
    let s = Spends-decide from key (digest k) u now _ (retain-IsThrottle t is now) late refl in
    let kept = allowance-keep from t.window now t.attempts (find key t.buckets) late early in
    let same = find-retain t.window now key t.buckets is.distinct in
    let kept' = rw (← same) at kept in
    let spent = s.spends in
    let through : P (admit t (digest k) now) = record {
      spends = omega (arith, spent, kept');
      attempts_lem = s.attempts_lem;
      window_lem = s.window_lem;
    } in
    let refused = Spends-none from key (digest k) t is now late in
    if_elim P (is_invalid k) _ _ (refused invalid_key refl)
      (if_elim P t.poisoned _ _ (refused unavailable refl) through)

admissions-allowance :
    (digest : List ℕ → List ℕ) (key : List ℕ) (from window : ℕ) (t : Throttle) (rs : List Request)
    → IsThrottle t
    → t.window ≡ window
    → Within from window rs
    → admissions digest key t rs ≤ allowance from t.attempts (find key t.buckets)
unfolding admissions
admissions-allowance digest key from window t [] is e w = omega arith
admissions-allowance digest key from window t ((k, now) ∷ rs) is e ((late, early), w) =
    let s = Spends-acquire_at digest from key t k now is late (rw e early) in
    let t' = (acquire_at digest t k now).1 in
    let more =
      admissions-allowance digest key from window t' rs (acquire_at-IsThrottle digest t k now is).0
        (s.window_lem ∙ e) w in
    let spent = s.spends in omega (arith, more, spent)

-- For a throttle as it should be, and requests within one window of time, on any keys and in any
-- order of times: they are admitted at most `attempts` times on a slot (the digest of a key) that
-- has no bucket at first, and at most twice as often on any slot.
pub admissions-bound :
    (digest : List ℕ → List ℕ) (key : List ℕ) (from : ℕ) (t : Throttle) (rs : List Request)
    → IsThrottle t
    → Within from t.window rs
    → (find key t.buckets ≡ none → admissions digest key t rs ≤ t.attempts)
      × (admissions digest key t rs ≤ 2 * t.attempts)
admissions-bound digest key from t rs is w =
    let spent = admissions-allowance digest key from t.window t rs is refl w in
    (
      λ fresh. omega (arith, rw fresh at spent),
      omega (arith, spent, allowance-twice from t.attempts (find key t.buckets)),
    )
