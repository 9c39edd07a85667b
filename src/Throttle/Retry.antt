-- ===== src/Throttle/Retry.antt =====
-- The `retry_after` of a refusal by `acquire_at` of crates/axonyx-runtime/src/login_throttle.rs.
use axonyx_runtime.Prelude.{
  ℕ, ◌+◌, ◌-◌, ◌≤◌, ◌<◌, ◌≡◌, refl, ap, ◌∙◌, sym, inl, inr, true, false, Option, none, some, List,
  [], ◌∷◌, arith, leb, length, Bool-cases, Option-cases, if_false, if_second, leb→le, gt→leb,
  ge→ltb, ltb→lt,
}
use mathlib.Core.Path.{subst}
use axonyx_runtime.Throttle.{
  Bucket, Buckets, Throttle, Outcome, admitted, limited, is_invalid, is_live, wait, retain, find,
  earliest, with_buckets, decide, admit, acquire_at,
}
use axonyx_runtime.Throttle.Buckets.{
  IsDistinct, keep, find-retain, find-retain-none, length-retain_dead, earliest-eq-some,
}
use axonyx_runtime.Throttle.Invariant.{IsThrottle, retain-IsThrottle, keep-eq-some}

-- No bucket began in the future.
abbrev pub Started : Buckets → ℕ → Type 0
Started bs now = (key : List ℕ) (b : Bucket) → find key bs ≡ some b → b.start ≤ now

abbrev Live : ℕ → Buckets → ℕ → Type 0
Live window bs now =
    (key : List ℕ) (b : Bucket) → find key bs ≡ some b → is_live window now b ≡ true

keep-live :
    (window now : ℕ) (o : Option Bucket) (b : Bucket)
    → keep window now o ≡ some b
    → is_live window now b ≡ true
keep-live window now none b e = cc
keep-live window now (some c) b e = ground arith

-- A bucket is dropped once its wait is over.
wait-is_live :
    (window now : ℕ) (b : Bucket)
    → b.start ≤ now
    → is_live window now b ≡ true
    → (0 < wait window now b) × (is_live window (now + wait window now b) b ≡ false)
wait-is_live window now b started live =
    let inside = ltb→lt (now - b.start) window live in
    (omega (arith, inside), ge→ltb _ window (omega (arith, inside, started)))

keep-dead :
    (window now : ℕ) (b : Bucket) → is_live window now b ≡ false → keep window now (some b) ≡ none
keep-dead window now b dead = if_false _ _ _ dead

earliest-none : (window now : ℕ) (bs : Buckets) → earliest window now bs ≡ none → length bs ≡ 0
unfolding earliest
earliest-none window now [] e = refl
earliest-none window now ((k, b) ∷ bs) e = elim (Option-cases (earliest window now bs)) [
  | inl last ↦ cc (rw last at e)
  | inr (w, more) ↦ cc (rw more at e)
]

limited_inj : {r s : ℕ} → limited r ≡ limited s → r ≡ s
limited_inj {r} e = ap (λ o. get o r) e
  where
    get : Outcome → ℕ → ℕ
    get (limited x) y = x
    get _ y = y

-- There is room for the key after `r`.
abbrev Room : Throttle → List ℕ → ℕ → Type 0
Room t key now =
    (find key (retain t.window now t.buckets) ≡ none)
    × (length (retain t.window now t.buckets) < t.max_keys)

module _ (t : Throttle) (is : IsThrottle t) (now : ℕ) (started : Started t.buckets now)
    (live : Live t.window t.buckets now) where
  -- When the wait of a bucket is over, the bucket is gone.
  Room-wait :
      (key key' : List ℕ) (b : Bucket)
      → find key' t.buckets ≡ some b
      → find key (retain t.window (now + wait t.window now b) t.buckets) ≡ none
      → (0 < wait t.window now b) × Room t key (now + wait t.window now b)
  Room-wait key key' b found gone =
      let (positive, dead) =
        wait-is_live t.window now b (started key' b found) (live key' b found) in
      let fewer =
        length-retain_dead t.window (now + wait t.window now b) key' t.buckets b found dead in
      let room = is.room in (positive, (gone, omega (arith, fewer, room)))

  refused :
      (key : List ℕ) (w r : ℕ) (t' : Throttle)
      → ◌≡◌ {A = Outcome × Throttle} (limited w, t) (limited r, t')
      → 0 < w
      → Room t key (now + w)
      → (0 < r) × (t' ≡ t) × Room t key (now + r)
  refused key w r t' q positive room =
      subst (λ n. (0 < n) × (t' ≡ t) × Room t key (now + n)) (limited_inj (ap (λ p. p.0) q))
        (positive, sym (ap (λ p. p.1) q), room)

  decide-limited :
      (key : List ℕ) (o : Option Bucket) (r : ℕ) (t' : Throttle)
      → find key t.buckets ≡ o
      → decide t key now t.buckets o ≡ (limited r, t')
      → (0 < r) × (t' ≡ t) × Room t key (now + r)
  unfolding decide
  decide-limited key (some b) r t' found e = elim (Bool-cases (leb t.attempts b.attempts)) [
    | inl full ↦
        let w = wait t.window now b in
        let q = rw full at e in
        let (positive, dead) =
          wait-is_live t.window now b (started key b found) (live key b found) in
        let gone =
          find-retain t.window (now + w) key t.buckets is.distinct
          ∙ ap (keep t.window (now + w)) found
          ∙ keep-dead t.window (now + w) b dead in
        let (_, room) = Room-wait key key b found gone in refused key w r t' q positive room
    | inr below ↦ cc (ap (λ p. p.0) (rw below at e))
  ]
  decide-limited key none r t' found e = elim (Bool-cases (leb t.max_keys (length t.buckets))) [
    | inl full ↦ elim (Option-cases (earliest t.window now t.buckets)) [
      | inl empty ↦
          let some_keys = is.some_keys in
          absurd (
            omega (
              arith,
              leb→le t.max_keys (length t.buckets) full,
              earliest-none t.window now t.buckets empty,
              some_keys,
            ))
      | inr (w, first) ↦
          let q = rw (full, first) at e in
          let (key', b, found', w_lem) =
            earliest-eq-some t.window now t.buckets w is.distinct first in
          let (positive, room) =
            Room-wait key key' b found'
              (find-retain-none t.window (now + wait t.window now b) key t.buckets found) in
          refused key w r t' q (subst (λ n. 0 < n) w_lem positive)
            (subst (λ n. Room t key (now + n)) w_lem room)
    ]
    | inr below ↦ cc (ap (λ p. p.0) (rw below at e))
  ]

Live-retain :
    (window now : ℕ) (bs : Buckets) → IsDistinct bs → Live window (retain window now bs) now
Live-retain window now bs d key b e =
    keep-live window now (find key bs) b (sym (find-retain window now key bs d) ∙ e)

Started-retain :
    (window now : ℕ) (bs : Buckets)
    → IsDistinct bs
    → Started bs now
    → Started (retain window now bs) now
Started-retain window now bs d started key b e =
    started key b
      (keep-eq-some window now (find key bs) b (sym (find-retain window now key bs d) ∙ e))

module _ (digest : List ℕ → List ℕ) where
  acquire_at-limited :
      (t : Throttle) (key : List ℕ) (now r : ℕ) (t' : Throttle)
      → acquire_at digest t key now ≡ (limited r, t')
      → (is_invalid key ≡ false)
        × (t.poisoned ≡ false)
        × (admit t (digest key) now ≡ (limited r, t'))
  unfolding acquire_at
  acquire_at-limited t key now r t' e =
      let (valid, e₁) = if_second _ _ _ _ (λ q. cc (ap (λ (p : Outcome × Throttle). p.0) q)) e in
      let (healthy, e₂) = if_second _ _ _ _ (λ q. cc (ap (λ (p : Outcome × Throttle). p.0) q)) e₁ in
      (valid, healthy, e₂)

  acquire_at-admit :
      (t : Throttle) (key : List ℕ) (now : ℕ)
      → is_invalid key ≡ false
      → t.poisoned ≡ false
      → acquire_at digest t key now ≡ admit t (digest key) now
  unfolding acquire_at
  acquire_at-admit t key now valid healthy = if_false _ _ _ valid ∙ if_false _ _ _ healthy

  admit-Room :
      (t : Throttle) (key : List ℕ) (now : ℕ) → Room t key now → (admit t key now).0 ≡ admitted
  unfolding decide
  admit-Room t key now (gone, room) = rw (gone, gt→leb t.max_keys _ room) refl

  -- For a throttle as it should be, with no bucket that began in the future: a refusal names a positive
  -- time, and the same key is admitted when this time has passed, if nothing happens in between.
  pub acquire_at-retry :
      (t : Throttle) (key : List ℕ) (now r : ℕ) (t' : Throttle)
      → IsThrottle t
      → Started t.buckets now
      → acquire_at digest t key now ≡ (limited r, t')
      → (0 < r) × ((acquire_at digest t' key (now + r)).0 ≡ admitted)
  unfolding decide
  acquire_at-retry t key now r t' is started e =
      let (valid, healthy, e') = acquire_at-limited t key now r t' e in
      let live = retain t.window now t.buckets in
      let u = with_buckets t live in
      let (positive, same, room) =
        decide-limited u (retain-IsThrottle t is now) now
          (Started-retain t.window now t.buckets is.distinct started)
          (Live-retain t.window now t.buckets is.distinct) (digest key) _ r t' refl e' in
      (
        positive,
        ap (λ v. (acquire_at digest v key (now + r)).0) same
            ∙ ap (λ p. p.0) (acquire_at-admit u key (now + r) valid healthy)
            ∙ admit-Room u (digest key) (now + r) room,
      )
