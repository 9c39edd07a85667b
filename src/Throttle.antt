-- ===== src/Throttle.antt =====
-- The login throttle: `AxLoginThrottle` of crates/axonyx-runtime/src/login_throttle.rs. An `Instant`
-- and a `Duration` are numbers of nanoseconds, so that the saturating subtractions of the code are
-- those of ℕ. The `HashMap` is an association list, and the digest of keys (the sha2 crate) a
-- parameter. `poisoned` is the state of the `Mutex`.
pub mod Buckets
pub mod Invariant
pub mod Retry
pub mod Limit
mod Tests
use Prim.Native.Nat.{min}
use axonyx_runtime.Prelude.{
  ℕ, zero, suc, ◌+◌, ◌-◌, Bool, true, false, ◌||◌, Option, none, some, List, [], ◌∷◌, ltb, leb,
  ◌==◌, if◌then◌else◌, length,
}
use axonyx_runtime.Prelude.Bytes.{bytes_eq}

abbrev pub max_key_bytes : ℕ
max_key_bytes = 1024

pub record Bucket : Type 0 where
  pub start : ℕ
  pub attempts : ℕ

abbrev pub Buckets : Type 0
Buckets = List (List ℕ × Bucket)

pub record Throttle : Type 0 where
  pub attempts : ℕ
  pub window : ℕ
  pub max_keys : ℕ
  pub poisoned : Bool
  pub buckets : Buckets

pub data Outcome : Type 0 where
  admitted invalid_key unavailable : Outcome
  limited : ℕ → Outcome

-- `AxLoginThrottle::new`; `none` is `InvalidConfiguration`.
unfoldable pub new : ℕ → ℕ → ℕ → Option Throttle
new attempts window max_keys =
    if attempts == 0 || window == 0 || max_keys == 0
    then none
    else some (record {
      attempts = attempts;
      window = window;
      max_keys = max_keys;
      poisoned = false;
      buckets = [];
    })

-- `window.saturating_sub(now.saturating_duration_since(bucket.start))`
abbrev pub wait : ℕ → ℕ → Bucket → ℕ
wait window now b = window - (now - b.start)

abbrev pub is_live : ℕ → ℕ → Bucket → Bool
is_live window now b = ltb (now - b.start) window

-- `buckets.retain(…)`
unfoldable pub retain : ℕ → ℕ → Buckets → Buckets
retain window now [] = []
retain window now ((k, b) ∷ bs) =
    if is_live window now b then (k, b) ∷ retain window now bs else retain window now bs

-- `buckets.get_mut(&key)`
unfoldable pub find : List ℕ → Buckets → Option Bucket
find key [] = none
find key ((k, b) ∷ bs) = if bytes_eq k key then some b else find key bs

-- `bucket.attempts += 1`
abbrev pub count : Bucket → Bucket
count b = record { start = b.start; attempts = b.attempts + 1 }

unfoldable pub bump : List ℕ → Buckets → Buckets
bump key [] = []
bump key ((k, b) ∷ bs) = if bytes_eq k key then (k, count b) ∷ bs else (k, b) ∷ bump key bs

-- The minimum of the waits.
unfoldable pub earliest : ℕ → ℕ → Buckets → Option ℕ
earliest window now [] = none
earliest window now ((k, b) ∷ bs) = elim (earliest window now bs) [
  | none ↦ some (wait window now b)
  | some w ↦ some (min (wait window now b) w)
]

abbrev pub or_window : ℕ → Option ℕ → ℕ
or_window window none = window
or_window window (some w) = w

abbrev pub with_buckets : Throttle → Buckets → Throttle
with_buckets t bs = record {
  attempts = t.attempts;
  window = t.window;
  max_keys = t.max_keys;
  poisoned = t.poisoned;
  buckets = bs;
}

-- `acquire_at` behind the lock, by the live buckets and the key's bucket among them.
unfoldable pub decide : Throttle → List ℕ → ℕ → Buckets → Option Bucket → Outcome × Throttle
unfolding bump earliest
decide t key now live (some b) =
    if leb t.attempts b.attempts
    then (limited (wait t.window now b), with_buckets t live)
    else (admitted, with_buckets t (bump key live))
decide t key now live none =
    if leb t.max_keys (length live)
    then (limited (or_window t.window (earliest t.window now live)), with_buckets t live)
    else (admitted, with_buckets t ((key, record { start = now; attempts = 1 }) ∷ live))

abbrev pub admit : Throttle → List ℕ → ℕ → Outcome × Throttle
admit t key now = let live = retain t.window now t.buckets in decide t key now live (find key live)

-- `key.is_empty() || key.len() > MAX_KEY_BYTES`
abbrev pub is_invalid : List ℕ → Bool
is_invalid key = length key == 0 || ltb max_key_bytes (length key)

unfoldable pub acquire_at : (List ℕ → List ℕ) → Throttle → List ℕ → ℕ → Outcome × Throttle
unfolding retain find decide
acquire_at digest t key now =
    if is_invalid key
    then (invalid_key, t)
    else if t.poisoned
    then (unavailable, t)
    else admit t (digest key) now
