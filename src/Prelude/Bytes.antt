-- ===== src/Prelude/Bytes.antt =====
-- Bytes, little-endian words, and Rust's `String` as the list of its UTF-8 bytes.
use Prim.Native.Nat.{ℕ, zero, suc, ◌+◌, ◌*◌, ◌/◌, ◌%◌, ◌^◌, ◌<◌}
use Prim.Native.Char.{code}
use Prim.Native.String.{String}
use mathlib.Core.Path.{◌≡◌, refl, sym, ◌∙◌, ap, ap₂}
use mathlib.Core.Logic.{◌↔◌, inl, inr}
use mathlib.Core.Option.{Option, none, some}
use mathlib.Core.Bool.{Bool, true, false, ◌&&◌, ◌||◌}
use mathlib.Core.List.{List, [], ◌∷◌}
use native.Mathlib.Omega.{arith}
use native.Mathlib.Nat.{pow-suc}
use axonyx_runtime.Prelude.Tests.{
  leb, ltb, ltb→lt, ◌==◌, if◌then◌else◌, ==_iff, and-eq-true, Bool-cases,
}
use axonyx_runtime.Prelude.Lists.{length, all, All}

abbrev pub IsByte : ℕ → Type 0
IsByte b = b < 256

abbrev pub IsBytes : List ℕ → Type 0
IsBytes = All IsByte

-- For a list that is known, the test computes.
pub all-IsBytes : (bs : List ℕ) → all (λ b. ltb b 256) bs ≡ true → IsBytes bs
all-IsBytes [] h = tt
all-IsBytes (b ∷ bs) h =
    let (p, q) = and-eq-true (ltb b 256) (all (λ b. ltb b 256) bs) h in
    (ltb→lt b 256 p, all-IsBytes bs q)

-- `to_le_bytes` of a `k`-byte word, and `from_le_bytes`.
unfoldable pub to_le_bytes : ℕ → ℕ → List ℕ
to_le_bytes zero n = []
to_le_bytes (suc k) n = n % 256 ∷ to_le_bytes k (n / 256)

unfoldable pub from_le_bytes : List ℕ → ℕ
from_le_bytes [] = 0
from_le_bytes (b ∷ bs) = b + 256 * from_le_bytes bs

pub length-to_le_bytes : (k n : ℕ) → length (to_le_bytes k n) ≡ k
unfolding to_le_bytes
length-to_le_bytes zero n = refl
length-to_le_bytes (suc k) n = ap suc (length-to_le_bytes k (n / 256))

pub to_le_bytes-IsBytes : (k n : ℕ) → IsBytes (to_le_bytes k n)
unfolding to_le_bytes
to_le_bytes-IsBytes zero n = tt
to_le_bytes-IsBytes (suc k) n = (omega arith, to_le_bytes-IsBytes k (n / 256))

pub from_le_bytes-to_le_bytes : (k n : ℕ) → n < 256 ^ k → from_le_bytes (to_le_bytes k n) ≡ n
unfolding to_le_bytes from_le_bytes
from_le_bytes-to_le_bytes zero n h = omega arith
from_le_bytes-to_le_bytes (suc k) n h =
    let e : 256 ^ suc k ≡ 256 ^ k * 256 = pow-suc 256 k in
    omega (arith, e, from_le_bytes-to_le_bytes k (n / 256) (omega (arith, e)))

pub to_le_bytes-from_le_bytes :
    (bs : List ℕ) → IsBytes bs → to_le_bytes (length bs) (from_le_bytes bs) ≡ bs
unfolding to_le_bytes from_le_bytes
to_le_bytes-from_le_bytes [] h = refl
to_le_bytes-from_le_bytes (b ∷ bs) (p, h) =
    let low : (b + 256 * from_le_bytes bs) % 256 ≡ b = omega arith in
    let high : (b + 256 * from_le_bytes bs) / 256 ≡ from_le_bytes bs = omega arith in
    rw (low, high) (ap (◌∷◌ b) (to_le_bytes-from_le_bytes bs h))

pub from_le_bytes-lt : (bs : List ℕ) → IsBytes bs → from_le_bytes bs < 256 ^ length bs
unfolding from_le_bytes
from_le_bytes-lt [] h = omega arith
from_le_bytes-lt (b ∷ bs) (p, h) = omega (arith, from_le_bytes-lt bs h, pow-suc 256 (length bs))

-- A text's code points: its bytes, if it is ASCII.
abbrev pub ascii : String → List ℕ
ascii String.[] = []
ascii (String.◌∷◌ c s) = code c ∷ ascii s

-- `==` on strings and byte slices.
abbrev pub bytes_eq : List ℕ → List ℕ → Bool
bytes_eq [] [] = true
bytes_eq (a ∷ xs) (b ∷ ys) = a == b && bytes_eq xs ys
bytes_eq _ _ = false

pub bytes_eq→eq : (xs ys : List ℕ) → bytes_eq xs ys ≡ true → xs ≡ ys
bytes_eq→eq [] [] h = refl
bytes_eq→eq [] (b ∷ ys) h = cc
bytes_eq→eq (a ∷ xs) [] h = cc
bytes_eq→eq (a ∷ xs) (b ∷ ys) h =
    let (p, q) = and-eq-true (a == b) (bytes_eq xs ys) h in
    ap₂ ◌∷◌ ((==_iff a b).0 p) (bytes_eq→eq xs ys q)

pub bytes_eq_refl : (xs : List ℕ) → bytes_eq xs xs ≡ true
bytes_eq_refl [] = refl
bytes_eq_refl (a ∷ xs) = rw ((==_iff a a).1 refl) (bytes_eq_refl xs)

pub bytes_eq_apart :
    (k key id : List ℕ) → bytes_eq k id ≡ true → bytes_eq k key ≡ false → bytes_eq key id ≡ false
bytes_eq_apart k key id here other = elim (Bool-cases (bytes_eq key id)) [
  | inl same ↦ cc (sym other ∙ ap (bytes_eq k) (bytes_eq→eq key id same) ∙ here)
  | inr differs ↦ differs
]

pub bytes_eq_iff : (xs ys : List ℕ) → (bytes_eq xs ys ≡ true) ↔ (xs ≡ ys)
bytes_eq_iff xs ys = (bytes_eq→eq xs ys, λ e. rw e (bytes_eq_refl ys))

abbrev pub contains : List (List ℕ) → List ℕ → Bool
contains [] key = false
contains (k ∷ ks) key = bytes_eq k key || contains ks key

-- What a leading byte asks for: how many continuation bytes, and the range of the first of them.
abbrev pub lead : ℕ → Option (ℕ × ℕ × ℕ)
lead b =
    if ltb b 0x80
    then some (0, 0x80, 0xbf)
    else if ltb b 0xc2 || ltb 0xf4 b
    then none
    else some (
      if ltb b 0xe0 then 1 else if ltb b 0xf0 then 2 else 3,
      if b == 0xe0 then 0xa0 else if b == 0xf0 then 0x90 else 0x80,
      if b == 0xed then 0x9f else if b == 0xf4 then 0x8f else 0xbf,
    )

-- `str::from_utf8` as the automaton of the Unicode standard's table 3-7: `need` continuation bytes
-- are missing, and the next one lies in `lo..=hi`.
unfoldable pub is_utf8_from : ℕ → ℕ → ℕ → List ℕ → Bool
is_utf8_from need lo hi [] = need == 0
is_utf8_from (suc need) lo hi (b ∷ bs) = leb lo b && leb b hi && is_utf8_from need 0x80 0xbf bs
is_utf8_from zero lo hi (b ∷ bs) = elim (lead b) [
  | none ↦ false
  | some (need, lo', hi') ↦ is_utf8_from need lo' hi' bs
]

abbrev pub is_utf8 : List ℕ → Bool
is_utf8 bs = is_utf8_from 0 0x80 0xbf bs

-- `String::from_utf8(…).ok()`
abbrev pub from_utf8 : List ℕ → Option (List ℕ)
from_utf8 bs = if is_utf8 bs then some bs else none
