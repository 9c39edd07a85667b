-- ===== src/Prelude/Int.antt =====
-- Signed integers over the native numbers, and the 64-bit patterns that stand for them.
use Prim.Native.Nat.{ℕ, zero, suc, ◌+◌, ◌-◌, ◌*◌, ◌/◌, ◌%◌, ◌^◌, ◌<◌}
use mathlib.Core.Path.{◌≡◌}
use mathlib.Core.Bool.{Bool, true, false, ◌&&◌}
use mathlib.Core.Option.{Option, none, some}
use native.Mathlib.Omega.{arith}
use axonyx_runtime.Prelude.Tests.{leb, ltb, ◌==◌, if◌then◌else◌}

-- `negsuc n` is -(n + 1).
pub data ℤ : Type 0 where
  pos : ℕ → ℤ
  negsuc : ℕ → ℤ

-- The integer with the given sign and magnitude.
abbrev pub signed : Bool → ℕ → ℤ
signed false n = pos n
signed true zero = pos 0
signed true (suc n) = negsuc n

abbrev pub is_negative : ℤ → Bool
is_negative (pos n) = false
is_negative (negsuc n) = true

abbrev pub magnitude : ℤ → ℕ
magnitude (pos n) = n
magnitude (negsuc n) = suc n

abbrev pub neg : ℤ → ℤ
neg (pos n) = signed true n
neg (negsuc n) = pos (suc n)

abbrev pub sub_ℕ : ℕ → ℕ → ℤ
sub_ℕ a b = if leb b a then pos (a - b) else negsuc (b - a - 1)

abbrev pub pos_part : ℤ → ℕ
pos_part (pos n) = n
pos_part (negsuc n) = 0

abbrev pub neg_part : ℤ → ℕ
neg_part (pos n) = 0
neg_part (negsuc n) = suc n

infixl 65 ◌+ℤ◌ ◌-ℤ◌
infixl 70 ◌*ℤ◌
unfoldable pub ◌+ℤ◌ : ℤ → ℤ → ℤ
a +ℤ b = sub_ℕ (pos_part a + pos_part b) (neg_part a + neg_part b)

unfoldable pub ◌-ℤ◌ : ℤ → ℤ → ℤ
a -ℤ b = sub_ℕ (pos_part a + neg_part b) (neg_part a + pos_part b)

abbrev differ : Bool → Bool → Bool
differ true true = false
differ true false = true
differ false b = b

unfoldable pub ◌*ℤ◌ : ℤ → ℤ → ℤ
a *ℤ b = signed (differ (is_negative a) (is_negative b)) (magnitude a * magnitude b)

-- Rust's `/` and `%` round towards zero; the remainder has the sign of the dividend.
unfoldable pub div_ℤ : ℤ → ℤ → ℤ
div_ℤ a b = signed (differ (is_negative a) (is_negative b)) (magnitude a / magnitude b)

unfoldable pub rem_ℤ : ℤ → ℤ → ℤ
rem_ℤ a b = signed (is_negative a) (magnitude a % magnitude b)

unfoldable pub eq_ℤ : ℤ → ℤ → Bool
eq_ℤ (pos a) (pos b) = a == b
eq_ℤ (negsuc a) (negsuc b) = a == b
eq_ℤ (pos a) (negsuc b) = false
eq_ℤ (negsuc a) (pos b) = false

unfoldable pub lt_ℤ : ℤ → ℤ → Bool
lt_ℤ a b = ltb (pos_part a + neg_part b) (pos_part b + neg_part a)

-- `i64`.
abbrev pub in_i64 : ℤ → Bool
in_i64 (pos n) = ltb n (2 ^ 63)
in_i64 (negsuc n) = ltb n (2 ^ 63)

abbrev pub checked : ℤ → Option ℤ
checked a = if in_i64 a then some a else none

unfoldable pub checked_neg : ℤ → Option ℤ
checked_neg a = checked (neg a)

unfoldable pub checked_add : ℤ → ℤ → Option ℤ
unfolding ◌+ℤ◌
checked_add a b = checked (a +ℤ b)

unfoldable pub checked_sub : ℤ → ℤ → Option ℤ
unfolding ◌-ℤ◌
checked_sub a b = checked (a -ℤ b)

unfoldable pub checked_mul : ℤ → ℤ → Option ℤ
unfolding ◌*ℤ◌
checked_mul a b = checked (a *ℤ b)

unfoldable pub checked_div : ℤ → ℤ → Option ℤ
unfolding div_ℤ
checked_div a b = if magnitude b == 0 then none else checked (div_ℤ a b)

-- `i64::MIN % -1` overflows, although its remainder is 0.
unfoldable pub checked_rem : ℤ → ℤ → Option ℤ
unfolding rem_ℤ eq_ℤ
checked_rem a b =
    if magnitude b == 0
    then none
    else if eq_ℤ a (negsuc (2 ^ 63 - 1)) && eq_ℤ b (negsuc 0)
    then none
    else some (rem_ℤ a b)

-- Two's complement, `i64 as u64` and back.
unfoldable pub to_word : ℤ → ℕ
to_word (pos n) = n
to_word (negsuc n) = 2 ^ 64 - 1 - n

unfoldable pub from_word : ℕ → ℤ
from_word w = if ltb w (2 ^ 63) then pos w else negsuc (2 ^ 64 - 1 - w)

pub from_word-to_word : (a : ℤ) → in_i64 a ≡ true → from_word (to_word a) ≡ a
unfolding to_word from_word
from_word-to_word (pos n) h = ground arith
from_word-to_word (negsuc n) h = ground arith

pub to_word-from_word : (w : ℕ) → w < 2 ^ 64 → to_word (from_word w) ≡ w
unfolding to_word from_word
to_word-from_word w h = ground arith

pub from_word-in_i64 : (w : ℕ) → w < 2 ^ 64 → in_i64 (from_word w) ≡ true
unfolding from_word
from_word-in_i64 w h = ground arith

pub to_word-lt : (a : ℤ) → in_i64 a ≡ true → to_word a < 2 ^ 64
unfolding to_word
to_word-lt (pos n) h = ground arith
to_word-lt (negsuc n) h = ground arith
