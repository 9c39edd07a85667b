-- ===== src/StateWasm/Operators.antt =====
-- The operators of the expression machine: `expr_add`, `expr_numeric`, `expr_values_equal`,
-- `expr_compare`, `expr_index`, `expr_truthy` and `evaluate_binary_opcode` of
-- crates/axonyx-state-wasm/src/lib.rs.
use Prim.Native.Nat.{compare, Ordering}
use axonyx_runtime.Prelude.{
  ℕ, zero, suc, ◌+◌, ◌*◌, ◌/◌, ◌%◌, ◌^◌, Bool, true, false, not, ◌&&◌, ◌||◌, Option, none, some,
  List, [], ◌∷◌, ◌++◌, ltb, leb, ◌==◌, if◌then◌else◌, ◌>>=◌,
}
use axonyx_runtime.Prelude.Bytes.{bytes_eq, ascii}
use axonyx_runtime.Prelude.Int.{
  ℤ, pos, negsuc, signed, eq_ℤ, lt_ℤ, magnitude, is_negative, checked_add, checked_sub, checked_mul,
  checked_div, checked_rem,
}
use axonyx_runtime.StateWasm.Value.{
  ExprValue, null, string, bool, float, int, bytes, list, object, Values, nil, cons, Fields, end,
  field,
}
use axonyx_runtime.StateWasm.Frame.{is_finite}

-- The arithmetic of `f64` over bit patterns, `as f64` and the decimal rendering.
pub record Floats : Type 0 where
  pub add : ℕ → ℕ → ℕ
  pub sub : ℕ → ℕ → ℕ
  pub mul : ℕ → ℕ → ℕ
  pub div : ℕ → ℕ → ℕ
  pub rem : ℕ → ℕ → ℕ
  pub of_int : ℤ → ℕ
  pub to_string : ℕ → List ℕ

-- Sign, order and equality of `f64` need no arithmetic.
abbrev pub is_nan : ℕ → Bool
is_nan bits = ltb (2047 * 2 ^ 52) (bits % 2 ^ 63)

abbrev pub is_zero : ℕ → Bool
is_zero bits = bits % 2 ^ 63 == 0

abbrev pub neg_float : ℕ → ℕ
neg_float bits = (bits + 2 ^ 63) % 2 ^ 64

-- The bit pattern as sign and magnitude, which orders the numbers.
abbrev pub rank : ℕ → ℤ
rank bits = signed (leb (2 ^ 63) bits) (bits % 2 ^ 63)

abbrev pub compare_ℤ : ℤ → ℤ → Ordering
compare_ℤ a b = if eq_ℤ a b then Ordering.eq else if lt_ℤ a b then Ordering.lt else Ordering.gt

unfoldable pub float_eq : ℕ → ℕ → Bool
unfolding eq_ℤ
float_eq a b = not (is_nan a) && not (is_nan b) && eq_ℤ (rank a) (rank b)

-- `f64::partial_cmp`
unfoldable pub float_compare : ℕ → ℕ → Option Ordering
unfolding eq_ℤ lt_ℤ
float_compare a b = if is_nan a || is_nan b then none else some (compare_ℤ (rank a) (rank b))

-- `str::cmp`: by bytes.
unfoldable pub compare_bytes : List ℕ → List ℕ → Ordering
compare_bytes [] [] = Ordering.eq
compare_bytes [] (b ∷ ys) = Ordering.lt
compare_bytes (a ∷ xs) [] = Ordering.gt
compare_bytes (a ∷ xs) (b ∷ ys) = elim (compare a b) [
  | Ordering.lt ↦ Ordering.lt
  | Ordering.eq ↦ compare_bytes xs ys
  | Ordering.gt ↦ Ordering.gt
]

abbrev pub is_lt : Ordering → Bool
is_lt Ordering.lt = true
is_lt _ = false

abbrev pub is_gt : Ordering → Bool
is_gt Ordering.gt = true
is_gt _ = false

-- The derived `PartialEq`.
unfoldable mutual
  pub value_eq : ExprValue → ExprValue → Bool
  value_eq null null = true
  value_eq (string a) (string b) = bytes_eq a b
  value_eq (bool true) (bool b) = b
  value_eq (bool false) (bool b) = not b
  value_eq (float a) (float b) = float_eq a b
  value_eq (int a) (int b) = eq_ℤ a b
  value_eq (bytes a) (bytes b) = bytes_eq a b
  value_eq (list a) (list b) = items_eq a b
  value_eq (object a) (object b) = fields_eq a b
  value_eq _ _ = false

  pub items_eq : Values → Values → Bool
  items_eq nil nil = true
  items_eq (cons v vs) (cons w ws) = value_eq v w && items_eq vs ws
  items_eq _ _ = false

  pub fields_eq : Fields → Fields → Bool
  fields_eq end end = true
  fields_eq (field k v fs) (field l w gs) = bytes_eq k l && (value_eq v w && fields_eq fs gs)
  fields_eq _ _ = false

unfoldable pub expr_truthy : ExprValue → Bool
expr_truthy null = false
expr_truthy (string []) = false
expr_truthy (string (b ∷ bs)) = true
expr_truthy (bool b) = b
expr_truthy (float bits) = not (is_zero bits)
expr_truthy (int a) = not (magnitude a == 0)
expr_truthy (bytes []) = false
expr_truthy (bytes (b ∷ bs)) = true
expr_truthy (list nil) = false
expr_truthy (list (cons v vs)) = true
expr_truthy (object end) = false
expr_truthy (object (field k v fs)) = true

unfoldable pub finite_float : ℕ → Option ExprValue
finite_float bits = if is_finite bits then some (float bits) else none

-- `i64::to_string`: `fuel` digits at most; an `i64` has nineteen.
unfoldable pub decimal : ℕ → ℕ → List ℕ → List ℕ
decimal zero n digits = digits
decimal (suc fuel) n digits = elim (n / 10) [
  | zero ↦ (b'0' + n % 10) ∷ digits
  | suc more ↦ decimal fuel (suc more) ((b'0' + n % 10) ∷ digits)
]

unfoldable pub int_to_string : ℤ → List ℕ
unfolding decimal
int_to_string a =
    if is_negative a then b'-' ∷ decimal 20 (magnitude a) [] else decimal 20 (magnitude a) []

unfoldable pub get_field : List ℕ → Fields → Option ExprValue
get_field key end = none
get_field key (field name v fs) = if bytes_eq name key then some v else get_field key fs

unfoldable pub get_item : ℕ → Values → Option ExprValue
get_item i nil = none
get_item zero (cons v vs) = some v
get_item (suc i) (cons v vs) = get_item i vs

abbrev pub or_null : Option ExprValue → ExprValue
or_null none = null
or_null (some v) = v

unfoldable pub expr_index : ExprValue → ExprValue → Option ExprValue
unfolding get_field get_item
expr_index (list items) (int (pos i)) = some (or_null (get_item i items))
expr_index (list items) (int (negsuc i)) = some null
expr_index (object fields) (string key) = some (or_null (get_field key fields))
expr_index _ _ = none

-- The members of `20..=34 | 40`.
pub data Binary : Type 0 where
  add sub mul div rem eq ne gt ge lt le is_in and_also or_else fallback index : Binary

abbrev pub opcode_value : Binary → ℕ
opcode_value add = 20
opcode_value sub = 21
opcode_value mul = 22
opcode_value div = 23
opcode_value rem = 24
opcode_value eq = 25
opcode_value ne = 26
opcode_value gt = 27
opcode_value ge = 28
opcode_value lt = 29
opcode_value le = 30
opcode_value is_in = 31
opcode_value and_also = 32
opcode_value or_else = 33
opcode_value fallback = 34
opcode_value index = 40

module _ (floats : Floats) where
  unfoldable pub expr_values_equal : ExprValue → ExprValue → Bool
  unfolding value_eq float_eq eq_ℤ
  expr_values_equal (int a) (float b) = float_eq (floats.of_int a) b
  expr_values_equal (float a) (int b) = float_eq a (floats.of_int b)
  expr_values_equal left right = value_eq left right

  unfoldable pub expr_compare : ExprValue → ExprValue → Option Ordering
  unfolding float_compare compare_bytes eq_ℤ lt_ℤ
  expr_compare (int a) (int b) = some (compare_ℤ a b)
  expr_compare (float a) (float b) = float_compare a b
  expr_compare (int a) (float b) = float_compare (floats.of_int a) b
  expr_compare (float a) (int b) = float_compare a (floats.of_int b)
  expr_compare (string a) (string b) = some (compare_bytes a b)
  expr_compare _ _ = none

  -- The closure `scalar` of `expr_add`.
  unfoldable pub scalar : ExprValue → Option (List ℕ)
  unfolding int_to_string
  scalar (string text) = some text
  scalar (int a) = some (int_to_string a)
  scalar (float bits) = some (if is_zero bits then ascii "0" else floats.to_string bits)
  scalar (bool b) = some (if b then ascii "true" else ascii "false")
  scalar _ = none

  abbrev pub concat : ExprValue → ExprValue → Option ExprValue
  concat left right = do a ← scalar left; b ← scalar right; some (string (a ++ b))

  unfoldable pub expr_add : ExprValue → ExprValue → Option ExprValue
  unfolding scalar finite_float checked_add
  expr_add (int a) (int b) = do sum ← checked_add a b; some (int sum)
  expr_add (float a) (float b) = finite_float (floats.add a b)
  expr_add (int a) (float b) = finite_float (floats.add (floats.of_int a) b)
  expr_add (float a) (int b) = finite_float (floats.add a (floats.of_int b))
  expr_add (string a) right = concat (string a) right
  expr_add left (string b) = concat left (string b)
  expr_add _ _ = none

  abbrev pub is_zero_value : ExprValue → Bool
  is_zero_value (int a) = magnitude a == 0
  is_zero_value (float bits) = is_zero bits
  is_zero_value _ = false

  unfoldable pub numeric :
      (ℤ → ℤ → Option ℤ) → (ℕ → ℕ → ℕ) → ExprValue → ExprValue → Option ExprValue
  unfolding finite_float
  numeric int_op float_op (int a) (int b) = do result ← int_op a b; some (int result)
  numeric int_op float_op (float a) (float b) = finite_float (float_op a b)
  numeric int_op float_op (int a) (float b) = finite_float (float_op (floats.of_int a) b)
  numeric int_op float_op (float a) (int b) = finite_float (float_op a (floats.of_int b))
  numeric int_op float_op _ _ = none

  unfoldable pub expr_numeric :
      ExprValue → ExprValue → (ℤ → ℤ → Option ℤ) → (ℕ → ℕ → ℕ) → Bool → Option ExprValue
  unfolding numeric
  expr_numeric left right int_op float_op reject_zero =
      if reject_zero && is_zero_value right then none else numeric int_op float_op left right

  unfoldable pub any_equal : ExprValue → Values → Bool
  unfolding expr_values_equal
  any_equal left nil = false
  any_equal left (cons item items) = expr_values_equal left item || any_equal left items

  unfoldable pub expr_in : ExprValue → ExprValue → Option ExprValue
  unfolding any_equal
  expr_in left (list items) = some (bool (any_equal left items))
  expr_in left _ = none

  unfoldable pub expr_fallback : ExprValue → ExprValue → ExprValue
  expr_fallback null right = right
  expr_fallback left right = left

  abbrev pub comparison : (Ordering → Bool) → ExprValue → ExprValue → Option ExprValue
  comparison test left right = do ordering ← expr_compare left right; some (bool (test ordering))

  unfoldable pub evaluate_binary_opcode : Binary → ExprValue → ExprValue → Option ExprValue
  unfolding expr_add expr_numeric expr_values_equal expr_compare expr_in expr_truthy expr_fallback
      expr_index checked_sub checked_mul checked_div checked_rem
  evaluate_binary_opcode add left right = expr_add left right
  evaluate_binary_opcode sub left right = expr_numeric left right checked_sub floats.sub false
  evaluate_binary_opcode mul left right = expr_numeric left right checked_mul floats.mul false
  evaluate_binary_opcode div left right = expr_numeric left right checked_div floats.div true
  evaluate_binary_opcode rem left right = expr_numeric left right checked_rem floats.rem true
  evaluate_binary_opcode eq left right = some (bool (expr_values_equal left right))
  evaluate_binary_opcode ne left right = some (bool (not (expr_values_equal left right)))
  evaluate_binary_opcode gt left right = comparison is_gt left right
  evaluate_binary_opcode ge left right = comparison (λ o. not (is_lt o)) left right
  evaluate_binary_opcode lt left right = comparison is_lt left right
  evaluate_binary_opcode le left right = comparison (λ o. not (is_gt o)) left right
  evaluate_binary_opcode is_in left right = expr_in left right
  evaluate_binary_opcode and_also left right = some (bool (expr_truthy left && expr_truthy right))
  evaluate_binary_opcode or_else left right = some (bool (expr_truthy left || expr_truthy right))
  evaluate_binary_opcode fallback left right = some (expr_fallback left right)
  evaluate_binary_opcode index left right = expr_index left right
