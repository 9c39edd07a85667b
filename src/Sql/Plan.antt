-- ===== src/Sql/Plan.antt =====
-- Plans, dialects, parameters and errors of crates/axonyx-core/src/ax_sql.rs, and `validate_ident`.
use mathlib.Core.Path.{subst}
use axonyx_runtime.Prelude.{
  ℕ, ◌≡◌, refl, Bool, true, false, ◌&&◌, ◌||◌, Option, List, [], ◌∷◌, ◌++◌, leb, ◌==◌,
  if◌then◌else◌, all,
}
use axonyx_runtime.Prelude.Bytes.{ascii}
use axonyx_runtime.StateWasm.Operators.{decimal}
use axonyx_runtime.Validation.{is_alphanumeric}

-- A `String`, by its `char`s.
abbrev pub Text : Type 0
Text = List ℕ

pub data Dialect : Type 0 where
  postgres my_sql sqlite : Dialect

pub record RustExpr : Type 0 where
  pub code : Text

pub record Assignment : Type 0 where
  pub name : Text
  pub value : RustExpr

pub data FilterOp : Type 0 where
  eq ne in_list not_in is_null is_not_null : FilterOp

pub record Filter : Type 0 where
  pub field : Text
  pub op : FilterOp
  pub value : RustExpr

pub data Direction : Type 0 where
  asc desc : Direction

pub record Order : Type 0 where
  pub field : Text
  pub direction : Direction

pub record JoinColumn : Type 0 where
  pub source : Text
  pub target : Text

pub record Join : Type 0 where
  pub collection : Text
  pub columns : List JoinColumn

pub data Source : Type 0 where
  stream content_collection : Text → Source
  raw_sql : Text → List RustExpr → Source

pub record Query : Type 0 where
  pub source : Source
  pub joins : List Join
  pub filters : List Filter
  pub orders : List Order
  pub limit : Option ℕ
  pub offset : Option ℕ

pub record Param : Type 0 where
  pub index : ℕ
  pub value : RustExpr

-- `AxSqlQuery` and `AxSqlMutation`
pub record Statement : Type 0 where
  pub sql : Text
  pub params : List Param

pub data Context : Type 0 where
  query mutation : Context

pub data Error : Type 0 where
  empty_collection raw_sql_runtime_only empty_mutation_fields empty_delete_filters : Error
  non_literal_list_filter : Error
  invalid_identifier ambiguous_join_collection empty_join_columns : Text → Error
  duplicate_join_columns : Text → Error
  unknown_query_qualifier : Text → Text → Error

pub data Result {ℓ} (A : Type ℓ) : Type ℓ where
  ok : A → Result A
  err : Error → Result A

-- Rust's `?`.
infixl 5 ◌>>=◌ ◌>>◌
abbrev pub ◌>>=◌ {ℓ κ} : {A : Type ℓ} {B : Type κ} → Result A → (A → Result B) → Result B
ok a >>= f = f a
err e >>= f = err e

abbrev pub ◌>>◌ {ℓ κ} : {A : Type ℓ} {B : Type κ} → Result A → Result B → Result B
m >> k = m >>= λ _. k

-- An early `return Err(…)` unless the test holds.
abbrev pub require : Bool → Error → Result (Unit {0})
require true e = ok tt
require false e = err e

-- A result that is a value has the property.
pub data Ensures {ℓ κ} {A : Type ℓ} (P : A → Type κ) : Result A → Type (ℓ ⊔ κ) where
  holds : {a : A} → P a → Ensures P (ok a)
  failed : {e : Error} → Ensures P (err e)

module _ {ℓ κ} {A : Type ℓ} {P : A → Type κ} where
  pub Ensures-ok : {r : Result A} {a : A} → Ensures P r → r ≡ ok a → P a
  Ensures-ok (holds h) e = subst P (cc) h
  Ensures-ok failed e = cc

  pub Ensures-map {κ'} :
      {Q : A → Type κ'} {r : Result A} → ((a : A) → P a → Q a) → Ensures P r → Ensures Q r
  Ensures-map f (holds h) = holds (f _ h)
  Ensures-map f failed = failed

  pub Ensures-bind {ℓ' κ'} :
      {B : Type ℓ'} {Q : B → Type κ'} {r : Result A} {f : A → Result B}
      → Ensures P r
      → ((a : A) → P a → Ensures Q (f a))
      → Ensures Q (r >>= f)
  Ensures-bind (holds h) k = k _ h
  Ensures-bind failed k = failed

pub Ensures-require : (b : Bool) (e : Error) → Ensures (λ _. b ≡ true) (require b e)
Ensures-require true e = holds refl
Ensures-require false e = failed

-- `char::is_whitespace`
abbrev pub is_whitespace : ℕ → Bool
is_whitespace c =
    (leb 0x09 c && leb c 0x0d)
    || (c == 0x20 || (c == 0x85 || (c == 0xa0 || c == 0x1680)))
    || ((leb 0x2000 c && leb c 0x200a) || (c == 0x2028 || (c == 0x2029 || c == 0x202f)))
    || (c == 0x205f || c == 0x3000)

unfoldable pub trim_start : Text → Text
trim_start [] = []
trim_start (c ∷ cs) = if is_whitespace c then trim_start cs else c ∷ cs

unfoldable pub trim_end : Text → Text
trim_end [] = []
trim_end (c ∷ cs) = elim (trim_end cs) [
  | [] ↦ if is_whitespace c then [] else c ∷ []
  | d ∷ ds ↦ c ∷ d ∷ ds
]

abbrev pub trim : Text → Text
trim cs = trim_end (trim_start cs)

abbrev pub is_ident_char : ℕ → Bool
is_ident_char c = is_alphanumeric c || c == b'_'

abbrev pub check_ident : Text → Text → Result (Unit {0})
check_ident ident [] = err empty_collection
check_ident ident (c ∷ cs) = require (all is_ident_char (c ∷ cs)) (invalid_identifier ident)

unfoldable pub validate_ident : Text → Result (Unit {0})
unfolding trim_start trim_end
validate_ident ident = check_ident ident (trim ident)

unfoldable pub quote_ident : Dialect → Text → Text
quote_ident my_sql ident = b'`' ∷ (ident ++ b'`' ∷ [])
quote_ident _ ident = b'"' ∷ (ident ++ b'"' ∷ [])

-- `format!("${index}")`; a `usize` has at most 20 digits.
unfoldable pub placeholder : Dialect → ℕ → Text
unfolding decimal
placeholder postgres index = b'$' ∷ decimal 20 index []
placeholder _ index = b'?' ∷ []

unfoldable pub order_direction_name : Direction → Text
order_direction_name asc = ascii "asc"
order_direction_name desc = ascii "desc"

-- `parts.join(separator)`
unfoldable pub join : Text → List Text → Text
join separator [] = []
join separator (part ∷ []) = part
join separator (part ∷ next ∷ parts) = part ++ (separator ++ join separator (next ∷ parts))
