-- ===== src/Sql/Lists.antt =====
-- Literal lists of filter values: `filter_list_values` and `split_top_level` of
-- crates/axonyx-core/src/ax_sql.rs.
use axonyx_runtime.Prelude.{
  ℕ, ◌+◌, ◌-◌, Bool, true, false, ◌&&◌, ◌||◌, Option, none, some, List, [], ◌∷◌, map, ◌==◌,
  if◌then◌else◌, ◌>>=◌,
}
use axonyx_runtime.Prelude.Bytes.{ascii}
use axonyx_runtime.Session.Tokens.{strip_prefix}
use axonyx_runtime.Sql.Plan.{Text, RustExpr, trim, trim_start, trim_end}

-- The loop's variables: the open brackets, the quote of the string that is open, and whether a
-- backslash stands before the next character.
pub record Splitter : Type 0 where
  pub depth : ℕ
  pub in_string : Option ℕ
  pub escaped : Bool

abbrev pub outside : ℕ → Splitter
outside depth = record { depth = depth; in_string = none; escaped = false }

abbrev pub inside : ℕ → ℕ → Bool → Splitter
inside depth quote escaped = record { depth = depth; in_string = some quote; escaped = escaped }

abbrev pub is_quote : ℕ → Bool
is_quote ch = ch == b'"' || ch == b'\''

abbrev pub is_open : ℕ → Bool
is_open ch = ch == b'(' || (ch == b'[' || ch == b'{')

abbrev pub is_close : ℕ → Bool
is_close ch = ch == b')' || (ch == b']' || ch == b'}')

-- One round: the variables after it, and whether a piece ends before `ch`.
abbrev pub step_inside : ℕ → ℕ → Bool → ℕ → Splitter × Bool
step_inside depth quote escaped ch =
    if escaped
    then (inside depth quote false, false)
    else if ch == b'\\'
    then (inside depth quote true, false)
    else if ch == quote
    then (outside depth, false)
    else (inside depth quote false, false)

abbrev pub step_outside : ℕ → ℕ → Bool → ℕ → Splitter × Bool
step_outside delimiter depth escaped ch =
    if is_quote ch
    then (inside depth ch false, false)
    else let rest : Splitter = record { depth = depth; in_string = none; escaped = escaped } in
      if is_open ch
      then (record rest { depth = depth + 1 }, false)
      else if is_close ch
      then (record rest { depth = depth - 1 }, false)
      else (rest, ch == delimiter && depth == 0)

abbrev pub advance : ℕ → Splitter → ℕ → Splitter × Bool
advance delimiter s ch = elim s.in_string [
  | none ↦ step_outside delimiter s.depth s.escaped ch
  | some quote ↦ step_inside s.depth quote s.escaped ch
]

-- The piece that `input` starts with, and those after it.
unfoldable pub split_from : ℕ → Splitter → Text → Text × List Text
split_from delimiter s [] = ([], [])
split_from delimiter s (ch ∷ input) =
    let (s', cut) = advance delimiter s ch in
    let (piece, pieces) = split_from delimiter s' input in
    if cut then ([], piece ∷ pieces) else (ch ∷ piece, pieces)

unfoldable pub split_top_level : Text → ℕ → List Text
unfolding split_from trim_start trim_end
split_top_level input delimiter =
    let (piece, pieces) = split_from delimiter (outside 0) input in map trim (piece ∷ pieces)

-- `strip_suffix(']')`
unfoldable pub strip_bracket : Text → Option Text
strip_bracket [] = none
strip_bracket (c ∷ []) = if c == b']' then some [] else none
strip_bracket (c ∷ d ∷ cs) = do rest ← strip_bracket (d ∷ cs); some (c ∷ rest)

abbrev pub or_else {ℓ} : {A : Type ℓ} → Option A → Option A → Option A
or_else none other = other
or_else (some a) other = some a

abbrev pub list_body : Text → Option Text
list_body code =
    or_else (strip_prefix (ascii "vec![") code >>= strip_bracket)
      (strip_prefix (ascii "[") code >>= strip_bracket)

abbrev pub list_values : Text → Text → List RustExpr
list_values inner [] = []
list_values inner (_ ∷ _) = map (λ value. record { code = trim value }) (split_top_level inner b',')

unfoldable pub filter_list_values : RustExpr → Option (List RustExpr)
unfolding split_top_level strip_prefix strip_bracket trim_start trim_end
filter_list_values value = do
  inner ← list_body (trim value.code)
  some (list_values inner (trim inner))
