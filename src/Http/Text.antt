-- ===== src/Http/Text.antt =====
-- What crates/axonyx-runtime/src/server.rs, mutation_security.rs and csrf_http.rs use of Rust's `str`,
-- on UTF-8 bytes.
use axonyx_runtime.Prelude.{
  ℕ, ◌+◌, ◌-◌, ◌*◌, Bool, true, false, ◌&&◌, ◌||◌, Option, none, some, List, [], ◌∷◌, ltb, leb,
  ◌==◌, if◌then◌else◌, ◌>>◌, guard, map,
}
use axonyx_runtime.Session.Tokens.{strip_prefix}
use axonyx_runtime.Session.Manager.{blank1, blank2, blank3, is_blank}
use axonyx_runtime.Session.Hex.{between}

abbrev pub Text : Type 0
Text = List ℕ

abbrev pub lower : ℕ → ℕ
lower b = if between b'A' b'Z' b then b + 32 else b

abbrev pub upper : ℕ → ℕ
upper b = if between b'a' b'z' b then b - 32 else b

abbrev pub to_ascii_lowercase : Text → Text
to_ascii_lowercase = map lower

abbrev pub to_ascii_uppercase : Text → Text
to_ascii_uppercase = map upper

abbrev pub eq_ignore_ascii_case : Text → Text → Bool
eq_ignore_ascii_case [] [] = true
eq_ignore_ascii_case (a ∷ s) (b ∷ t) = lower a == lower b && eq_ignore_ascii_case s t
eq_ignore_ascii_case _ _ = false

unfoldable pub trim_start : Text → Text
trim_start [] = []
trim_start (a ∷ []) = if blank1 a then [] else a ∷ []
trim_start (a ∷ b ∷ []) =
    let one = trim_start (b ∷ []) in if blank1 a then one else if blank2 a b then [] else a ∷ b ∷ []
trim_start (a ∷ b ∷ c ∷ s) =
    let one = trim_start (b ∷ c ∷ s) in
    let two = trim_start (c ∷ s) in
    let three = trim_start s in
    if blank1 a
    then one
    else if blank2 a b
    then two
    else if blank3 a b c
    then three
    else a ∷ b ∷ c ∷ s

unfoldable pub trim_end : Text → Text
unfolding is_blank
trim_end [] = []
trim_end (b ∷ s) = let rest = trim_end s in if is_blank (b ∷ s) then [] else b ∷ rest

unfoldable pub trim : Text → Text
unfolding trim_start trim_end
trim s = trim_end (trim_start s)

-- `split(mark)`: the first piece and the others.
unfoldable pub split : ℕ → Text → Text × List Text
split mark [] = ([], [])
split mark (b ∷ s) =
    let (piece, pieces) = split mark s in
    if b == mark then ([], piece ∷ pieces) else (b ∷ piece, pieces)

abbrev pub pieces : ℕ → Text → List Text
pieces mark s = let (piece, others) = split mark s in piece ∷ others

-- `split(marks).next()` for bytes that a test tells.
unfoldable pub until : (ℕ → Bool) → Text → Text
until stops [] = []
until stops (b ∷ s) = let rest = until stops s in if stops b then [] else b ∷ rest

abbrev pub starts_with_text : Text → Text → Bool
starts_with_text p s = elim (strip_prefix p s) [ none ↦ false | some rest ↦ true ]

unfoldable pub contains_text : Text → Text → Bool
unfolding strip_prefix
contains_text p [] = starts_with_text p []
contains_text p (b ∷ s) = starts_with_text p (b ∷ s) || contains_text p s

-- `split_once` at a text.
unfoldable pub split_once_text : Text → Text → Option (Text × Text)
unfolding strip_prefix
split_once_text mark [] = elim (strip_prefix mark []) [ none ↦ none | some rest ↦ some ([], rest) ]
split_once_text mark (b ∷ s) = elim (strip_prefix mark (b ∷ s)) [
  | some rest ↦ some ([], rest)
  | none ↦ elim (split_once_text mark s) [ none ↦ none | some (head, tail) ↦ some (b ∷ head, tail) ]
]

-- Whether the text holds a character that `char::is_whitespace` tells.
unfoldable pub has_space : Text → Bool
has_space [] = false
has_space (a ∷ []) = blank1 a
has_space (a ∷ b ∷ []) = blank1 a || (blank2 a b || has_space (b ∷ []))
has_space (a ∷ b ∷ c ∷ s) = blank1 a || (blank2 a b || (blank3 a b c || has_space (b ∷ c ∷ s)))

-- Whether it holds one that `char::is_control` tells: U+0000 to U+001F and U+007F to U+009F.
unfoldable pub has_control : Text → Bool
has_control [] = false
has_control (a ∷ []) = ltb a 0x20 || a == 0x7f
has_control (a ∷ b ∷ s) =
    (ltb a 0x20 || a == 0x7f) || ((a == 0xc2 && between 0x80 0x9f b) || has_control (b ∷ s))

abbrev pub is_digit : ℕ → Bool
is_digit b = between b'0' b'9' b

-- The digits' value, if it is `max` at most.
unfoldable pub parse_digits : ℕ → ℕ → Text → Option ℕ
parse_digits max acc [] = some acc
parse_digits max acc (b ∷ s) = do
  guard (is_digit b && leb (acc * 10 + (b - b'0')) max)
  parse_digits max (acc * 10 + (b - b'0')) s

abbrev pub parse_nonempty : ℕ → Text → Option ℕ
parse_nonempty max [] = none
parse_nonempty max (b ∷ s) = parse_digits max 0 (b ∷ s)

-- `parse` to an unsigned integer, which takes a plus sign before the digits.
unfoldable pub parse_unsigned : ℕ → Text → Option ℕ
unfolding parse_digits
parse_unsigned max [] = none
parse_unsigned max (b ∷ s) = if b == b'+' then parse_nonempty max s else parse_digits max 0 (b ∷ s)
