-- ===== src/Validation.antt =====
-- The registration predicate `email`, and `escape` of `html_error_response`, of
-- crates/axonyx-runtime/src/validation.rs.
pub mod Email
pub mod Escape
mod Tests
use axonyx_runtime.Prelude.{
  ℕ, suc, ◌+◌, Bool, true, false, not, ◌&&◌, ◌||◌, Option, none, some, List, [], ◌∷◌, ◌++◌, ltb,
  leb, ◌==◌, if◌then◌else◌, length, all,
}
use axonyx_runtime.Prelude.Bytes.{ascii}

abbrev pub at_sign : ℕ
at_sign = b'@'

abbrev pub period : ℕ
period = b'.'

-- `is_ascii_alphanumeric`
abbrev pub is_alphanumeric : ℕ → Bool
is_alphanumeric b =
    (leb b'0' b && leb b b'9') || ((leb b'A' b && leb b b'Z') || (leb b'a' b && leb b b'z'))

abbrev pub has_byte : List ℕ → ℕ → Bool
has_byte [] b = false
has_byte (c ∷ cs) b = c == b || has_byte cs b

-- `split_once('@')`
unfoldable pub split_once : ℕ → List ℕ → Option (List ℕ × List ℕ)
split_once mark [] = none
split_once mark (b ∷ bs) =
    let rest = split_once mark bs in
    if b == mark
    then some ([], bs)
    else elim rest [ none ↦ none | some (before, after) ↦ some (b ∷ before, after) ]

abbrev pub starts_with : ℕ → List ℕ → Bool
starts_with c [] = false
starts_with c (b ∷ bs) = b == c

abbrev pub ends_with : ℕ → List ℕ → Bool
ends_with c [] = false
ends_with c (b ∷ []) = b == c
ends_with c (b ∷ b' ∷ bs) = ends_with c (b' ∷ bs)

-- `contains("..")`
abbrev pub has_dots : List ℕ → Bool
has_dots [] = false
has_dots (b ∷ []) = false
has_dots (b ∷ b' ∷ bs) = (b == period && b' == period) || has_dots (b' ∷ bs)

-- `domain.split('.')`: the first label and the others.
unfoldable pub labels : List ℕ → List ℕ × List (List ℕ)
labels [] = ([], [])
labels (b ∷ bs) =
    let (label, others) = labels bs in
    if b == period then ([], label ∷ others) else (b ∷ label, others)

abbrev pub is_local_byte : ℕ → Bool
is_local_byte b = is_alphanumeric b || has_byte (ascii ".!#$%&'*+-/=?^_`{|}~") b

abbrev pub is_label_byte : ℕ → Bool
is_label_byte b = is_alphanumeric b || b == b'-'

abbrev pub is_local : List ℕ → Bool
is_local local =
    not (length local == 0)
    && leb (length local) 64
    && not (starts_with period local)
    && not (ends_with period local)
    && not (has_dots local)
    && all is_local_byte local

abbrev pub is_label : List ℕ → Bool
is_label label =
    not (length label == 0)
    && leb (length label) 63
    && not (starts_with b'-' label)
    && not (ends_with b'-' label)
    && all is_label_byte label

abbrev pub is_domain : List ℕ → Bool
is_domain domain =
    has_byte domain period
    && (let (label, others) = labels domain in is_label label && all is_label others)

abbrev pub is_parts : Option (List ℕ × List ℕ) → Bool
is_parts none = false
is_parts (some (local, domain)) = is_local local && is_domain domain

unfoldable pub email : List ℕ → Bool
unfolding split_once labels
email value =
    if not (all (λ b. ltb b 128) value) || ltb 254 (length value)
    then false
    else is_parts (split_once at_sign value)

-- `value.replace(from, to)` for one byte.
unfoldable pub replace : ℕ → List ℕ → List ℕ → List ℕ
replace from to [] = []
replace from to (b ∷ bs) =
    let rest = replace from to bs in if b == from then to ++ rest else b ∷ rest

unfoldable pub escape : List ℕ → List ℕ
unfolding replace
escape value = replace b'\'' (ascii "&#39;") (
    replace b'"' (ascii "&quot;") (
      replace b'>' (ascii "&gt;")
        (replace b'<' (ascii "&lt;") (replace b'&' (ascii "&amp;") value))))
