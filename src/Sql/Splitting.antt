-- ===== src/Sql/Splitting.antt =====
-- `filter_list_values` of crates/axonyx-core/src/ax_sql.rs on lists of literals that are written out.
use mathlib.Core.Path.{ap₂, subst}
use axonyx_runtime.Prelude.{
  ℕ, ◌≡◌, refl, sym, ap, ◌∙◌, Bool, true, false, not, ◌||◌, some, List, [], ◌∷◌, ◌++◌, map, ◌==◌,
  all, All, and-eq-true, ==_refl, append_assoc, append-nil,
}
use axonyx_runtime.Prelude.Bytes.{ascii}
use axonyx_runtime.Sql.Plan.{Text, RustExpr, join, trim, trim_start, trim_end, is_whitespace}
use axonyx_runtime.Sql.Clauses.{comma_space}
use axonyx_runtime.Sql.Lists.{
  outside, inside, is_quote, is_open, is_close, split_from, split_top_level, list_values,
  filter_list_values,
}
use axonyx_runtime.Sql.Trimming.{
  is_solid, trim-between, trim-all, trim_blank, trim_nonempty, strip_bracket-append,
}

-- One character of a string literal, or a backslash and the character after it.
pub data Piece : Type 0 where
  plain : ℕ → Piece
  escape : ℕ → Piece

-- A string between double or single quotes, or a word such as a number.
pub data Literal : Type 0 where
  double single : List Piece → Literal
  word : ℕ → Text → Literal

unfoldable pub pieces_text : List Piece → Text
pieces_text [] = []
pieces_text (plain c ∷ ps) = c ∷ pieces_text ps
pieces_text (escape c ∷ ps) = b'\\' ∷ c ∷ pieces_text ps

unfoldable pub literal_text : Literal → Text
unfolding pieces_text
literal_text (double ps) = b'"' ∷ (pieces_text ps ++ b'"' ∷ [])
literal_text (single ps) = b'\'' ∷ (pieces_text ps ++ b'\'' ∷ [])
literal_text (word c cs) = c ∷ cs

-- No character of a word has a meaning to the splitting.
abbrev pub is_word_char : ℕ → Bool
is_word_char c = not (is_quote c || (is_open c || (is_close c || (c == b',' || is_whitespace c))))

abbrev pub fits : ℕ → Piece → Bool
fits quote (plain c) = not (c == quote || c == b'\\')
fits quote (escape c) = true

unfoldable pub is_literal : Literal → Bool
is_literal (double ps) = all (fits b'"') ps
is_literal (single ps) = all (fits b'\'') ps
is_literal (word c cs) = all is_word_char (c ∷ cs)

-- `text` before what comes of the rest.
abbrev prepend : Text → Text × List Text → Text × List Text
prepend text r = (text ++ r.0, r.1)

not-or : (a b : Bool) → not (a || b) ≡ true → (a ≡ false) × (b ≡ false)
not-or true b e = cc
not-or false true e = cc
not-or false false e = (refl, refl)

split_inside :
    (quote : ℕ) (ps : List Piece) (rest : Text)
    → (quote == b'\\') ≡ false
    → all (fits quote) ps ≡ true
    → split_from b',' (inside 0 quote false) (pieces_text ps ++ quote ∷ rest)
      ≡ prepend (pieces_text ps ++ quote ∷ []) (split_from b',' (outside 0) rest)
unfolding split_from pieces_text
split_inside quote [] rest q h = rw (q, ==_refl quote) refl
split_inside quote (escape c ∷ ps) rest q h =
    ap (prepend (b'\\' ∷ c ∷ [])) (split_inside quote ps rest q h)
split_inside quote (plain c ∷ ps) rest q h =
    let (p, h') = and-eq-true (fits quote (plain c)) (all (fits quote) ps) h in
    let (other, slash) = not-or (c == quote) (c == b'\\') p in
    rw (slash, other) (ap (prepend (c ∷ [])) (split_inside quote ps rest q h'))

word_char_parts :
    (c : ℕ)
    → is_word_char c ≡ true
    → ((is_quote c ≡ false) × (is_open c ≡ false) × (is_close c ≡ false))
      × (((c == b',') ≡ false) × (is_whitespace c ≡ false))
word_char_parts c h =
    let (quote, h1) = not-or (is_quote c) _ h in
    let (opens, h2) =
      not-or (is_open c) (is_close c || (c == b',' || is_whitespace c)) (rw quote at h) in
    let (closes, h3) =
      not-or (is_close c) (c == b',' || is_whitespace c) (rw (quote, opens) at h) in
    ((quote, opens, closes), not-or (c == b',') (is_whitespace c) (rw (quote, opens, closes) at h))

split_word_char :
    (c : ℕ) (rest : Text)
    → is_word_char c ≡ true
    → split_from b',' (outside 0) (c ∷ rest) ≡ prepend (c ∷ []) (split_from b',' (outside 0) rest)
unfolding split_from
split_word_char c rest h =
    let ((quote, opens, closes), (comma, space)) = word_char_parts c h in
    rw (quote, opens, closes, comma) refl

split_word :
    (cs rest : Text)
    → all is_word_char cs ≡ true
    → split_from b',' (outside 0) (cs ++ rest) ≡ prepend cs (split_from b',' (outside 0) rest)
split_word [] rest h = refl
split_word (c ∷ cs) rest h =
    let (p, h') = and-eq-true (is_word_char c) (all is_word_char cs) h in
    split_word_char c (cs ++ rest) p ∙ ap (prepend (c ∷ [])) (split_word cs rest h')

split_literal :
    (l : Literal) (rest : Text)
    → is_literal l ≡ true
    → split_from b',' (outside 0) (literal_text l ++ rest)
      ≡ prepend (literal_text l) (split_from b',' (outside 0) rest)
unfolding literal_text is_literal split_from
split_literal (double ps) rest h =
    rw (append_assoc (pieces_text ps) (b'"' ∷ []) rest)
      (ap (prepend (b'"' ∷ [])) (split_inside b'"' ps rest refl h))
split_literal (single ps) rest h =
    rw (append_assoc (pieces_text ps) (b'\'' ∷ []) rest)
      (ap (prepend (b'\'' ∷ [])) (split_inside b'\'' ps rest refl h))
split_literal (word c cs) rest h = split_word (c ∷ cs) rest h

spaced : Literal → Text
spaced l = b' ' ∷ literal_text l

split_joined :
    (l : Literal) (ls : List Literal)
    → All (λ k. is_literal k ≡ true) (l ∷ ls)
    → split_from b',' (outside 0) (join comma_space (map literal_text (l ∷ ls)))
      ≡ (literal_text l, map spaced ls)
unfolding join spaced split_from
split_joined l [] (h, t) =
    subst (λ t. split_from b',' (outside 0) t ≡ (t, [])) (append-nil (literal_text l))
      (split_literal l [] h)
split_joined l (m ∷ ms) (h, t) =
    split_literal l (comma_space ++ join comma_space (map literal_text (m ∷ ms))) h
    ∙ ap₂ (λ w r. (w, (b' ' ∷ r.0) ∷ r.1)) (append-nil (literal_text l)) (split_joined m ms t)

trim_literal : (l : Literal) → is_literal l ≡ true → trim (literal_text l) ≡ literal_text l
unfolding literal_text is_literal
trim_literal (double ps) h = trim-between b'"' (pieces_text ps) b'"' refl refl
trim_literal (single ps) h = trim-between b'\'' (pieces_text ps) b'\'' refl refl
trim_literal (word c cs) h = trim-all (c ∷ cs) (solid (c ∷ cs) h)
  where
    solid : (t : Text) → all is_word_char t ≡ true → all is_solid t ≡ true
    solid [] h = refl
    solid (c ∷ t) h =
        let (p, h') = and-eq-true (is_word_char c) (all is_word_char t) h in
        rw ((word_char_parts c p).1.1) (solid t h')

first_char :
    (l : Literal)
    → is_literal l ≡ true
    → (c : ℕ) × (cs : Text) × (literal_text l ≡ c ∷ cs) × (is_whitespace c ≡ false)
unfolding literal_text is_literal
first_char (double ps) h = (b'"', pieces_text ps ++ b'"' ∷ [], refl, refl)
first_char (single ps) h = (b'\'', pieces_text ps ++ b'\'' ∷ [], refl, refl)
first_char (word c cs) h =
    let (p, h') = and-eq-true (is_word_char c) (all is_word_char cs) h in
    (c, cs, refl, (word_char_parts c p).1.1)

abbrev pub expr : Literal → RustExpr
expr l = record { code = literal_text l }

abbrev trimmed_expr : Text → RustExpr
trimmed_expr value = record { code = trim value }

-- Each piece is trimmed by the splitting, and once more.
trim-expr : (l : Literal) → is_literal l ≡ true → trimmed_expr (trim (literal_text l)) ≡ expr l
trim-expr l h =
    ap (λ (t : Text). trimmed_expr t) (trim_literal l h)
    ∙ ap (λ (t : Text). let e : RustExpr = record { code = t } in e) (trim_literal l h)

trim_pieces :
    (ls : List Literal)
    → All (λ k. is_literal k ≡ true) ls
    → map trimmed_expr (map trim (map spaced ls)) ≡ map expr ls
trim_pieces [] h = refl
trim_pieces (l ∷ ls) (h, t) =
    ap₂ ◌∷◌ (unfold spaced in ap trimmed_expr (trim_blank (literal_text l)) ∙ trim-expr l h)
      (trim_pieces ls t)

list_values-join :
    (l : Literal) (ls : List Literal) (d : ℕ) (r : Text)
    → All (λ k. is_literal k ≡ true) (l ∷ ls)
    → list_values (join comma_space (map literal_text (l ∷ ls))) (d ∷ r) ≡ map expr (l ∷ ls)
unfolding split_top_level
list_values-join l ls d r (h, t) =
    rw (split_joined l ls (h, t)) (ap₂ ◌∷◌ (trim-expr l h) (trim_pieces ls t))

join-head : (t : Text) (ts : List Text) → (rest : Text) × (join comma_space (t ∷ ts) ≡ t ++ rest)
unfolding join
join-head t [] = ([], sym (append-nil t))
join-head t (u ∷ ts) = (comma_space ++ join comma_space (u ∷ ts), refl)

unfoldable pub joined : List Literal → Text
unfolding literal_text join
joined ls = join comma_space (map literal_text ls)

joined_values :
    (ls : List Literal)
    → All (λ k. is_literal k ≡ true) ls
    → list_values (joined ls) (trim (joined ls)) ≡ map expr ls
unfolding joined
joined_values [] h = unfold join trim_start trim_end in refl
joined_values (l ∷ ls) h =
    let (d, r, e) = joined_solid l ls h.0 in rw e (list_values-join l ls d r h)
  where
    joined_solid :
        (l : Literal) (ls : List Literal)
        → is_literal l ≡ true
        → (d : ℕ) × (r : Text) × (trim (join comma_space (map literal_text (l ∷ ls))) ≡ d ∷ r)
    joined_solid l ls h =
        let (c, cs, e, solid) = first_char l h in
        let (rest, e') = join-head (literal_text l) (map literal_text ls) in
        let (d, r, kept) = trim_nonempty c (cs ++ rest) solid in
        (d, r, ap trim (e' ∙ ap (λ t. t ++ rest) e) ∙ kept)

-- A list of literals, written with `[` or with `vec![` and `, ` between the literals, is read back
-- literal by literal, whatever brackets, commas, quotes and escapes its strings hold: a string's
-- characters are neither its own quote nor a backslash, unless a backslash stands before them, and
-- a word is made of characters that are no quote, bracket, comma or white space.
pub filter_list_values-join :
    (ls : List Literal)
    → All (λ l. is_literal l ≡ true) ls
    → (filter_list_values (record { code = b'[' ∷ (joined ls ++ b']' ∷ []) }) ≡ some (map expr ls))
      × (filter_list_values (record { code = ascii "vec![" ++ (joined ls ++ b']' ∷ []) })
          ≡ some (map expr ls))
unfolding filter_list_values
filter_list_values-join ls h = (
  rw (trim-between b'[' (joined ls) b']' refl refl, strip_bracket-append (joined ls))
      (ap some (joined_values ls h)),
  rw
      (
        trim-between b'v' (ascii "ec![" ++ joined ls) b']' refl refl,
        strip_bracket-append (joined ls),
      )
      (ap some (joined_values ls h)),
)
