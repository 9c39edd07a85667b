-- ===== src/Validation/Escape.antt =====
-- What `escape` of crates/axonyx-runtime/src/validation.rs leaves in a text.
use axonyx_runtime.Prelude.{
  ℕ, ◌≡◌, refl, inl, inr, Bool, true, not, ◌&&◌, List, [], ◌∷◌, ◌==◌, all, All, All-append,
  Bool-cases, and-eq-true,
}
use axonyx_runtime.Prelude.Bytes.{ascii}
use axonyx_runtime.Validation.{replace, escape}

-- None of the marks.
abbrev lacks : List ℕ → ℕ → Bool
lacks [] b = true
lacks (c ∷ cs) b = not (b == c) && lacks cs b

abbrev Lacks : List ℕ → List ℕ → Type 0
Lacks marks = All (λ b. lacks marks b ≡ true)

-- For a text that is known, the test computes.
all-Lacks : (marks bs : List ℕ) → all (lacks marks) bs ≡ true → Lacks marks bs
all-Lacks marks [] h = tt
all-Lacks marks (b ∷ bs) h =
    let (p, q) = and-eq-true (lacks marks b) (all (lacks marks) bs) h in (p, all-Lacks marks bs q)

-- Replacing a mark by a text without it takes it away.
Lacks-replace :
    (mark : ℕ) (marks to bs : List ℕ)
    → all (lacks (mark ∷ marks)) to ≡ true
    → Lacks marks bs
    → Lacks (mark ∷ marks) (replace mark to bs)
unfolding replace
Lacks-replace mark marks to [] p q = tt
Lacks-replace mark marks to (b ∷ bs) p (q, qs) =
    let rest = Lacks-replace mark marks to bs p qs in
    elim (Bool-cases (b == mark)) [
      | inl same ↦
          rw same (All-append _ to (replace mark to bs) (all-Lacks (mark ∷ marks) to p) rest)
      | inr other ↦ rw other (rw other q, rest)
    ]

Lacks-nil : (bs : List ℕ) → Lacks [] bs
Lacks-nil [] = tt
Lacks-nil (b ∷ bs) = (refl, Lacks-nil bs)

abbrev pub is_text : ℕ → Bool
is_text b = not (b == b'\'') && (not (b == b'"') && (not (b == b'>') && (not (b == b'<') && true)))

-- An escaped text holds no angle bracket and no quotation mark of either kind, whatever the text was, so
-- that it opens no tag and ends no attribute.
pub escape-is_text : (value : List ℕ) → All (λ b. is_text b ≡ true) (escape value)
unfolding escape
escape-is_text value =
    let lt =
      Lacks-replace b'<' [] (ascii "&lt;") _ refl
        (Lacks-nil (replace b'&' (ascii "&amp;") value)) in
    let gt = Lacks-replace b'>' (b'<' ∷ []) (ascii "&gt;") _ refl lt in
    let quot = Lacks-replace b'"' (b'>' ∷ b'<' ∷ []) (ascii "&quot;") _ refl gt in
    Lacks-replace b'\'' (b'"' ∷ b'>' ∷ b'<' ∷ []) (ascii "&#39;") _ refl quot
