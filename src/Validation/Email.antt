-- ===== src/Validation/Email.antt =====
-- What `email` of crates/axonyx-runtime/src/validation.rs accepts.
use axonyx_runtime.Prelude.{
  ℕ, ◌≤◌, ◌≡◌, ◌≢◌, refl, sym, ap, ◌∙◌, inl, inr, Bool, true, false, not, ◌&&◌, ◌||◌, Option, none,
  some, List, [], ◌∷◌, ◌++◌, ltb, leb, ◌==◌, length, all, All, Bool-cases, Option-cases, if_second,
  and-eq-true, arith, leb→le, ltb→ge, ==_iff, some-pair_inj,
}
use mathlib.Core.Path.{subst}
use axonyx_runtime.Validation.{
  at_sign, period, split_once, labels, is_local_byte, is_label_byte, is_local, is_label, is_domain,
  is_parts, email,
}

-- An ASCII byte, neither white space nor a control byte, nor one of `<`, `>`, `"`, `,`, `;`, `:` and `@`.
abbrev pub is_harmless : ℕ → Bool
is_harmless b =
    (leb 33 b && leb b 126)
    && not (b == b'<')
    && not (b == b'>')
    && not (b == b'"')
    && not (b == b',')
    && not (b == b';')
    && not (b == b':')
    && not (b == at_sign)

harmless_local : (b : ℕ) → is_local_byte b ≡ true → is_harmless b ≡ true
harmless_local b h = ground arith

harmless_label : (b : ℕ) → is_label_byte b ≡ true → is_harmless b ≡ true
harmless_label b h = ground arith

false-true : false ≢ true
false-true e = cc

or-false : (a b : Bool) → (a || b) ≡ false → (a ≡ false) × (b ≡ false)
or-false true b e = cc
or-false false b e = (refl, e)

all-All :
    (f g : ℕ → Bool)
    → ((b : ℕ) → f b ≡ true → g b ≡ true)
    → (bs : List ℕ) → all f bs ≡ true
    → All (λ b. g b ≡ true) bs
all-All f g step [] h = tt
all-All f g step (b ∷ bs) h =
    let (p, q) = and-eq-true (f b) (all f bs) h in (step b p, all-All f g step bs q)

abbrev Harmless : List ℕ → Type 0
Harmless = All (λ b. is_harmless b ≡ true)

label-Harmless : (label : List ℕ) → is_label label ≡ true → Harmless label
label-Harmless label h =
    all-All is_label_byte is_harmless harmless_label label (and-eq-true _ _ h).1

labels-Harmless : (others : List (List ℕ)) → all is_label others ≡ true → All Harmless others
labels-Harmless [] h = tt
labels-Harmless (l ∷ ls) h =
    let (p, q) = and-eq-true (is_label l) (all is_label ls) h in
    (label-Harmless l p, labels-Harmless ls q)

-- A domain is harmless if its labels are.
domain-Harmless :
    (domain : List ℕ)
    → Harmless (labels domain).0
    → All Harmless (labels domain).1
    → Harmless domain
unfolding labels
domain-Harmless [] p q = tt
domain-Harmless (b ∷ bs) p q = elim (Bool-cases (b == period)) [
  | inl dot ↦
      let (first, others) = rw (labels, dot) at q in
      let b_lem : period ≡ b = sym ((==_iff b period).0 dot) in
      (subst (λ c. is_harmless c ≡ true) b_lem refl, domain-Harmless bs first others)
  | inr other ↦
      let (here, first) = rw (labels, other) at p in
      (here, domain-Harmless bs first (rw (labels, other) at q))
]

split_once-eq-some :
    (mark : ℕ) (bs before after : List ℕ)
    → split_once mark bs ≡ some (before, after)
    → bs ≡ before ++ mark ∷ after
unfolding split_once
split_once-eq-some mark [] before after e = cc
split_once-eq-some mark (b ∷ bs) before after e = elim (Bool-cases (b == mark)) [
  | inl same ↦
      let (before_lem, after_lem) = some-pair_inj (rw same at e) in
      rw (← before_lem, ← after_lem, (==_iff b mark).0 same) refl
  | inr other ↦ elim (Option-cases (split_once mark bs)) [
    | inl missing ↦ cc (rw (other, missing) at e)
    | inr (r, found) ↦
        let (before_lem, after_lem) = some-pair_inj (rw (other, found) at e) in
        rw (← before_lem, ← after_lem) (ap (◌∷◌ b) (split_once-eq-some mark bs r.0 r.1 found))
  ]
]

-- An address of at most 254 bytes: a name of 1 to 64 bytes, one `@` and a domain, all of harmless bytes.
pub record IsAddress (value : List ℕ) : Type 0 where
  pub local : List ℕ
  pub domain : List ℕ
  pub parts : value ≡ local ++ at_sign ∷ domain
  pub harmless : Harmless local × Harmless domain
  pub short : length value ≤ 254
  pub named : (length local ≤ 64) × (length local ≢ 0)

not_zero : (n : ℕ) → not (n == 0) ≡ true → n ≢ 0
not_zero n h z = cc (sym (ap (λ m. not (m == 0)) z) ∙ h)

is_parts-IsAddress :
    (value : List ℕ) (o : Option (List ℕ × List ℕ))
    → length value ≤ 254
    → split_once at_sign value ≡ o
    → is_parts o ≡ true
    → IsAddress value
is_parts-IsAddress value none short e h = cc h
is_parts-IsAddress value (some (local, domain)) short e h =
    let (l, d) = and-eq-true (is_local local) (is_domain domain) h in
    let (l₁, bytes) = and-eq-true _ _ l in
    let (l₂, _) = and-eq-true _ _ l₁ in
    let (l₃, _) = and-eq-true _ _ l₂ in
    let (l₄, _) = and-eq-true _ _ l₃ in
    let (nonempty, bound) = and-eq-true _ _ l₄ in
    let (_, ls) = and-eq-true _ _ d in
    let (first, others) = and-eq-true _ _ ls in
    record {
      local = local;
      domain = domain;
      parts = split_once-eq-some at_sign value local domain e;
      harmless = (
        all-All is_local_byte is_harmless harmless_local local bytes,
        domain-Harmless domain (label-Harmless _ first) (labels-Harmless _ others),
      );
      short = short;
      named = (leb→le (length local) 64 bound, not_zero (length local) nonempty);
    }

-- A text that `email` accepts has at most 254 bytes, and is a name of 1 to 64 bytes, an `@` and a domain,
-- neither of which holds a byte outside ASCII, white space, a control byte, `<`, `>`, `"`, `,`, `;`, `:` or another `@`.
pub email-IsAddress : (value : List ℕ) → email value ≡ true → IsAddress value
unfolding email
email-IsAddress value h =
    let (bad, ok) = if_second _ false _ true false-true h in
    let (_, long) = or-false (not (all (λ b. ltb b 128) value)) _ bad in
    is_parts-IsAddress value (split_once at_sign value) (ltb→ge 254 (length value) long) refl ok
