-- ===== src/Sql/Trimming.antt =====
-- What `str::trim` and the loop of `split_top_level` of crates/axonyx-core/src/ax_sql.rs do to literals.
use axonyx_runtime.Prelude.{
  ℕ, ◌≡◌, refl, Bool, true, false, not, some, [], ◌∷◌, ◌++◌, all, Bool-cases, inl, inr, and-eq-true,
}
use axonyx_runtime.Sql.Plan.{Text, trim, trim_start, trim_end, is_whitespace}
use axonyx_runtime.Sql.Lists.{strip_bracket}

abbrev pub is_solid : ℕ → Bool
is_solid c = not (is_whitespace c)

-- `trim_end` keeps what stands before a character that is no white space.
pub trim_end-solid :
    (t : Text) (c : ℕ) → is_whitespace c ≡ false → trim_end (t ++ c ∷ []) ≡ t ++ c ∷ []
unfolding trim_end
trim_end-solid [] c h = rw h refl
trim_end-solid (d ∷ []) c h = rw (trim_end-solid [] c h, trim_end) refl
trim_end-solid (d ∷ e ∷ t) c h = rw (trim_end-solid (e ∷ t) c h, trim_end) refl

pub trim-between :
    (a : ℕ) (t : Text) (c : ℕ)
    → is_whitespace a ≡ false
    → is_whitespace c ≡ false
    → trim (a ∷ (t ++ c ∷ [])) ≡ a ∷ (t ++ c ∷ [])
unfolding trim_start
trim-between a t c h k = rw h (trim_end-solid (a ∷ t) c k)

-- No white space at all.
trim_end-all : (t : Text) → all is_solid t ≡ true → trim_end t ≡ t
unfolding trim_end
trim_end-all [] h = refl
trim_end-all (c ∷ t) h =
    let (p, q) = and-eq-true (is_solid c) (all is_solid t) h in go c t p (trim_end-all t q)
  where
    go : (c : ℕ) (t : Text) → is_solid c ≡ true → trim_end t ≡ t → trim_end (c ∷ t) ≡ c ∷ t
    go c [] p e = elim (Bool-cases (is_whitespace c)) [
      | inl space ↦ cc (rw space at p)
      | inr solid ↦ rw (e, trim_end, solid) refl
    ]
    go c (d ∷ t) p e = rw (e, trim_end) refl

pub trim-all : (t : Text) → all is_solid t ≡ true → trim t ≡ t
unfolding trim_start
trim-all [] h = unfold trim_end in refl
trim-all (c ∷ t) h = elim (Bool-cases (is_whitespace c)) [
  | inl space ↦ cc (rw space at (and-eq-true (is_solid c) (all is_solid t) h).0)
  | inr solid ↦ rw solid (trim_end-all (c ∷ t) h)
]

-- A leading blank is dropped.
pub trim_blank : (t : Text) → trim (b' ' ∷ t) ≡ trim t
unfolding trim_start
trim_blank t = refl

-- What starts with a character that is no white space does not trim to nothing.
pub trim_nonempty :
    (c : ℕ) (t : Text) → is_whitespace c ≡ false → (d : ℕ) × (r : Text) × (trim (c ∷ t) ≡ d ∷ r)
unfolding trim_start trim_end
trim_nonempty c t h = rw h (go (trim_end t) refl)
  where
    go : (r : Text) → trim_end t ≡ r → (d : ℕ) × (s : Text) × (trim_end (c ∷ t) ≡ d ∷ s)
    go [] e = (c, [], rw (e, trim_end, h) refl)
    go (d ∷ r) e = (c, d ∷ r, rw (e, trim_end) refl)

pub strip_bracket-append : (t : Text) → strip_bracket (t ++ b']' ∷ []) ≡ some t
unfolding strip_bracket
strip_bracket-append [] = refl
strip_bracket-append (c ∷ []) = refl
strip_bracket-append (c ∷ d ∷ t) = rw (strip_bracket-append (d ∷ t)) refl
