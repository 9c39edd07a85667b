-- ===== src/Http/Splits.antt =====
-- How a text of crates/axonyx-runtime/src/server.rs splits at a mark.
use axonyx_runtime.Prelude.{
  ℕ, ◌≡◌, refl, ap, inl, inr, false, some, List, [], ◌∷◌, ◌++◌, ◌==◌, All, Bool-cases, ==_refl,
}
use axonyx_runtime.Validation.{split_once}
use axonyx_runtime.Http.Text.{Text, pieces, split}

-- The mark is not in the text.
abbrev pub Avoids : ℕ → Text → Type 0
Avoids mark = All (λ b. (b == mark) ≡ false)

extend_first : ℕ → List Text → List Text
extend_first b [] = []
extend_first b (s ∷ ss) = (b ∷ s) ∷ ss

pub split-Avoids :
    (mark : ℕ) (s t : Text) → Avoids mark s → pieces mark (s ++ mark ∷ t) ≡ s ∷ pieces mark t
unfolding split extend_first
split-Avoids mark [] t h = rw (==_refl mark) refl
split-Avoids mark (b ∷ s) t (p, h) = rw p (ap (extend_first b) (split-Avoids mark s t h))

pub split_last : (mark : ℕ) (s : Text) → Avoids mark s → pieces mark s ≡ s ∷ []
unfolding split extend_first
split_last mark [] h = refl
split_last mark (b ∷ s) (p, h) = rw p (ap (extend_first b) (split_last mark s h))

pub split_once-Avoids :
    (mark : ℕ) (s t : Text) → Avoids mark s → split_once mark (s ++ mark ∷ t) ≡ some (s, t)
unfolding split_once
split_once-Avoids mark [] t h = rw (==_refl mark) refl
split_once-Avoids mark (b ∷ s) t (p, h) = rw (p, split_once-Avoids mark s t h) refl

-- The pieces hold what the text holds, and no mark.
pub split-All {κ} :
    (P : ℕ → Type κ) (mark : ℕ) (s : Text) → All P s → All (λ t. All P t) (pieces mark s)
unfolding split
split-All P mark [] h = (tt, tt)
split-All P mark (b ∷ s) (p, h) = elim (Bool-cases (b == mark)) [
  | inl here ↦ rw here (tt, split-All P mark s h)
  | inr other ↦ rw other ((p, (split-All P mark s h).0), (split-All P mark s h).1)
]

pub split-Splits : (mark : ℕ) (s : Text) → All (Avoids mark) (pieces mark s)
unfolding split
split-Splits mark [] = (tt, tt)
split-Splits mark (b ∷ s) = elim (Bool-cases (b == mark)) [
  | inl here ↦ rw here (tt, split-Splits mark s)
  | inr other ↦ rw other ((other, (split-Splits mark s).0), (split-Splits mark s).1)
]
