-- ===== src/Common/Trimming.antt =====
-- Facts on trimming a text by a test.
use sdd_hoffy.Common.{ℕ, ◌≤◌, ◌≡◌, refl, [], ◌∷◌, Bool, false, nat_eq, arith, All, length}
use sdd_hoffy.Common.Text.{Text, is_empty, trim_left, trim_right}

module _ (p : ℕ → Bool) where
  -- Where no character passes the test, nothing is trimmed.
  pub trim_left_none : (s : Text) → All (λ c. p c ≡ false) s → trim_left p s ≡ s
  unfolding trim_left
  trim_left_none [] h = refl
  trim_left_none (c ∷ s) h = rw h.0

  pub trim_right_none : (s : Text) → All (λ c. p c ≡ false) s → trim_right p s ≡ s
  unfolding trim_right
  trim_right_none [] h = refl
  trim_right_none (c ∷ []) h = rw h.0
  trim_right_none (c ∷ d ∷ s) h = rw (trim_right_none (d ∷ s) h.1, trim_right)

  pub length-trim_right-le : (s : Text) → length (trim_right p s) ≤ length s
  unfolding trim_right
  length-trim_right-le [] = omega arith
  length-trim_right-le (c ∷ s) = ground (arith, length-trim_right-le s)

  pub trim_right-nonempty :
      (c : ℕ) (s : Text) → p c ≡ false → is_empty (trim_right p (c ∷ s)) ≡ false
  unfolding trim_right
  trim_right-nonempty c s h = ground arith
