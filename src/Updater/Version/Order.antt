-- ===== src/Updater/Version/Order.antt =====
-- internal/updater/updater.go: `isNewer` as an order on all texts.
use mathlib.Core.Bool.{false≢true}
use sdd_hoffy.Common.{
  ℕ, zero, suc, ◌≡◌, refl, sym, ◌∙◌, List, [], ◌∷◌, true, false, text_eq, arith, Bool-cases, inl,
  inr,
}
use sdd_hoffy.Common.Text.{Text, split}
use sdd_hoffy.Updater.Version.{pad, newer_parts, is_newer}

newer_parts_irrefl : (n : ℕ) (s : List Text) → newer_parts n s s ≡ false
unfolding newer_parts
newer_parts_irrefl zero s = refl
newer_parts_irrefl (suc n) [] = refl
newer_parts_irrefl (suc n) (x ∷ s) = ground (arith, newer_parts_irrefl n s)

newer_parts_trans :
    (n : ℕ) (s t u : List Text)
    → newer_parts n s t ≡ true
    → newer_parts n t u ≡ true
    → newer_parts n s u ≡ true
unfolding newer_parts
newer_parts_trans zero s t u h k = cc
newer_parts_trans (suc n) [] t u h k = cc
newer_parts_trans (suc n) (x ∷ s) [] u h k = cc
newer_parts_trans (suc n) (x ∷ s) (y ∷ t) [] h k = cc
newer_parts_trans (suc n) (x ∷ s) (y ∷ t) (z ∷ u) h k = ground (arith, newer_parts_trans n s t u)

is_newer_irrefl : (s : Text) → is_newer s s ≡ false
unfolding is_newer
is_newer_irrefl s = ground (arith, newer_parts_irrefl 3 (pad 3 (split b'.' s)))

is_newer_trans : (s t u : Text) → is_newer s t ≡ true → is_newer t u ≡ true → is_newer s u ≡ true
unfolding is_newer
is_newer_trans s t u h k = ground (
  arith,
  newer_parts_trans 3 (pad 3 (split b'.' s)) (pad 3 (split b'.' t)) (pad 3 (split b'.' u)),
)

-- `isNewer` is a strict order on all texts, whatever they hold: if t is newer than s and u is newer than
-- t, then u is newer than s and s is not newer than u.
is_newer-order :
    (s t u : Text)
    → is_newer s t ≡ true
    → is_newer t u ≡ true
    → (is_newer s u ≡ true) × (is_newer u s ≡ false)
is_newer-order s t u h k =
    let forth = is_newer_trans s t u h k in
    (
      forth,
      elim (Bool-cases (is_newer u s)) [
        | inl back ↦ absurd (false≢true (sym (is_newer_irrefl s) ∙ is_newer_trans s u s forth back))
        | inr none_back ↦ none_back
      ],
    )
