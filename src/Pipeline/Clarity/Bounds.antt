-- ===== src/Pipeline/Clarity/Bounds.antt =====
-- internal/pipeline/clarity.go, internal/tools/clarify.go: the range of the scores.
use native.Mathlib.Nat.{le-div_iff_mul-le, div-le_of_le-mul}
use mathlib.Core.Path.{ap₂}
use sdd_hoffy.Common.{
  ℕ, ◌+◌, ◌*◌, ◌/◌, ◌≤◌, ◌<◌, ◌≡◌, refl, List, [], ◌∷◌, Option, none, some, false, ◌==◌, nat_eq,
  text_eq, ltb, if◌then◌else◌, arith, All, Bool-cases, inl, inr,
}
use sdd_hoffy.Common.Text.{split, Text, trim_space}
use sdd_hoffy.Pipeline.Clarity.{
  ClarityDimension, default_dimensions, weigh, calculate_score, read_digits, clamped,
  clamped_negative, read_signed, skip_spaces, read_score, ScoreMap, score_of, add_score, add_pair,
  read_pairs, with_score, apply_scores, round_score, split_at,
}

abbrev pub total_weight : List ClarityDimension → ℕ
total_weight [] = 0
total_weight (d ∷ ds) = d.weight + total_weight ds

abbrev pub Between : ℕ → ℕ → List ClarityDimension → Type 0
Between lo hi = All (λ d. (lo ≤ d.score) × (d.score ≤ hi))

mean_between :
    (lo hi weight sum : ℕ)
    → 0 < weight
    → lo * weight ≤ sum
    → sum ≤ hi * weight
    → (lo ≤ sum / weight) × (sum / weight ≤ hi)
mean_between lo hi weight sum pos low high =
    ((le-div_iff_mul-le pos).1 low, div-le_of_le-mul weight (grind arith))

weigh-Between :
    (lo hi weight sum : ℕ) (ds : List ClarityDimension)
    → Between lo hi ds
    → lo * weight ≤ sum
    → sum ≤ hi * weight
    → 0 < weight + total_weight ds
    → (lo ≤ weigh weight sum ds) × (weigh weight sum ds ≤ hi)
unfolding weigh
weigh-Between lo hi weight sum [] b low high pos = ground (arith, mean_between lo hi weight sum)
weigh-Between lo hi weight sum (d ∷ ds) b low high pos =
    weigh-Between lo hi (weight + d.weight) (sum + d.score * d.weight) ds b.1 (grind arith)
      (grind arith) (omega arith)

-- The overall score is a weighted mean: if every dimension scores between `lo` and `hi` and some
-- weight is positive, so does the whole; equal scores give that score.
calculate_score-Between :
    (lo hi : ℕ) (ds : List ClarityDimension)
    → Between lo hi ds
    → 0 < total_weight ds
    → (lo ≤ calculate_score ds) × (calculate_score ds ≤ hi)
unfolding calculate_score
calculate_score-Between lo hi ds b pos =
    weigh-Between lo hi 0 0 ds b (omega arith) (omega arith) (omega arith)

abbrev AtMost : Option ℕ → Type 0
AtMost none = Unit
AtMost (some n) = n ≤ 100

clamped-AtMost : (o : Option ℕ) → AtMost (clamped o)
clamped-AtMost none = tt
clamped-AtMost (some n) = elim (Bool-cases (ltb 9223372036854775807 n)) [
  | inl big ↦ rw big tt
  | inr fits ↦ rw fits (ground arith)
]

clamped_negative-AtMost : (o : Option ℕ) → AtMost (clamped_negative o)
clamped_negative-AtMost none = tt
clamped_negative-AtMost (some n) = elim (Bool-cases (ltb 9223372036854775808 n)) [
  | inl big ↦ rw big tt
  | inr fits ↦ rw fits (omega arith)
]

read_signed-AtMost : (s : Text) → AtMost (read_signed s)
read_signed-AtMost [] = tt
read_signed-AtMost (c ∷ s) = elim (Bool-cases (c == b'-')) [
  | inl minus ↦ rw minus (clamped_negative-AtMost (read_digits false 0 s))
  | inr other ↦ rw other (clamped-AtMost (read_digits false 0 (if c == b'+' then s else c ∷ s)))
]

read_score-AtMost : (s : Text) → AtMost (read_score s)
unfolding read_score
read_score-AtMost s =
    elim (skip_spaces s)
      as (λ o. AtMost (elim o [ none ↦ none | some number ↦ read_signed number ])) [
        | none ↦ tt
        | some number ↦ read_signed-AtMost number
      ]

abbrev AllAtMost : ScoreMap → Type 0
AllAtMost = All (λ p. p.1 ≤ 100)

add_score-AtMost :
    (name : Text) (o : Option ℕ) (m : ScoreMap)
    → AtMost o
    → AllAtMost m
    → AllAtMost (add_score name o m)
add_score-AtMost name none m h a = a
add_score-AtMost name (some n) m h a = (h, a)

read_pairs-AtMost :
    (pairs : List Text) (m : ScoreMap) → AllAtMost m → AllAtMost (read_pairs pairs m)
unfolding read_pairs
read_pairs-AtMost [] m a = a
read_pairs-AtMost (pair ∷ pairs) m a =
    read_pairs-AtMost pairs (add_pair (split_at b':' (trim_space pair)) m)
      (added (split_at b':' (trim_space pair)))
  where
    added : (o : Option (Text × Text)) → AllAtMost (add_pair o m)
    added none = a
    added (some (name, value)) =
        add_score-AtMost (trim_space name) (read_score value) m (read_score-AtMost value) a

score_of-AtMost : (name : Text) (m : ScoreMap) → AllAtMost m → AtMost (score_of name m)
unfolding score_of
score_of-AtMost name [] a = tt
score_of-AtMost name ((n, score) ∷ m) a = elim (Bool-cases (n == name)) [
  | inl same ↦ rw same a.0
  | inr other ↦ rw other (score_of-AtMost name m a.1)
]

with_score-AtMost :
    (o : Option ℕ) (d : ClarityDimension) → AtMost o → d.score ≤ 100 → (with_score o d).score ≤ 100
with_score-AtMost none d h b = b
with_score-AtMost (some n) d h b = h

apply_scores-Between :
    (m : ScoreMap) (ds : List ClarityDimension)
    → AllAtMost m
    → Between 0 100 ds
    → Between 0 100 (apply_scores m ds)
unfolding apply_scores
apply_scores-Between m [] a b = tt
apply_scores-Between m (d ∷ ds) a b = (
  (omega arith, with_score-AtMost (score_of d.name m) d (score_of-AtMost d.name m a) b.0.1),
  apply_scores-Between m ds a b.1,
)

with_score-weight : (o : Option ℕ) (d : ClarityDimension) → (with_score o d).weight ≡ d.weight
with_score-weight none d = refl
with_score-weight (some n) d = refl

total_weight-apply_scores :
    (m : ScoreMap) (ds : List ClarityDimension) → total_weight (apply_scores m ds) ≡ total_weight ds
unfolding apply_scores
total_weight-apply_scores m [] = refl
total_weight-apply_scores m (d ∷ ds) =
    ap₂ ◌+◌ (with_score-weight (score_of d.name m) d) (total_weight-apply_scores m ds)

-- Whatever text a round of answers gives as its scores, the score of the round is at most 100.
round_score-le : (dimension_scores : Text) → round_score dimension_scores ≤ 100
unfolding round_score
round_score-le [] = omega arith
round_score-le (c ∷ s) =
    let m : ScoreMap = read_pairs (split b',' (c ∷ s)) [] in
    (calculate_score-Between 0 100 (apply_scores m default_dimensions)
      (apply_scores-Between m default_dimensions (read_pairs-AtMost (split b',' (c ∷ s)) [] tt)
        (omega arith))
      (rw (total_weight-apply_scores m default_dimensions) (omega arith))).1
