-- ===== src/Pipeline/Clarity.antt =====
-- internal/pipeline/clarity.go and the scoring of internal/tools/clarify.go: dimensions with weights,
-- the overall score, and reading the scores of a round of answers. Scores and weights are never
-- negative: the weights are constants, and the reader of scores clamps them. White space is that of
-- ASCII.
use sdd_hoffy.Common.{
  String, ℕ, zero, suc, ◌+◌, ◌-◌, ◌*◌, ◌/◌, ◌≤◌, List, [], ◌∷◌, ◌++◌, Option, none, some, Bool,
  true, false, not, ◌&&◌, ◌||◌, ◌==◌, nat_eq, text_eq, ltb, leb, keep, if◌then◌else◌,
}
use sdd_hoffy.Common.Text.{Text, codes, is_space, is_empty, trim_space, split}
pub mod Bounds

pub record ClarityDimension : Type 0 where
  pub name : Text
  pub description : String
  pub weight : ℕ
  pub covered : Bool
  pub score : ℕ

abbrev dimension : String → String → ℕ → ClarityDimension
dimension name description weight = record {
  name = codes name;
  description = description;
  weight = weight;
  covered = false;
  score = 0;
}

abbrev pub default_dimensions : List ClarityDimension
default_dimensions =
    dimension "target_users" "Who are the target users? Are personas clearly defined?" 8
    ∷ dimension "core_functionality" "What does the system DO? Are the main features unambiguous?"
        10
    ∷ dimension "data_model"
        "What data does the system manage? Are entities and relationships clear?" 7
    ∷ dimension "integrations"
        "What external systems does it interact with? Are APIs/protocols defined?" 6
    ∷ dimension "edge_cases" "Are error scenarios and edge cases addressed?" 8
    ∷ dimension "security"
        "Are authentication, authorization, and data protection requirements clear?" 7
    ∷ dimension "scale_performance" "Are performance expectations and scale requirements defined?" 5
    ∷ dimension "scope_boundaries"
        "Is it clear what the system does NOT do? Are boundaries explicit?" 9
    ∷ []

-- The loop of `CalculateScore`, with its two accumulators.
unfoldable pub weigh : ℕ → ℕ → List ClarityDimension → ℕ
weigh total_weight weighted_sum [] = if total_weight == 0 then 0 else weighted_sum / total_weight
weigh total_weight weighted_sum (d ∷ ds) =
    weigh (total_weight + d.weight) (weighted_sum + d.score * d.weight) ds

unfoldable pub calculate_score : List ClarityDimension → ℕ
unfolding weigh
calculate_score dimensions = weigh 0 0 dimensions

unfoldable pub uncovered_dimensions : List ClarityDimension → List ClarityDimension
uncovered_dimensions dimensions = keep (λ d. not d.covered) dimensions

-- `strings.SplitN(s, ":", 2)`, with `none` where it has one part
unfoldable pub split_at : ℕ → Text → Option (Text × Text)
split_at sep [] = none
split_at sep (c ∷ s) = elim (split_at sep s) [
  | none ↦ if c == sep then some ([], s) else none
  | some (a, b) ↦ if c == sep then some ([], s) else some (c ∷ a, b)
]

-- `fmt.Sscanf(s, "%d", &score)`: spaces, a sign, the longest run of digits; what follows is left. A
-- newline before the number is an error.
unfoldable pub skip_spaces : Text → Option Text
skip_spaces [] = some []
skip_spaces (c ∷ s) =
    let rest = skip_spaces s in
    if c == b'\n' then none else if is_space c then rest else some (c ∷ s)

is_digit : ℕ → Bool
is_digit c = leb 48 c && leb c 57

unfoldable pub read_digits : Bool → ℕ → Text → Option ℕ
unfolding is_digit
read_digits any acc [] = if any then some acc else none
read_digits any acc (c ∷ s) =
    let rest = read_digits true (acc * 10 + (c - 48)) s in
    if is_digit c then rest else if any then some acc else none

-- A value outside int64 is an error; the clamp to 0..100 follows the read.
abbrev clamped : Option ℕ → Option ℕ
clamped none = none
clamped (some n) = if ltb 9223372036854775807 n then none else some (if ltb 100 n then 100 else n)

abbrev clamped_negative : Option ℕ → Option ℕ
clamped_negative none = none
clamped_negative (some n) = if ltb 9223372036854775808 n then none else some 0

abbrev read_signed : Text → Option ℕ
read_signed [] = none
read_signed (c ∷ s) =
    if c == b'-'
    then clamped_negative (read_digits false 0 s)
    else clamped (read_digits false 0 (if c == b'+' then s else c ∷ s))

unfoldable pub read_score : Text → Option ℕ
unfolding skip_spaces read_digits
read_score s = elim (skip_spaces s) [ none ↦ none | some number ↦ read_signed number ]

abbrev pub ScoreMap : Type 0
ScoreMap = List (Text × ℕ)

-- The newest entry of a name stands first, so the last write wins.
unfoldable pub score_of : Text → ScoreMap → Option ℕ
score_of name [] = none
score_of name ((n, score) ∷ m) = if n == name then some score else score_of name m

abbrev add_score : Text → Option ℕ → ScoreMap → ScoreMap
add_score name none m = m
add_score name (some score) m = (name, score) ∷ m

abbrev add_pair : Option (Text × Text) → ScoreMap → ScoreMap
add_pair none m = m
add_pair (some (name, value)) m = add_score (trim_space name) (read_score value) m

unfoldable pub read_pairs : List Text → ScoreMap → ScoreMap
unfolding split_at read_score trim_space
read_pairs [] m = m
read_pairs (pair ∷ pairs) m = read_pairs pairs (add_pair (split_at b':' (trim_space pair)) m)

abbrev with_score : Option ℕ → ClarityDimension → ClarityDimension
with_score none d = d
with_score (some score) d = record d { score = score; covered = ltb 30 score }

unfoldable pub apply_scores : ScoreMap → List ClarityDimension → List ClarityDimension
unfolding score_of
apply_scores m [] = []
apply_scores m (d ∷ ds) = with_score (score_of d.name m) d ∷ apply_scores m ds

unfoldable pub parse_dimension_scores : Text → List ClarityDimension → List ClarityDimension
unfolding split read_pairs apply_scores
parse_dimension_scores input dimensions = apply_scores (read_pairs (split b',' input) []) dimensions

-- The score of a round of answers, as `processAnswers` computes it.
unfoldable pub round_score : Text → ℕ
unfolding parse_dimension_scores calculate_score
round_score dimension_scores = calculate_score (
    if is_empty dimension_scores
    then default_dimensions
    else parse_dimension_scores dimension_scores default_dimensions)
