-- ===== src/Bridge/Topics.antt =====
-- internal/tools/bridge.go: the topics of stages.
use sdd_hoffy.Common.{
  String, ℕ, zero, suc, ◌≤◌, ◌≡◌, refl, ap, sym, ◌∙◌, [], ◌∷◌, ◌++◌, true, false, nat_eq, string_eq,
  length, take, keep, map, All-append, arith, Bool-cases, inl, inr,
}
use sdd_hoffy.Common.Text.{Text, codes, is_empty, to_lower, trim_space}
use sdd_hoffy.Memory.Text.{normalize_topic_key}
use sdd_hoffy.Memory.Text.Keys.{Every, in_key, nonempty_key}
use sdd_hoffy.Bridge.{normalize_project, is_project_byte, hyphen_for_space, stage_topic}

keep-segment : (s : Text) → Every in_key (keep is_project_byte s)
keep-segment [] = tt
keep-segment (c ∷ s) = elim (Bool-cases (is_project_byte c)) [
  | inl own ↦ rw own (ground arith, keep-segment s)
  | inr other ↦ rw other (keep-segment s)
]

stage_topic-key :
    (project stage : String) → Every in_key (codes stage) → Every in_key (stage_topic project stage)
unfolding stage_topic normalize_project
stage_topic-key project stage h = (
  refl,
  (
    refl,
    (
      refl,
      (
        refl,
        All-append (λ c. in_key c ≡ true) (normalize_project (codes project))
            (codes "/" ++ codes stage)
            (keep-segment (map hyphen_for_space (to_lower (trim_space (codes project))))) (refl, h),
      ),
    ),
  ),
)

take-append : (n : ℕ) (s t u : Text) → n ≤ length s → take n (s ++ t) ≡ take n (s ++ u)
take-append zero s t u h = refl
take-append (suc n) [] t u h = absurd (omega arith)
take-append (suc n) (c ∷ s) t u h = ap (λ r. c ∷ r) (take-append n s t u (omega arith))

stage_topic_given : (project stage : String) → is_empty (stage_topic project stage) ≡ false
unfolding stage_topic
stage_topic_given project stage = refl

take-stage_topic :
    (project one other : String)
    → 116 ≤ length (normalize_project (codes project))
    → take 120 (stage_topic project one) ≡ take 120 (stage_topic project other)
unfolding stage_topic
take-stage_topic project one other long =
    take-append 120 (codes "sdd/" ++ normalize_project (codes project)) (codes "/" ++ codes one)
      (codes "/" ++ codes other) (omega (arith, long))

-- All stages of a project whose normalized name has 116 characters or more have the same topic key in
-- the memory. The stages have names of lower-case letters, digits, hyphens, underscores and slashes.
pub long_name_shares_topic :
    (project one other : String)
    → 116 ≤ length (normalize_project (codes project))
    → Every in_key (codes one)
    → Every in_key (codes other)
    → normalize_topic_key (stage_topic project one)
      ≡ normalize_topic_key (stage_topic project other)
long_name_shares_topic project one other long h k =
    nonempty_key (stage_topic project one) (stage_topic_given project one)
      (stage_topic-key project one h)
    ∙ take-stage_topic project one other long
    ∙ sym (
        nonempty_key (stage_topic project other) (stage_topic_given project other)
          (stage_topic-key project other k))
