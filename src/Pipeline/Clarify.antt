-- ===== src/Pipeline/Clarify.antt =====
-- internal/tools/clarify.go: the handler of `sdd_clarify`, as far as it changes the project's state.
-- The documents that it renders and writes, and the answer's text, are left out.
use mathlib.Core.Path.{subst}
use sdd_hoffy.Common.{
  String, ◌<◌, ◌≤◌, ◌≡◌, ◌⊎◌, inl, inr, refl, sym, ap, ◌∙◌, false, not, string_eq, leb,
  if◌then◌else◌, arith, leb→le, Bool-cases, ==_iff, some,
}
use sdd_hoffy.Common.Result.{Result, ok, err, ◌>>◌, require}
use sdd_hoffy.Common.Text.{Text, is_empty}
use sdd_hoffy.Pipeline.Config.{ProjectConfig}
use sdd_hoffy.Pipeline.Clarity.{round_score}
use sdd_hoffy.Pipeline.Machine.Progress.{can_advance_at}
use sdd_hoffy.Pipeline.Machine.{
  Error, clarity_threshold, mark_completed, mark_in_progress, advance, require_stage,
}

-- The errors of the handler: those of the pipeline, and an empty requirements.md.
pub data ClarifyError : Type 0 where
  pipeline : Error → ClarifyError
  empty_requirements : ClarifyError

abbrev lift : Result Error ProjectConfig → Result ClarifyError ProjectConfig
lift (ok cfg) = ok cfg
lift (err e) = err (pipeline e)

abbrev lift_unit : Result Error (Unit {0}) → Result ClarifyError (Unit {0})
lift_unit (ok u) = ok u
lift_unit (err e) = err (pipeline e)

-- `processAnswers`: the score is stored, and the pipeline advances if it passes the gate.
unfoldable pub process_answers : String → Text → ProjectConfig → Result ClarifyError ProjectConfig
process_answers now dimension_scores cfg =
    let new_score = round_score dimension_scores in
    let scored = record cfg { clarity_score = new_score } in
    if leb (clarity_threshold cfg.mode) new_score then lift (advance now scored) else ok scored

unfoldable pub handle_clarify :
    String → Text → Text → Text → ProjectConfig → Result ClarifyError ProjectConfig
unfolding require_stage
handle_clarify now answers dimension_scores requirements cfg = do
  lift_unit (require_stage cfg "clarify")
  require (not (is_empty requirements)) empty_requirements
  let working = mark_in_progress now cfg.current_stage cfg
  if is_empty answers then ok working else process_answers now dimension_scores working

advance_clarify :
    (now : String) (cfg : ProjectConfig)
    → cfg.current_stage ≡ "clarify"
    → clarity_threshold cfg.mode ≤ cfg.clarity_score
    → (cfg' : ProjectConfig) × (advance now cfg ≡ ok cfg')
      × (cfg'.current_stage ≡ "design")
      × (cfg'.clarity_score ≡ cfg.clarity_score)
unfolding advance
advance_clarify now cfg here passed = (
  mark_in_progress now "design"
      (record (mark_completed now cfg.current_stage cfg) { current_stage = "design" }),
  rw (can_advance_at 5 cfg (ap some (sym here)) (omega arith) (λ _. passed)),
  refl,
  refl,
)

abbrev pub Scored : Text → String → ProjectConfig → Type 0
Scored dimension_scores mode cfg =
    (cfg.clarity_score ≡ round_score dimension_scores)
    × ((clarity_threshold mode ≤ round_score dimension_scores) × (cfg.current_stage ≡ "design")
        ⊎ (round_score dimension_scores < clarity_threshold mode) × (cfg.current_stage ≡ "clarify"))

process_answers_gate :
    (now : String) (dimension_scores : Text) (cfg : ProjectConfig)
    → cfg.current_stage ≡ "clarify"
    → (cfg' : ProjectConfig) × (process_answers now dimension_scores cfg ≡ ok cfg')
      × Scored dimension_scores cfg.mode cfg'
unfolding process_answers
process_answers_gate now dimension_scores cfg here =
    let score = round_score dimension_scores in
    let scored : ProjectConfig = record cfg { clarity_score = score } in
    elim (Bool-cases (leb (clarity_threshold cfg.mode) score)) [
      | inl passed ↦
          let enough = leb→le (clarity_threshold cfg.mode) score passed in
          let (cfg', e, design, kept) = advance_clarify now scored here enough in
          (cfg', rw (passed, e), (kept, inl (enough, design)))
      | inr low ↦ (scored, rw low, (refl, inr (ground arith, here)))
    ]

mark_in_progress-kept :
    (now stage : String) (cfg : ProjectConfig)
    → ((mark_in_progress now stage cfg).current_stage ≡ cfg.current_stage)
      × ((mark_in_progress now stage cfg).mode ≡ cfg.mode)
unfolding mark_in_progress
mark_in_progress-kept now stage cfg = (refl, refl)

-- At "clarify", with requirements and answers that are not empty, and when no file operation fails,
-- the handler succeeds: it stores the score of the round, and the stage is "design" afterwards if that
-- score reaches the threshold of the mode, and "clarify" if it does not.
pub handle_clarify_gate :
    (now : String) (answers dimension_scores requirements : Text) (cfg : ProjectConfig)
    → cfg.current_stage ≡ "clarify"
    → is_empty requirements ≡ false
    → is_empty answers ≡ false
    → (cfg' : ProjectConfig) × (handle_clarify now answers dimension_scores requirements cfg
        ≡ ok cfg')
      × Scored dimension_scores cfg.mode cfg'
unfolding handle_clarify
handle_clarify_gate now answers dimension_scores requirements cfg here req ans =
    let (stage, mode) = mark_in_progress-kept now cfg.current_stage cfg in
    let (cfg', e, s) =
      process_answers_gate now dimension_scores (mark_in_progress now cfg.current_stage cfg)
        (stage ∙ here) in
    (
      cfg',
      rw ((==_iff cfg.current_stage "clarify").1 here, req, ans) e,
      subst (λ m. Scored dimension_scores m cfg') mode s,
    )
