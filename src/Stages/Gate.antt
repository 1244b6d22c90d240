-- ===== src/Stages/Gate.antt =====
-- internal/tools/clarify.go and internal/tools/validate.go: the gate with its rounds of answers, and
-- the report at the end.
use sdd_hoffy.Common.{
  String, ℕ, [], ◌∷◌, ◌++◌, Option, none, some, Bool, string_eq, leb, get, if◌then◌else◌,
}
use sdd_hoffy.Common.Result.{Result, ok, err}
use sdd_hoffy.Common.Text.{Text, codes, is_empty}
use sdd_hoffy.Changes.Decimal.{decimal}
use sdd_hoffy.Pipeline.Config.{ProjectConfig, StageStatus, stage_filename}
use sdd_hoffy.Pipeline.Machine.{clarity_threshold, mark_completed, advance}
use sdd_hoffy.Pipeline.Clarity.{round_score}
use sdd_hoffy.Stages.Files.{Error, Faults, Project, save, read_stage_file, write_stage_file}
use sdd_hoffy.Stages.Documents.{Renderer, ClarificationsData, clarifications}
use sdd_hoffy.Stages.Steps.{from_pipeline, rendered, entered, save_moved, checked}
use sdd_hoffy.Stages.Requests.{ClarifyRequest, ValidateRequest, check_validate, verdict_upper}
use sdd_hoffy.Stages.Tools.{or_default}

abbrev iterations_of : Option StageStatus → ℕ
iterations_of none = 0
iterations_of (some st) = st.iterations

-- `existing, _ := readStageFile(path)`: an error reads as the empty text.
abbrev pub or_nothing : Result Error Text → Text
or_nothing (ok s) = s
or_nothing (err e) = []

unfoldable pub round_text : ProjectConfig → Text → Text
unfolding decimal get
round_text cfg answers =
    codes "\n### Round "
    ++ (decimal (iterations_of (get cfg.stage_status "clarify"))
        ++ (codes "\n\n"
            ++ (answers
                ++ (codes "\n\n**Clarity Score after this round:** "
                    ++ (decimal cfg.clarity_score ++ codes "/100\n")))))

abbrev pub passes : ProjectConfig → Bool
passes cfg = leb (clarity_threshold cfg.mode) cfg.clarity_score

abbrev pub clarifications_data : ProjectConfig → Text → ClarificationsData
clarifications_data cfg rounds = record {
  name = cfg.name;
  clarity_score = cfg.clarity_score;
  mode = cfg.mode;
  threshold = clarity_threshold cfg.mode;
  status = if passes cfg then "PASSED" else "IN PROGRESS";
  rounds = rounds;
}

-- The second write, of the rendered document, and what follows it.
abbrev pub gated :
    String
    → Faults
    → ProjectConfig
    → Project × Result Error (Unit {0})
    → Project × Result Error ProjectConfig
gated now io cfg (p, err e) = (p, err e)
gated now io cfg (p, ok u) =
    save_moved now io p (if passes cfg then from_pipeline (advance now cfg) else ok cfg)

abbrev pub write_document :
    String
    → Faults
    → ProjectConfig
    → Project
    → Result Error Text
    → Project × Result Error ProjectConfig
write_document now io cfg p (err e) = (p, err e)
write_document now io cfg p (ok content) =
    gated now io cfg (write_stage_file io (stage_filename "clarify") content p)

-- The first write, of the rounds so far with the new one.
abbrev pub write_rounds :
    String
    → Faults
    → Renderer
    → ProjectConfig
    → Text
    → Project × Result Error (Unit {0})
    → Project × Result Error ProjectConfig
write_rounds now io render cfg rounds (p, err e) = (p, err e)
write_rounds now io render cfg rounds (p, ok u) =
    write_document now io cfg p
      (rendered "clarify" (render (clarifications (clarifications_data cfg rounds))))

unfoldable pub record_answers :
    String
    → Faults
    → Renderer
    → ClarifyRequest
    → ProjectConfig
    → Project
    → Project × Result Error ProjectConfig
unfolding round_text write_stage_file save stage_filename clarity_threshold
record_answers now io render r working p =
    let cfg = record working { clarity_score = round_score r.dimension_scores } in
    let rounds =
      or_nothing (read_stage_file io (stage_filename "clarify") p) ++ round_text cfg r.answers in
    write_rounds now io render cfg rounds (write_stage_file io (stage_filename "clarify") rounds p)

abbrev pub clarify_entered :
    String
    → Faults
    → Renderer
    → ClarifyRequest
    → Project
    → Result Error ProjectConfig
    → Project × Result Error ProjectConfig
clarify_entered now io render r p (err e) = (p, err e)
clarify_entered now io render r p (ok cfg) =
    if is_empty r.answers then save now io cfg p else record_answers now io render r cfg p

unfoldable pub handle_clarify :
    String → Faults → Renderer → ClarifyRequest → Project → Project × Result Error ProjectConfig
unfolding entered record_answers save
handle_clarify now io render r p =
    clarify_entered now io render r p (entered now io "clarify" ("specify" ∷ []) p)

unfoldable pub report : ProjectConfig → ValidateRequest → Text
unfolding verdict_upper
report cfg r =
    codes "# "
    ++ (codes cfg.name
        ++ (codes
              " — Validation Report\n\n> Generated by [SDD-Hoffy](https://github.com/HendryAvila/Hoofy) | Stage 6: Validate\n\n## Verdict: "
            ++ (verdict_upper r.verdict
                ++ (codes "\n\n---\n\n## Requirements Coverage\n\n"
                    ++ (codes r.requirements_coverage
                        ++ (codes "\n\n## Component Coverage\n\n"
                            ++ (codes r.component_coverage
                                ++ (codes "\n\n## Consistency Issues\n\n"
                                    ++ (codes r.consistency_issues
                                        ++ (codes "\n\n## Risk Assessment\n\n"
                                            ++ (codes (
                                                  or_default "_No specific risks identified._"
                                                    r.risk_assessment)
                                                ++ (codes "\n\n## Design Quality\n\n"
                                                    ++ (codes (
                                                          or_default
                                                            "_No structural quality verification provided._"
                                                            r.design_quality)
                                                        ++ (codes "\n\n## Recommendations\n\n"
                                                            ++ codes (
                                                            or_default
                                                            "_No additional recommendations._"
                                                            r.recommendations)))))))))))))))

-- The last stage is completed, whatever the verdict, and there is no `Advance`.
abbrev pub closed :
    String
    → Faults
    → ProjectConfig
    → Project × Result Error (Unit {0})
    → Project × Result Error ProjectConfig
closed now io cfg (p, err e) = (p, err e)
closed now io cfg (p, ok u) = save now io (mark_completed now "validate" cfg) p

abbrev pub validate_entered :
    String
    → Faults
    → ValidateRequest
    → Project
    → Result Error ProjectConfig
    → Project × Result Error ProjectConfig
validate_entered now io r p (err e) = (p, err e)
validate_entered now io r p (ok cfg) =
    closed now io cfg (write_stage_file io (stage_filename "validate") (report cfg r) p)

unfoldable pub handle_validate :
    String → Faults → ValidateRequest → Project → Project × Result Error ProjectConfig
unfolding check_validate entered write_stage_file save stage_filename mark_completed
handle_validate now io r p = checked p (check_validate r) (
    validate_entered now io r p (
      entered now io "validate"
        ("principles" ∷ "charter" ∷ "specify" ∷ "clarify" ∷ "design" ∷ "tasks" ∷ []) p))
