-- ===== src/Stages/Moves.antt =====
-- internal/tools: a call of any of the handlers of the project's stages, and its move.
use mathlib.Core.Path.{subst}
use sdd_hoffy.Common.{
  String, ℕ, suc, ◌≡◌, refl, ap, List, [], ◌∷◌, ◌++◌, some, true, false, string_eq, get_elem?, put,
  Bool-cases, Option-cases, inl, inr,
}
use sdd_hoffy.Common.Result.{Result, ok, err, Result-cases}
use sdd_hoffy.Common.Text.{Text, is_empty}
use sdd_hoffy.Pipeline.Config.{ProjectConfig, stage_order, stage_filename, new_project_config}
use sdd_hoffy.Pipeline.Clarity.{round_score}
use sdd_hoffy.Pipeline.Machine.{mark_completed}
use sdd_hoffy.Pipeline.Machine.Progress.{IsAt, IsAt-new}
use sdd_hoffy.Pipeline.Machine.Kept.{mark_completed-IsAt, same_statuses-IsAt}
use sdd_hoffy.Stages.Files.{Error, Project, Faults, exists, write_stage_file, read_stage_file}
use sdd_hoffy.Stages.Documents.{Renderer, IsRenderer, clarifications}
use sdd_hoffy.Stages.Steps.{entered}
use sdd_hoffy.Stages.Requests.{
  InitRequest, ClarifyRequest, ValidateRequest, check_init, check_validate,
}
use sdd_hoffy.Stages.Tools.{handle_init}
use sdd_hoffy.Stages.Gate.{
  passes, round_text, or_nothing, clarify_entered, validate_entered, clarifications_data, gated,
  write_rounds, record_answers, handle_clarify, report, closed, handle_validate,
}
use sdd_hoffy.Stages.Position.{
  Position, unborn, lost, after, Stands, stay, begin, written-put, written-put_more,
}
use sdd_hoffy.Stages.Written.{Outcome, stays, save-Outcome, save_moved-Outcome, entered_ok}
use sdd_hoffy.Stages.Refined.{checked-Outcome, entered_rule, complete_stage-Outcome, write_rule}
use sdd_hoffy.Stages.Requests.{
  PrinciplesRequest, CharterRequest, SpecifyRequest, BusinessRulesRequest, DesignRequest,
  TasksRequest, check_principles, check_charter, check_specify, check_business_rules, check_design,
  check_tasks,
}
use sdd_hoffy.Stages.Tools.{
  principles_document, charter_document, specify_document, business_rules_document, design_document,
  tasks_document, handle_principles, handle_charter, handle_specify, handle_business_rules,
  handle_design, handle_tasks,
}

-- A call of one of the tools.
pub data Call : Type 0 where
  init : InitRequest → Call
  principles : PrinciplesRequest → Call
  charter : CharterRequest → Call
  specify : SpecifyRequest → Call
  business_rules : BusinessRulesRequest → Call
  clarify : ClarifyRequest → Call
  design : DesignRequest → Call
  tasks : TasksRequest → Call
  validate : ValidateRequest → Call

unfoldable pub run_call :
    String → Faults → Renderer → Call → Project → Project × Result Error ProjectConfig
run_call now io render (init r) p = handle_init now io r p
run_call now io render (principles r) p = handle_principles now io render r p
run_call now io render (charter r) p = handle_charter now io render r p
run_call now io render (specify r) p = handle_specify now io render r p
run_call now io render (business_rules r) p = handle_business_rules now io render r p
run_call now io render (clarify r) p = handle_clarify now io render r p
run_call now io render (design r) p = handle_design now io render r p
run_call now io render (tasks r) p = handle_tasks now io render r p
run_call now io render (validate r) p = handle_validate now io r p

init-Outcome :
    (now : String) (io : Faults) (r : InitRequest) (p : Project) (x : Position)
    → Stands p x
    → Outcome x (handle_init now io r p).0
unfolding handle_init
init-Outcome now io r p lost s =
    checked-Outcome lost p (check_init r) _ s
      (let there : exists p.config ≡ true = ap exists s in rw there (stays lost p s))
init-Outcome now io r p (after j) (c, (e, b)) =
    checked-Outcome (after j) p (check_init r) _ (c, (e, b))
      (let there : exists p.config ≡ true = ap exists e in rw there (stays (after j) p (c, (e, b))))
init-Outcome now io r p unborn s =
    let none_yet : exists p.config ≡ false = ap exists s in
    checked-Outcome unborn p (check_init r) _ s (elim (Bool-cases io.mkdir) [
      | inl failed ↦ rw (none_yet, failed) (stays unborn p s)
      | inr made ↦
          rw (none_yet, made)
            (save-Outcome now io (new_project_config now r.name r.description r.mode) p unborn 0 s
              begin record { at = IsAt-new now r.name r.description r.mode; written = tt })
    ])

gated-Outcome :
    (now : String) (io : Faults) (cfg : ProjectConfig) (p : Project) (content : Text) (j : ℕ)
    → Stands p (after j)
    → IsAt (suc j) cfg
    → get_elem? stage_order (suc j) ≡ some "clarify"
    → is_empty content ≡ false
    → Outcome
        (after j)
        (gated now io cfg (write_stage_file io (stage_filename "clarify") content p)).0
gated-Outcome now io cfg p content j (c, (e, b)) at here full =
    let q = record p { files = put (stage_filename "clarify") content p.files } in
    let earlier = written-put j "clarify" content p.files here b.written in
    let s : Stands q (after j) = (c, (e, record { at = b.at; written = earlier })) in
    write_rule (gated now io cfg) io "clarify" content p j (λ q' x. refl) (c, (e, b)) here
      (elim (Bool-cases (passes cfg)) [
        | inl passed ↦ rw passed (
            save_moved-Outcome now io cfg q j s at
              (written-put_more j "clarify" content p.files here full b.written))
        | inr low ↦ rw low (
            save-Outcome now io cfg q (after j) j s (stay (after j))
              record { at = at; written = earlier })
      ])

record_answers-Outcome :
    (now : String) (io : Faults) (render : Renderer) (r : ClarifyRequest) (cfg : ProjectConfig)
    (p : Project) (j : ℕ)
    → IsRenderer render
    → Stands p (after j)
    → IsAt (suc j) cfg
    → get_elem? stage_order (suc j) ≡ some "clarify"
    → Outcome (after j) (record_answers now io render r cfg p).0
unfolding record_answers
record_answers-Outcome now io render r working p j lawful (c, (e, b)) at here =
    let cfg = record working { clarity_score = round_score r.dimension_scores } in
    let rounds =
      or_nothing (read_stage_file io (stage_filename "clarify") p) ++ round_text cfg r.answers in
    let q = record p { files = put (stage_filename "clarify") rounds p.files } in
    let earlier = written-put j "clarify" rounds p.files here b.written in
    let s : Stands q (after j) = (c, (e, record { at = b.at; written = earlier })) in
    let at' = (same_statuses-IsAt (suc j) working now (round_score r.dimension_scores) at).1 in
    let document = clarifications (clarifications_data cfg rounds) in
    write_rule (write_rounds now io render cfg rounds) io "clarify" rounds p j (λ q' x. refl)
      (c, (e, b)) here
      (elim (Option-cases (render document)) [
        | inl failed ↦ rw failed (stays (after j) q s)
        | inr (content, made) ↦
            rw made (gated-Outcome now io cfg q content j s at' here (lawful document content made))
      ])

clarify-Outcome :
    (now : String) (io : Faults) (render : Renderer) (r : ClarifyRequest) (p : Project)
    (x : Position)
    → IsRenderer render
    → Stands p x
    → Outcome x (handle_clarify now io render r p).0
unfolding handle_clarify
clarify-Outcome now io render r p x lawful s =
    elim (Result-cases (entered now io "clarify" ("specify" ∷ []) p)) [
      | inr (e, h) ↦ rw h (stays x p s)
      | inl (cfg, h) ↦ rw h (
          entered_rule now "clarify" p (clarify_entered now io render r p (ok cfg)).0 cfg x s
            (entered_ok now io "clarify" ("specify" ∷ []) p cfg h)
            (λ j s' at here cur. elim (Bool-cases (is_empty r.answers)) [
              | inl asked ↦ rw asked (
                  save-Outcome now io cfg p (after j) j s' (stay (after j))
                    record { at = at; written = s'.1.1.written })
              | inr answered ↦
                  rw answered (record_answers-Outcome now io render r cfg p j lawful s' at here)
            ]))
    ]

validate-Outcome :
    (now : String) (io : Faults) (r : ValidateRequest) (p : Project) (x : Position)
    → Stands p x
    → Outcome x (handle_validate now io r p).0
unfolding handle_validate
validate-Outcome now io r p x s =
    checked-Outcome x p (check_validate r) _ s (go (entered now io "validate" required p) refl)
  where
    required : List String
    required = "principles" ∷ "charter" ∷ "specify" ∷ "clarify" ∷ "design" ∷ "tasks" ∷ []

    go :
        (e : Result Error ProjectConfig)
        → entered now io "validate" required p ≡ e
        → Outcome x (validate_entered now io r p e).0
    go (err e) h = stays x p s
    go (ok cfg) h =
        entered_rule now "validate" p (validate_entered now io r p (ok cfg)).0 cfg x s
          (entered_ok now io "validate" required p cfg h)
          (λ j (c, (e, b)) at here cur.
            let text = report cfg r in
            let earlier = written-put j "validate" text p.files here b.written in
            let last =
              subst (λ stage. IsAt (suc j) (mark_completed now stage cfg)) cur
                (mark_completed-IsAt now (suc j) cfg at) in
            let q = record p { files = put (stage_filename "validate") text p.files } in
            write_rule (closed now io cfg) io "validate" text p j (λ q' e'. refl) (c, (e, b)) here
              (save-Outcome now io (mark_completed now "validate" cfg) q (after j) j
                (c, (e, record { at = b.at; written = earlier })) (stay (after j))
                record { at = last; written = earlier }))

-- Every call of a tool, whatever of its reads and writes fails, either leaves the position of the
-- project or starts the project, moves it one stage forward, or leaves a configuration that is torn: if
-- no template renders to the empty text, then the project stands for the position after one move.
pub run_call-Outcome :
    (now : String) (io : Faults) (render : Renderer) (call : Call) (p : Project) (x : Position)
    → IsRenderer render
    → Stands p x
    → Outcome x (run_call now io render call p).0
unfolding run_call handle_principles handle_charter handle_specify handle_business_rules
    handle_design handle_tasks
run_call-Outcome now io render (init r) p x lawful s = init-Outcome now io r p x s
run_call-Outcome now io render (principles r) p x lawful s =
    checked-Outcome x p (check_principles r) _ s
      (complete_stage-Outcome now io render "principles" [] (principles_document r) p x lawful s)
run_call-Outcome now io render (charter r) p x lawful s =
    checked-Outcome x p (check_charter r) _ s
      (complete_stage-Outcome now io render "charter" [] (charter_document r) p x lawful s)
run_call-Outcome now io render (specify r) p x lawful s =
    checked-Outcome x p (check_specify r) _ s (
      complete_stage-Outcome now io render "specify" ("charter" ∷ []) (specify_document r) p x
        lawful s)
run_call-Outcome now io render (business_rules r) p x lawful s =
    checked-Outcome x p (check_business_rules r) _ s (
      complete_stage-Outcome now io render "business-rules" ("specify" ∷ [])
        (business_rules_document r) p x lawful s)
run_call-Outcome now io render (clarify r) p x lawful s =
    clarify-Outcome now io render r p x lawful s
run_call-Outcome now io render (design r) p x lawful s = checked-Outcome x p (check_design r) _ s (
    complete_stage-Outcome now io render "design" ("specify" ∷ []) (design_document r) p x lawful s)
run_call-Outcome now io render (tasks r) p x lawful s =
    checked-Outcome x p (check_tasks r) _ s
      (complete_stage-Outcome now io render "tasks" ("design" ∷ []) (tasks_document r) p x lawful s)
run_call-Outcome now io render (validate r) p x lawful s = validate-Outcome now io r p x s
