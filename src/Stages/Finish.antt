-- ===== src/Stages/Finish.antt =====
-- internal/tools: how a project is led to its last stage, when no read and no write fails.
use sdd_hoffy.Common.{
  String, ℕ, suc, ◌<◌, ◌≤◌, ◌≡◌, ◌≢◌, refl, sym, ap, ◌∙◌, List, [], ◌∷◌, ◌++◌, none, some, true,
  false, string_eq, ==_iff, get_elem?, put, leb, arith, Option-cases, inl, inr,
}
use sdd_hoffy.Common.Result.{ok}
use sdd_hoffy.Common.Text.{Text, is_empty}
use sdd_hoffy.Pipeline.Config.{ProjectConfig, stage_order, stage_filename}
use sdd_hoffy.Pipeline.Clarity.{round_score}
use sdd_hoffy.Pipeline.Machine.{mark_in_progress, clarity_threshold}
use sdd_hoffy.Pipeline.Machine.Progress.{same_position}
use sdd_hoffy.Pipeline.Machine.Kept.{mark_in_progress-IsAt, same_statuses-IsAt}
use sdd_hoffy.Stages.Files.{saved, Project, write_stage_file, read_stage_file}
use sdd_hoffy.Stages.Documents.{Document, Renderer, IsRenderer, clarifications}
use sdd_hoffy.Stages.Requests.{
  ClarifyRequest, check_init, check_validate, check_principles, check_charter, check_specify,
  check_business_rules, check_design, check_tasks,
}
use sdd_hoffy.Stages.Tools.{
  principles_document, charter_document, specify_document, business_rules_document, design_document,
  tasks_document, handle_principles, handle_charter, handle_specify, handle_business_rules,
  handle_design, handle_tasks,
}
use sdd_hoffy.Stages.Gate.{
  round_text, or_nothing, clarifications_data, record_answers, handle_clarify,
}
use sdd_hoffy.Stages.Position.{HasText, IsBehind, written-put, written-put_more}
use sdd_hoffy.Stages.Moves.{
  Call, run_call, init, principles, charter, specify, business_rules, clarify, design, tasks,
  validate,
}
use sdd_hoffy.Stages.Run.{behind-IsBehind}
use sdd_hoffy.Stages.Forward.{sound, Forward, entered_sound, moved_sound, complete_stage_sound}

abbrev pub stage_of : Call → String
stage_of (init r) = "init"
stage_of (principles r) = "principles"
stage_of (charter r) = "charter"
stage_of (specify r) = "specify"
stage_of (business_rules r) = "business-rules"
stage_of (clarify r) = "clarify"
stage_of (design r) = "design"
stage_of (tasks r) = "tasks"
stage_of (validate r) = "validate"

-- The call's parameters pass its checks; a round of answers reaches the threshold of the mode.
abbrev pub IsAccepted : String → Call → Type 0
IsAccepted mode (init r) = check_init r ≡ ok tt
IsAccepted mode (principles r) = check_principles r ≡ ok tt
IsAccepted mode (charter r) = check_charter r ≡ ok tt
IsAccepted mode (specify r) = check_specify r ≡ ok tt
IsAccepted mode (business_rules r) = check_business_rules r ≡ ok tt
IsAccepted mode (clarify r) =
    (is_empty r.answers ≡ false) × (clarity_threshold mode ≤ round_score r.dimension_scores)
IsAccepted mode (design r) = check_design r ≡ ok tt
IsAccepted mode (tasks r) = check_tasks r ≡ ok tt
IsAccepted mode (validate r) = check_validate r ≡ ok tt

-- The document of a stage before the current one, "m", is there.
pub document_behind :
    (i m j : ℕ) (s t : String) (cfg : ProjectConfig) (files : List (String × Text))
    → IsBehind j cfg files
    → cfg.current_stage ≡ t
    → get_elem? stage_order (suc m) ≡ some t
    → get_elem? stage_order (suc i) ≡ some s
    → i < m
    → HasText files (stage_filename s)
document_behind i m j s t cfg files b here at_m at_i lt =
    (behind-IsBehind j i m s cfg files b (at_m ∙ ap some (sym here)) at_i lt).1

clarify_sound :
    (now : String) (render : Renderer) (r : ClarifyRequest) (p : Project) (cfg : ProjectConfig)
    (j : ℕ)
    → IsRenderer render
    → ((d : Document) → render d ≢ none)
    → p.config ≡ saved cfg
    → IsBehind j cfg p.files
    → cfg.current_stage ≡ "clarify"
    → is_empty r.answers ≡ false
    → clarity_threshold cfg.mode ≤ round_score r.dimension_scores
    → suc j < 8
    → Forward (suc j) (handle_clarify now sound render r p)
unfolding handle_clarify record_answers write_stage_file mark_in_progress
clarify_sound now render r p base j lawful total h b here answered passed lt =
    let marked = mark_in_progress now base.current_stage base in
    let cfg = record marked { clarity_score = round_score r.dimension_scores } in
    let rounds =
      or_nothing (read_stage_file sound (stage_filename "clarify") p) ++ round_text cfg r.answers in
    let document = clarifications (clarifications_data cfg rounds) in
    let there = b.at.here ∙ ap some here in
    let pass : leb (clarity_threshold base.mode) (round_score r.dimension_scores) ≡ true =
      ground arith in
    let docs =
      document_behind 2 4 j "specify" "clarify" base p.files b here refl refl (ground arith) in
    let at = mark_in_progress-IsAt now (suc j) base b.at in
    let at' = (same_statuses-IsAt (suc j) marked now (round_score r.dimension_scores) at).1 in
    elim (Option-cases (render document)) [
      | inl failed ↦ absurd (total document failed)
      | inr (content, made) ↦
          let files =
            put (stage_filename "clarify") content
              (put (stage_filename "clarify") rounds p.files) in
          rw
            (
              entered_sound now "clarify" ("specify" ∷ []) p base h here (docs, tt),
              answered,
              made,
              pass,
            )
            (moved_sound now cfg (record p { files = files }) j at' (λ _. passed) lt
              (written-put_more j "clarify" content (put (stage_filename "clarify") rounds p.files)
                there (lawful document content made)
                (written-put j "clarify" rounds p.files there b.written)))
    ]

-- In a project whose stages before the current one are all completed, each with a document that is not
-- empty, a call of the tool of the current stage, before the last, whose parameters pass its checks
-- (for the clarity gate: answers with scores that reach the threshold), moves the project one stage
-- forward and saves it, with its document not empty: if no read and no write fails, and every template
-- renders, to a text that is not empty.
pub call-Forward :
    (now : String) (render : Renderer) (call : Call) (p : Project) (cfg : ProjectConfig) (j : ℕ)
    → IsRenderer render
    → ((d : Document) → render d ≢ none)
    → p.config ≡ saved cfg
    → IsBehind j cfg p.files
    → cfg.current_stage ≡ stage_of call
    → IsAccepted cfg.mode call
    → suc j < 8
    → Forward (suc j) (run_call now sound render call p)
unfolding run_call handle_principles handle_charter handle_specify handle_business_rules
    handle_design handle_tasks
call-Forward now render (init r) p cfg j lawful total h b here good lt = absurd (
    omega (
      arith,
      same_position (suc j) 0 cfg.current_stage "init" b.at.here refl
          ((==_iff "init" cfg.current_stage).1 (sym here)),
    ))
call-Forward now render (principles r) p cfg j lawful total h b here good lt = rw good (
    complete_stage_sound now render "principles" [] (principles_document r) p cfg j lawful total h b
      here refl lt tt)
call-Forward now render (charter r) p cfg j lawful total h b here good lt = rw good (
    complete_stage_sound now render "charter" [] (charter_document r) p cfg j lawful total h b here
      refl lt tt)
call-Forward now render (specify r) p cfg j lawful total h b here good lt =
    let docs =
      document_behind 1 2 j "charter" "specify" cfg p.files b here refl refl (ground arith) in
    rw good (
      complete_stage_sound now render "specify" ("charter" ∷ []) (specify_document r) p cfg j lawful
        total h b here refl lt (docs, tt))
call-Forward now render (business_rules r) p cfg j lawful total h b here good lt =
    let docs =
      document_behind 2 3 j "specify" "business-rules" cfg p.files b here refl refl
        (ground arith) in
    rw good (
      complete_stage_sound now render "business-rules" ("specify" ∷ []) (business_rules_document r)
        p cfg j lawful total h b here refl lt (docs, tt))
call-Forward now render (clarify r) p cfg j lawful total h b here good lt =
    clarify_sound now render r p cfg j lawful total h b here good.0 good.1 lt
call-Forward now render (design r) p cfg j lawful total h b here good lt =
    let docs =
      document_behind 2 5 j "specify" "design" cfg p.files b here refl refl (ground arith) in
    rw good (
      complete_stage_sound now render "design" ("specify" ∷ []) (design_document r) p cfg j lawful
        total h b here refl lt (docs, tt))
call-Forward now render (tasks r) p cfg j lawful total h b here good lt =
    let docs = document_behind 5 6 j "design" "tasks" cfg p.files b here refl refl (ground arith) in
    rw good (
      complete_stage_sound now render "tasks" ("design" ∷ []) (tasks_document r) p cfg j lawful
        total h b here refl lt (docs, tt))
call-Forward now render (validate r) p cfg j lawful total h b here good lt = absurd (
    omega (
      arith,
      lt,
      same_position (suc j) 8 cfg.current_stage "validate" b.at.here refl
          ((==_iff "validate" cfg.current_stage).1 (sym here)),
    ))
