-- ===== src/Stages/Ending.antt =====
-- internal/tools: the end of a project, when no read and no write fails.
use sdd_hoffy.Common.{
  String, ℕ, suc, ◌<◌, ◌≡◌, refl, [], ◌∷◌, some, true, string_eq, get_elem?, All, get, get-put,
  arith,
}
use sdd_hoffy.Common.Result.{ok}
use sdd_hoffy.Pipeline.Config.{ProjectConfig, stage_order, stage_filename}
use sdd_hoffy.Pipeline.Machine.{mark_in_progress, mark_completed, is_completed}
use sdd_hoffy.Stages.Files.{saved, Project, save, write_stage_file}
use sdd_hoffy.Stages.Requests.{ValidateRequest, check_validate}
use sdd_hoffy.Stages.Gate.{report, handle_validate}
use sdd_hoffy.Stages.Position.{HasText, IsBehind}
use sdd_hoffy.Stages.Finish.{document_behind}
use sdd_hoffy.Stages.Forward.{sound, entered_sound}

-- In a project at its last stage whose earlier stages are all completed, each with a document that is
-- not empty, `sdd_validate` with parameters that pass its checks succeeds and saves the project with
-- this stage completed and the report in its file: if no read and no write fails.
pub handle_validate-completes :
    (now : String) (r : ValidateRequest) (p : Project) (cfg : ProjectConfig) (j : ℕ)
    → p.config ≡ saved cfg
    → IsBehind j cfg p.files
    → cfg.current_stage ≡ "validate"
    → check_validate r ≡ ok tt
    → (final : ProjectConfig) × (((handle_validate now sound r p).1 ≡ ok final)
        × (((handle_validate now sound r p).0.config ≡ saved final)
            × ((is_completed final "validate" ≡ true)
                × (get (handle_validate now sound r p).0.files (stage_filename "validate")
                    ≡ some (report (mark_in_progress now "validate" cfg) r)))))
unfolding handle_validate save write_stage_file mark_completed is_completed
handle_validate-completes now r p cfg j h b here good =
    let doc : (i : ℕ) (s : String)
        → get_elem? stage_order (suc i) ≡ some s
        → i < 7
        → HasText p.files (stage_filename s) =
      λ i s at lt. document_behind i 7 j s "validate" cfg p.files b here refl at lt in
    let docs : All (λ s. HasText p.files (stage_filename s))
        ("principles" ∷ "charter" ∷ "specify" ∷ "clarify" ∷ "design" ∷ "tasks" ∷ []) =
      (
        doc 0 "principles" refl (ground arith),
        (
          doc 1 "charter" refl (ground arith),
          (
            doc 2 "specify" refl (ground arith),
            (
              doc 4 "clarify" refl (ground arith),
              (doc 5 "design" refl (ground arith), (doc 6 "tasks" refl (ground arith), tt)),
            ),
          ),
        ),
      ) in
    let enters =
      entered_sound now "validate"
        ("principles" ∷ "charter" ∷ "specify" ∷ "clarify" ∷ "design" ∷ "tasks" ∷ []) p cfg h here
        docs in
    let final =
      record (mark_completed now "validate" (mark_in_progress now cfg.current_stage cfg)) {
        updated_at = now;
      } in
    rw (good, enters) (final, (refl, (refl, (rw get-put refl, rw (get-put, here) refl))))
