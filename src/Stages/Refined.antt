-- ===== src/Stages/Refined.antt =====
-- internal/tools: the rules by which the handlers of the project's stages are moves of the position.
use mathlib.Core.Path.{subst}
use sdd_hoffy.Common.{
  String, ℕ, suc, ◌≡◌, sym, ap, ◌∙◌, List, Option, none, some, string_eq, get_elem?, put,
  Option-cases, inl, inr,
}
use sdd_hoffy.Common.Result.{Result, ok, err, Result-cases}
use sdd_hoffy.Common.Text.{Text}
use sdd_hoffy.Pipeline.Config.{ProjectConfig, stage_order, stage_filename}
use sdd_hoffy.Pipeline.Machine.{mark_in_progress}
use sdd_hoffy.Pipeline.Machine.Progress.{IsAt}
use sdd_hoffy.Pipeline.Machine.Kept.{mark_in_progress-IsAt}
use sdd_hoffy.Stages.Files.{
  Error, ConfigFile, saved, Project, Faults, WriteFault, write_stage_file, files_left, write_result,
}
use sdd_hoffy.Stages.Documents.{Document, Renderer, IsRenderer}
use sdd_hoffy.Stages.Steps.{entered, complete_stage, write_rendered, checked}
use sdd_hoffy.Stages.Position.{Position, unborn, lost, after, Stands, stay}
use sdd_hoffy.Stages.Written.{
  Outcome, stays, files_left-written, advanced-Outcome, IsEntered, entered_ok,
}

pub checked-Outcome :
    (x : Position) (p : Project) (c : Result Error (Unit {0}))
    (rest : Project × Result Error ProjectConfig)
    → Stands p x
    → Outcome x rest.0
    → Outcome x (checked p c rest).0
checked-Outcome x p (err e) rest s r = stays x p s
checked-Outcome x p (ok u) rest s r = r

pub same_saved : (a b : ProjectConfig) (f : ConfigFile) → f ≡ saved a → f ≡ saved b → a ≡ b
same_saved a b f h k = cc

-- Past the checks, the project stands at the stage, and the configuration in memory does too.
pub entered_rule :
    (now stage : String) (p q : Project) (cfg : ProjectConfig) (x : Position)
    → Stands p x
    → IsEntered now stage p cfg
    → ((j : ℕ)
        → Stands p (after j)
        → IsAt (suc j) cfg
        → get_elem? stage_order (suc j) ≡ some stage
        → cfg.current_stage ≡ stage
        → Outcome (after j) q)
    → Outcome x q
unfolding mark_in_progress
entered_rule now stage p q cfg unborn s k rest = absurd (let h = k.held in cc)
entered_rule now stage p q cfg lost s k rest = absurd (let h = k.held in cc)
entered_rule now stage p q cfg (after j) (c, (e, b)) k rest =
    let same : c ≡ k.base = same_saved c k.base p.config e k.held in
    let at = subst (IsAt (suc j)) same b.at in
    rest j (c, (e, b))
      (subst (IsAt (suc j)) (sym k.marked) (mark_in_progress-IsAt now (suc j) k.base at))
      (at.here ∙ ap some k.here) (ap (λ (r : ProjectConfig). r.current_stage) k.marked ∙ k.here)

pub complete_stage-Outcome :
    (now : String) (io : Faults) (render : Renderer) (stage : String) (needs : List String)
    (document : ProjectConfig → Document) (p : Project) (x : Position)
    → IsRenderer render
    → Stands p x
    → Outcome x (complete_stage now io render stage needs document p).0
unfolding complete_stage
complete_stage-Outcome now io render stage needs document p x lawful s =
    elim (Result-cases (entered now io stage needs p)) [
      | inr (e, h) ↦ rw h (stays x p s)
      | inl (cfg, h) ↦ elim (Option-cases (render (document cfg))) [
        | inl failed ↦ rw (h, failed) (stays x p s)
        | inr (content, made) ↦
            rw (h, made)
              (entered_rule now stage p (write_rendered now io stage cfg p (ok content)).0 cfg x s
                (entered_ok now io stage needs p cfg h)
                (λ j s' at here cur.
                  advanced-Outcome now io stage content cfg p j s' at here
                    (lawful (document cfg) content made)))
      ]
    ]

-- A write and what follows it if it succeeds.
pub write_rule :
    (f : Project × Result Error (Unit {0}) → Project × Result Error ProjectConfig) (io : Faults)
    (stage : String) (content : Text) (p : Project) (j : ℕ)
    → ((q : Project) (e : Error) → (f (q, err e)).0 ≡ q)
    → Stands p (after j)
    → get_elem? stage_order (suc j) ≡ some stage
    → Outcome
        (after j)
        (f (record p { files = put (stage_filename stage) content p.files }, ok tt)).0
    → Outcome (after j) (f (write_stage_file io (stage_filename stage) content p)).0
unfolding write_stage_file
write_rule f io stage content p j fails (c, (e, b)) h rest = go (io.write (stage_filename stage))
  where
    go :
        (fault : Option WriteFault)
        → Outcome
            (after j)
            (f (
              record p { files = files_left fault (stage_filename stage) content p.files },
              write_result fault (stage_filename stage),
            )).0
    go none = rest
    go (some fault) = rw fails (
      after j,
      (
        stay (after j),
        (
          c,
          (
            e,
            record {
              at = b.at;
              written = files_left-written (some fault) j stage content p.files h b.written;
            },
          ),
        ),
      ),
    )
