-- ===== src/Stages/Forward.antt =====
-- internal/tools: a call of the current stage's tool, when no read and no write fails.
use sdd_hoffy.Common.{
  String, ℕ, suc, ◌<◌, ◌≡◌, ◌≢◌, refl, sym, ap, ◌∙◌, List, [], ◌∷◌, none, some, true, false, ◌==◌,
  string_eq, ==_iff, take, All, put, arith, Option-cases, inl, inr,
}
use sdd_hoffy.Common.Result.{Result, ok}
use sdd_hoffy.Pipeline.Config.{ProjectConfig, stage_filename}
use sdd_hoffy.Pipeline.Machine.{mark_in_progress, advance, require_stage}
use sdd_hoffy.Pipeline.Machine.Progress.{IsAt, GateOpen, advance_reaches}
use sdd_hoffy.Pipeline.Machine.Kept.{mark_in_progress-IsAt, same_statuses-IsAt}
use sdd_hoffy.Stages.Files.{
  Error, saved, Project, Faults, load, save, write_stage_file, read_stage_file,
}
use sdd_hoffy.Stages.Documents.{Document, Renderer, IsRenderer}
use sdd_hoffy.Stages.Steps.{from_pipeline, needed, entered, complete_stage, save_moved}
use sdd_hoffy.Stages.Position.{documents, HasText, IsBehind, written-put_more}

-- Nothing fails.
abbrev pub sound : Faults
sound = record {
  read_config = false;
  read = λ _. false;
  write = λ _. none;
  mkdir = false;
  save = none;
}

-- What a call leads to that succeeds and moves the project on.
abbrev pub Forward : ℕ → Project × Result Error ProjectConfig → Type 0
Forward j (q, r) =
    (next : ProjectConfig) × ((r ≡ ok next) × ((q.config ≡ saved next) × IsBehind j next q.files))

needed_sound :
    (needs : List String) (p : Project)
    → All (λ s. HasText p.files (stage_filename s)) needs
    → needed sound needs p ≡ ok tt
unfolding needed read_stage_file
needed_sound [] p h = refl
needed_sound (s ∷ needs) p h = rw (h.0, needed_sound needs p h.1)

pub entered_sound :
    (now stage : String) (needs : List String) (p : Project) (cfg : ProjectConfig)
    → p.config ≡ saved cfg
    → cfg.current_stage ≡ stage
    → All (λ s. HasText p.files (stage_filename s)) needs
    → entered now sound stage needs p ≡ ok (mark_in_progress now cfg.current_stage cfg)
unfolding entered load require_stage
entered_sound now stage needs p cfg h here docs =
    let same : (cfg.current_stage == stage) ≡ true = (==_iff cfg.current_stage stage).1 here in
    let found = needed_sound needs p docs in simp (h, same, found)

pub moved_sound :
    (now : String) (cfg : ProjectConfig) (p : Project) (j : ℕ)
    → IsAt (suc j) cfg
    → GateOpen cfg
    → suc j < 8
    → All (HasText p.files) (take (suc j) documents)
    → Forward (suc j) (save_moved now sound p (from_pipeline (advance now cfg)))
unfolding save
moved_sound now cfg p j at gate lt w =
    let (next, e, at', _, _, _) = advance_reaches now (suc j) cfg at (omega (arith, lt)) gate in
    rw e (
      record next { updated_at = now },
      (
        refl,
        (refl, record { at = (same_statuses-IsAt (suc (suc j)) next now 0 at').0; written = w }),
      ),
    )

pub complete_stage_sound :
    (now : String) (render : Renderer) (stage : String) (needs : List String)
    (document : ProjectConfig → Document) (p : Project) (cfg : ProjectConfig) (j : ℕ)
    → IsRenderer render
    → ((d : Document) → render d ≢ none)
    → p.config ≡ saved cfg
    → IsBehind j cfg p.files
    → cfg.current_stage ≡ stage
    → (stage == "clarify") ≡ false
    → suc j < 8
    → All (λ s. HasText p.files (stage_filename s)) needs
    → Forward (suc j) (complete_stage now sound render stage needs document p)
unfolding complete_stage write_stage_file mark_in_progress
complete_stage_sound now render stage needs document p cfg j lawful total h b here other lt docs =
    let cfg' = mark_in_progress now cfg.current_stage cfg in
    let there = b.at.here ∙ ap some here in
    let gate : GateOpen cfg' = λ at_clarify.
      absurd (let e = sym here ∙ at_clarify in let t = (==_iff stage "clarify").1 e in cc) in
    elim (Option-cases (render (document cfg'))) [
      | inl failed ↦ absurd (total (document cfg') failed)
      | inr (content, made) ↦
          rw (entered_sound now stage needs p cfg h here docs, made)
            (moved_sound now cfg' (record p { files = put (stage_filename stage) content p.files })
              j (mark_in_progress-IsAt now (suc j) cfg b.at) gate lt
              (written-put_more j stage content p.files there (lawful (document cfg') content made)
                b.written))
    ]
