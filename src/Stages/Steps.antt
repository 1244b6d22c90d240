-- ===== src/Stages/Steps.antt =====
-- What the handlers of internal/tools have in common: load the project, check its stage and the
-- documents that it needs, render and write the stage's document, move the pipeline, save. The Markdown
-- answers, the search for the project's root and the notice to the memory are left out.
use sdd_hoffy.Common.{String, List, [], ◌∷◌, Option, none, some, not, string_eq}
use sdd_hoffy.Common.Result.{Result, ok, err, ◌>>=◌, ◌>>◌, require}
use sdd_hoffy.Common.Text.{Text, is_empty}
use sdd_hoffy.Pipeline.Config.{ProjectConfig, stage_filename}
use sdd_hoffy.Pipeline.Machine.{require_stage, mark_in_progress, advance}
use sdd_hoffy.Pipeline.Machine as Machine
use sdd_hoffy.Stages.Files.{
  Error, Faults, Project, load, save, read_stage_file, write_stage_file, pipeline, missing,
  render_failed,
}
use sdd_hoffy.Stages.Documents.{Document, Renderer}

abbrev pub from_pipeline {ℓ} : {A : Type ℓ} → Result Machine.Error A → Result Error A
from_pipeline (ok a) = ok a
from_pipeline (err e) = err (pipeline e)

abbrev pub not_empty : String → Text → Result Error (Unit {0})
not_empty name content = require (not (is_empty content)) (missing name)

-- Each of the documents named can be read and is not empty.
unfoldable pub needed : Faults → List String → Project → Result Error (Unit {0})
unfolding read_stage_file stage_filename
needed io [] p = ok tt
needed io (stage ∷ stages) p = do
  content ← read_stage_file io (stage_filename stage) p
  not_empty (stage_filename stage) content
  needed io stages p

abbrev pub rendered : String → Option Text → Result Error Text
rendered stage none = err (render_failed stage)
rendered stage (some content) = ok content

-- The part of a handler before anything is written: the project in progress at the stage.
unfoldable pub entered :
    String → Faults → String → List String → Project → Result Error ProjectConfig
unfolding load needed require_stage mark_in_progress
entered now io stage needs p = do
  cfg ← load io p
  from_pipeline (require_stage cfg stage)
  needed io needs p
  ok (mark_in_progress now cfg.current_stage cfg)

abbrev pub save_moved :
    String → Faults → Project → Result Error ProjectConfig → Project × Result Error ProjectConfig
save_moved now io p (err e) = (p, err e)
save_moved now io p (ok cfg) = save now io cfg p

-- `Advance` and `Save`, after a write that succeeded.
abbrev pub advanced :
    String
    → Faults
    → ProjectConfig
    → Project × Result Error (Unit {0})
    → Project × Result Error ProjectConfig
advanced now io cfg (p, err e) = (p, err e)
advanced now io cfg (p, ok u) = save_moved now io p (from_pipeline (advance now cfg))

abbrev pub write_rendered :
    String
    → Faults
    → String
    → ProjectConfig
    → Project
    → Result Error Text
    → Project × Result Error ProjectConfig
write_rendered now io stage cfg p (err e) = (p, err e)
write_rendered now io stage cfg p (ok content) =
    advanced now io cfg (write_stage_file io (stage_filename stage) content p)

abbrev pub complete_entered :
    String
    → Faults
    → Renderer
    → String
    → (ProjectConfig → Document)
    → Project
    → Result Error ProjectConfig
    → Project × Result Error ProjectConfig
complete_entered now io render stage document p (err e) = (p, err e)
complete_entered now io render stage document p (ok cfg) =
    write_rendered now io stage cfg p (rendered stage (render (document cfg)))

-- A handler after the check of its parameters.
unfoldable pub complete_stage :
    String
    → Faults
    → Renderer
    → String
    → List String
    → (ProjectConfig → Document)
    → Project
    → Project × Result Error ProjectConfig
unfolding entered save write_stage_file stage_filename
complete_stage now io render stage needs document p =
    complete_entered now io render stage document p (entered now io stage needs p)

-- The checks of the parameters, and then the rest.
abbrev pub checked {ℓ} :
    {A : Type ℓ}
    → Project
    → Result Error (Unit {0})
    → Project × Result Error A
    → Project × Result Error A
checked p (err e) rest = (p, err e)
checked p (ok u) rest = rest
