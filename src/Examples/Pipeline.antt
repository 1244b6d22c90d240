-- ===== src/Examples/Pipeline.antt =====
-- Concrete projects for the theorems on the project pipeline.
use sdd_hoffy.Common.{
  String, ℕ, ◌<◌, ◌≡◌, refl, string_eq, List, [], ◌∷◌, some, none, true, get_elem?, arith,
}
use sdd_hoffy.Common.Result.{ok, err}
use sdd_hoffy.Common.Text.{codes, is_space}
use sdd_hoffy.Pipeline.Config.{ProjectConfig, new_project_config, stage_order}
use sdd_hoffy.Pipeline.Machine.{advance, clarity_threshold, is_completed, at_final_stage}
use sdd_hoffy.Pipeline.Machine.Progress.{IsAt, IsAt-new, advance_all, pipeline_completes}
use sdd_hoffy.Pipeline.Clarity.{ClarityDimension, read_score}
use sdd_hoffy.Pipeline.Clarify.{handle_clarify, handle_clarify_gate, Scored}

pipeline_completes_example :
    (cfg : ProjectConfig) × (advance_all "t0" 7
        (record (new_project_config "t0" "shop" "a shop" "guided") { clarity_score = 75 })
      ≡ ok cfg)
    × (cfg.current_stage ≡ "validate")
    × ((i : ℕ) (stage : String)
        → i < 8
        → get_elem? stage_order i ≡ some stage
        → is_completed cfg stage ≡ true)
    × (advance "t0" cfg ≡ err at_final_stage)
unfolding clarity_threshold
pipeline_completes_example = pipeline_completes "t0" "shop" "a shop" "guided" 75 (omega arith)

abbrev at_clarify : ProjectConfig
at_clarify = record (new_project_config "t0" "shop" "a shop" "guided") { current_stage = "clarify" }

handle_clarify_gate_example :
    (cfg : ProjectConfig) × (handle_clarify "t1"
        (codes "Q1: yes")
        (codes "x:80")
        (codes "# Requirements")
        at_clarify
      ≡ ok cfg)
    × Scored (codes "x:80") "guided" cfg
unfolding new_project_config
handle_clarify_gate_example =
    handle_clarify_gate "t1" (codes "Q1: yes") (codes "x:80") (codes "# Requirements") at_clarify
      refl refl refl

-- `Sscanf` takes a number after spaces, and refuses one after a newline.
read_score_blank : read_score (codes " \t80 of 100") ≡ some 80
unfolding read_score is_space
read_score_blank = refl

read_score_newline : read_score (codes " \n100") ≡ none
unfolding read_score is_space
read_score_newline = refl

abbrev two_dimensions : List ClarityDimension
two_dimensions =
    record { name = codes "a"; description = ""; weight = 3; covered = true; score = 40 }
    ∷ record { name = codes "b"; description = ""; weight = 1; covered = true; score = 90 }
    ∷ []

abbrev new_project : ProjectConfig
new_project = new_project_config "t0" "shop" "a shop" "expert"

new_project-IsAt : IsAt 1 new_project
new_project-IsAt = IsAt-new "t0" "shop" "a shop" "expert"
