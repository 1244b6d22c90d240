-- ===== src/Pipeline/Config.antt =====
-- internal/config/config.go: the stages and the state of a project. Go's map of stage statuses is an
-- association list; a missing key reads as the zero status.
use sdd_hoffy.Common.{String, ℕ, List, [], ◌∷◌, Option, none, some, get, put}

pub record StageStatus : Type 0 where
  pub status : String
  pub started_at : String
  pub completed_at : String
  pub iterations : ℕ

abbrev pub Statuses : Type 0
Statuses = List (String × StageStatus)

pub record ProjectConfig : Type 0 where
  pub name : String
  pub description : String
  pub version : String
  pub mode : String
  pub current_stage : String
  pub created_at : String
  pub updated_at : String
  pub stage_status : Statuses
  pub clarity_score : ℕ

abbrev pub stage_order : List String
stage_order =
    "init" ∷ "principles" ∷ "charter" ∷ "specify" ∷ "business-rules" ∷ "clarify" ∷ "design"
    ∷ "tasks" ∷ "validate" ∷ []

abbrev pub zero_status : StageStatus
zero_status = record { status = ""; started_at = ""; completed_at = ""; iterations = 0 }

abbrev pending_in : List String → Statuses → Statuses
pending_in [] m = m
pending_in (s ∷ order) m = pending_in order (put s (record zero_status { status = "pending" }) m)

unfoldable pub new_project_config : String → String → String → String → ProjectConfig
unfolding put
new_project_config now name description mode = record {
  name = name;
  description = description;
  version = "0.1.0";
  mode = mode;
  current_stage = "principles";
  created_at = now;
  updated_at = now;
  stage_status =
      put "init"
        (record { status = "completed"; started_at = now; completed_at = now; iterations = 1 })
        (pending_in stage_order []);
  clarity_score = 0;
}

abbrev stage_filenames : List (String × String)
stage_filenames =
    ("principles", "principles.md")
    ∷ ("charter", "charter.md")
    ∷ ("specify", "requirements.md")
    ∷ ("business-rules", "business-rules.md")
    ∷ ("clarify", "clarifications.md")
    ∷ ("design", "design.md")
    ∷ ("tasks", "tasks.md")
    ∷ ("validate", "validation.md")
    ∷ []

abbrev or_empty : Option String → String
or_empty none = ""
or_empty (some s) = s

unfoldable pub stage_filename : String → String
unfolding get
stage_filename stage = or_empty (get stage_filenames stage)
