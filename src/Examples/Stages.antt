-- ===== src/Examples/Stages.antt =====
-- Concrete projects for the theorems on the handlers of the project's stages.
use mathlib.Core.Path.{subst}
use mathlib.Core.Option.{some-injective}
use sdd_hoffy.Common.{text_beq}
use sdd_hoffy.Common.{
  String, ◌≡◌, refl, sym, List, [], ◌∷◌, some, true, false, get, take, All, arith,
}
use sdd_hoffy.Common.Result.{ok}
use sdd_hoffy.Common.Text.{Text, codes, is_empty}
use sdd_hoffy.Pipeline.Config.{ProjectConfig, new_project_config, stage_filename}
use sdd_hoffy.Pipeline.Machine.{is_completed, mark_completed, mark_in_progress}
use sdd_hoffy.Pipeline.Machine.Progress.{IsAt, IsAt-new, advance_all, advance_all-IsAt}
use sdd_hoffy.Stages.Files.{Project, saved, or_blank}
use sdd_hoffy.Stages.Documents.{Renderer, IsRenderer}
use sdd_hoffy.Stages.Requests.{ValidateRequest}
use sdd_hoffy.Stages.Tools.{handle_principles, handle_init}
use sdd_hoffy.Stages.Requests.{check_principles, check_validate}
use sdd_hoffy.Pipeline.Machine.{advance, stage_index, clarity_threshold}
use sdd_hoffy.Stages.Position.{documents, HasText, unborn}
use sdd_hoffy.Stages.Written.{Outcome}
use sdd_hoffy.Stages.Moves.{run_call, run_call-Outcome, Call, init, principles}
use sdd_hoffy.Stages.Run.{Attempt, run_calls, run_calls-behind, no_project}
use sdd_hoffy.Stages.Forward.{sound, Forward}
use sdd_hoffy.Stages.Finish.{call-Forward}
use sdd_hoffy.Stages.Ending.{handle_validate-completes}
use sdd_hoffy.Stages.Gate.{handle_validate, report}
use sdd_hoffy.Stages.Bootstrap.{BootstrapRequest, handle_bootstrap}
use sdd_hoffy.Stages.Bootstrap.Laws.{IsStep, asked_documents, handle_bootstrap-IsStep}

abbrev plain : Renderer
plain document = some (codes "# Document")

plain-IsRenderer : IsRenderer plain
plain-IsRenderer document content h =
    subst (λ s. is_empty s ≡ false) (some-injective (codes "# Document") content h) refl

abbrev start_shop : Call
start_shop = init record { name = "shop"; description = "a shop"; mode = "guided" }

abbrev give_principles : Call
give_principles =
    principles record { principles = "- simple"; coding_standards = ""; domain_truths = "" }

run_call-Outcome_example : Outcome unborn (run_call "t0" sound plain start_shop no_project).0
run_call-Outcome_example =
    run_call-Outcome "t0" sound plain start_shop no_project unborn plain-IsRenderer refl

abbrev two_attempts : List Attempt
two_attempts =
    record { now = "t0"; io = sound; call = start_shop }
    ∷ record { now = "t1"; io = sound; call = give_principles }
    ∷ []

abbrev new_shop : ProjectConfig
new_shop = record (new_project_config "t0" "shop" "a shop" "guided") { updated_at = "t0" }

abbrev at_charter : ProjectConfig
at_charter =
    record (mark_in_progress "t1" "charter"
      (record (mark_completed "t1" "principles" (mark_in_progress "t1" "principles" new_shop)) {
        current_stage = "charter";
      })) { updated_at = "t1" }

two_attempts_save : (run_calls plain two_attempts no_project).config ≡ saved at_charter
unfolding run_calls handle_principles handle_init advance stage_index
two_attempts_save = refl

run_calls-behind_example :
    (is_completed at_charter "principles" ≡ true)
    × (is_empty (
          or_blank
            (get (run_calls plain two_attempts no_project).files (stage_filename "principles")))
        ≡ false)
unfolding mark_in_progress
run_calls-behind_example =
    run_calls-behind plain two_attempts at_charter 0 1 "principles" plain-IsRenderer
      two_attempts_save refl refl (omega arith)

abbrev new_project : Project
new_project = record {
  config = saved (new_project_config "t0" "shop" "a shop" "guided");
  files = [];
}

call-Forward_example : Forward 1 (run_call "t1" sound plain give_principles new_project)
unfolding new_project_config check_principles
call-Forward_example =
    call-Forward "t1" plain give_principles new_project
      (new_project_config "t0" "shop" "a shop" "guided") 0 plain-IsRenderer (λ d h. cc) refl
      record { at = IsAt-new "t0" "shop" "a shop" "guided"; written = tt } refl refl (omega arith)

abbrev clear_shop : ProjectConfig
clear_shop = record (new_project_config "t0" "shop" "a shop" "guided") { clarity_score = 80 }

clear_shop-IsAt : IsAt 1 clear_shop
unfolding is_completed
clear_shop-IsAt = record {
  here = (IsAt-new "t0" "shop" "a shop" "guided").here;
  behind = (IsAt-new "t0" "shop" "a shop" "guided").behind;
}

last_of_shop : (cfg : ProjectConfig) × (advance_all "t1" 7 clear_shop ≡ ok cfg) × IsAt 8 cfg
unfolding clarity_threshold new_project_config
last_of_shop = advance_all-IsAt "t1" 7 1 clear_shop clear_shop-IsAt (omega arith) (omega arith)

abbrev all_files : List (String × Text)
all_files =
    ("principles.md", codes "a")
    ∷ ("charter.md", codes "b")
    ∷ ("requirements.md", codes "c")
    ∷ ("business-rules.md", codes "d")
    ∷ ("clarifications.md", codes "e")
    ∷ ("design.md", codes "f")
    ∷ ("tasks.md", codes "g")
    ∷ []

all_files-HasText : All (HasText all_files) (take 7 documents)
unfolding stage_filename
all_files-HasText = (refl, (refl, (refl, (refl, (refl, (refl, (refl, tt)))))))

abbrev passing : ValidateRequest
passing = record {
  requirements_coverage = "all";
  component_coverage = "all";
  consistency_issues = "_None found._";
  risk_assessment = "";
  verdict = codes "pass";
  recommendations = "";
  design_quality = "";
}

passing-accepted : check_validate passing ≡ ok tt
unfolding check_validate text_beq
passing-accepted = refl

abbrev finished_shop : Project
finished_shop = record { config = saved last_of_shop.0; files = all_files }

handle_validate-completes_example :
    (final : ProjectConfig) × (((handle_validate "t2" sound passing finished_shop).1 ≡ ok final)
      × (((handle_validate "t2" sound passing finished_shop).0.config ≡ saved final)
          × ((is_completed final "validate" ≡ true)
              × (get
                    (handle_validate "t2" sound passing finished_shop).0.files
                    (stage_filename "validate")
                  ≡ some (report (mark_in_progress "t2" "validate" last_of_shop.0) passing)))))
handle_validate-completes_example =
    handle_validate-completes "t2" passing finished_shop last_of_shop.0 7 refl
      record { at = last_of_shop.2; written = all_files-HasText }
      (sym (some-injective "validate" last_of_shop.0.current_stage last_of_shop.2.here))
      passing-accepted

abbrev only_rules : BootstrapRequest
only_rules = record {
  project_name = "";
  requirements = record {
    must_have = "";
    should_have = "";
    could_have = "";
    wont_have = "";
    non_functional = "";
    constraints = "";
    assumptions = "";
    dependencies = "";
  };
  rules = record {
    definitions = "A cart holds items";
    facts = "";
    constraints = "";
    derivations = "";
    glossary = "";
  };
  design = record {
    architecture_overview = "";
    tech_stack = "";
    components = "";
    api_contracts = "";
    data_model = "";
    infrastructure = "";
    security = "";
    quality_analysis = "";
  };
}

handle_bootstrap-IsStep_example :
    IsStep no_project
      (asked_documents only_rules)
      (handle_bootstrap "shop" sound plain only_rules no_project)
handle_bootstrap-IsStep_example =
    handle_bootstrap-IsStep "shop" sound plain only_rules no_project (λ name. refl)
