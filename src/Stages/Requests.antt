-- ===== src/Stages/Requests.antt =====
-- internal/tools: the parameters of the handlers of the project's stages, and their checks.
use sdd_hoffy.Common.{
  String, ℕ, List, [], ◌∷◌, not, ◌&&◌, ◌||◌, ◌==◌, ◌-◌, leb, string_eq, text_eq, map, if◌then◌else◌,
}
use sdd_hoffy.Common.Result.{Result, ok, ◌>>◌, require}
use sdd_hoffy.Common.Text.{Text, codes, is_empty, trim_space}
use sdd_hoffy.Stages.Files.{Error, field_required, invalid_mode, invalid_verdict}

pub record InitRequest : Type 0 where
  pub name : String
  pub description : String
  pub mode : String

pub record PrinciplesRequest : Type 0 where
  pub principles : String
  pub coding_standards : String
  pub domain_truths : String

pub record CharterRequest : Type 0 where
  pub problem_statement : String
  pub target_users : String
  pub proposed_solution : String
  pub success_criteria : String
  pub domain_context : String
  pub stakeholders : String
  pub vision : String
  pub boundaries : String
  pub existing_systems : String
  pub constraints : String

pub record SpecifyRequest : Type 0 where
  pub must_have : String
  pub should_have : String
  pub could_have : String
  pub wont_have : String
  pub non_functional : String
  pub constraints : String
  pub assumptions : String
  pub dependencies : String

pub record BusinessRulesRequest : Type 0 where
  pub definitions : String
  pub facts : String
  pub constraints : String
  pub derivations : String
  pub glossary : String

pub record ClarifyRequest : Type 0 where
  pub answers : Text
  pub dimension_scores : Text

pub record DesignRequest : Type 0 where
  pub architecture_overview : String
  pub tech_stack : String
  pub components : String
  pub api_contracts : String
  pub data_model : String
  pub infrastructure : String
  pub security : String
  pub quality_analysis : String

pub record TasksRequest : Type 0 where
  pub total_tasks : String
  pub estimated_effort : String
  pub tasks : String
  pub dependency_graph : String
  pub wave_assignments : String
  pub acceptance_criteria : String

pub record ValidateRequest : Type 0 where
  pub requirements_coverage : String
  pub component_coverage : String
  pub consistency_issues : String
  pub risk_assessment : String
  pub verdict : Text
  pub recommendations : String
  pub design_quality : String

-- The checks `if field == "" { return … }` in their order.
unfoldable pub all_given : List (String × String) → Result Error (Unit {0})
all_given [] = ok tt
all_given ((name, value) ∷ fields) = do
  require (not (value == "")) (field_required name)
  all_given fields

unfoldable pub check_init : InitRequest → Result Error (Unit {0})
unfolding all_given
check_init r = do
  all_given (("name", r.name) ∷ ("description", r.description) ∷ [])
  require (r.mode == "guided" || r.mode == "expert") invalid_mode

unfoldable pub check_principles : PrinciplesRequest → Result Error (Unit {0})
unfolding all_given
check_principles r = all_given (("principles", r.principles) ∷ [])

unfoldable pub check_charter : CharterRequest → Result Error (Unit {0})
unfolding all_given
check_charter r = all_given (
    ("problem_statement", r.problem_statement)
    ∷ ("target_users", r.target_users)
    ∷ ("proposed_solution", r.proposed_solution)
    ∷ ("success_criteria", r.success_criteria)
    ∷ [])

unfoldable pub check_specify : SpecifyRequest → Result Error (Unit {0})
unfolding all_given
check_specify r = all_given (
    ("must_have", r.must_have)
    ∷ ("should_have", r.should_have)
    ∷ ("non_functional", r.non_functional)
    ∷ [])

unfoldable pub check_business_rules : BusinessRulesRequest → Result Error (Unit {0})
unfolding all_given
check_business_rules r =
    all_given
      (("definitions", r.definitions) ∷ ("facts", r.facts) ∷ ("constraints", r.constraints) ∷ [])

unfoldable pub check_design : DesignRequest → Result Error (Unit {0})
unfolding all_given
check_design r = all_given (
    ("architecture_overview", r.architecture_overview)
    ∷ ("tech_stack", r.tech_stack)
    ∷ ("components", r.components)
    ∷ ("data_model", r.data_model)
    ∷ [])

unfoldable pub check_tasks : TasksRequest → Result Error (Unit {0})
unfolding all_given
check_tasks r = all_given (
    ("total_tasks", r.total_tasks)
    ∷ ("estimated_effort", r.estimated_effort)
    ∷ ("tasks", r.tasks)
    ∷ [])

-- `strings.ToUpper` on ASCII
unfoldable pub upper_byte : ℕ → ℕ
upper_byte c = if leb b'a' c && leb c b'z' then c - 32 else c

unfoldable pub verdict_upper : Text → Text
unfolding upper_byte trim_space
verdict_upper verdict = map upper_byte (trim_space verdict)

unfoldable pub check_validate : ValidateRequest → Result Error (Unit {0})
unfolding all_given verdict_upper
check_validate r = do
  all_given (
      ("requirements_coverage", r.requirements_coverage)
      ∷ ("component_coverage", r.component_coverage)
      ∷ ("consistency_issues", r.consistency_issues)
      ∷ [])
  require (not (is_empty r.verdict)) (field_required "verdict")
  let upper = verdict_upper r.verdict
  require (upper == codes "PASS" || (upper == codes "PASS_WITH_WARNINGS" || upper == codes "FAIL"))
      invalid_verdict
